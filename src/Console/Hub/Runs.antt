-- ===== src/Console/Hub/Runs.antt =====
-- Every hub that the service can reach satisfies the invariant.
use agapornis_agent_rust.Base.Dict
use agapornis_agent_rust.Base.Dict.{Dict, IsDict}
use agapornis_agent_rust.Base.IdSet
use agapornis_agent_rust.Base.IdSet.{IdSet, IsIdSet}
use agapornis_agent_rust.Console.History.{HistoryCache}
use agapornis_agent_rust.Security.Protection.{ProtectionState, LineClock}
use agapornis_agent_rust.Console.Hub.{Sender, ConsoleHub, active_count}
use agapornis_agent_rust.Console.Hub.Calls.{retire_idle_reader, update_reader, replay}
use agapornis_agent_rust.Console.Hub.Invariant.{with_reader, with_sender}
use agapornis_agent_rust.Console.Hub.Publish.{
  publish, publish_line, publish_prepared, publish_line_when_active, prepare_line, undisturbed,
}
use agapornis_agent_rust.Console.Hub.Effects.{IsSoundHub}
use agapornis_agent_rust.Console.Hub.Retiring.{retire_idle_reader-IsSound, remove-IsSound}
use agapornis_agent_rust.Console.Hub.Subscription.{admit-IsSound}
use agapornis_agent_rust.Console.Hub.Preserved.{
  synchronize_servers-IsSound, track_server-IsSound, refresh_server-IsSound, detach_reader-IsSound,
  wake_reader-IsSound,
}
use agapornis_agent_rust.Base.{
  ℕ, ◌≡◌, refl, ◌&&◌, Bool-cases, inl, inr, ◌⊎◌, Bool, false, Option, none, some, arith,
  Option-cases, Text,
}
use agapornis_agent_rust.Console.Hub.Events.{
  Event, synchronized, tracked, refreshed, detached, woken, admitted, replayed, removed, finished,
  left, retired, published, streamed, drop_receiver, step, IsPossible, Reach, here, next, new_hub,
}
use agapornis_agent_rust.Console.Hub.Idle.{
  viewers, owns, is_unwatched, IsRetired, retire_idle_reader-viewers, retire_idle_reader-IsRetired,
}

-- A line changes nothing but the rates and the histories.
abbrev Keeps : ConsoleHub → ConsoleHub → Type 0
Keeps hub after =
    (after.lifecycle ≡ hub.lifecycle)
    × (after.senders ≡ hub.senders)
    × (after.max_active_readers ≡ hub.max_active_readers)

publish_prepared-Keeps :
    (id : Text) (shown : Option Text) (ticket : Option ℕ) (hub : ConsoleHub)
    → Keeps hub (publish_prepared id shown ticket undisturbed hub).0
unfolding publish_prepared
publish_prepared-Keeps id none ticket hub = (refl, refl, refl)
publish_prepared-Keeps id (some line) ticket hub = ground arith

pub publish-Keeps :
    (t : LineClock) (id line : Text) (hub : ConsoleHub) → Keeps hub (publish t id line hub).0
unfolding publish publish_line prepare_line
publish-Keeps t id line hub =
    let (prepared, shown) = prepare_line t id line hub in
    ground (arith, publish_prepared-Keeps id shown none prepared)

pub streamed-Keeps :
    (t : LineClock) (id line : Text) (ticket : ℕ) (hub : ConsoleHub)
    → Keeps hub (publish_line_when_active t id line ticket undisturbed hub).0
unfolding publish_line_when_active prepare_line
streamed-Keeps t id line ticket hub =
    let (prepared, shown) = prepare_line t id line hub in
    ground (arith, publish_prepared-Keeps id shown (some ticket) prepared)

finished-IsSound :
    (id : Text) (hub : ConsoleHub) → IsSoundHub hub → IsSoundHub (step (finished id) hub)
unfolding step update_reader
finished-IsSound id hub s = elim (Option-cases (Dict.get id hub.lifecycle.readers)) [
  | inl e ↦ rw (e, update_reader) s
  | inr (r, e) ↦
      rw (e, update_reader)
        (with_reader s id _
          (s.readers_desired id (Dict.contains_key_of_get id hub.lifecycle.readers e))
          (rw e (omega (arith, s.capacity))))
]

left-IsSound : (id : Text) (hub : ConsoleHub) → IsSoundHub hub → IsSoundHub (drop_receiver id hub)
unfolding drop_receiver
left-IsSound id hub s = elim (Option-cases (Dict.get id hub.senders)) [
  | inl e ↦ rw (e, drop_receiver) s
  | inr (v, e) ↦
      rw (e, drop_receiver)
        (with_sender s id _ (s.senders_desired id (Dict.contains_key_of_get id hub.senders e)))
]

step-IsSound :
    (event : Event) (hub : ConsoleHub)
    → IsPossible event hub
    → IsSoundHub hub
    → IsSoundHub (step event hub)
unfolding step
step-IsSound (synchronized ids) hub p s = synchronize_servers-IsSound ids hub s
step-IsSound (tracked id) hub p s = track_server-IsSound id hub s
step-IsSound (refreshed id) hub p s = refresh_server-IsSound id hub s
step-IsSound (detached id) hub p s = detach_reader-IsSound id hub s
step-IsSound (woken id) hub p s = wake_reader-IsSound id hub s
step-IsSound (admitted id) hub p s = admit-IsSound id hub s
step-IsSound (replayed id) hub p s = unfold replay in s
step-IsSound (removed id) hub p s = remove-IsSound id hub s
step-IsSound (finished id) hub p s = finished-IsSound id hub s
step-IsSound (left id) hub p s = left-IsSound id hub s
step-IsSound (published t id line) hub p s =
    let (l, m, n) = publish-Keeps t id line hub in rw (l, m, n) s
step-IsSound (streamed t id line ticket) hub p s =
    let (l, m, n) = streamed-Keeps t id line ticket hub in rw (l, m, n) s
step-IsSound (retired id ticket sender) hub p s =
    retire_idle_reader-IsSound id ticket sender hub p s

pub Reach-Sound :
    (docker : Bool) (history : HistoryCache) (protection : ProtectionState) (readers : Option ℕ)
    {hub : ConsoleHub}
    → Reach (new_hub docker history protection readers) hub
    → IsSoundHub hub
Reach-Sound docker history protection readers here = record {
  desired_set = tt;
  readers_dict = tt;
  senders_dict = tt;
  readers_desired = λ id h. absurd (unfold Dict.contains_key in ground arith);
  senders_desired = λ id h. absurd (unfold Dict.contains_key in ground arith);
  apart = λ id h. unfold IdSet.contains in refl;
  settled = λ h. (refl, refl);
  capacity = unfold active_count in omega arith;
}
Reach-Sound docker history protection readers (next {hub} event r p) =
    step-IsSound event hub p (Reach-Sound docker history protection readers r)

-- From a new hub, after any calls on it, any coming and going of viewers and any published lines,
-- one after the other in any order, where only the task of a reader that has not finished retires
-- it: readers and channels are there only for servers of the inventory, no more readers run than
-- the hub allows, no server is both added and removed before the inventory has come, and nothing
-- is pending after. A retirement of a reader takes the channel of no server away from a viewer;
-- and one of the present reader, over the present channel with no viewer on it, leaves no reader,
-- channel or history of its server.
pub Reach-IsSound :
    (docker : Bool) (history : HistoryCache) (protection : ProtectionState) (readers : Option ℕ)
    {hub : ConsoleHub} (id other : Text) (ticket : ℕ) (sender : Sender)
    → Reach (new_hub docker history protection readers) hub
    → IsSoundHub hub
      × (viewers (Dict.get other (retire_idle_reader id ticket sender hub).senders)
          ≡ viewers (Dict.get other hub.senders))
      × (((owns ticket (Dict.get id hub.lifecycle.readers)
              && is_unwatched sender (Dict.get id hub.senders))
            ≡ false)
          ⊎ IsRetired id (retire_idle_reader id ticket sender hub))
Reach-IsSound docker history protection readers {hub} id other ticket sender r = (
  Reach-Sound docker history protection readers r,
  retire_idle_reader-viewers id other ticket sender hub,
  elim (Bool-cases (
      owns ticket (Dict.get id hub.lifecycle.readers)
      && is_unwatched sender (Dict.get id hub.senders))) [
        | inl idle ↦ inr (retire_idle_reader-IsRetired id ticket sender hub idle)
        | inr busy ↦ inl busy
      ],
)
