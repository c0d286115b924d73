-- ===== src/Console/Hub/Subscription.antt =====
-- `admit`, the part of `subscribe` that locks the lifecycle, keeps the invariant of the hub.
use mathlib.Core.Path.{subst}
use agapornis_agent_rust.Base.Dict
use agapornis_agent_rust.Base.Dict.{Dict, IsDict}
use agapornis_agent_rust.Base.IdSet
use agapornis_agent_rust.Base.IdSet.{IdSet, IsIdSet}
use agapornis_agent_rust.Console.Hub.{
  ReaderTask, Sender, ConsoleLifecycle, ConsoleHub, Result, ok, err, Refusal, stop_reader,
  start_reader_locked, ensure_reader_locked, validate_reader_capacity, validate_subscription,
  active_count, is_running,
}
use agapornis_agent_rust.Console.Hub.Calls.{add_receiver, admit}
use agapornis_agent_rust.Console.Hub.Invariant.{
  IsSound, runs, with_reader, with_desired, with_sender, active_count-remove,
}
use agapornis_agent_rust.Console.Hub.Effects.{
  IsSoundHub, stop_reader-lifecycle, stop_reader-keeps, stop_reader-IsSound,
}
use agapornis_agent_rust.Base.{
  ℕ, suc, ◌+◌, ◌≤◌, ◌<◌, ◌≡◌, refl, ◌∙◌, ◌⊎◌, inl, inr, true, false, arith, Bool-cases,
  Option-cases, Text, same_refl,
}

-- A subscription that is accepted is for a server of the inventory, and touches no reader.
pub record Accepted (limit : ℕ) (id : Text) (senders : Dict Sender) (l l' : ConsoleLifecycle)
    : Type 0 where
  pub sound : IsSound limit l' senders
  pub listed : IdSet.contains id l'.desired ≡ true
  pub same_readers : l'.readers ≡ l.readers

validate_subscription-Accepted :
    {limit : ℕ} {senders : Dict Sender} (id : Text) (l : ConsoleLifecycle) {l' : ConsoleLifecycle}
    → IsSound limit l senders
    → validate_subscription id l ≡ ok l'
    → Accepted limit id senders l l'
unfolding validate_subscription
validate_subscription-Accepted {limit} {senders} id l {l'} s e =
    elim (Bool-cases l.inventory_initialized) [
      | inl known ↦
          let same_l : l ≡ l' = ground arith in
          subst (Accepted limit id senders l) same_l
            (record { sound = s; listed = ground arith; same_readers = refl })
      | inr early ↦
          let with_id : ConsoleLifecycle = record l { desired = IdSet.insert id l.desired } in
          let same_l : with_id ≡ l' = ground arith in
          subst (Accepted limit id senders l) same_l (record {
            sound = with_desired s id;
            listed = IdSet.contains-insert id id l.desired ∙ rw same_refl refl;
            same_readers = refl;
          })
    ]

add_receiver-IsSound :
    (id : Text) (hub : ConsoleHub)
    → IdSet.contains id hub.lifecycle.desired ≡ true
    → IsSoundHub hub
    → IsSoundHub (add_receiver id hub)
unfolding add_receiver
add_receiver-IsSound id hub d s = elim (Option-cases (Dict.get id hub.senders)) [
  | inl e ↦ rw (e, add_receiver) (with_sender s id _ d)
  | inr (v, e) ↦ rw (e, add_receiver) (with_sender s id _ d)
]

add_receiver-keeps :
    (id : Text) (hub : ConsoleHub)
    → ((add_receiver id hub).lifecycle ≡ hub.lifecycle)
      × ((add_receiver id hub).docker ≡ hub.docker)
      × ((add_receiver id hub).max_active_readers ≡ hub.max_active_readers)
unfolding add_receiver
add_receiver-keeps id hub = ground arith

-- The entry of a reader that has just started.
abbrev fresh_reader : ℕ → ReaderTask
fresh_reader ticket = record {
  ticket = ticket;
  parked = false;
  suspended = false;
  wake = false;
  viewer_wake = false;
  finished = false;
}

start_reader_docker :
    (id : Text) (hub : ConsoleHub)
    → hub.docker ≡ true
    → start_reader_locked id hub ≡ record hub {
      lifecycle = record hub.lifecycle {
        readers = Dict.insert id (fresh_reader hub.next_ticket) hub.lifecycle.readers;
      };
      next_ticket = suc hub.next_ticket;
    }
unfolding start_reader_locked
start_reader_docker id hub e = ground arith

start_reader_none :
    (id : Text) (hub : ConsoleHub) → hub.docker ≡ false → start_reader_locked id hub ≡ hub
unfolding start_reader_locked
start_reader_none id hub e = ground arith

pub start_reader_locked-IsSound :
    (id : Text) (hub : ConsoleHub)
    → IdSet.contains id hub.lifecycle.desired ≡ true
    → (hub.docker ≡ true
        → active_count hub.lifecycle.readers + 1
          ≤ hub.max_active_readers + runs (Dict.get id hub.lifecycle.readers))
    → IsSoundHub hub
    → IsSoundHub (start_reader_locked id hub)
start_reader_locked-IsSound id hub d room s = elim (Bool-cases hub.docker) [
  | inl e ↦ rw (start_reader_docker id hub e) (with_reader s id _ d (room e))
  | inr e ↦ rw (start_reader_none id hub e) s
]

-- A reader that does not run is replaced by a new one, if there is room.
restart-IsSound :
    (id : Text) (hub : ConsoleHub)
    → IdSet.contains id hub.lifecycle.desired ≡ true
    → is_running (Dict.get id hub.lifecycle.readers) ≡ false
    → validate_reader_capacity id hub ≡ true
    → IsSoundHub hub
    → IsSoundHub (start_reader_locked id (stop_reader id hub))
unfolding validate_reader_capacity
restart-IsSound id hub d idle room s =
    let l = stop_reader-lifecycle id hub in
    let (_, limit, _, docker, _) = stop_reader-keeps id hub in
    start_reader_locked-IsSound id (stop_reader id hub) (rw l d)
      (λ e.
        let below : active_count hub.lifecycle.readers < hub.max_active_readers =
          ground (arith, docker) in
        rw (l, limit)
          (omega (arith, below, active_count-remove id hub.lifecycle.readers s.readers_dict)))
      (stop_reader-IsSound id hub s)

ensure_reader_locked-IsSound :
    (id : Text) (hub : ConsoleHub)
    → IdSet.contains id hub.lifecycle.desired ≡ true
    → validate_reader_capacity id hub ≡ true
    → IsSoundHub hub
    → IsSoundHub (ensure_reader_locked id hub)
unfolding ensure_reader_locked
ensure_reader_locked-IsSound id hub d room s =
    elim (Option-cases (Dict.get id hub.lifecycle.readers)) [
      | inl e ↦ rw (e, ensure_reader_locked) (restart-IsSound id hub d (rw e refl) room s)
      | inr (r, e) ↦
          rw (e, ensure_reader_locked)
            (elim (Bool-cases r.finished) [
              | inl f ↦ rw f (restart-IsSound id hub d (rw (e, f) refl) room s)
              | inr f ↦ rw f (with_reader s id _ d (rw (e, f) (omega (arith, s.capacity))))
            ])
    ]

pub Result-cases :
    {A : Type 0} (r : Result A) → ((a : A) × (r ≡ ok a)) ⊎ ((e : Refusal) × (r ≡ err e))
Result-cases (ok a) = inl (a, refl)
Result-cases (err e) = inr (e, refl)

capacity_of_keeps :
    (id : Text) (hub hub' : ConsoleHub)
    → hub'.lifecycle ≡ hub.lifecycle
    → hub'.docker ≡ hub.docker
    → hub'.max_active_readers ≡ hub.max_active_readers
    → validate_reader_capacity id hub ≡ true
    → validate_reader_capacity id hub' ≡ true
unfolding validate_reader_capacity
capacity_of_keeps id hub hub' l d m h = rw (l, d, m) h

pub admit-IsSound : (id : Text) (hub : ConsoleHub) → IsSoundHub hub → IsSoundHub (admit id hub).0
unfolding admit
admit-IsSound id hub s = elim (Result-cases (validate_subscription id hub.lifecycle)) [
  | inr (refusal, e) ↦ rw (e, admit) s
  | inl (l, e) ↦
      let accepted = validate_subscription-Accepted id hub.lifecycle s e in
      let admitted : ConsoleHub = record hub { lifecycle = l } in
      rw (e, admit)
        (elim (Bool-cases (validate_reader_capacity id admitted)) [
          | inr full ↦ rw full accepted.sound
          | inl room ↦ rw room (
              let (same_l, docker, limit) = add_receiver-keeps id admitted in
              ensure_reader_locked-IsSound id (add_receiver id admitted) (rw same_l accepted.listed)
                (capacity_of_keeps id admitted (add_receiver id admitted) same_l docker limit room)
                (add_receiver-IsSound id admitted accepted.listed accepted.sound))
        ])
]
