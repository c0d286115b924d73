-- ===== src/Tests/Hub.antt =====
-- The console hub on a few servers: src/grpc/services/console/lifecycle.rs.
use agapornis_agent_rust.Base.Dict
use agapornis_agent_rust.Base.IdSet
use agapornis_agent_rust.Base.Str
use agapornis_agent_rust.Core.Paths.{validate_id}
use agapornis_agent_rust.Console.History.{HistoryCache, with_maximum}
use agapornis_agent_rust.Security.Protection
use agapornis_agent_rust.Security.Protection.{ProtectionState, LineClock, default, env_usize}
use agapornis_agent_rust.Console.Hub.{
  ConsoleHub, Sender, err, validate_inventory, validate_from, start_reader_locked,
  ensure_reader_locked, validate_reader_capacity, validate_subscription, is_active, stop_reader,
  active_count,
}
use agapornis_agent_rust.Console.Hub.Calls.{
  synchronize_servers, retire_idle_reader, remove, admit, subscribe, add_receiver,
  attach_requires_inspection,
}
use agapornis_agent_rust.Console.Hub.Effects.{IsSoundHub}
use agapornis_agent_rust.Console.Hub.Publish.{
  publish, Meanwhile, prepare_line, shorten, publish_line_when_active,
}
use agapornis_agent_rust.Console.Hub.Events.{
  synchronized, admitted, left, drop_receiver, Reach, here, next, step, new_hub,
}
use agapornis_agent_rust.Console.Hub.Runs.{Reach-Sound, Reach-IsSound}
use agapornis_agent_rust.Console.Hub.Idle.{viewers, owns, is_unwatched, IsRetired}
use agapornis_agent_rust.Console.Hub.Stale.{Leaves, at_history, publish_line_when_active_stale}
use agapornis_agent_rust.Console.Hub.Refused.{Since, now, later, gone_refusal, removed_refused}
use agapornis_agent_rust.Console.Hub.Bootstrap.{Bootstrapped, synchronize_servers-Bootstrapped}
use agapornis_agent_rust.Console.Hub.Removal.{IsGone, is_stopped, remove-IsGone}
use agapornis_agent_rust.Base.{
  ◌&&◌, ◌⊎◌, ◌≡◌, refl, true, false, none, some, [], ◌∷◌, Text, same, codes,
}

abbrev alpha : Text
alpha = codes "alpha"

abbrev beta : Text
beta = codes "beta"

abbrev no_lines : HistoryCache
unfolding with_maximum
no_lines = with_maximum 65536

abbrev no_rates : ProtectionState
unfolding default env_usize
no_rates = default none none none none

-- A hub with Docker and room for two readers.
abbrev fresh : ConsoleHub
fresh = new_hub true no_lines no_rates (some 2)

abbrev viewed : ConsoleHub
viewed = step (admitted alpha) fresh

viewed-Reach : Reach fresh viewed
viewed-Reach = next (admitted alpha) here tt

abbrev settled : ConsoleHub
settled = step (synchronized (beta ∷ [])) viewed

settled-Reach : Reach fresh settled
settled-Reach = next (synchronized (beta ∷ [])) viewed-Reach tt

-- The viewer leaves, and the reader retires over its channel.
abbrev alone : ConsoleHub
alone = step (left alpha) viewed

alone-Reach : Reach fresh alone
alone-Reach = next (left alpha) viewed-Reach tt

abbrev unwatched : Sender
unwatched = record { channel = 0; receivers = 0 }

Reach-IsSound_example :
    IsSoundHub alone
    × (viewers (Dict.get alpha (retire_idle_reader alpha 0 unwatched alone).senders)
        ≡ viewers (Dict.get alpha alone.senders))
    × (((owns 0 (Dict.get alpha alone.lifecycle.readers)
            && is_unwatched unwatched (Dict.get alpha alone.senders))
          ≡ false)
        ⊎ IsRetired alpha (retire_idle_reader alpha 0 unwatched alone))
Reach-IsSound_example =
    Reach-IsSound true no_lines no_rates (some 2) alpha alpha 0 unwatched alone-Reach

-- The channel goes with its last viewer.
channel_gone : Dict.get alpha (retire_idle_reader alpha 0 unwatched alone).senders ≡ none
unfolding step drop_receiver retire_idle_reader admit validate_subscription validate_reader_capacity
    ensure_reader_locked start_reader_locked stop_reader add_receiver active_count Dict.get
    Dict.insert Dict.remove IdSet.contains IdSet.insert same
channel_gone = refl

-- The subscription starts a reader, which the inventory then stops.
reader_started : is_active viewed 0 ≡ true
unfolding step admit validate_subscription validate_reader_capacity ensure_reader_locked
    start_reader_locked stop_reader add_receiver active_count Dict.get Dict.insert IdSet.contains
    IdSet.insert same
reader_started = refl

beta_accepted : validate_inventory (beta ∷ []) ≡ some (beta ∷ [])
unfolding validate_inventory validate_from validate_id Str.is_empty Str.has_char same IdSet.insert
    IdSet.contains
beta_accepted = refl

not_yet : viewed.lifecycle.inventory_initialized ≡ false
unfolding step admit validate_subscription validate_reader_capacity ensure_reader_locked
    start_reader_locked stop_reader add_receiver active_count Dict.get Dict.insert IdSet.contains
    IdSet.insert same
not_yet = refl

synchronize_servers-Bootstrapped_example :
    Bootstrapped (beta ∷ []) viewed (synchronize_servers (beta ∷ []) viewed).0
    × ((synchronize_servers (alpha ∷ []) (synchronize_servers (beta ∷ []) viewed).0).0
        ≡ (synchronize_servers (beta ∷ []) viewed).0)
synchronize_servers-Bootstrapped_example =
    synchronize_servers-Bootstrapped (beta ∷ []) (alpha ∷ []) viewed (beta ∷ []) not_yet
      beta_accepted

viewed-IsSound : IsSoundHub viewed
viewed-IsSound = Reach-Sound true no_lines no_rates (some 2) viewed-Reach

remove-IsGone_example :
    IsGone alpha (remove alpha viewed)
    × (is_stopped (remove alpha viewed) (Dict.get alpha viewed.lifecycle.readers) ≡ true)
remove-IsGone_example = remove-IsGone alpha viewed viewed-IsSound

abbrev early_line : LineClock
early_line = record { inserted = 5; strike_test = 5; window_test = 5; reopened = 5; struck = 5 }

-- The inventory lists the removed server again, and a viewer of another server comes.
abbrev listed_again : ConsoleHub
listed_again = step (synchronized (alpha ∷ beta ∷ [])) (remove alpha viewed)

abbrev much_later : ConsoleHub
much_later = step (admitted beta) listed_again

much_later-Since : Since alpha (remove alpha viewed) much_later
much_later-Since = later (admitted beta) (later (synchronized (alpha ∷ beta ∷ [])) now refl) refl

removed_refused_example :
    (subscribe alpha (λ hub. hub) much_later ≡ (much_later, err (gone_refusal much_later)))
    × (attach_requires_inspection alpha much_later ≡ err (gone_refusal much_later))
    × (publish early_line alpha (codes "late") much_later ≡ (much_later, none))
removed_refused_example =
    removed_refused alpha (codes "late") early_line (λ hub. hub) viewed much_later-Since

-- The server is removed while the line waits for the lock of the histories.
abbrev removed_meanwhile : Meanwhile
removed_meanwhile = record { for_history = stop_reader alpha; for_senders = λ hub. hub }

line_shown : (prepare_line early_line alpha (codes "late") viewed).1 ≡ some (codes "late")
unfolding step admit validate_subscription validate_reader_capacity ensure_reader_locked
    start_reader_locked stop_reader add_receiver active_count Dict.get Dict.insert IdSet.contains
    IdSet.insert same prepare_line shorten Protection.observe_line Protection.observe_rate
    Protection.forget_strikes Protection.reopen_window Protection.judge no_rates
line_shown = refl

stopped_meanwhile :
    is_active (stop_reader alpha (prepare_line early_line alpha (codes "late") viewed).0) 0 ≡ false
unfolding step admit validate_subscription validate_reader_capacity ensure_reader_locked
    start_reader_locked stop_reader add_receiver active_count Dict.get Dict.insert IdSet.contains
    IdSet.insert same prepare_line
stopped_meanwhile = refl

publish_line_when_active_stale_example :
    let (after, out, still) =
      publish_line_when_active early_line alpha (codes "late") 0 removed_meanwhile viewed in
    (out ≡ none)
    × (still ≡ false)
    × Leaves alpha 0 removed_meanwhile (prepare_line early_line alpha (codes "late") viewed).0 after
publish_line_when_active_stale_example =
    publish_line_when_active_stale early_line alpha (codes "late") 0 removed_meanwhile viewed
      (at_history (codes "late") line_shown stopped_meanwhile)
