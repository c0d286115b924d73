-- ===== src/Console/Hub.antt =====
-- The console hub and its readers: src/grpc/services/console/mod.rs and lifecycle.rs.
-- The async mutexes are always taken in one order, lifecycle first, and a call keeps the lifecycle
-- until it is done, so each call is one step on the state; but `subscribe` gives it up before it
-- reads the history, so it is two steps, `admit` and `replay`. An `Arc` is known by a ticket: the
-- `active` flag of a reader is the ticket of its start, and is false once the ticket is listed in
-- `inactive`. Whether a task is finished and how many receivers a channel has is up to the runtime,
-- which sets these fields between the calls.
pub mod Calls
pub mod Publish
pub mod Invariant
pub mod Effects
pub mod Preserved
pub mod Subscription
pub mod Retiring
pub mod Events
pub mod Idle
pub mod Runs
pub mod Removal
pub mod Stale
pub mod Unchanged
pub mod Refused
pub mod Bootstrap
use agapornis_agent_rust.Base.Dict
use agapornis_agent_rust.Base.Dict.{Dict}
use agapornis_agent_rust.Base.IdSet
use agapornis_agent_rust.Base.IdSet.{IdSet}
use agapornis_agent_rust.Console.History
use agapornis_agent_rust.Console.History.{HistoryCache}
use agapornis_agent_rust.Core.Paths.{validate_id}
use agapornis_agent_rust.Security.Protection
use agapornis_agent_rust.Security.Protection.{ProtectionState}
use agapornis_agent_rust.Base.{
  ℕ, zero, suc, ◌+◌, ◌-◌, ◌*◌, ◌/◌, ◌%◌, ◌^◌, ◌≤◌, ◌<◌, min, max, ◌≡◌, refl, sym, ap, ◌∙◌, ◌≢◌, ◌↔◌,
  ◌⊎◌, inl, inr, Bool, true, false, not, ◌&&◌, ◌||◌, Option, none, some, List, [], ◌∷◌, ◌++◌, map,
  arith, ltb, leb, ◌==◌, if◌then◌else◌, ==_iff, ltb-eq-false, Bool-cases, Option-cases, is_some,
  length, length-append, take, drop, take-append-drop, All, All-append, IsSuffix, Text, same,
  same_iff, same_refl, codes, u64_max, sat_add, wrapping_add, sat_add_exact,
}

pub record ReaderTask : Type 0 where
  pub ticket : ℕ
  pub parked : Bool
  pub suspended : Bool
  pub wake : Bool  -- a permit that `notify_one` has left
  pub viewer_wake : Bool
  pub finished : Bool

-- A broadcast channel and its receivers.
pub record Sender : Type 0 where
  pub channel : ℕ
  pub receivers : ℕ

pub record ConsoleLifecycle : Type 0 where
  pub desired : IdSet
  pub readers : Dict ReaderTask
  pub pending_additions : IdSet
  pub pending_removals : IdSet
  pub inventory_initialized : Bool

pub record ConsoleSyncResult : Type 0 where
  pub active_reader_count : ℕ
  pub accepted_count : ℕ
  pub removed_count : ℕ

pub record ConsoleHub : Type 0 where
  pub docker : Bool  -- whether there is a Docker manager
  pub senders : Dict Sender
  pub history : HistoryCache
  pub lifecycle : ConsoleLifecycle
  pub protection : ProtectionState
  pub max_active_readers : ℕ
  pub inactive : List ℕ
  pub next_ticket : ℕ
  pub next_channel : ℕ

-- Why a call is refused.
pub data Refusal : Type 0 where
  invalid_server_id not_assigned removed_before_bootstrap capacity_reached : Refusal

pub data Result (A : Type 0) : Type 0 where
  ok : A → Result A
  err : Refusal → Result A

abbrev pub member : ℕ → List ℕ → Bool
member n [] = false
member n (m ∷ ms) = m == n || member n ms

-- `reader.active.load(Acquire)`
abbrev pub is_active : ConsoleHub → ℕ → Bool
is_active hub ticket = not (member ticket hub.inactive)

unfoldable pub validate_from : IdSet → List Text → Option IdSet
validate_from desired [] = some desired
validate_from desired (id ∷ ids) =
    let rest = validate_from (IdSet.insert id desired) ids in if validate_id id then rest else none

-- `validate_inventory`
unfoldable pub validate_inventory : List Text → Option IdSet
unfolding validate_from
validate_inventory = validate_from []

unfoldable pub record_addition : Text → ConsoleLifecycle → ConsoleLifecycle
record_addition id l = if l.inventory_initialized then l else record l {
  pending_removals = IdSet.remove id l.pending_removals;
  pending_additions = IdSet.insert id l.pending_additions;
}

-- `readers.values().filter(|reader| !reader.handle.is_finished()).count()`
unfoldable pub active_count : Dict ReaderTask → ℕ
active_count [] = 0
active_count ((id, r) ∷ readers) = (if r.finished then 0 else 1) + active_count readers

unfoldable pub sync_result : ConsoleLifecycle → ℕ → ConsoleSyncResult
unfolding active_count
sync_result l removed_count = record {
  active_reader_count = active_count l.readers;
  accepted_count = length l.desired;
  removed_count = removed_count;
}

-- `stop_reader`: the flag of the reader is cleared, and its task aborted.
unfoldable pub stop_reader : Text → ConsoleHub → ConsoleHub
stop_reader id hub = elim (Dict.get id hub.lifecycle.readers) [
  | none ↦ hub
  | some reader ↦ record hub {
    lifecycle = record hub.lifecycle { readers = Dict.remove id hub.lifecycle.readers };
    inactive = reader.ticket ∷ hub.inactive;
  }
]

unfoldable pub stop_readers : List Text → ConsoleHub → ConsoleHub
stop_readers [] hub = hub
stop_readers (id ∷ ids) hub = stop_readers ids (stop_reader id hub)

-- `start_reader_locked`: nothing without Docker; else a task of its own, with fresh flags.
unfoldable pub start_reader_locked : Text → ConsoleHub → ConsoleHub
start_reader_locked id hub =
    if hub.docker
    then record hub {
      lifecycle = record hub.lifecycle {
        readers =
            Dict.insert id
              (record {
                ticket = hub.next_ticket;
                parked = false;
                suspended = false;
                wake = false;
                viewer_wake = false;
                finished = false;
              })
              hub.lifecycle.readers;
      };
      next_ticket = suc hub.next_ticket;
    }
    else hub

-- Whether the reader of the server is there and not finished.
abbrev pub is_running : Option ReaderTask → Bool
is_running none = false
is_running (some reader) = not reader.finished

unfoldable pub ensure_reader_locked : Text → ConsoleHub → ConsoleHub
ensure_reader_locked id hub = elim (Dict.get id hub.lifecycle.readers) [
  | none ↦ start_reader_locked id (stop_reader id hub)
  | some reader ↦
      if reader.finished then start_reader_locked id (stop_reader id hub) else record hub {
        lifecycle = record hub.lifecycle {
          readers = Dict.insert id (record reader { viewer_wake = true }) hub.lifecycle.readers;
        };
      }
]

-- Whether `validate_reader_capacity` returns `Ok`.
unfoldable pub validate_reader_capacity : Text → ConsoleHub → Bool
validate_reader_capacity id hub =
    if not hub.docker || is_running (Dict.get id hub.lifecycle.readers)
    then true
    else ltb (active_count hub.lifecycle.readers) hub.max_active_readers

unfoldable pub validate_subscription : Text → ConsoleLifecycle → Result ConsoleLifecycle
validate_subscription id l =
    if l.inventory_initialized && not (IdSet.contains id l.desired)
    then err not_assigned
    else if l.inventory_initialized
    then ok l
    else if IdSet.contains id l.pending_removals
    then err removed_before_bootstrap
    else ok (record l { desired = IdSet.insert id l.desired })

-- `configured_max_active_readers`, over the parsed value of the variable.
abbrev pub configured_max_active_readers : Option ℕ → ℕ
configured_max_active_readers value =
    min (History.unwrap_or (History.filter_positive value) 256) 4096
