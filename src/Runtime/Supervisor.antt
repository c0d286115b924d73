-- ===== src/Runtime/Supervisor.antt =====
-- The watch over the containers: src/runtime/supervisor.rs. What Docker answers, and each reading
-- of the clock, are arguments. What the supervisor asks of Docker is a list of requests, the last
-- one first; `docker.stop` and `docker.forget_runtime_state` are requests, of which the second also
-- clears the rates and marks of the server. What `docker.stop` does to the agent's own state once
-- the container has stopped, the detachment of its console and the end of the checks of its start,
-- belongs to the lifecycle of the container and is no part of the step.
pub mod Failures
pub mod Watching
pub mod Quarantine
pub mod Assigned
pub mod Scan
use agapornis_agent_rust.Base.Dict
use agapornis_agent_rust.Base.Dict.{Dict}
use agapornis_agent_rust.Base.IdSet
use agapornis_agent_rust.Base.IdSet.{IdSet}
use agapornis_agent_rust.Base.Str
use agapornis_agent_rust.Base.{ℤ, pos, negsuc, pos_part, excess, is_less}
use agapornis_agent_rust.Security.Protection
use agapornis_agent_rust.Security.Protection.{
  LineClock, elapsed, second, or_insert, disk_limit_exceeded,
}
use agapornis_agent_rust.Console.Hub.{ConsoleHub}
use agapornis_agent_rust.Console.Hub.Calls.{detach_reader, wake_reader}
use agapornis_agent_rust.Console.Hub.Publish.{publish}
use agapornis_agent_rust.Base.{
  ℕ, zero, suc, ◌+◌, ◌-◌, ◌*◌, ◌/◌, ◌%◌, ◌^◌, ◌≤◌, ◌<◌, min, max, ◌≡◌, refl, sym, ap, ◌∙◌, ◌≢◌, ◌↔◌,
  ◌⊎◌, inl, inr, Bool, true, false, not, ◌&&◌, ◌||◌, Option, none, some, List, [], ◌∷◌, ◌++◌, map,
  arith, ltb, leb, ◌==◌, if◌then◌else◌, ==_iff, ltb-eq-false, Bool-cases, Option-cases, is_some,
  length, length-append, take, drop, take-append-drop, All, All-append, IsSuffix, Text, same,
  same_iff, same_refl, codes, u64_max, sat_add, wrapping_add, sat_add_exact,
}

pub record Observation : Type 0 where
  pub last_restart : ℤ  -- i64
  pub was_running : Bool
  pub running_since : Option ℕ
  pub failures : List ℕ
  pub quarantined : Bool

-- What is asked of Docker.
pub data Request : Type 0 where
  restart_no stop stop_in_5_seconds forget_runtime_state : Text → Request

-- The state that the loops share.
pub record Supervised : Type 0 where
  pub observations : Dict Observation
  pub disk_due : Dict ℕ
  pub hub : ConsoleHub
  pub requests : List Request

-- The clock where `observe` reads it: at its start, for the manual recovery, in each round of the
-- loop over old failures, for the time that the server runs, and when it publishes.
pub record ObserveClock : Type 0 where
  pub now : ℕ
  pub recovery_test : ℕ
  pub front_test : ℕ → ℕ
  pub since_test : ℕ
  pub line : LineClock

-- `running.then_some(now)`
abbrev pub then_some : Bool → ℕ → Option ℕ
then_some true now = some now
then_some false now = none

abbrev pub new_observation : ℤ → Bool → ℕ → Observation
new_observation restart running now = record {
  last_restart = restart;
  was_running = running;
  running_since = then_some running now;
  failures = [];
  quarantined = false;
}

abbrev pub push_times : ℕ → ℕ → List ℕ → List ℕ
push_times zero now failures = failures
push_times (suc n) now failures = push_times n now (failures ++ now ∷ [])

-- The failures once those of this observation are added.
unfoldable pub add_failures : ℕ → ℤ → Bool → ℤ → Observation → List ℕ
add_failures now restart running exit o =
    let restarted = push_times (min 3 (excess restart o.last_restart)) now o.failures in
    if o.was_running && not running && not (excess exit (pos 0) == 0 && excess (pos 0) exit == 0)
    then restarted ++ now ∷ []
    else restarted

-- `while failures.front().is_some_and(|v| v.elapsed() > 300s) { failures.pop_front() }`, where
-- round `i` reads the clock as `clock i`.
unfoldable pub drop_old : (ℕ → ℕ) → ℕ → List ℕ → List ℕ
drop_old clock i [] = []
drop_old clock i (failure ∷ failures) =
    let rest = drop_old clock (suc i) failures in
    if ltb (300 * second) (elapsed (clock i) failure) then rest else failure ∷ failures

-- A server that has run for two minutes is forgiven.
unfoldable pub forgive : ObserveClock → Bool → Option ℕ → List ℕ → Option ℕ × List ℕ
forgive clock running running_since failures =
    let since = or_insert running_since clock.now in
    if running
    then (some since, if leb (120 * second) (elapsed clock.since_test since) then [] else failures)
    else (none, failures)

-- `observe` on the entry of its server, outside a manual recovery, up to the last test.
unfoldable pub watch : ObserveClock → ℤ → Bool → ℤ → Observation → Observation
watch clock restart running exit o =
    let recent = drop_old clock.front_test 0 (add_failures clock.now restart running exit o) in
    let (since, failures) = forgive clock running o.running_since recent in
    record {
      last_restart = restart;
      was_running = running;
      running_since = since;
      failures = failures;
      quarantined = o.quarantined;
    }

-- The last test of `observe`.
abbrev pub is_crash_loop : Observation → Bool
is_crash_loop o = not o.quarantined && leb 3 (length o.failures)

abbrev pub crash_loop_protected : Text
crash_loop_protected = codes "crash-loop-protected"

abbrev pub crash_loop_notice : Text
crash_loop_notice =
    codes
      "[agent] Crash-loop protection engaged after 3 failures in 5 minutes. Automatic restarts are disabled; use Start or Restart after correcting the cause."

abbrev pub mark_status : Text → Text → ConsoleHub → ConsoleHub
mark_status id value hub = record hub { protection = Protection.mark id value hub.protection }

-- The body of that test.
unfoldable pub quarantine : LineClock → Text → Observation → Supervised → Supervised
quarantine clock id o s = record s {
  observations = Dict.insert id (record o { quarantined = true }) s.observations;
  hub = (publish clock id crash_loop_notice (mark_status id crash_loop_protected s.hub)).0;
  requests = stop id ∷ (restart_no id ∷ s.requests);
}

unfoldable pub observe : ObserveClock → Text → ℤ → Bool → ℤ → Supervised → Supervised
observe clock id restart running exit s =
    let o = or_insert (Dict.get id s.observations) (new_observation restart running clock.now) in
    let (protection, recovers) =
      Protection.in_manual_recovery clock.recovery_test id s.hub.protection in
    let asked = record s { hub = record s.hub { protection = protection } } in
    let watched = watch clock restart running exit o in
    if recovers
    then record asked {
      observations = Dict.insert id (new_observation restart running clock.now) s.observations;
    }
    else if is_crash_loop watched
    then quarantine clock.line id watched asked
    else record asked { observations = Dict.insert id watched s.observations }

-- What Docker says of a container, with what the scan of its directory finds, if that is asked and
-- succeeds, and the clock where `scan_once` reads it.
pub record Inspection : Type 0 where
  pub restart : ℤ
  pub running : Bool
  pub exit : ℤ
  pub disk : Option (ℤ × ℤ)
  pub clock : ObserveClock
  pub due_inserted : ℕ
  pub due_test : ℕ
  pub due_again : ℕ
  pub line : LineClock

abbrev pub disk_notice : ℤ → ℤ → Text
disk_notice usage limit =
    codes "[agent] Disk limit exceeded ("
    ++ (Str.decimal (pos_part usage)
        ++ (codes " / "
            ++ (Str.decimal (pos_part limit)
                ++ codes
                    " bytes). The server was stopped and cannot start until files are deleted.")))

-- What follows a scan of the directory.
unfoldable pub enforce_disk : LineClock → Text → ℤ × ℤ → Supervised → Supervised
enforce_disk clock id (usage, limit) s =
    if is_less (pos 0) limit && is_less limit usage
    then record s {
      hub =
          (publish clock id (disk_notice usage limit) (mark_status id disk_limit_exceeded s.hub)).0;
      requests = stop_in_5_seconds id ∷ (restart_no id ∷ s.requests);
    }
    else record s { hub = record s.hub { protection = Protection.clear_disk id s.hub.protection } }

-- The body of the loop over the containers, and whether it goes on: a scan that fails ends it.
unfoldable pub scan_server : ℕ → Text → Inspection → Supervised → Supervised × Bool
scan_server disk_every id i s =
    let woken = if i.running then record s { hub = wake_reader id s.hub } else s in
    let seen = observe i.clock id i.restart i.running i.exit woken in
    let due = or_insert (Dict.get id seen.disk_due) i.due_inserted in
    if leb due i.due_test
    then (let again = record seen {
      disk_due = Dict.insert id (i.due_again + disk_every) seen.disk_due;
    } in
        elim i.disk [
          | none ↦ (again, false)
          | some measured ↦ (enforce_disk i.line id measured again, true)
        ])
    else (record seen { disk_due = Dict.insert id due seen.disk_due }, true)

-- The loop; a container that Docker does not show ends it.
unfoldable pub scan_servers : ℕ → List (Text × Option Inspection) → Supervised → Supervised
scan_servers disk_every [] s = s
scan_servers disk_every ((id, none) ∷ active) s = s
scan_servers disk_every ((id, some i) ∷ active) s =
    let (after, goes_on) = scan_server disk_every id i s in
    let rest = scan_servers disk_every active after in if goes_on then rest else after

unfoldable pub forget : Text → Supervised → Supervised
forget id s = record s {
  observations = Dict.remove id s.observations;
  disk_due = Dict.remove id s.disk_due;
  hub = detach_reader id (record s.hub { protection = Protection.remove id s.hub.protection });
  requests = forget_runtime_state id ∷ s.requests;
}

unfoldable pub forget_all : List Text → Supervised → Supervised
forget_all [] s = s
forget_all (id ∷ ids) s = forget_all ids (forget id s)

abbrev pub keys {ℓ} : {V : Type ℓ} → Dict V → List Text
keys [] = []
keys ((k, v) ∷ m) = k ∷ keys m

-- `observations.keys().chain(disk_due.keys()).filter(|id| !active.contains(*id))`
unfoldable pub stale_ids : IdSet → Supervised → IdSet
stale_ids active s =
    IdSet.difference (IdSet.extend (IdSet.extend [] (keys s.observations)) (keys s.disk_due)) active

-- `scan_once`, over the containers that Docker lists, each with what it says of it.
unfoldable pub scan_once : ℕ → List (Text × Option Inspection) → Supervised → Supervised
scan_once disk_every active s =
    scan_servers disk_every active (forget_all (stale_ids (keys active) s) s)
