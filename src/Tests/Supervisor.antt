-- ===== src/Tests/Supervisor.antt =====
-- Servers under the watch of src/runtime/supervisor.rs.
use agapornis_agent_rust.Base.Dict
use agapornis_agent_rust.Base.IdSet
use agapornis_agent_rust.Console.History.{with_maximum}
use agapornis_agent_rust.Security.Protection
use agapornis_agent_rust.Security.Protection.{
  ProtectionState, LineClock, default, env_usize, status, second,
}
use agapornis_agent_rust.Console.Hub.{ConsoleHub}
use agapornis_agent_rust.Console.Hub.Events.{new_hub}
use agapornis_agent_rust.Runtime.Supervisor.{
  Observation, restart_no, stop, Supervised, ObserveClock, Inspection, watch, observe,
  crash_loop_protected, scan_once, keys,
}
use agapornis_agent_rust.Runtime.Supervisor.Watching.{
  Sighting, IsWatchedEntry, observe_all, observe_all-IsWatched,
}
use agapornis_agent_rust.Runtime.Supervisor.Quarantine.{engages, observe-quarantines}
use agapornis_agent_rust.Runtime.Supervisor.Assigned.{assigned}
use agapornis_agent_rust.Runtime.Supervisor.Scan.{is_watched, scan_once-forgets}
use agapornis_agent_rust.Base.{pos}
use agapornis_agent_rust.Base.{
  ℕ, ◌≡◌, refl, true, false, none, some, [], ◌∷◌, arith, if◌then◌else◌, Text, same, codes,
}

abbrev alpha : Text
alpha = codes "alpha"

abbrev beta : Text
beta = codes "beta"

abbrev hub : ConsoleHub
unfolding with_maximum default env_usize
hub = new_hub true (with_maximum 65536) (default none none none none) none

abbrev line_clock : LineClock
line_clock = record { inserted = 5; strike_test = 5; window_test = 5; reopened = 5; struck = 5 }

abbrev at_time : ℕ → ObserveClock
at_time t = record {
  now = t;
  recovery_test = t;
  front_test = λ k. t;
  since_test = t;
  line = line_clock;
}

abbrev empty : Supervised
empty = record { observations = []; disk_due = []; hub = hub; requests = [] }

-- Stopped with exit code 1, after it ran.
abbrev down : ℕ → Sighting
down t = record { clock = at_time t; restart = pos 0; running = false; exit = pos 1 }

abbrev up : ℕ → Sighting
up t = record { clock = at_time t; restart = pos 0; running = true; exit = pos 0 }

observe_all-IsWatched_example : IsWatchedEntry 4000 (
    Dict.get alpha
      (observe_all alpha (up 1000 ∷ (down 2000 ∷ (up 3000 ∷ (down 4000 ∷ [])))) empty).observations)
unfolding Dict.get
observe_all-IsWatched_example =
    observe_all-IsWatched alpha 0 (up 1000 ∷ (down 2000 ∷ (up 3000 ∷ (down 4000 ∷ [])))) empty
      (omega arith) tt

-- Two failures so far.
abbrev troubled : Observation
troubled = record {
  last_restart = pos 0;
  was_running = true;
  running_since = some 3000;
  failures = 1000 ∷ (2000 ∷ []);
  quarantined = false;
}

abbrev watching : Supervised
watching = record empty { observations = (alpha, troubled) ∷ [] }

found : Dict.get alpha watching.observations ≡ some troubled
unfolding Dict.get same
found = refl

not_recovering : (Protection.in_manual_recovery 4000 alpha hub.protection).1 ≡ false
unfolding Protection.in_manual_recovery Dict.get hub with_maximum default env_usize
not_recovering = refl

observe-quarantines_example :
    let after = observe (at_time 4000) alpha (pos 0) false (pos 1) watching in
    let engaged = engages (at_time 4000) 4000 (pos 0) false (pos 1) troubled in
    (after.requests ≡ (if engaged then stop alpha ∷ (restart_no alpha ∷ []) else []))
    × (status alpha after.hub.protection
        ≡ (if engaged then some crash_loop_protected else status alpha hub.protection))
    × (Dict.get alpha after.observations
        ≡ some (
            let watched = watch (at_time 4000) (pos 0) false (pos 1) troubled in
            if engaged then record watched { quarantined = true } else watched))
observe-quarantines_example =
    observe-quarantines (at_time 4000) 4000 alpha (pos 0) false (pos 1) watching {now = 3000}
      (omega arith) refl found
      (record {
        ordered = omega arith;
        past = omega arith;
        recent = omega arith;
        few = λ q. omega arith;
      })
      not_recovering

abbrev inspection : Inspection
inspection = record {
  restart = pos 0;
  running = true;
  exit = pos 0;
  disk = some (pos 10, pos 5);
  clock = at_time 5000;
  due_inserted = 0;
  due_test = 10;
  due_again = 10;
  line = line_clock;
}

only_beta : IdSet.contains alpha (keys ((beta, some inspection) ∷ [])) ≡ false
unfolding IdSet.contains same
only_beta = refl

scan_once-forgets_example :
    (is_watched alpha (scan_once 300 ((beta, some inspection) ∷ []) watching) ≡ false)
    × (assigned (scan_once 300 ((beta, some inspection) ∷ []) watching) ≡ assigned watching)
scan_once-forgets_example =
    scan_once-forgets 300 alpha ((beta, some inspection) ∷ []) watching only_beta
