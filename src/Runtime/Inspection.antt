-- ===== src/Runtime/Inspection.antt =====
-- What is reported of a container: src/runtime/docker/inspection.rs. What Docker answers is a
-- record of the fields that are read.
pub mod Startup
use mathlib.Core.Option
use agapornis_agent_rust.Base.Str
use agapornis_agent_rust.Base.Dict
use agapornis_agent_rust.Base.Dict.{Dict}
use agapornis_agent_rust.Base.IdSet
use agapornis_agent_rust.Base.IdSet.{IdSet}
use agapornis_agent_rust.Security.Protection.{elapsed, second}
use agapornis_agent_rust.Core.Paths.{home_container_path}
use agapornis_agent_rust.Base.{
  ℕ, zero, suc, ◌+◌, ◌-◌, ◌*◌, ◌/◌, ◌%◌, ◌^◌, ◌≤◌, ◌<◌, min, max, ◌≡◌, refl, sym, ap, ◌∙◌, ◌≢◌, ◌↔◌,
  ◌⊎◌, inl, inr, Bool, true, false, not, ◌&&◌, ◌||◌, Option, none, some, List, [], ◌∷◌, ◌++◌, map,
  arith, ltb, leb, ◌==◌, if◌then◌else◌, ==_iff, ltb-eq-false, Bool-cases, Option-cases, is_some,
  length, length-append, take, drop, take-append-drop, All, All-append, IsSuffix, Text, same,
  same_iff, same_refl, codes, u64_max, sat_add, wrapping_add, sat_add_exact,
}

-- A mount, with its destination and its source where they are texts.
pub record Mount : Type 0 where
  pub destination : Option Text
  pub source : Option Text

abbrev pub is_at : Text → Option Text → Bool
is_at path none = false
is_at path (some d) = same d path

-- `find(test)` over the mounts, and the source of what is found
unfoldable pub first_source : (Option Text → Bool) → List Mount → Option Text
first_source p [] = none
first_source p (m ∷ mounts) =
    let rest = first_source p mounts in if p m.destination then m.source else rest

abbrev pub is_known : Option Text → Bool
is_known d = is_at (codes "/data") d || is_at (codes "/home/container") d

abbrev pub or_text : Option Text → Text → Text
or_text none t = t
or_text (some s) t = s

abbrev pub or_source : Option Text → Option Text → Option Text
or_source none other = other
or_source (some s) other = some s

-- What `root` reads of a container.
pub record Inspected : Type 0 where
  pub data_label : Option Text
  pub is_running : Option Bool
  pub mounts : List Mount

-- The directory, the path inside, whether it runs, and whether the exact mount was found.
pub record Root : Type 0 where
  pub directory : Text
  pub data_path : Text
  pub running : Bool
  pub exact_found : Bool

unfoldable pub root : Text → Option Inspected → Root
root fallback none = record {
  directory = fallback;
  data_path = home_container_path;
  running = false;
  exact_found = true;
}
root fallback (some i) =
    let inside = or_text i.data_label home_container_path in
    let exact = first_source (is_at inside) i.mounts in
    record {
      directory = or_text (or_source exact (first_source is_known i.mounts)) fallback;
      data_path = inside;
      running = elim i.is_running [ none ↦ false | some b ↦ b ];
      exact_found = is_some exact;
    }

unfoldable pub normalized_container_status : Text → Text
normalized_container_status status =
    if same status (codes "exited") then codes "offline" else status

abbrev pub i64_max : ℕ
i64_max = 2 ^ 63 - 1

unfoldable pub saturating_i64 : ℕ → ℕ
saturating_i64 value = min value i64_max

pub record MemoryStats : Type 0 where
  pub usage : Option ℕ
  pub limit : Option ℕ
  pub stats : Option (Dict ℕ)

pub record NetworkStats : Type 0 where
  pub rx_bytes : Option ℕ
  pub tx_bytes : Option ℕ

abbrev pub or_zero : Option ℕ → ℕ
or_zero none = 0
or_zero (some n) = n

abbrev pub inactive_file : Option (Dict ℕ) → Option ℕ
inactive_file none = none
inactive_file (some stats) = elim (Dict.get (codes "total_inactive_file") stats) [
  | none ↦ Dict.get (codes "inactive_file") stats
  | some n ↦ some n
]

-- The used memory and its limit; `saturating_sub` is the difference on these numbers.
unfoldable pub memory_metrics : Option MemoryStats → ℕ × ℕ
memory_metrics none = (0, 0)
memory_metrics (some m) = (
  saturating_i64 (or_zero m.usage - or_zero (inactive_file m.stats)),
  saturating_i64 (or_zero m.limit),
)

unfoldable pub network_totals : List NetworkStats → ℕ × ℕ → ℕ × ℕ
network_totals [] totals = totals
network_totals (n ∷ networks) (received, sent) =
    network_totals networks
      (sat_add received (or_zero n.rx_bytes), sat_add sent (or_zero n.tx_bytes))

unfoldable pub network_metrics : Option (List NetworkStats) → ℕ × ℕ
network_metrics none = (0, 0)
network_metrics (some networks) =
    let (received, sent) = network_totals networks (0, 0) in
    (saturating_i64 received, saturating_i64 sent)

-- When a start was last looked for, and since when the log is read.
pub record StartupState : Type 0 where
  pub startup_ready : IdSet
  pub startup_checks : Dict (ℕ × ℕ)

-- What a check finds before the log: the answer, or the time from which the log is to be read.
pub data StartupCheck : Type 0 where
  answered : Bool → StartupCheck
  reads_from : ℕ → StartupCheck

-- `startup_is_ready` up to the log. The clock reads `now` for the test of the last check, and then
-- `noted`, with the Unix time `timestamp`, for the entry of this one; `started` is the time that
-- Docker gives, or the present less five seconds.
unfoldable pub begin_startup_check :
    ℕ → ℕ → ℕ → ℕ → Text → Text → StartupState → StartupState × StartupCheck
begin_startup_check now noted timestamp started marker id s =
    if Str.is_empty marker || IdSet.contains id s.startup_ready
    then (s, answered true)
    else elim (Dict.get id s.startup_checks) [
      | none ↦ (
        record s { startup_checks = Dict.insert id (noted, timestamp) s.startup_checks },
        reads_from started,
      )
      | some (last, since) ↦ if ltb (elapsed now last) (5 * second) then (s, answered false) else (
        record s { startup_checks = Dict.insert id (noted, timestamp) s.startup_checks },
        reads_from since,
      )
    ]

-- The lines of the log, up to its end or to an error.
unfoldable pub has_marker : Text → List Text → Bool
has_marker marker [] = false
has_marker marker (line ∷ lines) = Str.has_text marker line || has_marker marker lines

unfoldable pub end_startup_check : Bool → Text → StartupState → StartupState
end_startup_check found id s =
    if found
    then record {
      startup_ready = IdSet.insert id s.startup_ready;
      startup_checks = Dict.remove id s.startup_checks;
    }
    else s
