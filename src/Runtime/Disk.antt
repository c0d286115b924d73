-- ===== src/Runtime/Disk.antt =====
-- The cache of the disk usage: src/runtime/docker/inspection/disk.rs. An `Arc<Notify>` is known by a
-- number that no other has. What happens under one lock of the cache is one step; the scan itself,
-- and the waits for it, lie between the steps.
pub mod Newest
use mathlib.Core.Option
use agapornis_agent_rust.Base.Dict
use agapornis_agent_rust.Base.Dict.{Dict}
use agapornis_agent_rust.Base.{ℤ, pos}
use agapornis_agent_rust.Security.Protection.{elapsed, second}
use agapornis_agent_rust.Base.{
  ℕ, zero, suc, ◌+◌, ◌-◌, ◌*◌, ◌/◌, ◌%◌, ◌^◌, ◌≤◌, ◌<◌, min, max, ◌≡◌, refl, sym, ap, ◌∙◌, ◌≢◌, ◌↔◌,
  ◌⊎◌, inl, inr, Bool, true, false, not, ◌&&◌, ◌||◌, Option, none, some, List, [], ◌∷◌, ◌++◌, map,
  arith, ltb, leb, ◌==◌, if◌then◌else◌, ==_iff, ltb-eq-false, Bool-cases, Option-cases, is_some,
  length, length-append, take, drop, take-append-drop, All, All-append, IsSuffix, Text, same,
  same_iff, same_refl, codes, u64_max, sat_add, wrapping_add, sat_add_exact,
}

pub data CacheState : Type 0 where
  ready : ℕ → ℤ → ℤ → CacheState  -- when, the usage and the limit
  calculating : ℕ → CacheState

pub record DiskCache : Type 0 where
  pub entries : Dict CacheState
  pub next_notify : ℕ

pub data DiskCalculation : Type 0 where
  cached : ℤ → ℤ → DiskCalculation
  calculate : ℕ → DiskCalculation
  wait_for : ℕ → DiskCalculation  -- the round of the loop ends with a wait

-- `matches!(state, CacheState::Calculating(current) if Arc::ptr_eq(current, &notify))`
abbrev pub is_calculating : ℕ → Option CacheState → Bool
is_calculating notify (some (calculating current)) = current == notify
is_calculating notify (some (ready when usage limit)) = false
is_calculating notify none = false

unfoldable pub disk_cache_age : Option ℕ → ℕ
disk_cache_age none = 75 * second
disk_cache_age (some value) = if ltb 0 value then value * second else 75 * second

abbrev pub start_calculation : Text → DiskCache → DiskCache × DiskCalculation
start_calculation id c = (
  record {
    entries = Dict.insert id (calculating c.next_notify) c.entries;
    next_notify = suc c.next_notify;
  },
  calculate c.next_notify,
)

-- One round of the loop of `begin_disk_calculation`, at this reading of the clock.
unfoldable pub begin_disk_calculation :
    ℕ → Text → Bool → ℕ → DiskCache → DiskCache × DiskCalculation
begin_disk_calculation now id force max_age c = elim (Dict.get id c.entries) [
  | none ↦ start_calculation id c
  | some (calculating notify) ↦ (c, wait_for notify)
  | some (ready when usage limit) ↦
      if not force && leb (elapsed now when) max_age
      then (c, cached usage limit)
      else start_calculation id c
]

-- `disk_cached`, once the directory is measured.
unfoldable pub store_usage : ℕ → Text → ℕ → ℤ → ℤ → DiskCache → DiskCache
store_usage now id notify usage limit c =
    if is_calculating notify (Dict.get id c.entries)
    then record c { entries = Dict.insert id (ready now usage limit) c.entries }
    else c

-- The drop of the guard of a calculation that did not end, and a wait that took too long.
unfoldable pub abandon : Text → ℕ → DiskCache → DiskCache
abandon id notify c =
    if is_calculating notify (Dict.get id c.entries)
    then record c { entries = Dict.remove id c.entries }
    else c

-- `self.disk_cache.lock().await.remove(id)` of the other parts
unfoldable pub forget_usage : Text → DiskCache → DiskCache
forget_usage id c = record c { entries = Dict.remove id c.entries }

-- `disk`, with the configured limit.
unfoldable pub disk : Text → Option ℤ → DiskCache → Option (ℤ × ℤ)
disk id configured c = elim (Dict.get id c.entries) [
  | some (ready when usage limit) ↦ some (usage, limit)
  | some (calculating notify) ↦ Option.map (λ limit. (pos 0, limit)) configured
  | none ↦ Option.map (λ limit. (pos 0, limit)) configured
]
