-- ===== src/Runtime/Supervisor/Watching.antt =====
-- What the supervisor knows of a server, over the observations of it.
use agapornis_agent_rust.Base.Dict
use agapornis_agent_rust.Base.Dict.{Dict}
use agapornis_agent_rust.Base.{ℤ}
use agapornis_agent_rust.Security.Protection
use agapornis_agent_rust.Security.Protection.{elapsed, second, or_insert}
use agapornis_agent_rust.Runtime.Supervisor.{
  Observation, Supervised, ObserveClock, new_observation, add_failures, drop_old, forgive, watch,
  is_crash_loop, observe, quarantine,
}
use agapornis_agent_rust.Base.{
  ℕ, ◌*◌, ◌≤◌, ◌<◌, ◌≡◌, refl, ◌⊎◌, inl, inr, Bool, true, false, Option, none, some, List, [], ◌∷◌,
  arith, leb, if◌then◌else◌, Bool-cases, Option-cases, length, Text,
}
use agapornis_agent_rust.Runtime.Supervisor.Failures.{
  IsOrdered, IsPast, IsRecent, IsPast-later, add_failures-IsOrdered, drop_old-IsRecent,
}

-- What is known of a server that was last observed at `now`.
pub record IsWatched (now : ℕ) (o : Observation) : Type 0 where
  pub ordered : IsOrdered 0 o.failures
  pub past : IsPast now o.failures
  pub recent : IsRecent now o.failures
  pub few : o.quarantined ≡ false → length o.failures < 3

-- The loop reads the clock after `now` was read.
abbrev pub IsSteady : ObserveClock → Type 0
IsSteady clock = (k : ℕ) → clock.now ≤ clock.front_test k

forgive-cases :
    (clock : ObserveClock) (running : Bool) (since : Option ℕ) (failures : List ℕ)
    → ((forgive clock running since failures).1 ≡ [])
      ⊎ ((forgive clock running since failures).1 ≡ failures)
unfolding forgive
forgive-cases clock false since failures = inr refl
forgive-cases clock true since failures =
    elim (Bool-cases (leb (120 * second) (elapsed clock.since_test (or_insert since clock.now)))) [
      | inl long ↦ inl (rw long refl)
      | inr short ↦ inr (rw short refl)
    ]

watch-failures :
    (clock : ObserveClock) (restart : ℤ) (running : Bool) (exit : ℤ) (o : Observation)
    → IsSteady clock
    → IsOrdered 0 o.failures
    → IsPast clock.now o.failures
    → let watched = watch clock restart running exit o in
      IsOrdered 0 watched.failures
      × IsPast clock.now watched.failures
      × IsRecent clock.now watched.failures
unfolding watch
watch-failures clock restart running exit o c h p =
    let added = add_failures clock.now restart running exit o in
    let (a, b) = add_failures-IsOrdered clock.now restart running exit o h p in
    let kept = drop_old-IsRecent clock.front_test clock.now 0 0 added c a b in
    elim (forgive-cases clock running o.running_since (drop_old clock.front_test 0 added)) [
      | inl none_left ↦ rw none_left (tt, tt, tt)
      | inr same_left ↦ rw same_left kept
    ]

-- The entry of a server after it is observed.
pub observe-entry :
    (clock : ObserveClock) (id : Text) (restart : ℤ) (running : Bool) (exit : ℤ) (s : Supervised)
    → let o = or_insert (Dict.get id s.observations) (new_observation restart running clock.now) in
      let watched = watch clock restart running exit o in
      let recovers = (Protection.in_manual_recovery clock.recovery_test id s.hub.protection).1 in
      Dict.get id (observe clock id restart running exit s).observations
      ≡ some (
          if recovers
          then new_observation restart running clock.now
          else if is_crash_loop watched
          then record watched { quarantined = true }
          else watched)
unfolding observe quarantine
observe-entry clock id restart running exit s =
    let o = or_insert (Dict.get id s.observations) (new_observation restart running clock.now) in
    let watched = watch clock restart running exit o in
    elim (Bool-cases (Protection.in_manual_recovery clock.recovery_test id s.hub.protection).1) [
      | inl recovers ↦ rw recovers (Dict.get-insert_self id _ s.observations)
      | inr not_so ↦ rw not_so (elim (Bool-cases (is_crash_loop watched)) [
        | inl loops ↦ rw loops (Dict.get-insert_self id _ s.observations)
        | inr fine ↦ rw fine (Dict.get-insert_self id _ s.observations)
      ])
    ]

new_observation-IsWatched :
    (restart : ℤ) (running : Bool) (now : ℕ) → IsWatched now (new_observation restart running now)
new_observation-IsWatched restart running now = omega arith

settled-IsWatched :
    (clock : ObserveClock) (restart : ℤ) (running : Bool) (exit : ℤ) (o : Observation)
    → IsSteady clock
    → IsOrdered 0 o.failures
    → IsPast clock.now o.failures
    → let watched = watch clock restart running exit o in
      IsWatched clock.now
        (if is_crash_loop watched then record watched { quarantined = true } else watched)
settled-IsWatched clock restart running exit o c h p =
    let watched = watch clock restart running exit o in
    let (a, b, r) = watch-failures clock restart running exit o c h p in
    elim (Bool-cases (is_crash_loop watched)) [
      | inl loops ↦ rw loops (record { ordered = a; past = b; recent = r; few = λ q. cc })
      | inr fine ↦ rw fine (record { ordered = a; past = b; recent = r; few = λ q. ground arith })
    ]

-- One time that a server is observed.
pub record Sighting : Type 0 where
  pub clock : ObserveClock
  pub restart : ℤ
  pub running : Bool
  pub exit : ℤ

unfoldable pub observe_all : Text → List Sighting → Supervised → Supervised
observe_all id [] s = s
observe_all id (i ∷ sightings) s =
    observe_all id sightings (observe i.clock id i.restart i.running i.exit s)

-- The clock does not go back, from one time to the next or within one.
abbrev pub IsTimely : ℕ → List Sighting → Type 0
IsTimely now [] = Unit
IsTimely now (i ∷ sightings) =
    (now ≤ i.clock.now) × IsSteady i.clock × IsTimely i.clock.now sightings

abbrev pub last_time : ℕ → List Sighting → ℕ
last_time now [] = now
last_time now (i ∷ sightings) = last_time i.clock.now sightings

-- The entry of a server, if it has one.
abbrev pub IsWatchedEntry : ℕ → Option Observation → Type 0
IsWatchedEntry now none = Unit
IsWatchedEntry now (some o) = IsWatched now o

observe-IsWatched :
    (i : Sighting) (id : Text) (now : ℕ) (s : Supervised)
    → now ≤ i.clock.now
    → IsSteady i.clock
    → IsWatchedEntry now (Dict.get id s.observations)
    → IsWatchedEntry i.clock.now
        (Dict.get id (observe i.clock id i.restart i.running i.exit s).observations)
observe-IsWatched i id now s le c w =
    rw (observe-entry i.clock id i.restart i.running i.exit s)
      (elim (Bool-cases
        (Protection.in_manual_recovery i.clock.recovery_test id s.hub.protection).1) [
          | inl recovers ↦ rw recovers (new_observation-IsWatched i.restart i.running i.clock.now)
          | inr not_so ↦ rw not_so (elim (Option-cases (Dict.get id s.observations)) [
            | inl e ↦ rw e (
                settled-IsWatched i.clock i.restart i.running i.exit
                  (new_observation i.restart i.running i.clock.now) c tt tt)
            | inr (o, e) ↦
                let v = rw e at w in
                rw e (
                  settled-IsWatched i.clock i.restart i.running i.exit o c v.ordered
                    (IsPast-later now i.clock.now o.failures le v.past))
          ])
        ])

-- However often a server is observed, with a clock that does not go back: the failures that are
-- held of it are in order of time, none lies ahead, each is of the five minutes before its last
-- observation, and unless it is quarantined there are fewer than three.
pub observe_all-IsWatched :
    (id : Text) (now : ℕ) (sightings : List Sighting) (s : Supervised)
    → IsTimely now sightings
    → IsWatchedEntry now (Dict.get id s.observations)
    → IsWatchedEntry
        (last_time now sightings)
        (Dict.get id (observe_all id sightings s).observations)
unfolding observe_all
observe_all-IsWatched id now [] s t w = w
observe_all-IsWatched id now (i ∷ sightings) s t w =
    observe_all-IsWatched id i.clock.now sightings (observe i.clock id i.restart i.running i.exit s)
      t.2 (observe-IsWatched i id now s t.0 t.1 w)
