-- ===== src/Runtime/Supervisor/Quarantine.antt =====
-- When the supervisor quarantines a server, and what it asks of Docker then.
use agapornis_agent_rust.Base.Dict
use agapornis_agent_rust.Base.Dict.{Dict}
use agapornis_agent_rust.Base.IdSet
use agapornis_agent_rust.Base.{ℤ}
use agapornis_agent_rust.Security.Protection
use agapornis_agent_rust.Security.Protection.{
  ProtectionState, LineClock, elapsed, second, or_insert, status,
}
use agapornis_agent_rust.Console.Hub.{ConsoleHub}
use agapornis_agent_rust.Console.Hub.Publish.{
  undisturbed, publish, publish_line, publish_prepared, prepare_line,
}
use agapornis_agent_rust.Runtime.Supervisor.{
  Observation, restart_no, stop, Supervised, ObserveClock, add_failures, drop_old, forgive, watch,
  is_crash_loop, observe, quarantine, crash_loop_protected, crash_loop_notice, mark_status,
}
use agapornis_agent_rust.Runtime.Supervisor.Failures.{
  IsOrdered, IsPast, IsPast-later, add_failures-IsOrdered,
}
use agapornis_agent_rust.Runtime.Supervisor.Watching.{IsWatched}
use agapornis_agent_rust.Base.{
  ℕ, suc, ◌*◌, ◌≤◌, ◌≡◌, refl, sym, ap, ◌∙◌, inl, inr, Bool, true, false, not, ◌&&◌, ◌||◌, Option,
  none, some, List, [], ◌∷◌, arith, ltb, leb, if◌then◌else◌, Bool-cases, Option-cases, length, Text,
}

-- The failures of the last five minutes at `t`, wherever they stand.
abbrev pub recent_failures : ℕ → List ℕ → List ℕ
recent_failures t [] = []
recent_failures t (v ∷ vs) =
    if leb (elapsed t v) (300 * second) then v ∷ recent_failures t vs else recent_failures t vs

all_recent :
    (t u : ℕ) (vs : List ℕ)
    → leb (elapsed t u) (300 * second) ≡ true
    → IsOrdered u vs
    → recent_failures t vs ≡ vs
all_recent t u [] h o = refl
all_recent t u (v ∷ vs) h o =
    let first : leb (elapsed t v) (300 * second) ≡ true = ground (arith, o.0) in
    rw (first, all_recent t v vs first o.1) refl

-- The loop from the front finds all of them, as they are in order.
drop_old-recent_failures :
    (t i u : ℕ) (vs : List ℕ) → IsOrdered u vs → drop_old (λ k. t) i vs ≡ recent_failures t vs
unfolding drop_old
drop_old-recent_failures t i u [] o = refl
drop_old-recent_failures t i u (v ∷ vs) o = elim (Bool-cases (ltb (300 * second) (elapsed t v))) [
  | inl old ↦
      let gone : leb (elapsed t v) (300 * second) ≡ false = ground arith in
      rw (old, gone) (drop_old-recent_failures t (suc i) v vs o.1)
  | inr new ↦
      let kept : leb (elapsed t v) (300 * second) ≡ true = ground arith in
      rw (new, kept) (ap (◌∷◌ v) (sym (all_recent t v vs kept o.1)))
]

-- The server has run for two minutes.
abbrev pub is_forgiven : ObserveClock → Bool → Observation → Bool
is_forgiven clock running o =
    running && leb (120 * second) (elapsed clock.since_test (or_insert o.running_since clock.now))

-- What decides: the failures of five minutes, those of this observation with them.
abbrev pub engages : ObserveClock → ℕ → ℤ → Bool → ℤ → Observation → Bool
engages clock t restart running exit o =
    not o.quarantined
    && not (is_forgiven clock running o)
    && leb 3 (length (recent_failures t (add_failures clock.now restart running exit o)))

is_crash_loop-engages :
    (clock : ObserveClock) (t : ℕ) (restart : ℤ) (running : Bool) (exit : ℤ) (o : Observation)
    → clock.front_test ≡ (λ k. t)
    → IsOrdered 0 o.failures
    → IsPast clock.now o.failures
    → is_crash_loop (watch clock restart running exit o) ≡ engages clock t restart running exit o
unfolding watch forgive
is_crash_loop-engages clock t restart running exit o c h p =
    let added = add_failures clock.now restart running exit o in
    let (a, _) = add_failures-IsOrdered clock.now restart running exit o h p in
    let kept : drop_old clock.front_test 0 added ≡ recent_failures t added =
      ap (λ (f : ℕ → ℕ). drop_old f 0 added) c ∙ drop_old-recent_failures t 0 0 added a in
    rw kept (ground arith)

publish_prepared-protection :
    (id : Text) (line : Option Text) (hub : ConsoleHub)
    → (publish_prepared id line none undisturbed hub).0.protection ≡ hub.protection
unfolding publish_prepared
publish_prepared-protection id none hub = refl
publish_prepared-protection id (some line) hub = refl

statuses-publish :
    (clock : LineClock) (id line : Text) (hub : ConsoleHub)
    → (publish clock id line hub).0.protection.statuses ≡ hub.protection.statuses
unfolding publish publish_line prepare_line Protection.observe_line
statuses-publish clock id line hub =
    elim (Bool-cases (
      (hub.lifecycle.inventory_initialized && not (IdSet.contains id hub.lifecycle.desired))
      || (not hub.lifecycle.inventory_initialized
          && IdSet.contains id hub.lifecycle.pending_removals))) [
            | inl gone ↦ rw gone refl
            | inr known ↦ rw known (
                ap (λ (q : ProtectionState). q.statuses)
                  (publish_prepared-protection id (prepare_line clock id line hub).1
                    (prepare_line clock id line hub).0))
          ]

recovery-statuses :
    (now : ℕ) (id : Text) (s : ProtectionState)
    → (Protection.in_manual_recovery now id s).0.statuses ≡ s.statuses
unfolding Protection.in_manual_recovery
recovery-statuses now id s = elim (Option-cases (Dict.get id s.recovery)) [
  | inl e ↦ rw (e, Protection.in_manual_recovery) refl
  | inr (until, e) ↦
      rw (e, Protection.in_manual_recovery)
        (elim (Bool-cases (ltb now until)) [ inl b ↦ rw b refl | inr b ↦ rw b refl ])
]

-- A server that is not in manual recovery is quarantined by an observation exactly when it is not
-- yet, has not run for two minutes, and three of its failures, those of this observation among
-- them, are of the last five minutes: then Docker is asked to disable its restarts and to stop it,
-- and its status is that of the protection; else nothing is asked and its status stays. Its entry
-- is one that earlier observations left, and the clock stands still while old failures are dropped.
pub observe-quarantines :
    (clock : ObserveClock) (t : ℕ) (id : Text) (restart : ℤ) (running : Bool) (exit : ℤ)
    (s : Supervised) {now : ℕ} {o : Observation}
    → now ≤ clock.now
    → clock.front_test ≡ (λ k. t)
    → Dict.get id s.observations ≡ some o
    → IsWatched now o
    → (Protection.in_manual_recovery clock.recovery_test id s.hub.protection).1 ≡ false
    → let after = observe clock id restart running exit s in
      let engaged = engages clock t restart running exit o in
      (after.requests ≡ (if engaged then stop id ∷ (restart_no id ∷ s.requests) else s.requests))
      × (status id after.hub.protection
          ≡ (if engaged then some crash_loop_protected else status id s.hub.protection))
      × (Dict.get id after.observations
          ≡ some (
              let watched = watch clock restart running exit o in
              if engaged then record watched { quarantined = true } else watched))
unfolding observe quarantine status
observe-quarantines clock t id restart running exit s {now} {o} le c e w r =
    let decided =
      is_crash_loop-engages clock t restart running exit o c w.ordered
        (IsPast-later now clock.now o.failures le w.past) in
    let asked : ConsoleHub = record s.hub {
      protection = (Protection.in_manual_recovery clock.recovery_test id s.hub.protection).0;
    } in
    rw (e, r)
      (rw decided (elim (Bool-cases (engages clock t restart running exit o)) [
        | inl engaged ↦ rw engaged (
          refl,
          ap (λ (m : Dict Text). Dict.get id m)
                (statuses-publish clock.line id crash_loop_notice
                  (mark_status id crash_loop_protected asked))
              ∙ unfold Protection.mark in
                Dict.get-insert_self id crash_loop_protected asked.protection.statuses,
          Dict.get-insert_self id _ s.observations,
        )
        | inr fine ↦ rw fine (
          refl,
          ap (λ (m : Dict Text). Dict.get id m)
              (recovery-statuses clock.recovery_test id s.hub.protection),
          Dict.get-insert_self id _ s.observations,
        )
      ]))
