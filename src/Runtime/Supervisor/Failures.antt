-- ===== src/Runtime/Supervisor/Failures.antt =====
-- The failures that are kept of a server stay in order, and those that are left are recent.
use agapornis_agent_rust.Base.{ℤ, pos, excess}
use agapornis_agent_rust.Security.Protection.{elapsed, second}
use agapornis_agent_rust.Runtime.Supervisor.{Observation, push_times, add_failures, drop_old}
use agapornis_agent_rust.Base.{
  ℕ, zero, suc, ◌+◌, ◌*◌, ◌≤◌, min, inl, inr, Bool, not, ◌&&◌, List, [], ◌∷◌, ◌++◌, arith, ltb,
  ◌==◌, Bool-cases, All, All-append,
}

-- From the earliest to the latest, from `t` on.
abbrev pub IsOrdered : ℕ → List ℕ → Type 0
IsOrdered t [] = Unit
IsOrdered t (v ∷ vs) = (t ≤ v) × IsOrdered v vs

-- No failure lies ahead.
abbrev pub IsPast : ℕ → List ℕ → Type 0
IsPast now = All (λ v. v ≤ now)

-- Five minutes have not passed since.
abbrev pub IsRecent : ℕ → List ℕ → Type 0
IsRecent now = All (λ v. now ≤ v + 300 * second)

pub IsPast-later : (now later : ℕ) (vs : List ℕ) → now ≤ later → IsPast now vs → IsPast later vs
IsPast-later now later [] h p = tt
IsPast-later now later (v ∷ vs) h p = (omega (arith, p.0, h), IsPast-later now later vs h p.1)

IsOrdered-snoc :
    (t now : ℕ) (vs : List ℕ)
    → t ≤ now
    → IsOrdered t vs
    → IsPast now vs
    → IsOrdered t (vs ++ now ∷ [])
IsOrdered-snoc t now [] h o p = (h, tt)
IsOrdered-snoc t now (v ∷ vs) h o p = (o.0, IsOrdered-snoc v now vs p.0 o.1 p.1)

IsPast-snoc : (now : ℕ) (vs : List ℕ) → IsPast now vs → IsPast now (vs ++ now ∷ [])
IsPast-snoc now vs p = All-append (λ v. v ≤ now) vs (now ∷ []) p (omega arith)

push_times-IsOrdered :
    (n now : ℕ) (vs : List ℕ)
    → IsOrdered 0 vs
    → IsPast now vs
    → IsOrdered 0 (push_times n now vs) × IsPast now (push_times n now vs)
push_times-IsOrdered zero now vs o p = (o, p)
push_times-IsOrdered (suc n) now vs o p =
    push_times-IsOrdered n now (vs ++ now ∷ []) (IsOrdered-snoc 0 now vs (omega arith) o p)
      (IsPast-snoc now vs p)

pub add_failures-IsOrdered :
    (now : ℕ) (restart : ℤ) (running : Bool) (exit : ℤ) (o : Observation)
    → IsOrdered 0 o.failures
    → IsPast now o.failures
    → IsOrdered 0 (add_failures now restart running exit o)
      × IsPast now (add_failures now restart running exit o)
unfolding add_failures
add_failures-IsOrdered now restart running exit o h p =
    let restarted = push_times (min 3 (excess restart o.last_restart)) now o.failures in
    let (a, b) = push_times-IsOrdered (min 3 (excess restart o.last_restart)) now o.failures h p in
    elim (Bool-cases (
      o.was_running && not running && not (excess exit (pos 0) == 0 && excess (pos 0) exit == 0))) [
        | inl failed ↦
            rw failed
              (IsOrdered-snoc 0 now restarted (omega arith) a b, IsPast-snoc now restarted b)
        | inr fine ↦ rw fine (a, b)
      ]

-- Those of an ordered list are all recent if the first is.
IsRecent-of_first :
    (now t : ℕ) (vs : List ℕ) → now ≤ t + 300 * second → IsOrdered t vs → IsRecent now vs
IsRecent-of_first now t [] h o = tt
IsRecent-of_first now t (v ∷ vs) h o =
    (omega (arith, h, o.0), IsRecent-of_first now v vs (omega (arith, h, o.0)) o.1)

pub IsOrdered-weaken : (s t : ℕ) (vs : List ℕ) → s ≤ t → IsOrdered t vs → IsOrdered s vs
IsOrdered-weaken s t [] h o = tt
IsOrdered-weaken s t (v ∷ vs) h o = (omega (arith, h, o.0), o.1)

-- What is left of an ordered list is ordered, past and recent, by clocks that do not go back.
pub drop_old-IsRecent :
    (clock : ℕ → ℕ) (now i t : ℕ) (vs : List ℕ)
    → ((k : ℕ) → now ≤ clock k)
    → IsOrdered t vs
    → IsPast now vs
    → IsOrdered t (drop_old clock i vs)
      × IsPast now (drop_old clock i vs)
      × IsRecent now (drop_old clock i vs)
unfolding drop_old
drop_old-IsRecent clock now i t [] c o p = (tt, tt, tt)
drop_old-IsRecent clock now i t (v ∷ vs) c o p =
    elim (Bool-cases (ltb (300 * second) (elapsed (clock i) v))) [
      | inl old ↦
          rw old (drop_old-IsRecent clock now (suc i) t vs c (IsOrdered-weaken t v vs o.0 o.1) p.1)
      | inr new ↦
          let first : now ≤ v + 300 * second = ground (arith, c i) in
          rw new (o, p, (first, IsRecent-of_first now v vs first o.1))
    ]
