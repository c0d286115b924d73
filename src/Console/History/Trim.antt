-- ===== src/Console/History/Trim.antt =====
-- The `pop_front` loops of `push` and `evict_to_budget`: what they keep exact, and when they stop.
use agapornis_agent_rust.Console.History.{
  ConsoleEntry, ConsoleHistory, entry_charge, removed_front, pop_while,
}
use agapornis_agent_rust.Base.{
  ℕ, ◌+◌, ◌-◌, ◌≤◌, ◌≡◌, refl, ap, ◌∙◌, ◌⊎◌, inl, inr, Bool, false, List, [], ◌∷◌, ◌++◌, arith,
  Bool-cases, length, IsSuffix,
}

-- The bytes of the lines, and what the lines are charged.
abbrev pub content_of : List ConsoleEntry → ℕ
content_of [] = 0
content_of (e ∷ es) = length e.line + content_of es

abbrev pub charge_of : List ConsoleEntry → ℕ
charge_of [] = 0
charge_of (e ∷ es) = entry_charge e + charge_of es

pub content_of-append :
    (xs ys : List ConsoleEntry) → content_of (xs ++ ys) ≡ content_of xs + content_of ys
content_of-append [] ys = omega arith
content_of-append (x ∷ xs) ys = omega (arith, content_of-append xs ys)

pub charge_of-append :
    (xs ys : List ConsoleEntry) → charge_of (xs ++ ys) ≡ charge_of xs + charge_of ys
charge_of-append [] ys = omega arith
charge_of-append (x ∷ xs) ys = omega (arith, charge_of-append xs ys)

-- Both counts of a history are what its lines add up to.
pub record IsCounted (h : ConsoleHistory) : Type 0 where
  pub content_exact : h.content_bytes ≡ content_of h.lines
  pub charge_exact : h.charged_bytes ≡ charge_of h.lines

-- What a run of the loop leaves, from history `h` and the cache's count `charged`.
pub record Trimmed (over : ConsoleHistory → ℕ → Bool) (h : ConsoleHistory) (charged : ℕ)
    (h' : ConsoleHistory) (charged' : ℕ) : Type 0 where
  pub counted : IsCounted h'
  pub suffix : IsSuffix h'.lines h.lines
  pub difference : charged' + h.charged_bytes ≡ charged + h'.charged_bytes
  pub stopped : (over h' charged' ≡ false) ⊎ (h'.lines ≡ [])
  pub same_sequence : h'.next_sequence ≡ h.next_sequence
  pub same_access : h'.last_access ≡ h.last_access

pub removed_front-IsCounted :
    (e : ConsoleEntry) (es : List ConsoleEntry) (h : ConsoleHistory)
    → h.lines ≡ e ∷ es
    → IsCounted h
    → IsCounted (removed_front e es h)
removed_front-IsCounted e es h l c =
    let k = ap content_of l in
    let m = ap charge_of l in
    record {
      content_exact = omega (arith, c.content_exact, k);
      charge_exact = omega (arith, c.charge_exact, m);
    }

Trimmed-here :
    (over : ConsoleHistory → ℕ → Bool) (h : ConsoleHistory) (charged : ℕ)
    → IsCounted h
    → (over h charged ≡ false) ⊎ (h.lines ≡ [])
    → Trimmed over h charged h charged
Trimmed-here over h charged c s = record {
  counted = c;
  suffix = ([], refl);
  difference = refl;
  stopped = s;
  same_sequence = refl;
  same_access = refl;
}

Trimmed-more :
    (over : ConsoleHistory → ℕ → Bool) (e : ConsoleEntry) (es : List ConsoleEntry)
    (h : ConsoleHistory) (charged : ℕ) {h' : ConsoleHistory} {charged' : ℕ}
    → h.lines ≡ e ∷ es
    → IsCounted h
    → h.charged_bytes ≤ charged
    → Trimmed over (removed_front e es h) (charged - entry_charge e) h' charged'
    → Trimmed over h charged h' charged'
Trimmed-more over e es h charged l c le t = record {
  counted = t.counted;
  suffix = (e ∷ t.suffix.0, l ∙ ap (◌∷◌ e) t.suffix.1);
  difference = (let m = ap charge_of l in omega (arith, c.charge_exact, t.difference, m));
  stopped = t.stopped;
  same_sequence = t.same_sequence;
  same_access = t.same_access;
}

pub pop_while-Trimmed :
    (over : ConsoleHistory → ℕ → Bool) (es : List ConsoleEntry) (h : ConsoleHistory) (charged : ℕ)
    → h.lines ≡ es
    → IsCounted h
    → h.charged_bytes ≤ charged
    → Trimmed over h charged (pop_while over es h charged).0 (pop_while over es h charged).1
unfolding pop_while
pop_while-Trimmed over [] h charged l c le = Trimmed-here over h charged c (inr l)
pop_while-Trimmed over (e ∷ es) h charged l c le =
    let popped = removed_front e es h in
    let again : Trimmed over popped (charged - entry_charge e) _ _ =
      pop_while-Trimmed over es popped (charged - entry_charge e) refl
        (removed_front-IsCounted e es h l c)
        (let m = ap charge_of l in omega (arith, c.charge_exact, m)) in
    elim (Bool-cases (over h charged)) [
      | inl more ↦ rw more (Trimmed-more over e es h charged l c le again)
      | inr done ↦ rw done (Trimmed-here over h charged c (inl done))
    ]

-- The cache is charged no more after the loop than before it.
pub Trimmed-le :
    (over : ConsoleHistory → ℕ → Bool) (h : ConsoleHistory) (charged : ℕ) (h' : ConsoleHistory)
    (charged' : ℕ)
    → IsCounted h
    → Trimmed over h charged h' charged'
    → charged' ≤ charged
Trimmed-le over h charged h' charged' c t =
    let (dropped, e) = t.suffix in
    let split = ap charge_of e ∙ charge_of-append dropped h'.lines in
    omega (arith, t.difference, split, c.charge_exact, t.counted.charge_exact)
