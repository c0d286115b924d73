-- ===== src/Console/History/Pushing/Kept.antt =====
-- The line that was pushed is kept, when it fits, and what was there before is dropped from the
-- front only.
use mathlib.Core.List.{append_assoc}
use agapornis_agent_rust.Base.Dict
use agapornis_agent_rust.Console.History.{
  ConsoleEntry, ConsoleHistory, HistoryCache, or_default, entry_charge, over_limits, over_budget,
  pop_while, push, removed_front,
}
use agapornis_agent_rust.Console.History.Trim.{
  IsCounted, content_of, charge_of, charge_of-append, removed_front-IsCounted,
}
use agapornis_agent_rust.Console.History.Accounting.{total_single, IsValid, IsAllocated}
use agapornis_agent_rust.Console.History.Pushing.{
  entry_charge-le, old, recorded, recorded-Trimmed, grown-IsCounted, entry, evicted, evicted-get,
  evicted-limit, evicted-Evicted, remaining, remaining-Trimmed, final, push-final, charge-le,
  charged_exact, old-charged_le,
}
use agapornis_agent_rust.Base.{
  ℕ, ◌+◌, ◌-◌, ◌≤◌, ◌≡◌, refl, sym, ap, ◌∙◌, ◌≢◌, inl, inr, Bool, false, some, List, [], ◌∷◌, ◌++◌,
  arith, ltb-eq-false, Bool-cases, length, IsSuffix, Text, same_refl,
}

-- The loop stops before the last line, if it would not go on at that line alone.
pop_while-ne-nil :
    (over : ConsoleHistory → ℕ → Bool) (e : ConsoleEntry) (es : List ConsoleEntry)
    (h : ConsoleHistory) (charged : ℕ)
    → h.lines ≡ es ++ e ∷ []
    → IsCounted h
    → h.charged_bytes ≤ charged
    → ((h' : ConsoleHistory) (charged' : ℕ)
        → h'.lines ≡ e ∷ []
        → IsCounted h'
        → charged' + h.charged_bytes ≡ charged + h'.charged_bytes
        → over h' charged' ≡ false)
    → (pop_while over (es ++ e ∷ []) h charged).0.lines ≢ []
unfolding pop_while
pop_while-ne-nil over e [] h charged l c le stop = rw (stop h charged l c refl) (λ n. cc)
pop_while-ne-nil over e (x ∷ es) h charged l c le stop =
    let k = ap charge_of l in
    let again =
      pop_while-ne-nil over e es (removed_front x (es ++ e ∷ []) h) (charged - entry_charge x) refl
        (removed_front-IsCounted x _ h l c) (omega (arith, c.charge_exact, k))
        (λ h' charged' l' c' d. stop h' charged' l' c' (omega (arith, c.charge_exact, k))) in
    elim (Bool-cases (over h charged)) [ inl more ↦ rw more again | inr done ↦ rw done (λ n. cc) ]

nil_of_append : (xs ys : List ConsoleEntry) → xs ++ ys ≡ [] → ys ≡ []
nil_of_append [] ys h = h
nil_of_append (x ∷ xs) ys h = cc

-- A suffix with a member in it ends with the last one.
IsSuffix-last :
    (dropped ys xs : List ConsoleEntry) (e : ConsoleEntry)
    → xs ++ e ∷ [] ≡ dropped ++ ys
    → ys ≢ []
    → (kept : List ConsoleEntry) × (ys ≡ kept ++ e ∷ []) × IsSuffix kept xs
IsSuffix-last [] ys xs e h n = (xs, sym h, ([], refl))
IsSuffix-last (d ∷ ds) ys [] e h n =
    let rest : ds ++ ys ≡ [] = cc in absurd (n (nil_of_append ds ys rest))
IsSuffix-last (d ∷ ds) ys (x ∷ xs) e h n =
    let rest : xs ++ e ∷ [] ≡ ds ++ ys = cc in
    let (kept, l, (gone, s)) = IsSuffix-last ds ys xs e rest n in
    (kept, l, (x ∷ gone, ap (◌∷◌ x) s))

IsSuffix-trans : (xs ys zs : List ConsoleEntry) → IsSuffix xs ys → IsSuffix ys zs → IsSuffix xs zs
IsSuffix-trans xs ys zs (a, p) (b, q) = (b ++ a, q ∙ rw p (sym (append_assoc b a xs)))

charge_one :
    (h : ConsoleHistory) (e : ConsoleEntry)
    → h.lines ≡ e ∷ []
    → IsCounted h
    → h.charged_bytes ≡ entry_charge e
charge_one h e l k = let m = ap charge_of l in omega (arith, k.charge_exact, m)

content_one :
    (h : ConsoleHistory) (e : ConsoleEntry)
    → h.lines ≡ e ∷ []
    → IsCounted h
    → h.content_bytes ≡ length e.line
content_one h e l k = let m = ap content_of l in omega (arith, k.content_exact, m)

module _ (id line : Text) (c : HistoryCache) (v : IsValid c) (a : IsAllocated line)
    (fits : length line ≤ 65536) (affordable : 24 + length line ≤ c.maximum_bytes) where
  recorded-ne-nil : (recorded id line c v a).0.lines ≢ []
  unfolding recorded entry
  recorded-ne-nil =
      pop_while-ne-nil over_limits (entry id line c v a) (old id line c v a).lines _ _ refl
        (grown-IsCounted id line c v a)
        (omega (arith, charged_exact id line c v a, old-charged_le id line c v a))
        (λ h' charged' l k d.
          let one = content_one h' (entry id line c v a) l k in let n = ap length l in ground arith)

  recorded-ends :
      (kept : List ConsoleEntry) × ((recorded id line c v a).0.lines
        ≡ kept ++ entry id line c v a ∷ [])
      × IsSuffix kept (old id line c v a).lines
  unfolding entry
  recorded-ends =
      let (gone, s) = (recorded-Trimmed id line c v a).suffix in
      IsSuffix-last gone _ _ _ s recorded-ne-nil

  remaining-ne-nil : (remaining id line c v a).0.lines ≢ []
  unfolding remaining entry
  remaining-ne-nil =
      let (kept, l, s) = recorded-ends in
      let cost = entry_charge-le (entry id line c v a) a in
      let split = ap charge_of l ∙ charge_of-append kept _ in
      let counted = (recorded-Trimmed id line c v a).counted in
      rw l (
        pop_while-ne-nil (over_budget (evicted id line c v a).maximum_bytes) (entry id line c v a)
          kept _ _ l counted (charge-le id line c v a)
          (λ h' charged' l' k d.
            let one = charge_one h' _ l' k in
            ltb-eq-false _ _ (elim (evicted-Evicted id line c v a).stopped [
              | inl enough ↦ omega (arith, counted.charge_exact, split, one, d)
              | inr alone ↦
                  let all = total_single id _ _ alone (evicted-get id line c v a) in
                  let exact = (evicted-Evicted id line c v a).accounted.charge_exact in
                  let limit = evicted-limit id line c v a in
                  omega (arith, all, exact, limit, one, d, cost)
            ])))

  -- A line of at most 64 KiB, whose charge is within the maximum of a valid cache, stands at the
  -- back of its history after `push`, and is what `push` returns; before it stand the last of the
  -- lines that were there, in their order.
  pub push-keeps_line :
      (h : ConsoleHistory) × (kept : List ConsoleEntry) × (Dict.get id (push id line c).0.entries
        ≡ some h)
      × (h.lines ≡ kept ++ (push id line c).1 ∷ [])
      × IsSuffix kept (or_default (Dict.get id c.entries)).lines
  unfolding push final old entry
  push-keeps_line =
      let (rest, l, s) = recorded-ends in
      let (gone, t) = (remaining-Trimmed id line c v a).suffix in
      let (kept, e, u) =
        IsSuffix-last gone (remaining id line c v a).0.lines rest (entry id line c v a) (sym l ∙ t)
          remaining-ne-nil in
      (
        (remaining id line c v a).0,
        kept,
        rw (push-final id line c v a, Dict.get-insert, same_refl) refl,
        e,
        IsSuffix-trans kept rest _ u s,
      )
