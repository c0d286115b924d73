-- ===== src/Console/History/Pushing.antt =====
-- What `push` leaves: the limits hold again, the new line stands at the back of its history, and
-- the other histories are as they were or gone, the least recently used first.
pub mod Kept
pub mod Eviction
use agapornis_agent_rust.Base.Dict
use agapornis_agent_rust.Base.Dict.{Dict, IsDict, AllValues}
use agapornis_agent_rust.Console.History.{
  ConsoleEntry, ConsoleHistory, HistoryCache, default_history, or_default, next_entry, grown,
  put_back, entry_charge, over_limits, over_budget, pop_while, record_line, trim_protected,
  evict_to_budget, push, configured, with_maximum, unwrap_or, filter_positive, evict_others,
}
use agapornis_agent_rust.Console.History.Trim.{
  IsCounted, Trimmed, pop_while-Trimmed, content_of, charge_of, content_of-append, charge_of-append,
}
use agapornis_agent_rust.Console.History.Accounting.{
  total, charged_at, total_single, charged_at-le-total, IsAccounted, IsBounded, IsValid,
  IsAllocated, put_back-IsAccounted,
}
use agapornis_agent_rust.Console.History.Oldest.{NoneOlder}
use agapornis_agent_rust.Console.History.Budget.{Evicted, evict_others-Evicted}
use agapornis_agent_rust.Base.{
  ℕ, zero, suc, ◌+◌, ◌-◌, ◌*◌, ◌/◌, ◌%◌, ◌^◌, ◌≤◌, ◌<◌, min, max, ◌≡◌, refl, sym, ap, ◌∙◌, ◌≢◌, ◌↔◌,
  ◌⊎◌, inl, inr, Bool, true, false, not, ◌&&◌, ◌||◌, Option, none, some, List, [], ◌∷◌, ◌++◌, map,
  arith, ltb, leb, ◌==◌, if◌then◌else◌, ==_iff, Bool-cases, Option-cases, is_some, length,
  length-append, take, drop, take-append-drop, All, All-append, IsSuffix, Text, same, same_iff,
  same_refl, codes, u64_max, sat_add, wrapping_add, sat_add_exact,
}

entry_charge-le : (e : ConsoleEntry) → IsAllocated e.line → entry_charge e ≡ 24 + length e.line
unfolding entry_charge
entry_charge-le e h = omega arith

module _ (id line : Text) (c : HistoryCache) (v : IsValid c) (a : IsAllocated line) where
  old : ConsoleHistory
  old = or_default (Dict.get id c.entries)

  old-charged : old.charged_bytes ≡ charged_at (Dict.get id c.entries)
  unfolding old
  old-charged = elim (Option-cases (Dict.get id c.entries)) [ inl e ↦ rw e | inr (h, e) ↦ rw e ]

  old-IsCounted : IsCounted old
  unfolding old
  old-IsCounted = elim (Option-cases (Dict.get id c.entries)) [
    | inl e ↦ rw e (record { content_exact = refl; charge_exact = refl })
    | inr (h, e) ↦ rw e (Dict.AllValues-get IsCounted id c.entries v.accounted.counted e)
  ]

  old-IsBounded : IsBounded old
  unfolding old
  old-IsBounded = elim (Option-cases (Dict.get id c.entries)) [
    | inl e ↦ rw e (omega arith)
    | inr (h, e) ↦ rw e (Dict.AllValues-get IsBounded id c.entries v.bounded e)
  ]

  old-charged_le : old.charged_bytes ≤ c.charged_bytes
  old-charged_le =
      omega (arith, old-charged, charged_at-le-total id c.entries, v.accounted.charge_exact)

  entry : ConsoleEntry
  entry = next_entry old line

  grown-IsCounted : IsCounted (grown old line (sat_add c.clock 1))
  unfolding entry
  grown-IsCounted = record {
    content_exact = omega (
      arith,
      old-IsCounted.content_exact,
      old-IsBounded,
      content_of-append old.lines (entry ∷ []),
    );
    charge_exact = omega (
      arith,
      old-IsCounted.charge_exact,
      old-charged_le,
      v,
      entry_charge-le entry a,
      charge_of-append old.lines (entry ∷ []),
    );
  }

  recorded : ConsoleHistory × ℕ
  recorded =
      let h = grown old line (sat_add c.clock 1) in
      pop_while over_limits h.lines h (sat_add c.charged_bytes (entry_charge (next_entry old line)))

  charged_exact :
      sat_add c.charged_bytes (entry_charge entry) ≡ c.charged_bytes + entry_charge entry
  unfolding entry
  charged_exact = omega (arith, v, entry_charge-le entry a)

  recorded-Trimmed :
      Trimmed over_limits
        (grown old line (sat_add c.clock 1))
        (sat_add c.charged_bytes (entry_charge entry))
        recorded.0
        recorded.1
  unfolding recorded entry
  recorded-Trimmed =
      pop_while-Trimmed over_limits _ _ _ refl grown-IsCounted
        (omega (arith, charged_exact, old-charged_le))

  -- The loop of `push` ends within both limits, or with no line left.
  recorded-IsBounded : IsBounded recorded.0
  recorded-IsBounded = elim recorded-Trimmed.stopped [
    | inl done ↦ record { few_lines = ground arith; few_bytes = ground arith }
    | inr empty ↦
        let no_bytes = ap content_of empty in
        record {
          few_lines = rw empty (omega arith);
          few_bytes = omega (arith, recorded-Trimmed.counted.content_exact, no_bytes);
        }
  ]

  -- The cache between the two halves of `push`.
  middle : HistoryCache
  middle = put_back id (record c { clock = sat_add c.clock 1 }) recorded

  middle_lem : record_line id line c ≡ middle
  unfolding middle recorded record_line old
  middle_lem = refl

  middle-IsAccounted : IsAccounted middle
  unfolding middle entry
  middle-IsAccounted =
      put_back-IsAccounted id (record c { clock = sat_add c.clock 1 }) recorded.0 recorded.1
        v.accounted.keys v.accounted.counted recorded-Trimmed.counted
        (omega (
          arith,
          recorded-Trimmed.difference,
          charged_exact,
          old-charged,
          old-charged_le,
          v.accounted.charge_exact,
          entry_charge-le entry a,
          v,
        ))

  middle-IsBounded : AllValues IsBounded middle.entries
  unfolding middle
  middle-IsBounded =
      Dict.AllValues-insert IsBounded id recorded.0 c.entries recorded-IsBounded v.bounded

  evicted : HistoryCache
  evicted = evict_others (length middle.entries) id middle

  evicted-Evicted : Evicted id middle evicted
  unfolding evicted
  evicted-Evicted =
      evict_others-Evicted (length middle.entries) id middle (omega arith) middle-IsAccounted
        middle-IsBounded

  evicted-get : Dict.get id evicted.entries ≡ some recorded.0
  unfolding middle
  evicted-get =
      evicted-Evicted.kept ∙ rw (Dict.get-insert id id recorded.0 c.entries, same_refl) refl

  evicted-limit : evicted.maximum_bytes ≡ c.maximum_bytes
  unfolding middle
  evicted-limit = evicted-Evicted.same_limit

  remaining : ConsoleHistory × ℕ
  remaining =
      pop_while (over_budget evicted.maximum_bytes) recorded.0.lines recorded.0
        evicted.charged_bytes

  final : HistoryCache
  final = put_back id evicted remaining

  trim_protected-final : trim_protected id evicted ≡ final
  unfolding final remaining trim_protected
  trim_protected-final = rw (evicted-get, trim_protected) refl

  push-final : (push id line c).0 ≡ final
  unfolding push evict_to_budget evicted
  push-final = rw middle_lem trim_protected-final

  charge-le : recorded.0.charged_bytes ≤ evicted.charged_bytes
  charge-le =
      let here = rw evicted-get at (charged_at-le-total id evicted.entries) in
      omega (arith, here, evicted-Evicted.accounted.charge_exact)

  remaining-Trimmed :
      Trimmed
        (over_budget evicted.maximum_bytes)
        recorded.0
        evicted.charged_bytes
        remaining.0
        remaining.1
  unfolding remaining
  remaining-Trimmed = pop_while-Trimmed _ _ _ _ refl recorded-Trimmed.counted charge-le

  remaining-within : remaining.1 ≤ evicted.maximum_bytes
  remaining-within = elim remaining-Trimmed.stopped [
    | inl done ↦ ground arith
    | inr empty ↦
        let gone = ap charge_of empty in
        let exact = remaining-Trimmed.counted.charge_exact in
        elim evicted-Evicted.stopped [
          | inl enough ↦ omega (arith, remaining-Trimmed.difference, gone, exact)
          | inr alone ↦
              let all = total_single id evicted.entries recorded.0 alone evicted-get in
              omega (
                arith, remaining-Trimmed.difference, gone, exact, all,
                evicted-Evicted.accounted.charge_exact,
              )
        ]
  ]

  remaining-IsBounded : IsBounded remaining.0
  remaining-IsBounded =
      let (dropped, e) = remaining-Trimmed.suffix in
      let n = ap length e ∙ length-append dropped remaining.0.lines in
      let k = ap content_of e ∙ content_of-append dropped remaining.0.lines in
      record {
        few_lines = omega (arith, n, recorded-IsBounded.few_lines);
        few_bytes = omega (
          arith, k, recorded-IsBounded.few_bytes, remaining-Trimmed.counted.content_exact,
          recorded-Trimmed.counted.content_exact,
        );
      }

  final-IsValid : IsValid final
  unfolding final
  final-IsValid = record {
    accounted =
        put_back-IsAccounted id evicted remaining.0 remaining.1 evicted-Evicted.accounted.keys
          evicted-Evicted.accounted.counted remaining-Trimmed.counted
          (rw evicted-get
            (omega (arith, remaining-Trimmed.difference, evicted-Evicted.accounted.charge_exact)));
    bounded =
        Dict.AllValues-insert IsBounded id remaining.0 evicted.entries remaining-IsBounded
          evicted-Evicted.bounded;
    within = remaining-within;
    limited = omega (arith, evicted-limit, v.limited);
  }

-- After `push` every limit holds again: no history has more than 200 lines or 64 KiB, all counts
-- are exact, and the cache is charged at most its maximum.
pub push-IsValid :
    (id line : Text) (c : HistoryCache) → IsValid c → IsAllocated line → IsValid (push id line c).0
push-IsValid id line c v a = rw (push-final id line c v a) (final-IsValid id line c v a)
