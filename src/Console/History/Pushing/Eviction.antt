-- ===== src/Console/History/Pushing/Eviction.antt =====
-- What `push` does to the histories of the other servers.
use agapornis_agent_rust.Base.Dict
use agapornis_agent_rust.Console.History.{
  ConsoleHistory, HistoryCache, entry_charge, evict_others, push,
}
use agapornis_agent_rust.Console.History.Accounting.{IsValid, IsAllocated}
use agapornis_agent_rust.Console.History.Trim.{Trimmed-le}
use agapornis_agent_rust.Console.History.Pushing.{
  old, entry, recorded-Trimmed, middle, grown-IsCounted, evicted, evicted-Evicted, final,
  push-final, charged_exact,
}
use agapornis_agent_rust.Base.{
  ℕ, zero, suc, ◌+◌, ◌≤◌, ◌≡◌, refl, sym, ap, ◌∙◌, false, none, some, arith, ltb-eq-false, Text,
  same, same_iff,
}

-- The histories of `c'` for servers other than `id` are those of `c`, and what is gone was used
-- no later than what is left.
pub record EvictsOldest (id : Text) (c c' : HistoryCache) : Type 0 where
  pub unchanged :
      (j : Text) (h : ConsoleHistory)
      → same id j ≡ false
      → Dict.get j c'.entries ≡ some h
      → Dict.get j c.entries ≡ some h
  pub oldest_first :
      (j k : Text) (h h' : ConsoleHistory)
      → same id j ≡ false
      → same id k ≡ false
      → Dict.get j c.entries ≡ some h
      → Dict.get j c'.entries ≡ none
      → Dict.get k c'.entries ≡ some h'
      → h.last_access ≤ h'.last_access

evict_others_idle :
    (n : ℕ) (p : Text) (c : HistoryCache)
    → c.charged_bytes ≤ c.maximum_bytes
    → evict_others n p c ≡ c
unfolding evict_others
evict_others_idle zero p c le = refl
evict_others_idle (suc n) p c le =
    rw (ltb-eq-false c.maximum_bytes c.charged_bytes le, evict_others) refl

module _ (id line : Text) (c : HistoryCache) (v : IsValid c) (a : IsAllocated line) where
  get-middle :
      (j : Text)
      → same id j ≡ false
      → Dict.get j (middle id line c v a).entries ≡ Dict.get j c.entries
  unfolding middle
  get-middle j other = rw (Dict.get-insert, other) refl

  get-final :
      (j : Text)
      → same id j ≡ false
      → Dict.get j (push id line c).0.entries ≡ Dict.get j (evicted id line c v a).entries
  unfolding final
  get-final j other = rw (push-final id line c v a, Dict.get-insert, other) refl

  push-EvictsOldest : EvictsOldest id c (push id line c).0
  push-EvictsOldest =
      let r = evicted-Evicted id line c v a in
      record {
        unchanged =
            λ j h other g. sym (get-middle j other) ∙ r.unchanged j h (sym (get-final j other) ∙ g);
        oldest_first = λ j k h h' otherj otherk g gone g'.
            r.oldest_first j h (get-middle j otherj ∙ g) (sym (get-final j otherj) ∙ gone) k h'
              (sym (get-final k otherk) ∙ g') (ground (arith, same_iff id k, same_iff k id));
      }

  -- In a valid cache, a push for one server removes the history of another only if it was used no
  -- later than any third one that is left, and one that is left is as it was before.
  pub push-evicts_oldest :
      (j k : Text) {h h' : ConsoleHistory}
      → same id j ≡ false
      → same id k ≡ false
      → Dict.get j c.entries ≡ some h
      → Dict.get j (push id line c).0.entries ≡ none
      → Dict.get k (push id line c).0.entries ≡ some h'
      → (Dict.get k c.entries ≡ some h') × (h.last_access ≤ h'.last_access)
  push-evicts_oldest j k {h} {h'} otherj otherk g gone g' =
      let r = push-EvictsOldest in
      (r.unchanged k h' otherk g', r.oldest_first j k h h' otherj otherk g gone g')

  -- While a valid cache has room for the line, a push for one server leaves the histories of all
  -- others as they were.
  pub push-keeps_others :
      c.charged_bytes + entry_charge (push id line c).1 ≤ c.maximum_bytes
      → (j : Text) → same id j ≡ false
      → Dict.get j (push id line c).0.entries ≡ Dict.get j c.entries
  unfolding push evicted old entry
  push-keeps_others room j other =
      let le =
        Trimmed-le _ _ _ _ _ (grown-IsCounted id line c v a) (recorded-Trimmed id line c v a) in
      get-final j other
      ∙ ap (λ (m : HistoryCache). Dict.get j m.entries)
          (evict_others_idle _ id (middle id line c v a)
            (unfold middle in omega (arith, le, charged_exact id line c v a)))
      ∙ get-middle j other
