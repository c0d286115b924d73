-- ===== src/Console/History/Budget.antt =====
-- The first loop of `evict_to_budget`: which histories it removes, and when it stops.
use agapornis_agent_rust.Base.Dict
use agapornis_agent_rust.Base.Dict.{Dict, IsDict, AllValues}
use agapornis_agent_rust.Console.History.{
  ConsoleHistory, HistoryCache, remove, oldest, evict_others,
}
use agapornis_agent_rust.Console.History.Accounting.{IsAccounted, IsBounded, remove-IsAccounted}
use agapornis_agent_rust.Console.History.Oldest.{NoneOlder, IsOldest, oldest-none, oldest-IsOldest}
use agapornis_agent_rust.Base.{
  ℕ, zero, suc, ◌-◌, ◌≤◌, ◌≡◌, refl, ◌⊎◌, inl, inr, ◌&&◌, none, some, arith, ltb, if◌then◌else◌,
  Bool-cases, Option-cases, length, Text, same, same_iff,
}

-- What the loop has done to cache `c`, the server `p` being protected.
pub record Evicted (p : Text) (c c' : HistoryCache) : Type 0 where
  pub accounted : IsAccounted c'
  pub bounded : AllValues IsBounded c'.entries
  pub same_limit : c'.maximum_bytes ≡ c.maximum_bytes
  pub same_clock : c'.clock ≡ c.clock
  pub kept : Dict.get p c'.entries ≡ Dict.get p c.entries
  pub unchanged :
      (j : Text) (h : ConsoleHistory)
      → Dict.get j c'.entries ≡ some h
      → Dict.get j c.entries ≡ some h
  pub oldest_first :
      (j : Text) (h : ConsoleHistory)
      → Dict.get j c.entries ≡ some h
      → Dict.get j c'.entries ≡ none
      → NoneOlder p h.last_access c'.entries
  pub stopped : (c'.charged_bytes ≤ c'.maximum_bytes) ⊎ (length c'.entries ≤ 1)

Evicted-here :
    (p : Text) (c : HistoryCache)
    → IsAccounted c
    → AllValues IsBounded c.entries
    → (c.charged_bytes ≤ c.maximum_bytes) ⊎ (length c.entries ≤ 1)
    → Evicted p c c
Evicted-here p c a b s = record {
  accounted = a;
  bounded = b;
  same_limit = refl;
  same_clock = refl;
  kept = refl;
  unchanged = λ j h g. g;
  oldest_first = λ j h g n. cc;
  stopped = s;
}

remove_listed :
    (id : Text) (c : HistoryCache) {h : ConsoleHistory}
    → Dict.get id c.entries ≡ some h
    → remove id c ≡ record c {
      entries = Dict.remove id c.entries;
      charged_bytes = c.charged_bytes - h.charged_bytes;
    }
unfolding remove
remove_listed id c {h} e = rw (e, remove)

Evicted-more :
    (p : Text) (c : HistoryCache) (id : Text) (a : ℕ) {c' : HistoryCache}
    → IsOldest p c.entries id a
    → Evicted p (remove id c) c'
    → Evicted p c c'
Evicted-more p c id a {c'} o r =
    let e = remove_listed id c o.listed in
    let gone : (j : Text)
        → Dict.get j (remove id c).entries ≡ (if same id j then none else Dict.get j c.entries) =
      λ j. rw e (Dict.get-remove id j c.entries) in
    record {
      accounted = r.accounted;
      bounded = r.bounded;
      same_limit = ground (arith, e, r.same_limit);
      same_clock = ground (arith, e, r.same_clock);
      kept = ground (arith, r.kept, gone p, o.other);
      unchanged = λ j h g. ground (arith, r.unchanged j h g, gone j);
      oldest_first = λ j h g n. elim (Bool-cases (same id j)) [
        | inl this ↦ λ j' h' g' other.
            let le = o.least j' h' (ground (arith, r.unchanged j' h' g', gone j')) other in
            ground (arith, same_iff id j, o.access, o.listed, le)
        | inr that ↦ r.oldest_first j h (ground (arith, gone j)) n
      ];
      stopped = r.stopped;
    }

-- Enough fuel is the number of entries.
pub evict_others-Evicted :
    (fuel : ℕ) (p : Text) (c : HistoryCache)
    → length c.entries ≤ suc fuel
    → IsAccounted c
    → AllValues IsBounded c.entries
    → Evicted p c (evict_others fuel p c)
unfolding evict_others
evict_others-Evicted zero p c le a b = Evicted-here p c a b (inr le)
evict_others-Evicted (suc fuel) p c le a b =
    elim (Bool-cases (ltb c.maximum_bytes c.charged_bytes && ltb 1 (length c.entries))) [
      | inr done ↦ rw (done, evict_others) (Evicted-here p c a b (ground arith))
      | inl more ↦
          rw (more, evict_others)
            (elim (Option-cases (oldest p c.entries)) [
              | inl e ↦ rw e (Evicted-here p c a b (inr (oldest-none p c.entries e a.keys)))
              | inr ((id, t), e) ↦
                  let o = oldest-IsOldest p c.entries a.keys id t e in
                  let r = remove_listed id c o.listed in
                  let fewer =
                    Dict.length-remove id c.entries a.keys
                      (Dict.contains_key_of_get id c.entries o.listed) in
                  rw e (
                    Evicted-more p c id t o (
                      evict_others-Evicted fuel p (remove id c) (rw r (omega (arith, fewer)))
                        (remove-IsAccounted id c a)
                        (rw r (Dict.AllValues-remove IsBounded id c.entries b))))
            ])
    ]
