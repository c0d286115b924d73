-- ===== src/Console/History/Accounting.antt =====
-- The count of charged bytes of the whole cache, and the invariant of a cache.
use agapornis_agent_rust.Base.Dict
use agapornis_agent_rust.Base.Dict.{Dict, IsDict, AllValues}
use agapornis_agent_rust.Console.History.{
  ConsoleHistory, HistoryCache, console_history_lines, console_history_bytes,
  max_total_history_bytes, put_back, remove,
}
use agapornis_agent_rust.Console.History.Trim.{IsCounted}
use agapornis_agent_rust.Base.{
  ℕ, ◌+◌, ◌≤◌, ◌≡◌, refl, inl, inr, Option, none, some, [], ◌∷◌, arith, Option-cases, length, Text,
  same_iff,
}

-- What the histories are charged together.
abbrev pub total : Dict ConsoleHistory → ℕ
total [] = 0
total ((id, h) ∷ m) = h.charged_bytes + total m

-- What the history of one server is charged.
abbrev pub charged_at : Option ConsoleHistory → ℕ
charged_at none = 0
charged_at (some h) = h.charged_bytes

pub total-insert :
    (k : Text) (v : ConsoleHistory) (m : Dict ConsoleHistory)
    → total (Dict.insert k v m) + charged_at (Dict.get k m) ≡ total m + v.charged_bytes
unfolding Dict.insert Dict.get
total-insert k v [] = omega arith
total-insert k v ((i, w) ∷ m) = ground (arith, total-insert k v m)

pub total-remove :
    (k : Text) (m : Dict ConsoleHistory)
    → IsDict m
    → total (Dict.remove k m) + charged_at (Dict.get k m) ≡ total m
unfolding Dict.remove Dict.get
total-remove k [] d = refl
total-remove k ((i, w) ∷ m) d =
    ground (arith, same_iff i k, Dict.remove_absent k m, total-remove k m)

pub charged_at-le-total : (k : Text) (m : Dict ConsoleHistory) → charged_at (Dict.get k m) ≤ total m
unfolding Dict.get
charged_at-le-total k [] = omega arith
charged_at-le-total k ((i, w) ∷ m) = ground (arith, charged_at-le-total k m)

-- All counts are exact: no server is listed twice, each history is charged what its lines are,
-- and the cache what its histories are.
pub record IsAccounted (c : HistoryCache) : Type 0 where
  pub keys : IsDict c.entries
  pub counted : AllValues IsCounted c.entries
  pub charge_exact : c.charged_bytes ≡ total c.entries

pub remove-IsAccounted : (id : Text) (c : HistoryCache) → IsAccounted c → IsAccounted (remove id c)
unfolding remove
remove-IsAccounted id c a = elim (Option-cases (Dict.get id c.entries)) [
  | inl e ↦ rw (e, remove) a
  | inr (h, e) ↦
      rw (e, remove)
        (record {
          keys = Dict.remove-IsDict id c.entries a.keys;
          counted = Dict.AllValues-remove IsCounted id c.entries a.counted;
          charge_exact =
              let gone = rw e at (total-remove id c.entries a.keys) in
              omega (arith, a.charge_exact, gone);
        })
]

-- The limits on one history.
pub record IsBounded (h : ConsoleHistory) : Type 0 where
  pub few_lines : length h.lines ≤ console_history_lines
  pub few_bytes : h.content_bytes ≤ console_history_bytes

-- What holds of a cache between two calls.
pub record IsValid (c : HistoryCache) : Type 0 where
  pub accounted : IsAccounted c
  pub bounded : AllValues IsBounded c.entries
  pub within : c.charged_bytes ≤ c.maximum_bytes
  pub limited : c.maximum_bytes ≤ max_total_history_bytes

-- A Rust allocation has at most `isize::MAX` bytes.
abbrev pub IsAllocated : Text → Type 0
IsAllocated line = length line ≤ 9223372036854775807

pub total_single :
    (k : Text) (m : Dict ConsoleHistory) (h : ConsoleHistory)
    → length m ≤ 1
    → Dict.get k m ≡ some h
    → total m ≡ h.charged_bytes
unfolding Dict.get
total_single k [] h le g = absurd (ground arith)
total_single k ((i, w) ∷ []) h le g = ground arith
total_single k (x ∷ y ∷ m) h le g = absurd (omega arith)

-- A history is put in place of the one that stood there, and the count follows it.
pub put_back-IsAccounted :
    (id : Text) (c : HistoryCache) (h : ConsoleHistory) (charged : ℕ)
    → IsDict c.entries
    → AllValues IsCounted c.entries
    → IsCounted h
    → charged + charged_at (Dict.get id c.entries) ≡ total c.entries + h.charged_bytes
    → IsAccounted (put_back id c (h, charged))
put_back-IsAccounted id c h charged d a k e = record {
  keys = Dict.insert-IsDict id h c.entries d;
  counted = Dict.AllValues-insert IsCounted id h c.entries k a;
  charge_exact = omega (arith, total-insert id h c.entries);
}
