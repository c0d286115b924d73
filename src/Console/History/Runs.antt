-- ===== src/Console/History/Runs.antt =====
-- Every cache that the service can reach is valid: all calls on it, in any order.
use agapornis_agent_rust.Base.Dict
use agapornis_agent_rust.Base.Dict.{Dict, AllValues}
use agapornis_agent_rust.Console.History.{
  ConsoleHistory, HistoryCache, configured, remove, push, snapshot,
}
use agapornis_agent_rust.Console.History.Trim.{IsCounted}
use agapornis_agent_rust.Console.History.Accounting.{
  IsBounded, IsValid, IsAllocated, total-insert, remove-IsAccounted,
}
use agapornis_agent_rust.Console.History.Pushing.{push-IsValid}
use agapornis_agent_rust.Base.{
  ℕ, ◌≡◌, inl, inr, Option, none, some, List, [], ◌∷◌, arith, Option-cases, Text, sat_add,
}

-- The cache that `configured` makes is valid, whatever the environment says.
pub configured-IsValid : (value : Option ℕ) → IsValid (configured value)
unfolding configured
configured-IsValid none = omega arith
configured-IsValid (some n) = ground arith

remove-IsValid : (id : Text) (c : HistoryCache) → IsValid c → IsValid (remove id c)
unfolding remove
remove-IsValid id c v = elim (Option-cases (Dict.get id c.entries)) [
  | inl e ↦ rw (e, remove) v
  | inr (h, e) ↦
      let a = remove-IsAccounted id c v.accounted in
      rw (e, remove)
        (record {
          accounted = rw (e, remove) at a;
          bounded = Dict.AllValues-remove IsBounded id c.entries v.bounded;
          within = omega (arith, v.within);
          limited = v.limited;
        })
]

-- A history that is only touched counts for the same.
touched-IsValid :
    (id : Text) (c : HistoryCache) (h : ConsoleHistory) (access : ℕ)
    → Dict.get id c.entries ≡ some h
    → IsValid c
    → IsValid (record c {
      clock = access;
      entries = Dict.insert id (record h { last_access = access }) c.entries;
    })
touched-IsValid id c h access e v =
    let k = Dict.AllValues-get IsCounted id c.entries v.accounted.counted e in
    let b = Dict.AllValues-get IsBounded id c.entries v.bounded e in
    let t = rw e at (total-insert id (record h { last_access = access }) c.entries) in
    record {
      accounted = record {
        keys = Dict.insert-IsDict id _ c.entries v.accounted.keys;
        counted =
            Dict.AllValues-insert IsCounted id _ c.entries
              (record { content_exact = k.content_exact; charge_exact = k.charge_exact })
              v.accounted.counted;
        charge_exact = omega (arith, t, v.accounted.charge_exact);
      };
      bounded =
          Dict.AllValues-insert IsBounded id _ c.entries
            (record { few_lines = b.few_lines; few_bytes = b.few_bytes }) v.bounded;
      within = v.within;
      limited = v.limited;
    }

snapshot-IsValid : (id : Text) (c : HistoryCache) → IsValid c → IsValid (snapshot id c).0
unfolding snapshot
snapshot-IsValid id c v = elim (Option-cases (Dict.get id c.entries)) [
  | inl e ↦
      rw (e, snapshot)
        (record {
          accounted = record {
            keys = v.accounted.keys;
            counted = v.accounted.counted;
            charge_exact = v.accounted.charge_exact;
          };
          bounded = v.bounded;
          within = v.within;
          limited = v.limited;
        })
  | inr (h, e) ↦ rw (e, snapshot) (touched-IsValid id c h (sat_add c.clock 1) e v)
]

-- The calls on a cache.
pub data Call : Type 0 where
  pushed : Text → Text → Call
  snapshotted : Text → Call
  removed : Text → Call

unfoldable pub run : HistoryCache → List Call → HistoryCache
run c [] = c
run c (pushed id line ∷ calls) = run (push id line c).0 calls
run c (snapshotted id ∷ calls) = run (snapshot id c).0 calls
run c (removed id ∷ calls) = run (remove id c) calls

-- Each line that is pushed fits in memory.
abbrev pub AllAllocated : List Call → Type 0
AllAllocated [] = Unit
AllAllocated (pushed id line ∷ calls) = IsAllocated line × AllAllocated calls
AllAllocated (snapshotted id ∷ calls) = AllAllocated calls
AllAllocated (removed id ∷ calls) = AllAllocated calls

run-IsValid_from :
    (calls : List Call) (c : HistoryCache) → AllAllocated calls → IsValid c → IsValid (run c calls)
unfolding run
run-IsValid_from [] c a v = v
run-IsValid_from (pushed id line ∷ calls) c a v =
    run-IsValid_from calls (push id line c).0 a.1 (push-IsValid id line c v a.0)
run-IsValid_from (snapshotted id ∷ calls) c a v =
    run-IsValid_from calls (snapshot id c).0 a (snapshot-IsValid id c v)
run-IsValid_from (removed id ∷ calls) c a v =
    run-IsValid_from calls (remove id c) a (remove-IsValid id c v)

-- From the configured cache, whatever the environment says, no order of pushes, snapshots and
-- removals breaks a limit or a count, if each line has at most `isize::MAX` bytes: each history
-- keeps at most 200 lines and 64 KiB, and the cache is charged exactly what its lines are, and no
-- more than its maximum.
pub run-IsValid :
    (value : Option ℕ) (calls : List Call)
    → AllAllocated calls
    → IsValid (run (configured value) calls)
run-IsValid value calls a = run-IsValid_from calls (configured value) a (configured-IsValid value)
