-- ===== src/Tests/History.antt =====
-- The console history on concrete lines: src/grpc/services/console/history.rs.
use agapornis_agent_rust.Base.Dict
use agapornis_agent_rust.Console.History
use agapornis_agent_rust.Console.History.{
  ConsoleEntry, ConsoleHistory, HistoryCache, configured, with_maximum, push, snapshot, remove,
  entry_charge, or_default,
}
use agapornis_agent_rust.Console.History.Accounting.{IsValid}
use agapornis_agent_rust.Console.History.Pushing.{push-IsValid}
use agapornis_agent_rust.Console.History.Pushing.Kept.{push-keeps_line}
use agapornis_agent_rust.Console.History.Pushing.Eviction.{push-evicts_oldest}
use agapornis_agent_rust.Console.History.Runs.{pushed, snapshotted, removed, run, run-IsValid}
use agapornis_agent_rust.Base.{
  ℕ, ◌≤◌, ◌≡◌, refl, none, some, List, [], ◌∷◌, ◌++◌, arith, IsSuffix, Text, same, codes,
}

abbrev alpha : Text
alpha = codes "alpha"

abbrev beta : Text
beta = codes "beta"

abbrev gamma : Text
gamma = codes "gamma"

abbrev twenty : Text
twenty = codes "twenty bytes of text"

-- A cache with room for three lines of 20 bytes.
abbrev small : HistoryCache
unfolding with_maximum
small = with_maximum 140

small-IsValid : IsValid small
unfolding with_maximum
small-IsValid = omega arith

abbrev one_line : HistoryCache
one_line = (push alpha twenty small).0

one_line-IsValid : IsValid one_line
one_line-IsValid = push-IsValid alpha twenty small small-IsValid (omega arith)

abbrev two_lines : HistoryCache
two_lines = (push beta twenty one_line).0

two_lines-IsValid : IsValid two_lines
two_lines-IsValid = push-IsValid beta twenty one_line one_line-IsValid (omega arith)

abbrev three_lines : HistoryCache
three_lines = (push gamma twenty two_lines).0

three_lines-IsValid : IsValid three_lines
three_lines-IsValid = push-IsValid gamma twenty two_lines two_lines-IsValid (omega arith)

-- The history of a server after its line with number 1 came when the clock stood at `access`.
abbrev history_at : ℕ → ConsoleHistory
history_at access = record {
  lines = record { sequence = 1; line = twenty } ∷ [];
  content_bytes = 20;
  charged_bytes = 44;
  next_sequence = 1;
  last_access = access;
}

three_lines_charge : three_lines.charged_bytes ≡ 132
unfolding with_maximum push History.record_line History.evict_to_budget History.evict_others
    History.trim_protected History.pop_while History.oldest entry_charge Dict.get Dict.insert remove
    same
three_lines_charge = refl

-- A fourth line has no room: the server that was silent for longest loses its history.
alpha_evicted : Dict.get alpha (push beta twenty three_lines).0.entries ≡ none
unfolding with_maximum push History.record_line History.evict_to_budget History.evict_others
    History.trim_protected History.pop_while History.oldest entry_charge Dict.get Dict.insert remove
    Dict.remove same
alpha_evicted = refl

alpha_before : Dict.get alpha three_lines.entries ≡ some (history_at 1)
unfolding with_maximum push History.record_line History.evict_to_budget History.evict_others
    History.trim_protected History.pop_while History.oldest entry_charge Dict.get Dict.insert remove
    Dict.remove same
alpha_before = refl

gamma_after : Dict.get gamma (push beta twenty three_lines).0.entries ≡ some (history_at 3)
unfolding with_maximum push History.record_line History.evict_to_budget History.evict_others
    History.trim_protected History.pop_while History.oldest entry_charge Dict.get Dict.insert remove
    Dict.remove same
gamma_after = refl

push-evicts_oldest_example : (Dict.get gamma three_lines.entries ≡ some (history_at 3)) × (1 ≤ 3)
push-evicts_oldest_example =
    push-evicts_oldest beta twenty three_lines three_lines-IsValid (omega arith) alpha gamma
      (unfold same in refl) (unfold same in refl) alpha_before alpha_evicted gamma_after

run-IsValid_example : IsValid (
    run
      (configured (some 70000))
      (pushed alpha twenty ∷ snapshotted alpha ∷ pushed beta [] ∷ removed alpha ∷ []))
run-IsValid_example =
    run-IsValid (some 70000)
      (pushed alpha twenty ∷ snapshotted alpha ∷ pushed beta [] ∷ removed alpha ∷ [])
      (omega arith, (omega arith, tt))

push-keeps_line_example :
    (h : ConsoleHistory) × (kept : List ConsoleEntry) × (Dict.get beta
        (push beta twenty two_lines).0.entries
      ≡ some h)
    × (h.lines ≡ kept ++ (push beta twenty two_lines).1 ∷ [])
    × IsSuffix kept (or_default (Dict.get beta two_lines.entries)).lines
push-keeps_line_example =
    push-keeps_line beta twenty two_lines two_lines-IsValid (omega arith) (omega arith) (
      unfold with_maximum push History.record_line History.evict_to_budget History.evict_others
        History.trim_protected History.pop_while History.oldest entry_charge Dict.get Dict.insert
        remove same in
      omega arith)
