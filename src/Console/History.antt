-- ===== src/Console/History.antt =====
-- The bounded console history: src/grpc/services/console/history.rs.
-- A server id and a console line are texts. `HashMap` is a `Dict`, whose order stands for the
-- iteration order of the map; `VecDeque` is a list with its front first.
pub mod Trim
pub mod Oldest
pub mod Budget
pub mod Pushing
pub mod Runs
pub mod Accounting
use agapornis_agent_rust.Base.Dict
use agapornis_agent_rust.Base.Dict.{Dict}
use agapornis_agent_rust.Base.{
  ℕ, zero, suc, ◌+◌, ◌-◌, ◌*◌, ◌/◌, ◌%◌, ◌^◌, ◌≤◌, ◌<◌, min, max, ◌≡◌, refl, sym, ap, ◌∙◌, ◌≢◌, ◌↔◌,
  ◌⊎◌, inl, inr, Bool, true, false, not, ◌&&◌, ◌||◌, Option, none, some, List, [], ◌∷◌, ◌++◌, map,
  arith, ltb, leb, ◌==◌, if◌then◌else◌, ==_iff, Bool-cases, Option-cases, is_some, length,
  length-append, take, drop, take-append-drop, All, All-append, IsSuffix, Text, same, same_iff,
  same_refl, codes, u64_max, sat_add, wrapping_add, sat_add_exact,
}

abbrev pub console_history_lines : ℕ
console_history_lines = 200

abbrev pub console_history_bytes : ℕ
console_history_bytes = 65536

abbrev pub default_total_history_bytes : ℕ
default_total_history_bytes = 67108864

abbrev pub max_total_history_bytes : ℕ
max_total_history_bytes = 1073741824

pub record ConsoleEntry : Type 0 where
  pub sequence : ℕ  -- u64
  pub line : Text

pub record ConsoleHistory : Type 0 where
  pub lines : List ConsoleEntry
  pub content_bytes : ℕ
  pub charged_bytes : ℕ
  pub next_sequence : ℕ  -- u64
  pub last_access : ℕ  -- u64

-- `ConsoleHistory::default()`
abbrev pub default_history : ConsoleHistory
default_history = record {
  lines = [];
  content_bytes = 0;
  charged_bytes = 0;
  next_sequence = 0;
  last_access = 0;
}

pub record HistoryCache : Type 0 where
  pub entries : Dict ConsoleHistory
  pub charged_bytes : ℕ
  pub maximum_bytes : ℕ
  pub clock : ℕ  -- u64

unfoldable pub with_maximum : ℕ → HistoryCache
with_maximum maximum_bytes = record {
  entries = [];
  charged_bytes = 0;
  maximum_bytes = max maximum_bytes 1;
  clock = 0;
}

-- `filter(|value| *value > 0)`
abbrev pub filter_positive : Option ℕ → Option ℕ
filter_positive none = none
filter_positive (some n) = if ltb 0 n then some n else none

abbrev pub unwrap_or : Option ℕ → ℕ → ℕ
unwrap_or none d = d
unwrap_or (some n) d = n

abbrev pub clamp : ℕ → ℕ → ℕ → ℕ
clamp n lo hi = max lo (min n hi)

-- The argument is the parsed value of AGAPORNIS_CONSOLE_HISTORY_TOTAL_BYTES, if there is one.
unfoldable pub configured : Option ℕ → HistoryCache
unfolding with_maximum
configured value = with_maximum (
    clamp (unwrap_or (filter_positive value) default_total_history_bytes) console_history_bytes
      max_total_history_bytes)

-- `size_of::<ConsoleEntry>()`: a `u64` and the two words of an `Arc<str>`, on 64-bit targets.
abbrev pub entry_size : ℕ
entry_size = 24

unfoldable pub entry_charge : ConsoleEntry → ℕ
entry_charge entry = sat_add entry_size (length entry.line)

-- The body of both `pop_front` loops: the entry leaves the history and both counts.
abbrev pub removed_front : ConsoleEntry → List ConsoleEntry → ConsoleHistory → ConsoleHistory
removed_front removed rest h = record h {
  lines = rest;
  content_bytes = h.content_bytes - length removed.line;
  charged_bytes = h.charged_bytes - entry_charge removed;
}

-- `while over { let Some(removed) = lines.pop_front() else { break }; … }`. The first list is
-- `lines`, and the number is the cache's `charged_bytes`.
unfoldable pub pop_while :
    (ConsoleHistory → ℕ → Bool) → List ConsoleEntry → ConsoleHistory → ℕ → ConsoleHistory × ℕ
pop_while over [] h charged = (h, charged)
pop_while over (removed ∷ rest) h charged =
    let again =
      pop_while over rest (removed_front removed rest h) (charged - entry_charge removed) in
    if over h charged then again else (h, charged)

-- The condition of the loop in `push`.
abbrev pub over_limits : ConsoleHistory → ℕ → Bool
over_limits h charged =
    ltb console_history_lines (length h.lines) || ltb console_history_bytes h.content_bytes

-- The condition of the last loop of `evict_to_budget`.
abbrev pub over_budget : ℕ → ConsoleHistory → ℕ → Bool
over_budget maximum h charged = ltb maximum charged

unfoldable pub remove : Text → HistoryCache → HistoryCache
remove id c = elim (Dict.get id c.entries) [
  | none ↦ c
  | some history ↦ record c {
    entries = Dict.remove id c.entries;
    charged_bytes = c.charged_bytes - history.charged_bytes;
  }
]

abbrev pub older : Text × ℕ → Option (Text × ℕ) → Option (Text × ℕ)
older a none = some a
older (i, a) (some (j, b)) = if leb a b then some (i, a) else some (j, b)

-- `iter().filter(other).min_by_key(last_access)`: the first of the least, with its key.
unfoldable pub oldest : Text → Dict ConsoleHistory → Option (Text × ℕ)
oldest protected_id [] = none
oldest protected_id ((id, history) ∷ m) =
    let rest = oldest protected_id m in
    if same id protected_id then rest else older (id, history.last_access) rest

-- The first loop of `evict_to_budget`, on fuel: each round removes one of the entries.
unfoldable pub evict_others : ℕ → Text → HistoryCache → HistoryCache
evict_others zero protected_id c = c
evict_others (suc fuel) protected_id c =
    elim (ltb c.maximum_bytes c.charged_bytes && ltb 1 (length c.entries)) [
      | false ↦ c
      | true ↦ elim (oldest protected_id c.entries) [
        | none ↦ c
        | some (id, _) ↦ evict_others fuel protected_id (remove id c)
      ]
    ]

abbrev pub put_back : Text → HistoryCache → ConsoleHistory × ℕ → HistoryCache
put_back id c (history, charged) = record c {
  entries = Dict.insert id history c.entries;
  charged_bytes = charged;
}

-- The second loop of `evict_to_budget`, on the history of the protected server.
unfoldable pub trim_protected : Text → HistoryCache → HistoryCache
trim_protected protected_id c = elim (Dict.get protected_id c.entries) [
  | none ↦ c
  | some history ↦
      put_back protected_id c
        (pop_while (over_budget c.maximum_bytes) history.lines history c.charged_bytes)
]

unfoldable pub evict_to_budget : Text → HistoryCache → HistoryCache
evict_to_budget protected_id c =
    trim_protected protected_id (evict_others (length c.entries) protected_id c)

-- `entries.entry(id).or_default()`
abbrev pub or_default : Option ConsoleHistory → ConsoleHistory
or_default none = default_history
or_default (some history) = history

abbrev pub next_entry : ConsoleHistory → Text → ConsoleEntry
next_entry h line = record { sequence = sat_add h.next_sequence 1; line = line }

-- The history once the new entry stands at its back, before the loop.
abbrev pub grown : ConsoleHistory → Text → ℕ → ConsoleHistory
grown h line access = record {
  lines = h.lines ++ next_entry h line ∷ [];
  content_bytes = sat_add h.content_bytes (length line);
  charged_bytes = sat_add h.charged_bytes (entry_charge (next_entry h line));
  next_sequence = sat_add h.next_sequence 1;
  last_access = access;
}

-- `push` up to the call of `evict_to_budget`.
unfoldable pub record_line : Text → Text → HistoryCache → HistoryCache
record_line id line c =
    let access = sat_add c.clock 1 in
    let old = or_default (Dict.get id c.entries) in
    let h = grown old line access in
    put_back id (record c { clock = access })
      (pop_while over_limits h.lines h
        (sat_add c.charged_bytes (entry_charge (next_entry old line))))

unfoldable pub push : Text → Text → HistoryCache → HistoryCache × ConsoleEntry
push id line c = (
  evict_to_budget id (record_line id line c),
  next_entry (or_default (Dict.get id c.entries)) line,
)

abbrev pub last_sequence : List ConsoleEntry → ℕ
last_sequence [] = 0
last_sequence (e ∷ []) = e.sequence
last_sequence (e ∷ f ∷ es) = last_sequence (f ∷ es)

unfoldable pub snapshot : Text → HistoryCache → HistoryCache × (List Text × ℕ)
snapshot id c =
    let clock = sat_add c.clock 1 in
    elim (Dict.get id c.entries) [
      | none ↦ (record c { clock = clock }, ([], 0))
      | some history ↦ (
        record c {
          clock = clock;
          entries = Dict.insert id (record history { last_access = clock }) c.entries;
        },
        (map (λ (e : ConsoleEntry). e.line) history.lines, last_sequence history.lines),
      )
    ]
