-- ===== src/Runtime/Configuration/Threads.antt =====
-- Which sets of threads are accepted.
use mathlib.Core.Path.{subst}
use agapornis_agent_rust.Base.Str
use agapornis_agent_rust.Base.NatSet
use agapornis_agent_rust.Base.NatSet.{NatSet}
use agapornis_agent_rust.Base.{flatten}
use agapornis_agent_rust.Runtime.Configuration.{
  thread_range, select_threads, select_range, select_segments, or_unpinned, pinned_cpu_set,
}
use agapornis_agent_rust.Base.{
  ℕ, zero, suc, ◌+◌, ◌-◌, ◌≤◌, ◌<◌, max, ◌≡◌, refl, sym, ◌⊎◌, inl, inr, true, false, ◌||◌, Option,
  none, some, List, [], ◌∷◌, arith, ltb, leb, ◌==◌, ==_iff, Bool-cases, Option-cases, All, Text,
}

-- The first and the last thread of each segment.
abbrev pub thread_ranges : List Text → Option (List (ℕ × ℕ))
thread_ranges [] = some []
thread_ranges (segment ∷ segments) = elim (thread_range segment) [
  | none ↦ none
  | some range ↦ elim (thread_ranges segments) [ none ↦ none | some ranges ↦ some (range ∷ ranges) ]
]

abbrev pub Apart : ℕ × ℕ → ℕ × ℕ → Type 0
Apart a b = (a.1 < b.0) ⊎ (b.1 < a.0)

-- Threads of the node, each in one range.
abbrev pub IsPinning : ℕ → List (ℕ × ℕ) → Type 0
IsPinning available [] = Unit
IsPinning available (range ∷ ranges) =
    (range.0 ≤ range.1)
    × (range.1 < available)
    × All (Apart range) ranges
    × IsPinning available ranges

select_threads-chosen :
    (n start : ℕ) (selected : NatSet) {more : NatSet}
    → select_threads n start selected ≡ some more
    → ((t : ℕ) → NatSet.contains t selected ≡ true → NatSet.contains t more ≡ true)
      × ((t : ℕ) → start ≤ t → t < start + n → NatSet.contains t more ≡ true)
      × ((t : ℕ) → start ≤ t → t < start + n → NatSet.contains t selected ≡ false)
unfolding select_threads
select_threads-chosen zero start selected h =
    (λ t c. ground arith, λ t a b. absurd (omega arith), λ t a b. absurd (omega arith))
select_threads-chosen (suc n) start selected {more} h =
    elim (Bool-cases (NatSet.contains start selected)) [
      | inl e ↦ let f = rw e at h in absurd (ground arith)
      | inr e ↦
          let f = rw e at h in
          let (kept, taken, fresh) =
            select_threads-chosen n (suc start) (NatSet.insert start selected) f in
          (
            λ t c. kept t (ground (arith, NatSet.contains-insert start t selected)),
            λ t a b. elim (Bool-cases (start == t)) [
              | inl first ↦ kept t (ground (arith, NatSet.contains-insert start t selected))
              | inr later ↦ taken t (ground arith) (ground arith)
            ],
            λ t a b. elim (Bool-cases (start == t)) [
              | inl first ↦
                  subst (λ (k : ℕ). NatSet.contains k selected ≡ false) ((==_iff start t).0 first) e
              | inr later ↦
                  let f = fresh t (ground arith) (ground arith) in
                  ground (arith, NatSet.contains-insert start t selected)
            ],
          )
    ]

-- Every thread of the range is selected.
abbrev IsTaken : NatSet → ℕ × ℕ → Type 0
IsTaken selected range = (t : ℕ) → range.0 ≤ t → t ≤ range.1 → NatSet.contains t selected ≡ true

IsTaken-Apart :
    (selected : NatSet) (a b : ℕ × ℕ)
    → a.0 ≤ a.1
    → b.0 ≤ b.1
    → IsTaken selected a
    → ((t : ℕ) → b.0 ≤ t → t ≤ b.1 → NatSet.contains t selected ≡ false)
    → Apart a b
IsTaken-Apart selected (a, b) (c, d) h i taken fresh = elim (Bool-cases (ltb b c)) [
  | inl e ↦ inl (ground arith)
  | inr e ↦ elim (Bool-cases (ltb d a)) [
    | inl f ↦ inr (ground arith)
    | inr f ↦
        let t = max a c in
        let yes_so = taken t (ground arith) (ground arith) in
        let not_so = fresh t (ground arith) (ground arith) in absurd (ground arith)
  ]
]

select_range-IsTaken :
    (available : ℕ) (range : ℕ × ℕ) (selected : NatSet) {more : NatSet}
    → select_range available range selected ≡ some more
    → (range.0 ≤ range.1)
      × (range.1 < available)
      × ((t : ℕ) → NatSet.contains t selected ≡ true → NatSet.contains t more ≡ true)
      × IsTaken more range
      × ((t : ℕ) → range.0 ≤ t → t ≤ range.1 → NatSet.contains t selected ≡ false)
unfolding select_range
select_range-IsTaken available (start, end) selected h =
    elim (Bool-cases (ltb end start || leb available end)) [
      | inl e ↦ let f = rw e at h in absurd (ground arith)
      | inr e ↦
          let f = rw e at h in
          let (kept, taken, fresh) = select_threads-chosen (suc end - start) start selected f in
          (
            ground arith,
            ground arith,
            kept,
            λ t a b. taken t a (ground arith),
            λ t a b. fresh t a (ground arith),
          )
    ]

joined :
    (segment : Text) (segments : List Text) (range : ℕ × ℕ) (ranges : List (ℕ × ℕ))
    → thread_range segment ≡ some range
    → thread_ranges segments ≡ some ranges
    → thread_ranges (segment ∷ segments) ≡ some (range ∷ ranges)
joined segment segments range ranges e h = rw (e, thread_ranges, h) refl

select_segments-IsPinning :
    (available : ℕ) (segments : List Text) (selected : NatSet) {more : NatSet}
    → select_segments available segments selected ≡ some more
    → (ranges : List (ℕ × ℕ)) × (thread_ranges segments ≡ some ranges)
      × IsPinning available ranges
      × ((q : ℕ × ℕ) → q.0 ≤ q.1 → IsTaken selected q → All (Apart q) ranges)
unfolding select_segments
select_segments-IsPinning available [] selected h = ([], refl, tt, λ q a b. tt)
select_segments-IsPinning available (segment ∷ segments) selected h =
    elim (Option-cases (thread_range segment)) [
      | inl e ↦ let f = rw (e, select_segments) at h in absurd (ground arith)
      | inr (range, e) ↦
          let f = rw (e, select_segments) at h in
          elim (Option-cases (select_range available range selected)) [
            | inl g ↦ let k = rw g at f in absurd (ground arith)
            | inr (after, g) ↦
                let k = rw g at f in
                let (ranges, parsed, pinned, apart) =
                  select_segments-IsPinning available segments after k in
                let (order, below, kept, taken, fresh) =
                  select_range-IsTaken available range selected g in
                (
                  range ∷ ranges,
                  joined segment segments range ranges e parsed,
                  (order, below, apart range order taken, pinned),
                  λ q a b. (
                    IsTaken-Apart selected q range a order b fresh,
                    apart q a (λ t c d. kept t (b t c d)),
                  ),
                )
          ]
    ]

unpinned_value :
    (value : Text) (selected : NatSet) {set : Text}
    → or_unpinned value selected ≡ some set
    → value ≡ set
unpinned_value value [] h = absurd (ground arith)
unpinned_value value (t ∷ selected) h = cc

-- A set of threads that is accepted is the text without its spaces; it lists ranges, from the first
-- thread of each to the last, of threads that the node has, and no thread is in two of them.
pub pinned_cpu_set-IsPinning :
    (available : ℕ) (value : Text) {set : Text}
    → pinned_cpu_set available value ≡ some (some set)
    → (set ≡ flatten (Str.split_whitespace value))
      × (ranges : List (ℕ × ℕ)) × (thread_ranges (Str.split b',' set) ≡ some ranges)
      × IsPinning available ranges
unfolding pinned_cpu_set
pinned_cpu_set-IsPinning available value {set} h =
    let compact = flatten (Str.split_whitespace value) in
    elim (Bool-cases (Str.is_empty compact)) [
      | inl e ↦ let f = rw e at h in absurd (ground arith)
      | inr e ↦
          let f = rw e at h in
          elim (Option-cases (select_segments available (Str.split b',' compact) [])) [
            | inl g ↦ let k = rw g at f in absurd (ground arith)
            | inr (selected, g) ↦
                let k = rw g at f in
                let same_set = unpinned_value compact selected {set = set} (ground arith) in
                let (ranges, parsed, pinned, apart) =
                  select_segments-IsPinning available (Str.split b',' compact) [] g in
                (
                  sym same_set,
                  ranges,
                  subst (λ (s : Text). thread_ranges (Str.split b',' s) ≡ some ranges) same_set
                      parsed,
                  pinned,
                )
          ]
    ]
