-- ===== src/Runtime/Configuration/Properties.antt =====
-- What the edit of one key of a properties file leaves.
use mathlib.Core.Path.{subst}
use mathlib.Core.List.{append-nil}
use agapornis_agent_rust.Base.Str
use agapornis_agent_rust.Runtime.Configuration.Values.{
  Value, null, boolean, number, text, array, object, is_object, replacement_for_current,
  scalar_text,
}
use agapornis_agent_rust.Runtime.Configuration.Lines.{
  edit_lines, or_push, is_separator, is_comment, span_until, properties_key, assigned, set_property,
}
use agapornis_agent_rust.Base.{
  ℕ, ◌<◌, ◌≡◌, refl, sym, ◌∙◌, inl, inr, Bool, true, false, none, some, List, [], ◌∷◌, ◌++◌, arith,
  if◌then◌else◌, Bool-cases, Option-cases, length, All, Text, same, same_refl,
}

-- The line sets the key.
abbrev pub carries : Text → Text → Bool
carries key line = elim (properties_key line) [
  | none ↦ false
  | some (line_key, value) ↦ same line_key key
]

abbrev pub keep : (Text → Bool) → List Text → List Text
keep p [] = []
keep p (line ∷ lines) = if p line then line ∷ keep p lines else keep p lines

-- No character of it ends a key.
abbrev pub IsUnbroken : Text → Type 0
IsUnbroken key = All (λ c. is_separator c ≡ false) key

-- A key that is read back from a line that sets it.
abbrev pub IsKey : Text → Type 0
IsKey key = (is_comment key ≡ false) × IsUnbroken key

span-key :
    (key rest : Text)
    → IsUnbroken key
    → span_until is_separator (key ++ (61 ∷ rest)) ≡ (key, 61 ∷ rest)
unfolding span_until
span-key [] rest h = refl
span-key (c ∷ key) rest h = rw (h.0, span-key key rest h.1) refl

-- A key starts its line.
trim_start-key : (c : ℕ) (s : Text) → is_separator c ≡ false → Str.trim_start (c ∷ s) ≡ c ∷ s
unfolding Str.trim_start Str.trim_start_matches
trim_start-key c s h = let w : Str.is_whitespace c ≡ false = ground arith in rw w refl

is_comment-head : (c : ℕ) (s t : Text) → is_comment (c ∷ s) ≡ is_comment (c ∷ t)
unfolding Str.is_empty Str.starts_with
is_comment-head c s t = refl

properties_key-assigned :
    (print : Value → Text) (key : Text) (value : Value)
    → IsKey key
    → properties_key (assigned print key value)
      ≡ some (key, Str.trim_start_matches is_separator (61 ∷ scalar_text print value))
unfolding properties_key
properties_key-assigned print [] value h =
    absurd (let e = h.0 in unfold Str.is_empty in ground arith)
properties_key-assigned print (c ∷ key) value h =
    let rest : Text = 61 ∷ scalar_text print value in
    rw (trim_start-key c (key ++ rest) h.1.0) (
      rw (is_comment-head c (key ++ rest) key ∙ h.0)
        (rw (span-key (c ∷ key) (scalar_text print value) h.1) refl))

carries-assigned :
    (print : Value → Text) (key other : Text) (value : Value)
    → IsKey key
    → carries other (assigned print key value) ≡ same key other
carries-assigned print key other value h =
    rw (properties_key-assigned print key value h, carries) refl

-- A test that is false of every line that sets the key.
abbrev pub Ignores : (Text → Bool) → Text → Type 0
Ignores p key = (line : Text) → carries key line ≡ true → p line ≡ false

pub scalar_current :
    (value : Value) (current : Text)
    → is_object value ≡ false
    → replacement_for_current value current ≡ some value
unfolding replacement_for_current
scalar_current null current h = refl
scalar_current (boolean b) current h = refl
scalar_current (number n) current h = refl
scalar_current (text t) current h = refl
scalar_current (array a) current h = refl
scalar_current (object o) current h = absurd (ground arith)

module _ (print : Value → Text) (key : Text) (value : Value) (k : IsKey key)
    (scalar : is_object value ≡ false) where
  -- What the edit does to a line.
  set_property-carries :
      (line : Text)
      → set_property print key value line
        ≡ (if carries key line then (assigned print key value, true) else (line, false))
  unfolding set_property
  set_property-carries line = elim (Option-cases (properties_key line)) [
    | inl e ↦ rw (e, set_property, carries) refl
    | inr ((line_key, current), e) ↦
        rw (e, set_property, carries) (rw (scalar_current value (Str.trim current) scalar) refl)
  ]

  abbrev pub edited : List Text → List Text × Bool
  edited = edit_lines (set_property print key value)

  abbrev pub after : List Text → List Text
  after lines = or_push true (assigned print key value) (edited lines)

  sets : carries key (assigned print key value) ≡ true
  sets = carries-assigned print key key value k ∙ same_refl key

  keep-edited :
      (p : Text → Bool) (lines : List Text) → Ignores p key → keep p (edited lines).0 ≡ keep p lines
  unfolding edit_lines
  keep-edited p [] h = refl
  keep-edited p (line ∷ lines) h =
      rw (set_property-carries line) (elim (Bool-cases (carries key line)) [
        | inl e ↦ rw e (rw (h (assigned print key value) sets, h line e) (keep-edited p lines h))
        | inr e ↦ rw e (rw (keep-edited p lines h) refl)
      ])

  keep-append :
      (p : Text → Bool) (lines : List Text) (line : Text)
      → keep p (lines ++ line ∷ []) ≡ keep p lines ++ keep p (line ∷ [])
  keep-append p [] line = refl
  keep-append p (l ∷ lines) line = elim (Bool-cases (p l)) [
    | inl e ↦ rw e (rw (keep-append p lines line) refl)
    | inr e ↦ rw e (keep-append p lines line)
  ]

  pub keep-after :
      (p : Text → Bool) (lines : List Text) → Ignores p key → keep p (after lines) ≡ keep p lines
  keep-after p lines h = elim (Bool-cases (edited lines).1) [
    | inl e ↦ rw e (keep-edited p lines h)
    | inr e ↦ rw e (
        keep-append p (edited lines).0 (assigned print key value)
        ∙ rw (h (assigned print key value) sets) (append-nil _ ∙ keep-edited p lines h))
  ]

  all-edited :
      (lines : List Text)
      → All (λ l. l ≡ assigned print key value) (keep (carries key) (edited lines).0)
  unfolding edit_lines
  all-edited [] = tt
  all-edited (line ∷ lines) = rw (set_property-carries line) (elim (Bool-cases (carries key line)) [
    | inl e ↦ rw e (rw sets (refl, all-edited lines))
    | inr e ↦ rw e (rw e (all-edited lines))
  ])

  some-edited :
      (lines : List Text)
      → (edited lines).1 ≡ true
      → 0 < length (keep (carries key) (edited lines).0)
  unfolding edit_lines
  some-edited [] h = absurd (ground arith)
  some-edited (line ∷ lines) h = elim (Bool-cases (carries key line)) [
    | inl e ↦ rw (set_property-carries line) (rw e (rw sets (omega arith)))
    | inr e ↦
        let f = rw (set_property-carries line) at h in
        let g = rw e at f in rw (set_property-carries line) (rw e (rw e (some-edited lines g)))
  ]

-- The file sets the key, with this line wherever it does.
pub record IsWritten (key line : Text) (lines : List Text) : Type 0 where
  pub set_somewhere : 0 < length (keep (carries key) lines)
  pub set_so : All (λ l. l ≡ line) (keep (carries key) lines)

pushed :
    (line : Text) (lines : List Text)
    → All (λ l. l ≡ line) lines
    → (0 < length (lines ++ line ∷ [])) × All (λ l. l ≡ line) (lines ++ line ∷ [])
pushed line [] h = (omega arith, (refl, tt))
pushed line (l ∷ lines) h = (omega arith, (h.0, (pushed line lines h.1).1))

pub after-IsWritten :
    (print : Value → Text) (key : Text) (value : Value) (k : IsKey key)
    (scalar : is_object value ≡ false) (lines : List Text)
    → IsWritten key (assigned print key value) (after print key value k scalar lines)
after-IsWritten print key value k scalar lines =
    let own = sets print key value k scalar in
    let all = all-edited print key value k scalar lines in
    elim (Bool-cases (edited print key value k scalar lines).1) [
      | inl e ↦
          rw e
            (record { set_somewhere = some-edited print key value k scalar lines e; set_so = all })
      | inr e ↦ rw e (
          let added = assigned print key value in
          let before = keep (carries key) (edited print key value k scalar lines).0 in
          let Good : List Text → Type 0 = λ ls. (0 < length ls) × All (λ l. l ≡ added) ls in
          let eq : keep (carries key) ((edited print key value k scalar lines).0 ++ added ∷ [])
              ≡ before ++ added ∷ [] =
            keep-append print key value k scalar (carries key)
              (edited print key value k scalar lines).0 added
            ∙ rw own refl in
          let good = subst Good (sym eq) (pushed added before all) in
          record { set_somewhere = good.0; set_so = good.1 })
    ]
