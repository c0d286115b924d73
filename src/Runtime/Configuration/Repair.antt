-- ===== src/Runtime/Configuration/Repair.antt =====
-- The repair of a command that an earlier version of the agent gave to a container.
use mathlib.Core.Path.{subst}
use agapornis_agent_rust.Base.Str
use agapornis_agent_rust.Runtime.Configuration.{
  runtime_server_command, if_filled, legacy_runtime_command, legacy_of,
  repair_legacy_runtime_command,
}
use agapornis_agent_rust.Base.{
  ℕ, ◌≡◌, refl, sym, ap, ◌∙◌, ◌⊎◌, inl, inr, true, false, ◌&&◌, Option, none, some, List, [], ◌∷◌,
  ◌++◌, arith, ◌==◌, ==_iff, Bool-cases, Option-cases, Text, same, same_iff, codes,
}

some_of : {a b : Text} → some a ≡ some b → a ≡ b
some_of h = cc

if_filled_cases :
    (value : Option Text) {startup : Text}
    → if_filled value ≡ some startup
    → (value ≡ some startup) × (Str.is_empty (Str.trim startup) ≡ false)
if_filled_cases none h = absurd (ground arith)
if_filled_cases (some value) h = elim (Bool-cases (Str.is_empty (Str.trim value))) [
  | inl e ↦ let f = rw e at h in absurd (ground arith)
  | inr e ↦
      let f = rw e at h in
      (f, subst (λ (s : Text). Str.is_empty (Str.trim s) ≡ false) (some_of f) e)
]

strip_prefix-joined :
    (prefix text : Text) {rest : Text}
    → Str.strip_prefix prefix text ≡ some rest
    → text ≡ prefix ++ rest
unfolding Str.strip_prefix
strip_prefix-joined [] text h = cc
strip_prefix-joined (c ∷ prefix) [] h = absurd (ground arith)
strip_prefix-joined (c ∷ prefix) (d ∷ text) {rest} h = elim (Bool-cases (d == c)) [
  | inl e ↦
      let f = rw e at h in
      ap (λ (k : ℕ). k ∷ text) ((==_iff d c).0 e) ∙ ap (◌∷◌ c) (strip_prefix-joined prefix text f)
  | inr e ↦ let f = rw e at h in absurd (ground arith)
]

-- A command of the old form, for this startup line.
abbrev pub old_command : Text → List Text
old_command startup = codes "/bin/sh" ∷ (codes "-lc" ∷ ((codes "exec " ++ startup) ∷ []))

-- A command that runs the launcher, for this startup line.
abbrev pub new_command : Text → Text → List Text
new_command launcher startup =
    codes "/bin/sh"
    ∷ (codes "-lc" ∷ (launcher ∷ (codes "agapornis-runtime" ∷ ((codes "exec " ++ startup) ∷ []))))

three_words :
    (shell option line : Text) {startup : Text}
    → legacy_runtime_command (shell ∷ (option ∷ (line ∷ []))) ≡ some startup
    → ((shell ∷ (option ∷ (line ∷ []))) ≡ old_command startup)
      × (Str.is_empty (Str.trim startup) ≡ false)
unfolding legacy_runtime_command
three_words shell option line {startup} h =
    elim (Bool-cases (same shell (codes "/bin/sh") && same option (codes "-lc"))) [
      | inl e ↦
          let f = rw e at h in
          let (g, filled) =
            if_filled_cases (Str.strip_prefix (codes "exec ") line) {startup = startup} f in
          let a : same shell (codes "/bin/sh") ≡ true = ground arith in
          let b : same option (codes "-lc") ≡ true = ground arith in
          (
            ap (λ (s : Text). s ∷ (option ∷ (line ∷ []))) ((same_iff shell (codes "/bin/sh")).0 a)
                ∙ ap (λ (s : Text). codes "/bin/sh" ∷ (s ∷ (line ∷ [])))
                    ((same_iff option (codes "-lc")).0 b)
                ∙ ap (λ (s : Text). codes "/bin/sh" ∷ (codes "-lc" ∷ (s ∷ [])))
                    (strip_prefix-joined (codes "exec ") line g),
            filled,
          )
      | inr e ↦ let f = rw e at h in absurd (ground arith)
    ]

legacy-old_command :
    (command : Option (List Text)) {startup : Text}
    → legacy_of command ≡ some startup
    → (command ≡ some (old_command startup)) × (Str.is_empty (Str.trim startup) ≡ false)
unfolding legacy_runtime_command
legacy-old_command none h = absurd (ground arith)
legacy-old_command (some []) h = absurd (ground arith)
legacy-old_command (some (a ∷ [])) h = absurd (ground arith)
legacy-old_command (some (a ∷ (b ∷ []))) h = absurd (ground arith)
legacy-old_command (some (a ∷ (b ∷ (c ∷ [])))) {startup} h =
    let (e, filled) = three_words a b c {startup = startup} h in
    (ap (λ (l : List Text). some l) e, filled)
legacy-old_command (some (a ∷ (b ∷ (c ∷ (d ∷ l))))) h = absurd (ground arith)

unrepaired :
    (launcher : Text) (command : Option (List Text))
    → legacy_of command ≡ none
    → repair_legacy_runtime_command launcher command ≡ (command, false)
unfolding repair_legacy_runtime_command
unrepaired launcher command e = rw (e, repair_legacy_runtime_command) refl

repaired :
    (launcher startup : Text) (command : Option (List Text))
    → legacy_of command ≡ some startup
    → Str.is_empty (Str.trim startup) ≡ false
    → repair_legacy_runtime_command launcher command ≡ (some (new_command launcher startup), true)
unfolding repair_legacy_runtime_command runtime_server_command
repaired launcher startup command e filled = rw (e, repair_legacy_runtime_command) (rw filled refl)

-- A command of the old form is one that the repair looks for.
old_command-legacy :
    (startup : Text)
    → Str.is_empty (Str.trim startup) ≡ false
    → legacy_of (some (old_command startup)) ≡ some startup
unfolding legacy_runtime_command same Str.strip_prefix
old_command-legacy startup filled = rw filled refl

never_old :
    (startup : Text) (command : Option (List Text))
    → command ≡ some (old_command startup)
    → legacy_of command ≡ none
    → Str.is_empty (Str.trim startup) ≡ true
never_old startup command old e = elim (Bool-cases (Str.is_empty (Str.trim startup))) [
  | inl blank ↦ blank
  | inr filled ↦
      let found : none ≡ some startup =
        sym e ∙ ap legacy_of old ∙ old_command-legacy startup filled in
      absurd (ground arith)
]

-- A command that has the old form, with a startup line that is not blank, is changed into one that
-- gives this line to the launcher as it was; a command that is changed is of that form, and any
-- other is left as it is. A second repair changes nothing.
pub repair_legacy_runtime_command-once :
    (launcher : Text) (command : Option (List Text))
    → let (after, changed) = repair_legacy_runtime_command launcher command in
      (repair_legacy_runtime_command launcher after ≡ (after, false))
      × (((changed ≡ false)
            × (after ≡ command)
            × ((startup : Text)
                → command ≡ some (old_command startup)
                → Str.is_empty (Str.trim startup) ≡ true))
          ⊎ ((startup : Text) × (changed ≡ true)
              × (command ≡ some (old_command startup))
              × (Str.is_empty (Str.trim startup) ≡ false)
              × (after ≡ some (new_command launcher startup))))
unfolding legacy_runtime_command
repair_legacy_runtime_command-once launcher command = elim (Option-cases (legacy_of command)) [
  | inl e ↦
      let known = unrepaired launcher command e in
      rw known (known, inl (refl, refl, λ startup old. never_old startup command old e))
  | inr (startup, e) ↦
      let (old, filled) = legacy-old_command command {startup = startup} e in
      rw (repaired launcher startup command e filled) (
        unrepaired launcher (some (new_command launcher startup)) refl,
        inr (startup, refl, old, filled, refl),
      )
]
