-- ===== src/Runtime/Configuration/Environment.antt =====
-- The environment that a container gets.
use agapornis_agent_rust.Base.Str
use agapornis_agent_rust.Base.Dict
use agapornis_agent_rust.Runtime.Configuration.{
  xdg_runtime_dir_key, managed_xdg_runtime_dir, managed_xdg_runtime_tmpfs_options, xdg_value,
  runtime_environment_value, or_managed, configured_dir, other_entries, runtime_environment,
  HostConfig, is_managed, ensure_runtime_tmpfs, or_empty, runtime_tmpfs_ready,
}
use agapornis_agent_rust.Base.{
  ℕ, ◌≡◌, ◌≢◌, refl, sym, ap, ◌∙◌, inl, inr, true, false, Option, none, some, List, [], ◌∷◌, ◌++◌,
  arith, ◌==◌, ==_iff, Bool-cases, Option-cases, Text, same, same_iff, same_refl, codes,
}

xdg_value_entry : (dir : Text) → xdg_value (xdg_runtime_dir_key ++ (codes "=" ++ dir)) ≡ some dir
unfolding xdg_value Str.split_once same
xdg_value_entry dir = refl

value_of_last :
    (values : List Text) (dir : Text)
    → runtime_environment_value (values ++ (xdg_runtime_dir_key ++ (codes "=" ++ dir)) ∷ [])
      ≡ some dir
unfolding runtime_environment_value
value_of_last [] dir = xdg_value_entry dir
value_of_last (entry ∷ values) dir = rw (value_of_last values dir) refl

pair_of :
    {a b c d : Text}
    → ◌≡◌ {A = Option (Text × Text)} (some (a, b)) (some (c, d))
    → (a ≡ c) × (b ≡ d)
pair_of h = (cc, cc)

ensured_ready :
    (host_config : HostConfig) (environment : List Text)
    → runtime_tmpfs_ready (some (ensure_runtime_tmpfs host_config environment)) environment ≡ true
unfolding runtime_tmpfs_ready ensure_runtime_tmpfs
ensured_ready host_config environment = elim (Bool-cases (is_managed environment)) [
  | inl e ↦ rw e (
      rw
        (Dict.get-insert_self managed_xdg_runtime_dir managed_xdg_runtime_tmpfs_options
          (or_empty host_config.tmpfs))
        (same_refl managed_xdg_runtime_tmpfs_options))
  | inr e ↦ rw e refl
]

-- An entry that names a directory for the runtime.
abbrev pub entry_for : Text → Text
entry_for dir = xdg_runtime_dir_key ++ (codes "=" ++ dir)

-- `kept` is what is left of the entries without those that name a directory for the runtime.
pub data Without : List Text → List Text → Type 0 where
  done : Without [] []
  drops :
      (dir : Text) {entries kept : List Text}
      → Without entries kept
      → Without (entry_for dir ∷ entries) kept
  keeps :
      (entry : Text) {entries kept : List Text}
      → ((dir : Text) → entry ≢ entry_for dir)
      → Without entries kept
      → Without (entry ∷ entries) (entry ∷ kept)

-- `dir` is the directory that the last of these entries to name one names; none does for `none`.
pub data Names : List Text → Option Text → Type 0 where
  nothing : Names [] none
  last :
      (dir : Text) {entries : List Text}
      → Names entries none
      → Names (entry_for dir ∷ entries) (some dir)
  before :
      (entry dir : Text) {entries : List Text}
      → Names entries (some dir)
      → Names (entry ∷ entries) (some dir)
  other :
      (entry : Text) {entries : List Text}
      → ((dir : Text) → entry ≢ entry_for dir)
      → Names entries none
      → Names (entry ∷ entries) none

-- The directory of the runtime when the entries name this one.
pub data Chosen : Option Text → Text → Type 0 where
  nowhere : Chosen none managed_xdg_runtime_dir
  blank :
      (asked : Text)
      → Str.is_empty (Str.trim asked) ≡ true
      → Chosen (some asked) managed_xdg_runtime_dir
  asked_for :
      (asked : Text) → Str.is_empty (Str.trim asked) ≡ false → Chosen (some asked) (Str.trim asked)

split_once-joined :
    (s : Text) {a b : Text}
    → Str.split_once (λ c. c == b'=') s ≡ some (a, b)
    → s ≡ a ++ (codes "=" ++ b)
unfolding Str.split_once
split_once-joined [] h = absurd (ground arith)
split_once-joined (d ∷ s) {a} {b} h = elim (Bool-cases (d == b'=')) [
  | inl e ↦
      let f = rw e at h in
      let (front, back) = pair_of f in
      ap (λ (k : ℕ). k ∷ s) ((==_iff d b'=').0 e)
      ∙ ap (λ (t : Text). b'=' ∷ t) back
      ∙ ap (λ (t : Text). t ++ (b'=' ∷ b)) front
  | inr e ↦
      let f = rw e at h in
      elim (Option-cases (Str.split_once (λ c. c == b'=') s)) [
        | inl g ↦ absurd (let k = rw g at f in ground arith)
        | inr ((x, y), g) ↦
            let k = rw g at f in
            let (front, back) = pair_of k in
            ap (◌∷◌ d) (split_once-joined s g)
            ∙ ap (λ (t : Text). d ∷ (x ++ (b'=' ∷ t))) back
            ∙ ap (λ (t : Text). t ++ (b'=' ∷ b)) front
      ]
]

xdg_value-entry_for :
    (entry : Text) {dir : Text} → xdg_value entry ≡ some dir → entry ≡ entry_for dir
unfolding xdg_value
xdg_value-entry_for entry {dir} h = elim (Option-cases (Str.split_once (λ c. c == b'=') entry)) [
  | inl e ↦ absurd (let f = rw e at h in ground arith)
  | inr ((key, value), e) ↦
      let f = rw e at h in
      elim (Bool-cases (same key xdg_runtime_dir_key)) [
        | inr g ↦ absurd (let k = rw g at f in ground arith)
        | inl g ↦
            let k = rw g at f in
            let is : value ≡ dir = cc in
            split_once-joined entry e
            ∙ ap (λ (t : Text). t ++ (codes "=" ++ value)) ((same_iff key xdg_runtime_dir_key).0 g)
            ∙ ap entry_for is
      ]
]

not_entry_for : (entry : Text) → xdg_value entry ≡ none → (dir : Text) → entry ≢ entry_for dir
not_entry_for entry h dir e =
    let both : none ≡ some dir = sym h ∙ ap xdg_value e ∙ xdg_value_entry dir in ground arith

other_entries-Without : (values : List Text) → Without values (other_entries values)
unfolding other_entries
other_entries-Without [] = done
other_entries-Without (entry ∷ values) = elim (Option-cases (xdg_value entry)) [
  | inl e ↦
      rw (e, other_entries) (keeps entry (not_entry_for entry e) (other_entries-Without values))
  | inr (dir, e) ↦
      rw (e, other_entries)
        (rw (xdg_value-entry_for entry e) (drops dir (other_entries-Without values)))
]

value-Names : (values : List Text) → Names values (runtime_environment_value values)
unfolding runtime_environment_value
value-Names [] = nothing
value-Names (entry ∷ values) = elim (Option-cases (runtime_environment_value values)) [
  | inr (dir, e) ↦
      rw (e, runtime_environment_value) (before entry dir (rw e at (value-Names values)))
  | inl e ↦
      let unnamed : Names values none = rw e at (value-Names values) in
      rw (e, runtime_environment_value)
        (elim (Option-cases (xdg_value entry)) [
          | inl f ↦ rw f (other entry (not_entry_for entry f) unnamed)
          | inr (dir, f) ↦ rw f (rw (xdg_value-entry_for entry f) (last dir unnamed))
        ])
]

or_managed-Chosen : (value : Option Text) → Chosen value (or_managed value)
or_managed-Chosen none = nowhere
or_managed-Chosen (some asked) = elim (Bool-cases (Str.is_empty (Str.trim asked))) [
  | inl e ↦ rw e (blank asked e)
  | inr e ↦ rw e (asked_for asked e)
]

-- The environment of a container is what was given without the entries that name a directory for
-- the runtime, in order, and after it one entry that names the directory: what the last of those
-- entries asked for, trimmed, or the managed directory where it is blank or there is none. With the
-- temporary file system that is ensured for this environment the container is ready.
pub runtime_environment-ready :
    (values : List Text) (host_config : HostConfig)
    → let environment = runtime_environment values in
      ((kept : List Text) × (asked : Option Text) × (dir : Text) × Without values kept
        × Names values asked
        × Chosen asked dir
        × (environment ≡ kept ++ entry_for dir ∷ [])
        × (runtime_environment_value environment ≡ some dir))
      × (runtime_tmpfs_ready (some (ensure_runtime_tmpfs host_config environment)) environment
          ≡ true)
unfolding runtime_environment
runtime_environment-ready values host_config = (
  (
    other_entries values,
    runtime_environment_value values,
    configured_dir values,
    other_entries-Without values,
    value-Names values,
    or_managed-Chosen (runtime_environment_value values),
    refl,
    value_of_last (other_entries values) (configured_dir values),
  ),
  ensured_ready host_config _,
)
