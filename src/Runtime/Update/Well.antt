-- ===== src/Runtime/Update/Well.antt =====
-- Calls that go well.
use mathlib.Core.Option.{map as map_option}
use agapornis_agent_rust.Runtime.Update.Calls.{
  Place, Files, Fate, goes_well, find, put, delete, give, next, act, leave, untouched, write, copy,
  rename, remove_file, set_permissions, read, canonicalize,
}
use agapornis_agent_rust.Base.{ℕ, zero, suc, ◌≡◌, refl, true, Option, some, List, ◌∷◌, Text}

-- `n` calls that go well.
abbrev pub well : ℕ → List Fate → List Fate
well zero fates = fates
well (suc n) fates = goes_well ∷ well n fates

act-well :
    (torn : Option Text → Files → Files) (effect : Files → Option Files) (f : Files)
    (fates : List Fate) {after : Files}
    → effect f ≡ some after
    → act torn effect f (goes_well ∷ fates) ≡ give true after fates
unfolding act
act-well torn effect f fates e = rw (e, act) refl

module _ (f : Files) (fates : List Fate) where
  pub copy-well :
      (p q : Place) {b : Text}
      → find p f ≡ some b
      → copy p q f (goes_well ∷ fates) ≡ give true (put q b f) fates
  unfolding copy
  copy-well p q h = act-well (leave q) _ f fates (rw h refl)

  pub rename-well :
      (p q : Place) {b : Text}
      → find p f ≡ some b
      → rename p q f (goes_well ∷ fates) ≡ give true (put q b (delete p f)) fates
  unfolding rename
  rename-well p q h = act-well untouched _ f fates (rw h refl)

  pub remove_file-well :
      (p : Place) {b : Text}
      → find p f ≡ some b
      → remove_file p f (goes_well ∷ fates) ≡ give true (delete p f) fates
  unfolding remove_file
  remove_file-well p h = act-well untouched _ f fates (rw h refl)

  pub set_permissions-well :
      (p : Place) {b : Text}
      → find p f ≡ some b
      → set_permissions p f (goes_well ∷ fates) ≡ give true f fates
  unfolding set_permissions
  set_permissions-well p h = act-well untouched _ f fates (rw h refl)

  pub write-well :
      (p : Place) (b : Text) → write p b f (goes_well ∷ fates) ≡ give true (put p b f) fates
  unfolding write act
  write-well p b = refl

  pub read-well :
      (p : Place) {b : Text} → find p f ≡ some b → read p f (goes_well ∷ fates) ≡ give b f fates
  unfolding read
  read-well p h = rw h refl

  pub canonicalize-well :
      (p : Place) {b : Text}
      → find p f ≡ some b
      → canonicalize p f (goes_well ∷ fates) ≡ give p f fates
  unfolding canonicalize next
  canonicalize-well p h =
      rw (act-well untouched (λ g. map_option (λ c. g) (find p g)) f fates {after = f} (rw h refl))
        refl
