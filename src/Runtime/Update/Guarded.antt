-- ===== src/Runtime/Update/Guarded.antt =====
-- What holds after a call that may not be possible.
use mathlib.Core.Option.{map as map_option}
use mathlib.Core.Path.{subst}
use agapornis_agent_rust.Runtime.Update.Calls.{
  Place, Files, Fate, goes_well, fails, find, put, delete, act, leave, untouched, remove_file, read,
  canonicalize, create_new, append,
}
use agapornis_agent_rust.Base.{
  ◌≡◌, refl, inl, inr, Option, none, some, List, [], ◌∷◌, ◌++◌, arith, if◌then◌else◌, Option-cases,
  is_some, Text,
}
use agapornis_agent_rust.Runtime.Update.Places.{put_self}
use agapornis_agent_rust.Runtime.Update.Rules.{Cases, Ensures, Ensures-act, Ensures-next}

-- A call that may be one that cannot be done.
Ensures-act_if :
    (W S : Files → Type 0) (torn : Option Text → Files → Files) (effect : Files → Option Files)
    (f : Files) (fates : List Fate)
    → ((left : Option Text) → W (torn left f))
    → W f
    → ((after : Files) → effect f ≡ some after → S after)
    → Ensures (act torn effect f fates) (Cases W (λ done. S))
unfolding act
Ensures-act_if W S torn effect f [] t n s = n
Ensures-act_if W S torn effect f (fails left ∷ fates) t n s = t left
Ensures-act_if W S torn effect f (goes_well ∷ fates) t n s = elim (Option-cases (effect f)) [
  | inl e ↦ rw (e, act) n
  | inr (after, e) ↦ rw (e, act) (s after e)
]

create_new_effect :
    (p : Place) (f after : Files)
    → (if is_some (find p f) then none else some (put p [] f)) ≡ some after
    → put p [] f ≡ after
create_new_effect p f after e = elim (Option-cases (find p f)) [
  | inl h ↦ let known = rw h at e in cc
  | inr (b, h) ↦ let known = rw h at e in absurd (ground arith)
]

remove_file_effect :
    (p : Place) (f after : Files)
    → map_option (λ b. delete p f) (find p f) ≡ some after
    → delete p f ≡ after
remove_file_effect p f after e = elim (Option-cases (find p f)) [
  | inl h ↦ let known = rw h at e in absurd (ground arith)
  | inr (b, h) ↦ let known = rw h at e in cc
]

leave-keeps :
    (W : Files → Type 0) (p : Place) (left : Option Text) (f : Files)
    → ((b : Text) (g : Files) → W g → W (put p b g))
    → W f
    → W (leave p left f)
leave-keeps W p none f keep w = w
leave-keeps W p (some b) f keep w = keep b f w

module _ (W : Files → Type 0) (p : Place) (f : Files) (fates : List Fate) where
  pub Ensures-create_new :
      ((b : Text) (g : Files) → W g → W (put p b g))
      → W f
      → Ensures (create_new p f fates) (Cases W (λ done g. W g × (find p g ≡ some [])))
  unfolding create_new
  Ensures-create_new keep w =
      Ensures-act_if W _ untouched _ f fates (λ left. w) w
        (λ after e.
          subst (λ (g : Files). W g × (find p g ≡ some [])) (create_new_effect p f after e)
            (keep [] f w, put_self p [] f))

  pub Ensures-append :
      (b : Text) {old : Text}
      → ((c : Text) (g : Files) → W g → W (put p c g))
      → W f
      → find p f ≡ some old
      → Ensures (append p b f fates) (Cases W (λ done g. W g × (find p g ≡ some (old ++ b))))
  unfolding append
  Ensures-append b {old} keep w h =
      Ensures-act W _ (leave p) _ f fates (rw h refl) (λ left. leave-keeps W p left f keep w) w
        (keep (old ++ b) f w, put_self p (old ++ b) f)

  pub Ensures-removal :
      ((g : Files) → W g → W (delete p g))
      → W f
      → Ensures (remove_file p f fates) (Cases W (λ done. W))
  unfolding remove_file
  Ensures-removal keep w =
      Ensures-act_if W W untouched _ f fates (λ left. w) w
        (λ after e. subst W (remove_file_effect p f after e) (keep f w))

-- A call that only looks, wherever it does.
pub canonicalize-keeps :
    (p : Place) (f : Files) (fates : List Fate)
    → Ensures (canonicalize p f fates) (Cases (λ g. g ≡ f) (λ q g. g ≡ f))
unfolding canonicalize
canonicalize-keeps p f fates =
    Ensures-next (λ g. g ≡ f) (λ done g. g ≡ f) (Cases (λ g. g ≡ f) (λ q g. g ≡ f)) _ _
      (Ensures-act_if (λ g. g ≡ f) (λ g. g ≡ f) untouched _ f fates (λ left. refl) refl
        (λ after e. elim (Option-cases (find p f)) [
          | inl h ↦ let known = rw h at e in absurd (ground arith)
          | inr (b, h) ↦ let known = rw h at e in cc
        ]))
      (λ g e. e) (λ done g rest e. e)

pub read-keeps :
    (p : Place) (f : Files) (fates : List Fate)
    → Ensures (read p f fates) (Cases (λ g. g ≡ f) (λ b g. g ≡ f))
unfolding read
read-keeps p f [] = refl
read-keeps p f (fails left ∷ fates) = refl
read-keeps p f (goes_well ∷ fates) = elim (Option-cases (find p f)) [
  | inl h ↦ rw (h, read) refl
  | inr (b, h) ↦ rw (h, read) refl
]
