-- ===== src/Runtime/Update/Rules.antt =====
-- What holds after a call, whatever fate it meets.
use mathlib.Core.Path.{subst}
use agapornis_agent_rust.Runtime.Update.Calls.{
  Place, Files, Fate, goes_well, fails, Outcome, File, find, put, delete, next, ◌>>◌, act, leave,
  untouched, write, copy, rename, remove_file, set_permissions, read, canonicalize, pass, attempt,
}
use agapornis_agent_rust.Base.{
  ◌≡◌, refl, inl, inr, Option, none, some, List, [], ◌∷◌, Option-cases, Text,
}

-- What holds of an outcome, whether there is a result or none.
abbrev pub Ensures : {A : Type 0} → Outcome A → (Option A → Files → Type 0) → Type 0
Ensures o Q = Q o.result o.files

-- What holds where there is no result, and where there is one.
abbrev pub Cases :
    {A : Type 0} → (Files → Type 0) → (A → Files → Type 0) → Option A → Files → Type 0
Cases W S none f = W f
Cases W S (some a) f = S a f

module _ {A B : Type 0} where
  pub Ensures-next :
      (W : Files → Type 0) (S : A → Files → Type 0) (Q : Option B → Files → Type 0) (k : A → File B)
      (o : Outcome A)
      → Ensures o (Cases W S)
      → ((f : Files) → W f → Q none f)
      → ((a : A) (f : Files) (fates : List Fate) → S a f → Ensures (k a f fates) Q)
      → Ensures (next k o) Q
  unfolding next
  Ensures-next W S Q k o h none_case some_case = elim (Option-cases o.result) [
    | inl e ↦ rw e (none_case o.files (subst (λ (r : Option A). Cases W S r o.files) e h))
    | inr (a, e) ↦
        rw e (some_case a o.files o.fates (subst (λ (r : Option A). Cases W S r o.files) e h))
  ]

-- A call that can be done.
pub Ensures-act :
    (W S : Files → Type 0) (torn : Option Text → Files → Files) (effect : Files → Option Files)
    (f : Files) (fates : List Fate) {after : Files}
    → effect f ≡ some after
    → ((left : Option Text) → W (torn left f))
    → W f
    → S after
    → Ensures (act torn effect f fates) (Cases W (λ done. S))
unfolding act
Ensures-act W S torn effect f [] e t n s = n
Ensures-act W S torn effect f (fails left ∷ fates) e t n s = t left
Ensures-act W S torn effect f (goes_well ∷ fates) e t n s = rw (e, act) s

module _ (W S : Files → Type 0) (f : Files) (fates : List Fate) where
  pub Ensures-copy :
      (p q : Place) {b : Text}
      → find p f ≡ some b
      → ((left : Option Text) → W (leave q left f))
      → W f
      → S (put q b f)
      → Ensures (copy p q f fates) (Cases W (λ done. S))
  unfolding copy
  Ensures-copy p q h t n s = Ensures-act W S (leave q) _ f fates (rw h refl) t n s

  pub Ensures-write :
      (p : Place) (b : Text)
      → ((left : Option Text) → W (leave p left f))
      → W f
      → S (put p b f)
      → Ensures (write p b f fates) (Cases W (λ done. S))
  unfolding write
  Ensures-write p b t n s = Ensures-act W S (leave p) _ f fates refl t n s

  pub Ensures-rename :
      (p q : Place) {b : Text}
      → find p f ≡ some b
      → W f
      → S (put q b (delete p f))
      → Ensures (rename p q f fates) (Cases W (λ done. S))
  unfolding rename
  Ensures-rename p q h n s = Ensures-act W S untouched _ f fates (rw h refl) (λ left. n) n s

  pub Ensures-remove_file :
      (p : Place) {b : Text}
      → find p f ≡ some b
      → W f
      → S (delete p f)
      → Ensures (remove_file p f fates) (Cases W (λ done. S))
  unfolding remove_file
  Ensures-remove_file p h n s = Ensures-act W S untouched _ f fates (rw h refl) (λ left. n) n s

  pub Ensures-set_permissions :
      (p : Place) {b : Text}
      → find p f ≡ some b
      → W f
      → S f
      → Ensures (set_permissions p f fates) (Cases W (λ done. S))
  unfolding set_permissions
  Ensures-set_permissions p h n s = Ensures-act W S untouched _ f fates (rw h refl) (λ left. n) n s

-- A call that only looks.
pub Ensures-read :
    (p : Place) (f : Files) (fates : List Fate) {b : Text}
    → find p f ≡ some b
    → Ensures (read p f fates) (Cases (λ g. g ≡ f) (λ r g. (g ≡ f) × (r ≡ b)))
unfolding read
Ensures-read p f [] h = refl
Ensures-read p f (fails left ∷ fates) h = refl
Ensures-read p f (goes_well ∷ fates) h = rw (h, read) (refl, refl)

pub Ensures-pass :
    (f : Files) (fates : List Fate) → Ensures (pass f fates) (Cases (λ g. g ≡ f) (λ done g. g ≡ f))
unfolding pass
Ensures-pass f fates =
    Ensures-act (λ g. g ≡ f) (λ g. g ≡ f) untouched _ f fates refl (λ left. refl) refl refl

pub Ensures-canonicalize :
    (p : Place) (f : Files) (fates : List Fate) {b : Text}
    → find p f ≡ some b
    → Ensures (canonicalize p f fates) (Cases (λ g. g ≡ f) (λ q g. (g ≡ f) × (q ≡ p)))
unfolding canonicalize
Ensures-canonicalize p f fates h =
    Ensures-next (λ g. g ≡ f) (λ done g. g ≡ f) (Cases (λ g. g ≡ f) (λ q g. (g ≡ f) × (q ≡ p))) _ _
      (Ensures-act (λ g. g ≡ f) (λ g. g ≡ f) untouched _ f fates (rw h refl) (λ left. refl) refl
        refl)
      (λ g e. e) (λ done g rest e. (e, refl))

-- A call whose failure is ignored.
pub Ensures-attempt :
    {A B : Type 0} (W : Files → Type 0) (Q : Option B → Files → Type 0) (m : File A) (k : File B)
    (f : Files) (fates : List Fate)
    → Ensures (m f fates) (Cases W (λ a. W))
    → ((g : Files) (rest : List Fate) → W g → Ensures (k g rest) Q)
    → Ensures ((attempt m >> k) f fates) Q
unfolding attempt next
Ensures-attempt {A} W Q m k f fates h after =
    let o = m f fates in
    elim (Option-cases o.result) [
      | inl e ↦ after o.files o.fates (subst (λ (r : Option A). Cases W (λ a. W) r o.files) e h)
      | inr (a, e) ↦
          after o.files o.fates (subst (λ (r : Option A). Cases W (λ a. W) r o.files) e h)
    ]
