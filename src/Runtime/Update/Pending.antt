-- ===== src/Runtime/Update/Pending.antt =====
-- The state of the files before an activation, and what the marker is found to name.
use agapornis_agent_rust.Base.Str
use mathlib.Core.Path.{subst}
use agapornis_agent_rust.Runtime.Update.{
  Forms, marker, previous_agent, activation_state, resolve_pending, pending_update_at, state_before,
}
use agapornis_agent_rust.Runtime.Update.Calls.{exe, staged, Files, Fate, find}
use agapornis_agent_rust.Runtime.Update.Rules.{
  Cases, Ensures-read, Ensures-pass, Ensures-canonicalize, Ensures, Ensures-next,
}
use agapornis_agent_rust.Base.{
  ◌≡◌, refl, sym, ap, ◌∙◌, ◌⊎◌, inl, inr, false, Option, none, some, List, arith, Bool-cases, Text,
  same, same_iff, codes,
}

-- The names that an update is not staged under.
abbrev pub IsOwnName : Text → Type 0
IsOwnName name =
    (same (codes "pending-artifact") name ≡ false)
    × (same (codes "previous-agent") name ≡ false)
    × (same (codes "previous-agent.tmp") name ≡ false)
    × (same (codes "activation-state.json") name ≡ false)

pub same_comm : (a b : Text) → same a b ≡ same b a
same_comm a b = ground (arith, same_iff a b, same_iff b a)

module _ (forms : Forms) (now name old new value : Text) where
  -- The old binary runs, and the new one is pending.
  abbrev pub IsBegun : Files → Type 0
  IsBegun f =
      (find exe f ≡ some old) × (find (staged name) f ≡ some new) × (find marker f ≡ some value)

  -- The old binary can be put back.
  abbrev pub IsKept : Files → Type 0
  IsKept f =
      (find previous_agent f ≡ some old) × (find activation_state f ≡ some (state_before forms now))

  -- The old binary runs, or the new one does and the old one can be put back.
  abbrev pub IsSafe : Files → Type 0
  IsSafe f = (find exe f ≡ some old) ⊎ ((find exe f ≡ some new) × IsKept f)

  -- What is pending, if anything is found to be.
  abbrev pub IsFound : Files → Option Text → Files → Type 0
  IsFound f found g = (g ≡ f) × ((found ≡ none) ⊎ (found ≡ some name))

  resolve_pending-IsFound :
      (text : Text) (f : Files) (fates : List Fate)
      → IsBegun f
      → forms.place_of text ≡ staged name
      → Ensures (resolve_pending forms text f fates) (Cases (λ g. g ≡ f) (IsFound f))
  unfolding resolve_pending
  resolve_pending-IsFound text f fates b p = elim (Bool-cases (Str.is_empty text)) [
    | inl e ↦ rw e (refl, inl refl)
    | inr e ↦
        rw (e, p)
          (Ensures-next (λ g. g ≡ f) (λ done g. g ≡ f) (Cases (λ g. g ≡ f) (IsFound f)) _ _
            (Ensures-pass f fates) (λ g q. q)
            (λ done g rest q.
              Ensures-next (λ k. k ≡ g) (λ at k. (k ≡ g) × (at ≡ staged name))
                (Cases (λ k. k ≡ f) (IsFound f)) _ _
                (Ensures-canonicalize (staged name) g rest (ap (find (staged name)) q ∙ b.1))
                (λ k r. r ∙ q) (λ at k last r. rw r.1 (r.0 ∙ q, inr refl))))
  ]

  pub pending_update_at-IsFound :
      (f : Files) (fates : List Fate)
      → IsBegun f
      → forms.place_of (Str.trim value) ≡ staged name
      → Ensures (pending_update_at forms f fates) (Cases (λ g. g ≡ f) (IsFound f))
  unfolding pending_update_at
  pending_update_at-IsFound f fates b p =
      rw (b.2, pending_update_at)
        (Ensures-next (λ g. g ≡ f) (λ raw g. (g ≡ f) × (raw ≡ value))
          (Cases (λ g. g ≡ f) (IsFound f)) _ _ (Ensures-read marker f fates b.2) (λ g q. q)
          (λ raw g rest q. rw q.1 (
            subst
              (λ (k : Files).
                Ensures (resolve_pending forms (Str.trim value) k rest)
                  (Cases (λ m. m ≡ f) (IsFound f)))
              (sym q.0) (resolve_pending-IsFound (Str.trim value) f rest b p))))
