-- ===== src/Runtime/Update/Restoring.antt =====
-- The old binary comes back: by a rollback, and by the start that follows an activation.
use mathlib.Core.Path.{subst}
use agapornis_agent_rust.Runtime.Update.{
  Forms, ActivationState, ActivationOutcome, rolled_back, previous_agent, activation_state,
  failed_agent, state_at, state_before, restore, roll_back_to, rollback_at,
}
use agapornis_agent_rust.Runtime.Update.Calls.{
  Place, exe, find-delete, Files, Fate, find, delete, give, give_up, ◌>>◌, attempt, rename,
  remove_file,
}
use agapornis_agent_rust.Runtime.Update.Places.{delete-other, moved-other, put_self}
use agapornis_agent_rust.Runtime.Update.Rules.{
  Cases, Ensures-read, Ensures-rename, Ensures-remove_file, Ensures, Ensures-next, Ensures-attempt,
}
use agapornis_agent_rust.Runtime.Update.Pending.{IsKept}
use agapornis_agent_rust.Base.{
  ◌≡◌, refl, ap, ◌∙◌, ◌⊎◌, inl, inr, Bool, Option, none, some, List, Option-cases, Text, same,
}

-- The forms are read back as they were written.
pub record IsFaithful (forms : Forms) : Type 0 where
  pub read_back : (state : ActivationState) → forms.from_json (forms.to_json state) ≡ some state
  pub found_again : (p : Place) → forms.place_of (forms.display p) ≡ p

module _ (old new stamp : Text) where
  -- The old binary runs, or waits under the name of the previous one; the new one is kept too.
  abbrev pub IsHeld : Files → Type 0
  IsHeld g =
      ((find exe g ≡ some old) × (find (failed_agent stamp) g ≡ some new))
      ⊎ ((find previous_agent g ≡ some old)
          × ((find exe g ≡ some new) ⊎ (find (failed_agent stamp) g ≡ some new)))

  -- The rollback is done.
  abbrev pub IsRestored : Files → Type 0
  IsRestored g =
      (find exe g ≡ some old)
      × (find (failed_agent stamp) g ≡ some new)
      × (find activation_state g ≡ none)

  abbrev pub IsRolledBack : Option ActivationOutcome → Files → Type 0
  IsRolledBack = Cases IsHeld (λ r g. (r ≡ rolled_back) × IsRestored g)

  finish-IsRolledBack :
      (f : Files) (fates : List Fate) {json : Text}
      → find exe f ≡ some old
      → find (failed_agent stamp) f ≡ some new
      → find activation_state f ≡ some json
      → Ensures ((remove_file activation_state >> give rolled_back) f fates) IsRolledBack
  unfolding same
  finish-IsRolledBack f fates e k s =
      Ensures-next IsHeld (λ done. IsRestored) IsRolledBack _ _
        (Ensures-remove_file IsHeld IsRestored f fates activation_state s (inl (e, k)) (
          delete-other activation_state exe f refl ∙ e,
          delete-other activation_state (failed_agent stamp) f refl ∙ k,
          rw find-delete refl,
        ))
        (λ g h. h) (λ done g rest h. (refl, h))

  -- The way back, where the old binary cannot be moved.
  give_back-IsHeld :
      (f : Files) (fates : List Fate)
      → find previous_agent f ≡ some old
      → find (failed_agent stamp) f ≡ some new
      → Ensures {A = ActivationOutcome}
          ((attempt (rename (failed_agent stamp) exe) >> give_up) f fates)
          IsRolledBack
  unfolding same
  give_back-IsHeld f fates p k =
      let Both : Files → Type 0 = λ g.
        (find previous_agent g ≡ some old)
        × ((find exe g ≡ some new) ⊎ (find (failed_agent stamp) g ≡ some new)) in
      Ensures-attempt Both IsRolledBack (rename (failed_agent stamp) exe) _ f fates
        (Ensures-rename Both Both f fates (failed_agent stamp) exe k (p, inr k)
          (
            moved-other (failed_agent stamp) exe previous_agent new f refl refl ∙ p,
            inl (put_self exe new (delete (failed_agent stamp) f)),
          ))
        (λ g rest h. inr h)

  restore-IsRolledBack :
      (f : Files) (fates : List Fate) {json : Text}
      → find previous_agent f ≡ some old
      → find (failed_agent stamp) f ≡ some new
      → find activation_state f ≡ some json
      → Ensures (restore previous_agent (failed_agent stamp) f fates) IsRolledBack
  unfolding same restore
  restore-IsRolledBack f fates {json} p k s =
      let Waits : Files → Type 0 =
        λ g. (find previous_agent g ≡ some old) × (find (failed_agent stamp) g ≡ some new) in
      let Runs : Files → Type 0 = λ g.
        (find exe g ≡ some old)
        × (find (failed_agent stamp) g ≡ some new)
        × (find activation_state g ≡ some json) in
      let moved = rename previous_agent exe f fates in
      let facts : Ensures moved (Cases Waits (λ done. Runs)) =
        Ensures-rename Waits Runs f fates previous_agent exe p (p, k)
          (
            put_self exe old (delete previous_agent f),
            moved-other previous_agent exe (failed_agent stamp) old f refl refl ∙ k,
            moved-other previous_agent exe activation_state old f refl refl ∙ s,
          ) in
      elim (Option-cases moved.result) [
        | inl e ↦
            let w = subst (λ (r : Option Bool). Cases Waits (λ done. Runs) r moved.files) e facts in
            rw (e, restore) (give_back-IsHeld moved.files moved.fates w.0 w.1)
        | inr (done, e) ↦
            let w = subst (λ (r : Option Bool). Cases Waits (λ done. Runs) r moved.files) e facts in
            rw (e, restore) (finish-IsRolledBack moved.files moved.fates w.0 w.1 w.2)
      ]

  roll_back_to-IsRolledBack :
      (forms : Forms) (state : ActivationState) (f : Files) (fates : List Fate) {json : Text}
      → forms.place_of state.previous ≡ previous_agent
      → find previous_agent f ≡ some old
      → find exe f ≡ some new
      → find activation_state f ≡ some json
      → Ensures (roll_back_to forms stamp (some state) f fates) IsRolledBack
  unfolding same
  roll_back_to-IsRolledBack forms state f fates {json} l p r s =
      let Moved : Files → Type 0 = λ g.
        (find previous_agent g ≡ some old)
        × (find (failed_agent stamp) g ≡ some new)
        × (find activation_state g ≡ some json) in
      rw l (
        rw p (
          Ensures-next IsHeld (λ done. Moved) IsRolledBack _ _
            (Ensures-rename IsHeld Moved f fates exe (failed_agent stamp) r (inr (p, inl r)) (
              moved-other exe (failed_agent stamp) previous_agent new f refl refl ∙ p,
              put_self (failed_agent stamp) new (delete exe f),
              moved-other exe (failed_agent stamp) activation_state new f refl refl ∙ s,
            ))
            (λ g h. h) (λ done g rest h. restore-IsRolledBack g rest h.0 h.1 h.2)))

-- Wherever a rollback of an activation stops, the old binary is where it can be found: it runs, or
-- it still stands under the name of the previous binary; and the new one is kept as well. Where it
-- ends without an error, the old binary runs, the new one is kept under the name of the failed
-- one, and the state is removed.
pub rollback_at-IsRolledBack :
    (forms : Forms) (now stamp name old new value : Text) (f : Files) (fates : List Fate)
    → IsFaithful forms
    → find exe f ≡ some new
    → IsKept forms now name old new value f
    → Ensures (rollback_at forms stamp f fates) (IsRolledBack old new stamp)
unfolding rollback_at same
rollback_at-IsRolledBack forms now stamp name old new value f fates faithful e k =
    rw (k.1, rollback_at)
      (Ensures-next (λ g. g ≡ f) (λ raw g. (g ≡ f) × (raw ≡ state_before forms now))
        (IsRolledBack old new stamp) _ _ (Ensures-read activation_state f fates k.1)
        (λ g q. inr (ap (find previous_agent) q ∙ k.0, inl (ap (find exe) q ∙ e)))
        (λ raw g rest q.
          let p : find previous_agent g ≡ some old = ap (find previous_agent) q.0 ∙ k.0 in
          let r : find exe g ≡ some new = ap (find exe) q.0 ∙ e in
          let s : find activation_state g ≡ some (state_before forms now) =
            ap (find activation_state) q.0 ∙ k.1 in
          rw (q.1, faithful.read_back)
            (roll_back_to-IsRolledBack old new stamp forms (state_at forms now) g rest
              (faithful.found_again previous_agent) p r s)))
