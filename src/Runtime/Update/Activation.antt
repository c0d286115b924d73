-- ===== src/Runtime/Update/Activation.antt =====
-- A process that dies while it activates an update loses no binary.
use agapornis_agent_rust.Base.Str
use mathlib.Core.Path.{subst}
use agapornis_agent_rust.Runtime.Update.{
  Forms, activated_now, marker, previous_agent, previous_temp, activation_state, replace_binary,
  state_before, install, activate_at,
}
use agapornis_agent_rust.Runtime.Update.Calls.{
  Place, exe, staged, same_place, Files, Fate, find, put, delete, give, ◌>>◌, write, rename,
  remove_file,
}
use agapornis_agent_rust.Runtime.Update.Places.{
  put-other, delete-other, leave-other, moved-other, put_self,
}
use agapornis_agent_rust.Runtime.Update.Rules.{
  Cases, Ensures-copy, Ensures-write, Ensures-rename, Ensures-remove_file, Ensures-set_permissions,
  Ensures, Ensures-next,
}
use agapornis_agent_rust.Base.{
  ◌≡◌, refl, sym, ap, ◌∙◌, inl, inr, false, some, List, Text, same, codes,
}
use agapornis_agent_rust.Runtime.Update.Pending.{
  IsOwnName, same_comm, IsBegun, IsKept, IsSafe, IsFound, pending_update_at-IsFound,
}

Ensures-replace_binary :
    (W S : Files → Type 0) (f : Files) (fates : List Fate) (p q : Place) {b : Text}
    → find p f ≡ some b
    → W f
    → S (put q b (delete p f))
    → Ensures (replace_binary p q f fates) (Cases W (λ done. S))
unfolding replace_binary
Ensures-replace_binary W S f fates p q {b} h w s =
    Ensures-next W (λ done g. g ≡ f) (Cases W (λ done. S)) _ _
      (Ensures-set_permissions W (λ g. g ≡ f) f fates p h w refl) (λ g v. v)
      (λ done g rest e.
        Ensures-rename W S g rest p q (ap (find p) e ∙ h) (subst W (sym e) w)
          (subst (λ (k : Files). S (put q b (delete p k))) (sym e) s))

module _ (forms : Forms) (now name old new value : Text) (own : IsOwnName name) where
  abbrev Begun : Files → Type 0
  Begun = IsBegun forms now name old new value

  abbrev Kept : Files → Type 0
  Kept = IsKept forms now name old new value

  abbrev Safe : Files → Type 0
  Safe = IsSafe forms now name old new value

  IsBegun-put :
      (p : Place) (b : Text) (f : Files)
      → same_place p exe ≡ false
      → same_place p (staged name) ≡ false
      → same_place p marker ≡ false
      → Begun f
      → Begun (put p b f)
  IsBegun-put p b f e n m h = (
    put-other p exe b f e ∙ h.0,
    put-other p (staged name) b f n ∙ h.1,
    put-other p marker b f m ∙ h.2,
  )

  finish-IsSafe :
      (f : Files) (fates : List Fate)
      → find exe f ≡ some new
      → Kept f
      → find marker f ≡ some value
      → Ensures ((remove_file marker >> give activated_now) f fates) (λ r. Safe)
  unfolding same
  finish-IsSafe f fates e k m =
      Ensures-next Safe (λ done. Safe) (λ r. Safe) _ _
        (Ensures-remove_file Safe Safe f fates marker m (inr (e, k)) (
          inr (
            delete-other marker exe f refl ∙ e,
            (
              delete-other marker previous_agent f refl ∙ k.0,
              delete-other marker activation_state f refl ∙ k.1,
            ),
          )))
        (λ f h. h) (λ done f fates h. h)

  replace-IsSafe :
      (f : Files) (fates : List Fate)
      → Begun f
      → Kept f
      → Ensures
          ((replace_binary (staged name) exe >> (remove_file marker >> give activated_now)) f fates)
          (λ r. Safe)
  unfolding same
  replace-IsSafe f fates b k =
      let Ready : Files → Type 0 =
        λ g. (find exe g ≡ some new) × Kept g × (find marker g ≡ some value) in
      let to_previous : same name (codes "previous-agent") ≡ false =
        same_comm name (codes "previous-agent") ∙ own.1 in
      let to_state : same name (codes "activation-state.json") ≡ false =
        same_comm name (codes "activation-state.json") ∙ own.3 in
      let to_marker : same name (codes "pending-artifact") ≡ false =
        same_comm name (codes "pending-artifact") ∙ own.0 in
      Ensures-next Safe (λ done. Ready) (λ r. Safe) _ _
        (Ensures-replace_binary Safe Ready f fates (staged name) exe b.1 (inl b.0) (
          put_self exe new (delete (staged name) f),
          (
            moved-other (staged name) exe previous_agent new f to_previous refl ∙ k.0,
            moved-other (staged name) exe activation_state new f to_state refl ∙ k.1,
          ),
          moved-other (staged name) exe marker new f to_marker refl ∙ b.2,
        ))
        (λ g h. h) (λ done g rest h. finish-IsSafe g rest h.0 h.1 h.2)

  record-IsSafe :
      (f : Files) (fates : List Fate)
      → Begun f
      → find previous_agent f ≡ some old
      → Ensures
          ((write activation_state (state_before forms now)
              >> (replace_binary (staged name) exe >> (remove_file marker >> give activated_now)))
            f fates)
          (λ r. Safe)
  unfolding same
  record-IsSafe f fates b k =
      let json = state_before forms now in
      Ensures-next Safe (λ done g. Begun g × Kept g) (λ r. Safe) _ _
        (Ensures-write Safe (λ g. Begun g × Kept g) f fates activation_state json
          (λ left. inl (leave-other activation_state exe left f refl ∙ b.0)) (inl b.0)
          (
            IsBegun-put activation_state json f refl own.3 refl b,
            (
              put-other activation_state previous_agent json f refl ∙ k,
              put_self activation_state json f,
            ),
          ))
        (λ g h. h) (λ done g rest h. replace-IsSafe g rest h.0 h.1)

  keep-IsSafe :
      (f : Files) (fates : List Fate)
      → Begun f
      → find previous_temp f ≡ some old
      → Ensures
          ((rename previous_temp previous_agent
              >> (write activation_state (state_before forms now)
                  >> (replace_binary (staged name) exe
                      >> (remove_file marker >> give activated_now))))
            f fates)
          (λ r. Safe)
  unfolding same
  keep-IsSafe f fates b k =
      let Held : Files → Type 0 = λ g. Begun g × (find previous_agent g ≡ some old) in
      Ensures-next Safe (λ done. Held) (λ r. Safe) _ _
        (Ensures-rename Safe Held f fates previous_temp previous_agent k (inl b.0) (
          (
            moved-other previous_temp previous_agent exe old f refl refl ∙ b.0,
            moved-other previous_temp previous_agent (staged name) old f own.2 own.1 ∙ b.1,
            moved-other previous_temp previous_agent marker old f refl refl ∙ b.2,
          ),
          put_self previous_agent old (delete previous_temp f),
        ))
        (λ g h. h) (λ done g rest h. record-IsSafe g rest h.0 h.1)

  install-IsSafe :
      (f : Files) (fates : List Fate)
      → Begun f
      → Ensures (install forms now name f fates) (λ r. Safe)
  unfolding same install
  install-IsSafe f fates b =
      let Copied : Files → Type 0 = λ g. Begun g × (find previous_temp g ≡ some old) in
      Ensures-next Safe (λ done. Copied) (λ r. Safe) _ _
        (Ensures-copy Safe Copied f fates exe previous_temp b.0
          (λ left. inl (leave-other previous_temp exe left f refl ∙ b.0)) (inl b.0)
          (IsBegun-put previous_temp old f refl own.2 refl b, put_self previous_temp old f))
        (λ g h. h) (λ done g rest h. keep-IsSafe g rest h.0 h.1)

-- Wherever the activation of a pending update stops, by an error or because the process dies, and
-- whatever a write that fails leaves behind: the old binary still runs; or the new one runs, the
-- old one is kept under the name of the previous binary and the state that a rollback reads is
-- written. The update is staged under a name that the agent has no other use for.
pub activate_at-IsSafe :
    (forms : Forms) (now stamp name old new value : Text) (f : Files) (fates : List Fate)
    → IsOwnName name
    → IsBegun forms now name old new value f
    → forms.place_of (Str.trim value) ≡ staged name
    → IsSafe forms now name old new value (activate_at forms now stamp f fates).files
unfolding activate_at
activate_at-IsSafe forms now stamp name old new value f fates own b p =
    rw (b.2, activate_at)
      (Ensures-next (λ g. g ≡ f) (IsFound forms now name old new value f)
        (λ r. IsSafe forms now name old new value) _ _
        (pending_update_at-IsFound forms now name old new value f fates b p)
        (λ g q. inl (ap (find exe) q ∙ b.0))
        (λ found g rest h. elim h.1 [
          | inl e ↦ rw e (inl (ap (find exe) h.0 ∙ b.0))
          | inr e ↦ rw e (
              install-IsSafe forms now name old new value own g rest
                (subst (IsBegun forms now name old new value) (sym h.0) b))
        ]))
