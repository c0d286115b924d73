-- ===== src/Runtime/Update/Return.antt =====
-- Activation where every call goes well, and the start after it.
use agapornis_agent_rust.Base.Str
use agapornis_agent_rust.Runtime.Update.{
  Forms, activated_now, rolled_back, marker, previous_agent, previous_temp, activation_state,
  failed_agent, replace_binary, resolve_pending, pending_update_at, state_before, install, restore,
  rollback_at, activate_at,
}
use agapornis_agent_rust.Runtime.Update.Calls.{
  Place, exe, staged, same_place, find-delete, Files, Fate, goes_well, find, put, delete, give,
  next, ◌>>◌, act, remove_file, pass,
}
use agapornis_agent_rust.Runtime.Update.Places.{
  put-other, delete-other, moved-other, put_self, same_place_refl,
}
use agapornis_agent_rust.Runtime.Update.Well.{
  well, copy-well, rename-well, remove_file-well, set_permissions-well, write-well, read-well,
  canonicalize-well,
}
use agapornis_agent_rust.Runtime.Update.Pending.{IsOwnName, IsBegun, IsKept, same_comm}
use agapornis_agent_rust.Runtime.Update.Restoring.{IsFaithful, rollback_at-IsRolledBack}
use agapornis_agent_rust.Base.{◌≡◌, refl, ◌∙◌, false, none, some, List, ◌∷◌, Text, same, codes}

restore-well :
    (failed : Place) (f : Files) (fates : List Fate) {old json : Text}
    → find previous_agent f ≡ some old
    → find activation_state f ≡ some json
    → (restore previous_agent failed f (well 2 fates)).result ≡ some rolled_back
unfolding restore next same
restore-well failed f fates {old} p s =
    let state = moved-other previous_agent exe activation_state old f refl refl ∙ s in
    let moved = rename-well f (well 1 fates) previous_agent exe p in
    rw (moved, restore, moved)
      (rw (remove_file-well (put exe old (delete previous_agent f)) fates activation_state state)
        refl)

module _ (forms : Forms) (now name old new value : Text) (own : IsOwnName name) where
  -- The files once the new binary is installed.
  abbrev pub copied : Files → Files
  copied f = put previous_temp old f

  abbrev pub kept : Files → Files
  kept f = put previous_agent old (delete previous_temp (copied f))

  abbrev pub recorded : Files → Files
  recorded f = put activation_state (state_before forms now) (kept f)

  abbrev pub replaced : Files → Files
  replaced f = put exe new (delete (staged name) (recorded f))

  recorded-other :
      (p : Place) (f : Files)
      → same_place previous_temp p ≡ false
      → same_place previous_agent p ≡ false
      → same_place activation_state p ≡ false
      → find p (recorded f) ≡ find p f
  recorded-other p f t k s =
      put-other activation_state p (state_before forms now) (kept f) s
      ∙ moved-other previous_temp previous_agent p old (copied f) t k
      ∙ put-other previous_temp p old f t

  replaced-marked :
      (f : Files) → IsBegun forms now name old new value f → find marker (replaced f) ≡ some value
  unfolding same
  replaced-marked f b =
      moved-other (staged name) exe marker new (recorded f)
        (same_comm name (codes "pending-artifact") ∙ own.0) refl
      ∙ recorded-other marker f refl refl refl
      ∙ b.2

  pub replaced-pending :
      (f : Files)
      → (IsBegun forms now name old new value f → find marker (replaced f) ≡ some value)
        × (find (staged name) (replaced f) ≡ none)
  replaced-pending f = (
    replaced-marked f,
    put-other exe (staged name) new (delete (staged name) (recorded f)) refl
        ∙ rw (find-delete, same_place_refl (staged name)) refl,
  )

  -- The last call is the one that removes the marker.
  replace-well :
      (f : Files) (fates : List Fate)
      → IsBegun forms now name old new value f
      → install forms now name f (well 5 fates)
        ≡ (remove_file marker >> give activated_now) (replaced f) fates
  unfolding install replace_binary next same
  replace-well f fates b =
      let pending = recorded-other (staged name) f own.2 own.1 own.3 ∙ b.1 in
      rw (copy-well f (well 4 fates) exe previous_temp b.0) (
        rw
          (rename-well (copied f) (well 3 fates) previous_temp previous_agent
            (put_self previous_temp old f))
          (rw (write-well (kept f) (well 2 fates) activation_state (state_before forms now)) (
            rw (set_permissions-well (recorded f) (well 1 fates) (staged name) pending)
              (rw (rename-well (recorded f) fates (staged name) exe pending) refl))))

  install-well :
      (f : Files) (fates : List Fate)
      → IsBegun forms now name old new value f
      → install forms now name f (well 6 fates)
        ≡ give activated_now (delete marker (replaced f)) fates
  unfolding next
  install-well f fates b =
      replace-well f (goes_well ∷ fates) b
      ∙ rw (remove_file-well (replaced f) fates marker (replaced-marked f b)) refl

  -- Up to the call that removes the marker.
  pub activate_at-replaced :
      (stamp : Text) (f : Files) (fates : List Fate)
      → IsBegun forms now name old new value f
      → forms.place_of (Str.trim value) ≡ staged name
      → Str.is_empty (Str.trim value) ≡ false
      → activate_at forms now stamp f (well 8 fates)
        ≡ (remove_file marker >> give activated_now) (replaced f) fates
  unfolding activate_at pending_update_at resolve_pending pass act next
  activate_at-replaced stamp f fates b p e = rw b.2 (
      rw (read-well f (well 7 fates) marker b.2)
        (rw (e, p, canonicalize-well f (well 5 fates) (staged name) b.1) (replace-well f fates b)))

  activate_at-well :
      (stamp : Text) (f : Files) (fates : List Fate)
      → IsBegun forms now name old new value f
      → forms.place_of (Str.trim value) ≡ staged name
      → Str.is_empty (Str.trim value) ≡ false
      → activate_at forms now stamp f (well 9 fates)
        ≡ give activated_now (delete marker (replaced f)) fates
  unfolding next
  activate_at-well stamp f fates b p e =
      activate_at-replaced stamp f (goes_well ∷ fates) b p e
      ∙ rw (remove_file-well (replaced f) fates marker (replaced-marked f b)) refl

  -- The files that it leaves.
  abbrev pub installed : Files → Files
  installed f = delete marker (replaced f)

  installed-IsKept :
      (f : Files)
      → (find exe (installed f) ≡ some new) × IsKept forms now name old new value (installed f)
  unfolding same
  installed-IsKept f =
      let r = recorded f in
      (
        delete-other marker exe (replaced f) refl ∙ put_self exe new (delete (staged name) r),
        (
          delete-other marker previous_agent (replaced f) refl
              ∙ moved-other (staged name) exe previous_agent new r
                  (same_comm name (codes "previous-agent") ∙ own.1) refl
              ∙ put-other activation_state previous_agent (state_before forms now) (kept f) refl
              ∙ put_self previous_agent old (delete previous_temp (copied f)),
          delete-other marker activation_state (replaced f) refl
              ∙ moved-other (staged name) exe activation_state new r
                  (same_comm name (codes "activation-state.json") ∙ own.3) refl
              ∙ put_self activation_state (state_before forms now) (kept f),
        ),
      )

  rollback_at-well :
      (stamp : Text) (f : Files) (fates : List Fate)
      → IsFaithful forms
      → find exe f ≡ some new
      → IsKept forms now name old new value f
      → (rollback_at forms stamp f (well 4 fates)).result ≡ some rolled_back
  unfolding rollback_at next same
  rollback_at-well stamp f fates faithful e k =
      let moved = put (failed_agent stamp) new (delete exe f) in
      rw k.1 (
        rw (read-well f (well 3 fates) activation_state k.1) (
          rw (faithful.read_back, faithful.found_again)
            (rw k.0 (
              rw (rename-well f (well 2 fates) exe (failed_agent stamp) e) (
                restore-well (failed_agent stamp) moved fates
                  (moved-other exe (failed_agent stamp) previous_agent new f refl refl ∙ k.0)
                  (moved-other exe (failed_agent stamp) activation_state new f refl refl ∙ k.1))))))

-- Where every call goes well, a pending update is activated, so that the new binary runs; and at a
-- start after that, if the activation was not committed, it is rolled back: the old binary runs
-- again and the new one is kept under the name of the failed one.
pub activate_at-returns :
    (forms : Forms) (now later stamp name old new value : Text) (f : Files) (fates : List Fate)
    → IsFaithful forms
    → IsOwnName name
    → IsBegun forms now name old new value f
    → forms.place_of (Str.trim value) ≡ staged name
    → Str.is_empty (Str.trim value) ≡ false
    → let first = activate_at forms now stamp f (well 9 fates) in
      let second = activate_at forms later stamp first.files (well 4 fates) in
      (first.result ≡ some activated_now)
      × (find exe first.files ≡ some new)
      × (second.result ≡ some rolled_back)
      × (find exe second.files ≡ some old)
      × (find (failed_agent stamp) second.files ≡ some new)
unfolding activate_at
activate_at-returns forms now later stamp name old new value f fates faithful own b p e =
    let g = installed forms now name old new value own f in
    let first = activate_at-well forms now name old new value own stamp f fates b p e in
    let (runs, k) = installed-IsKept forms now name old new value own f in
    let gone : find marker g ≡ none = rw (find-delete, same_place_refl marker) refl in
    let done = rollback_at-well forms now name old new value own stamp g fates faithful runs k in
    let after = rw done at (
      rollback_at-IsRolledBack forms now stamp name old new value g (well 4 fates) faithful runs
        k) in
    rw first (rw (gone, k.1) (refl, runs, done, after.1.0, after.1.1))
