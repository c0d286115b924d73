-- ===== src/Runtime/Update/Receiving.antt =====
-- What is received and marked is what was verified.
use mathlib.Core.Path.{subst}
use agapornis_agent_rust.Base.Str
use agapornis_agent_rust.Runtime.Update.{Forms, marker}
use agapornis_agent_rust.Runtime.Update.Pending.{same_comm}
use agapornis_agent_rust.Runtime.Update.Staging.{
  Digests, artifact_limit, discard, receive, commit_marker, verify, download,
}
use agapornis_agent_rust.Runtime.Update.Calls.{
  Place, exe, staged, same_place, Files, Fate, find, put, delete, give, ◌>>◌, attempt, rename,
  remove_file,
}
use agapornis_agent_rust.Runtime.Update.Places.{put-other, delete-other, moved-other, put_self}
use agapornis_agent_rust.Runtime.Update.Guarded.{
  Ensures-create_new, Ensures-append, Ensures-removal,
}
use agapornis_agent_rust.Runtime.Update.Rules.{
  Cases, Ensures, Ensures-next, Ensures-attempt, Ensures-pass, Ensures-rename,
  Ensures-set_permissions,
}
use agapornis_agent_rust.Base.{
  ℕ, ◌≤◌, ◌<◌, ◌≡◌, refl, sym, ap, ◌∙◌, ◌⊎◌, inl, inr, Bool, false, Option, none, some, List, [],
  ◌∷◌, ◌++◌, arith, ltb, Bool-cases, Option-cases, length, Text, same, same_iff, codes,
}

within : (a b : ℕ) → ltb a b ≡ false → b ≤ a
within a b h = ground arith

nonempty : (t : Text) → Str.is_empty t ≡ false → 0 < length t
unfolding Str.is_empty
nonempty [] h = absurd (ground arith)
nonempty (x ∷ t) h = omega arith

module _ (runs marked : Option Text) where
  -- The executable is as it was, and the marker is too unless it is gone.
  abbrev pub IsQuiet : Files → Type 0
  IsQuiet g = (find exe g ≡ runs) × ((find marker g ≡ marked) ⊎ (find marker g ≡ none))

  -- The verified artifact is marked.
  abbrev pub IsVerified : Forms → Digests → Text → Text → Files → Type 0
  IsVerified forms digests expected target g =
      (find exe g ≡ runs)
      × (find marker g ≡ some (forms.display (staged target)))
      × (all : Text) × (find (staged target) g ≡ some all)
      × (digests.sha256 all ≡ expected)
      × (0 < length all)
      × (length all ≤ artifact_limit)

  IsQuiet-put :
      (p : Place)
      → same_place p exe ≡ false
      → same_place p marker ≡ false
      → (b : Text) (g : Files) → IsQuiet g
      → IsQuiet (put p b g)
  IsQuiet-put p e m b g q = rw (put-other p exe b g e, put-other p marker b g m) q

  IsQuiet-delete :
      (p : Place)
      → same_place p exe ≡ false
      → same_place p marker ≡ false
      → (g : Files) → IsQuiet g
      → IsQuiet (delete p g)
  IsQuiet-delete p e m g q = rw (delete-other p exe g e, delete-other p marker g m) q

  module _ (target : Text) (own : same target (codes "pending-artifact") ≡ false) where
    discard-IsQuiet :
        {A : Type 0} (S : A → Files → Type 0) (f : Files) (fates : List Fate)
        → IsQuiet f
        → Ensures (discard (staged target) f fates) (Cases IsQuiet S)
    unfolding discard
    discard-IsQuiet S f fates q =
        Ensures-attempt IsQuiet (Cases IsQuiet S) (remove_file (staged target)) _ f fates
          (Ensures-removal IsQuiet (staged target) f fates (IsQuiet-delete (staged target) refl own)
            q)
          (λ g rest w. w)

    abbrev IsReceived : Text → Files → Type 0
    IsReceived all g =
        IsQuiet g × (find (staged target) g ≡ some all) × (length all ≤ artifact_limit)

    receive-IsReceived :
        (received : Text) (chunks : List (Option Text)) (f : Files) (fates : List Fate)
        → IsReceived received f
        → Ensures (receive (staged target) received chunks f fates) (Cases IsQuiet IsReceived)
    unfolding receive
    receive-IsReceived received [] f fates q = q
    receive-IsReceived received (none ∷ chunks) f fates q = q.0
    receive-IsReceived received (some chunk ∷ chunks) f fates q =
        elim (Bool-cases (ltb artifact_limit (length (received ++ chunk)))) [
          | inl long ↦ rw long (discard-IsQuiet IsReceived f fates q.0)
          | inr short ↦ rw short (
              Ensures-next IsQuiet
                (λ done g. IsQuiet g × (find (staged target) g ≡ some (received ++ chunk)))
                (Cases IsQuiet IsReceived) _ _
                (Ensures-append IsQuiet (staged target) f fates chunk
                  (IsQuiet-put (staged target) refl own) q.0 q.1)
                (λ g w. w)
                (λ done g rest w.
                  receive-IsReceived (received ++ chunk) chunks g rest
                    (w.0, w.1, within artifact_limit (length (received ++ chunk)) short)))
        ]

    module _ (forms : Forms) (digests : Digests) (expected temp : Text)
        (beside : same temp (codes "pending-artifact") ≡ false)
        (other : same temp target ≡ false) where
      abbrev Held : Text → Files → Type 0
      Held all g = IsQuiet g × (find (staged target) g ≡ some all)

      abbrev IsStaged : Option Text → Files → Type 0
      IsStaged =
          Cases IsQuiet (λ name g. (name ≡ target) × IsVerified forms digests expected target g)

      Held-put : (all b : Text) (g : Files) → Held all g → Held all (put (staged temp) b g)
      Held-put all b g h = (
        IsQuiet-put (staged temp) refl beside b g h.0,
        put-other (staged temp) (staged target) b g other ∙ h.1,
      )

      Held-delete : (all : Text) (g : Files) → Held all g → Held all (delete (staged temp) g)
      Held-delete all g h = (
        IsQuiet-delete (staged temp) refl beside g h.0,
        delete-other (staged temp) (staged target) g other ∙ h.1,
      )

      move_marker-IsStaged :
          (all : Text) (f : Files) (fates : List Fate)
          → Held all f
          → find (staged temp) f ≡ some (forms.display (staged target))
          → digests.sha256 all ≡ expected
          → 0 < length all
          → length all ≤ artifact_limit
          → Ensures
              (let moved = rename (staged temp) marker f fates in
                elim moved.result [
                  | none ↦
                      (attempt (remove_file (staged temp)) >> discard (staged target)) moved.files
                        moved.fates
                  | some done ↦ give target moved.files moved.fates
                ])
              IsStaged
      move_marker-IsStaged all f fates h named sum some_bytes few =
          let Done : Files → Type 0 = IsVerified forms digests expected target in
          let name = forms.display (staged target) in
          let moved = rename (staged temp) marker f fates in
          let facts : Ensures moved (Cases (Held all) (λ done. Done)) =
            Ensures-rename (Held all) Done f fates (staged temp) marker named h (
              moved-other (staged temp) marker exe name f refl refl ∙ h.0.0,
              put_self marker name (delete (staged temp) f),
              all,
              moved-other (staged temp) marker (staged target) name f other
                    (same_comm (codes "pending-artifact") target ∙ own)
                  ∙ h.1,
              sum,
              some_bytes,
              few,
            ) in
          elim (Option-cases moved.result) [
            | inl e ↦
                let w =
                  subst (λ (r : Option Bool). Cases (Held all) (λ done. Done) r moved.files) e
                    facts in
                rw e (
                  Ensures-attempt (Held all) IsStaged (remove_file (staged temp)) _ moved.files
                    moved.fates
                    (Ensures-removal (Held all) (staged temp) moved.files moved.fates
                      (Held-delete all) w)
                    (λ g rest v. discard-IsQuiet _ g rest v.0))
            | inr (done, e) ↦ rw e (
              refl,
              subst (λ (r : Option Bool). Cases (Held all) (λ done. Done) r moved.files) e facts,
            )
          ]

      commit_marker-IsStaged :
          (all : Text) (f : Files) (fates : List Fate)
          → Held all f
          → digests.sha256 all ≡ expected
          → 0 < length all
          → length all ≤ artifact_limit
          → Ensures (commit_marker forms digests target temp f fates) IsStaged
      unfolding commit_marker
      commit_marker-IsStaged all f fates h sum some_bytes few =
          Ensures-next (Held all) (λ done g. Held all g × (find (staged temp) g ≡ some [])) IsStaged
            _ _ (Ensures-create_new (Held all) (staged temp) f fates (Held-put all) h) (λ g w. w.0)
            (λ done g rest w.
              Ensures-next (Held all)
                (λ done k.
                  Held all k × (find (staged temp) k ≡ some (forms.display (staged target))))
                IsStaged _ _
                (Ensures-append (Held all) (staged temp) g rest (forms.display (staged target))
                  (Held-put all) w.0 w.1)
                (λ k v. v.0)
                (λ done k last v.
                  Ensures-next (λ j. j ≡ k) (λ done j. j ≡ k) IsStaged _ _ (Ensures-pass k last)
                    (λ j e. subst IsQuiet (sym e) v.0.0)
                    (λ done j end e.
                      move_marker-IsStaged all j end (subst (Held all) (sym e) v.0)
                        (ap (find (staged temp)) e ∙ v.1) sum some_bytes few)))

      verify-IsStaged :
          (all : Text) (f : Files) (fates : List Fate)
          → IsReceived all f
          → Ensures (verify forms digests expected target temp all f fates) IsStaged
      unfolding verify
      verify-IsStaged all f fates h = elim (Bool-cases (Str.is_empty all)) [
        | inl empty ↦ rw empty (discard-IsQuiet _ f fates h.0)
        | inr bytes ↦ rw bytes (
            Ensures-next (λ g. g ≡ f) (λ done g. g ≡ f) IsStaged _ _ (Ensures-pass f fates)
              (λ g e. subst IsQuiet (sym e) h.0)
              (λ done g rest e.
                let q : Held all g = subst (Held all) (sym e) (h.0, h.1) in
                elim (Bool-cases (same (digests.sha256 all) expected)) [
                  | inl sum ↦ rw sum (
                      Ensures-next IsQuiet (λ done. Held all) IsStaged _ _
                        (Ensures-set_permissions IsQuiet (Held all) g rest (staged target) q.1 q.0
                          q)
                        (λ k w. w)
                        (λ done k last w.
                          commit_marker-IsStaged all k last w
                            ((same_iff (digests.sha256 all) expected).0 sum) (nonempty all bytes)
                            h.2))
                  | inr differs ↦ rw differs (discard-IsQuiet _ g rest q.0)
                ]))
      ]

      pub download-IsStaged :
          (chunks : List (Option Text)) (f : Files) (fates : List Fate)
          → IsQuiet f
          → Ensures (download forms digests expected target temp chunks f fates) IsStaged
      unfolding download
      download-IsStaged chunks f fates q =
          Ensures-next IsQuiet (λ done g. IsQuiet g × (find (staged target) g ≡ some [])) IsStaged _
            _
            (Ensures-create_new IsQuiet (staged target) f fates
              (IsQuiet-put (staged target) refl own) q)
            (λ g w. w)
            (λ done g rest w.
              Ensures-next IsQuiet IsReceived IsStaged _ _
                (receive-IsReceived [] chunks g rest (w.0, w.1, omega arith)) (λ k v. v)
                (λ all k last v. verify-IsStaged all k last v))
