-- ===== src/Runtime/Update/Verified.antt =====
-- What is staged was verified, and a stage that fails marks nothing.
use mathlib.Core.Path.{subst}
use agapornis_agent_rust.Base.Str
use agapornis_agent_rust.Runtime.Update.{
  Forms, marker, pending_update_at, resolve_pending, confined,
}
use agapornis_agent_rust.Runtime.Update.Staging.{
  Response, Digests, is_longer, clear_marker, target_name, temp_name, stage_response, stage,
}
use agapornis_agent_rust.Runtime.Update.Calls.{
  Place, exe, staged, elsewhere, find-delete, Files, Fate, Outcome, find,
}
use agapornis_agent_rust.Runtime.Update.Places.{delete-other}
use agapornis_agent_rust.Runtime.Update.Guarded.{canonicalize-keeps, read-keeps}
use agapornis_agent_rust.Runtime.Update.Rules.{
  Cases, Ensures, Ensures-next, Ensures-pass, Ensures-remove_file,
}
use agapornis_agent_rust.Base.{
  ◌≡◌, refl, ap, ◌∙◌, inl, inr, Bool, true, not, ◌||◌, Option, some, List, ◌==◌, ==_iff, Bool-cases,
  Option-cases, is_some, length, Text, same, codes,
}
use agapornis_agent_rust.Runtime.Update.Receiving.{IsQuiet, IsVerified, download-IsStaged}

confined-keeps : (p : Place) (f : Files) (fates : List Fate) → (confined p f fates).files ≡ f
confined-keeps exe f fates = refl
confined-keeps (staged name) f fates = refl
confined-keeps (elsewhere path) f fates = refl

-- A look at the marker changes no file.
resolve_pending-keeps :
    (forms : Forms) (text : Text) (f : Files) (fates : List Fate)
    → Ensures (resolve_pending forms text f fates) (λ r g. g ≡ f)
unfolding resolve_pending
resolve_pending-keeps forms text f fates = elim (Bool-cases (Str.is_empty text)) [
  | inl e ↦ rw e refl
  | inr e ↦ rw e (
      Ensures-next (λ g. g ≡ f) (λ done g. g ≡ f) (λ r g. g ≡ f) _ _ (Ensures-pass f fates)
        (λ g q. q)
        (λ done g rest q.
          Ensures-next (λ k. k ≡ g) (λ at k. k ≡ g) (λ r k. k ≡ f) _ _
            (canonicalize-keeps (forms.place_of text) g rest) (λ k e. e ∙ q)
            (λ at k last e. confined-keeps at k last ∙ e ∙ q)))
]

pending_update_at-keeps :
    (forms : Forms) (f : Files) (fates : List Fate)
    → Ensures (pending_update_at forms f fates) (λ r g. g ≡ f)
unfolding pending_update_at
pending_update_at-keeps forms f fates = elim (Option-cases (find marker f)) [
  | inl e ↦ rw e refl
  | inr (b, e) ↦
      rw (e, pending_update_at)
        (Ensures-next (λ g. g ≡ f) (λ raw g. g ≡ f) (λ r g. g ≡ f) _ _ (read-keeps marker f fates)
          (λ g q. q) (λ raw g rest q. resolve_pending-keeps forms (Str.trim raw) g rest ∙ q))
]

either_way :
    {A : Type 0} (W : Files → Type 0) (o : Outcome A) → W o.files → Ensures o (Cases W (λ a. W))
either_way W o w = elim (Option-cases o.result) [ inl e ↦ rw e w | inr (a, e) ↦ rw e w ]

Ensures-weaken :
    {A : Type 0} (W : Files → Type 0) (S T : A → Files → Type 0) (o : Outcome A)
    → ((a : A) (g : Files) → S a g → T a g)
    → Ensures o (Cases W S)
    → Ensures o (Cases W T)
Ensures-weaken {A} W S T o more h = elim (Option-cases o.result) [
  | inl e ↦ rw e (subst (λ (r : Option A). Cases W S r o.files) e h)
  | inr (a, e) ↦ rw e (more a o.files (subst (λ (r : Option A). Cases W S r o.files) e h))
]

clear_marker-IsQuiet :
    (runs marked : Option Text) (f : Files) (fates : List Fate)
    → find exe f ≡ runs
    → find marker f ≡ marked
    → Ensures (clear_marker f fates) (Cases (IsQuiet runs marked) (λ done. IsQuiet runs marked))
unfolding clear_marker same
clear_marker-IsQuiet runs marked f fates r m = elim (Option-cases (find marker f)) [
  | inl e ↦ rw e (r, inl m)
  | inr (b, e) ↦ rw e (
      Ensures-remove_file (IsQuiet runs marked) (IsQuiet runs marked) f fates marker e (r, inl m)
        (delete-other marker exe f refl ∙ r, inr (rw find-delete refl)))
]

-- The two names that are drawn are no others.
stage_response-IsStaged :
    (forms : Forms) (digests : Digests) (expected uuid again : Text) (response : Response)
    (f : Files) (fates : List Fate)
    → Ensures
        (stage_response forms digests expected
          (target_name uuid)
          (temp_name again)
          response
          f
          fates)
        (Cases (IsQuiet (find exe f) (find marker f)) (λ name g.
          (name ≡ target_name uuid)
          × IsVerified (find exe f) (find marker f) forms digests expected (target_name uuid) g))
unfolding stage_response same
stage_response-IsStaged forms digests expected uuid again response f fates =
    let Q = IsQuiet (find exe f) (find marker f) in
    let R : Option Text → Files → Type 0 = Cases Q (λ name g.
      (name ≡ target_name uuid)
      × IsVerified (find exe f) (find marker f) forms digests expected (target_name uuid) g) in
    let quiet : (g : Files) → g ≡ f → Q g = λ g e. (ap (find exe) e, inl (ap (find marker) e)) in
    elim (Bool-cases (not response.is_https || is_longer response.content_length)) [
      | inl e ↦ rw e (refl, inl refl)
      | inr e ↦ rw e (
          Ensures-next (λ g. g ≡ f) (λ done g. g ≡ f) R _ _ (Ensures-pass f fates) quiet
            (λ done g rest a.
              Ensures-next (λ k. k ≡ g) (λ done k. k ≡ g) R _ _ (Ensures-pass g rest)
                (λ k b. quiet k (b ∙ a))
                (λ done k last b.
                  Ensures-next (λ j. j ≡ k) (λ found j. j ≡ k) R _ _
                    (either_way (λ j. j ≡ k) (pending_update_at forms k last)
                      (pending_update_at-keeps forms k last))
                    (λ j c. quiet j (c ∙ b ∙ a))
                    (λ found j end c. elim (Bool-cases (is_some found)) [
                      | inl h ↦ rw h (quiet j (c ∙ b ∙ a))
                      | inr h ↦ rw h (
                          Ensures-next Q (λ done. Q) R _ _
                            (clear_marker-IsQuiet (find exe f) (find marker f) j end
                              (ap (find exe) (c ∙ b ∙ a)) (ap (find marker) (c ∙ b ∙ a)))
                            (λ i d. d)
                            (λ done i final d.
                              download-IsStaged (find exe f) (find marker f) (target_name uuid) refl
                                forms digests expected (temp_name again) refl refl response.chunks i
                                final d))
                    ]))))
    ]

-- Whatever the server answers and wherever the staging stops: the running binary is not touched,
-- and either the update is refused and the marker is as it was or is gone, or the marker names the
-- new artifact, whose SHA-256 is the one that the caller gave, of 32 bytes, and whose size is from
-- one byte to 512 MiB.
pub stage-IsVerified :
    (forms : Forms) (digests : Digests) (url sha : Text) (response : Option Response)
    (uuid again : Text) (f : Files) (fates : List Fate)
    → Ensures (stage forms digests url sha response uuid again f fates) (
        Cases (IsQuiet (find exe f) (find marker f)) (λ name g.
          (name ≡ target_name uuid)
          × (Str.starts_with (codes "https://") url ≡ true)
          × (expected : Text) × (digests.hex_decode (Str.trim sha) ≡ some expected)
          × (length expected ≡ 32)
          × IsVerified (find exe f) (find marker f) forms digests expected (target_name uuid) g))
unfolding stage
stage-IsVerified forms digests url sha response uuid again f fates =
    let quiet : IsQuiet (find exe f) (find marker f) f = (refl, inl refl) in
    elim (Bool-cases (Str.starts_with (codes "https://") url)) [
      | inr e ↦ rw e quiet
      | inl secure ↦ rw secure (elim (Option-cases (digests.hex_decode (Str.trim sha))) [
        | inl e ↦ rw e quiet
        | inr (expected, sum) ↦ rw sum (elim (Bool-cases (length expected == 32)) [
          | inr e ↦ rw e quiet
          | inl bytes ↦ rw bytes (elim (Option-cases response) [
            | inl e ↦ rw e quiet
            | inr (answer, e) ↦
                let Checked : Text → Text → Files → Type 0 = λ x name g.
                  (name ≡ target_name uuid)
                  × IsVerified (find exe f) (find marker f) forms digests x (target_name uuid) g in
                let Wanted : Text → Files → Type 0 = λ name g.
                  (name ≡ target_name uuid)
                  × (◌≡◌ {A = Bool} true true)
                  × (x : Text) × (◌≡◌ {A = Option Text} (some expected) (some x))
                  × (length x ≡ 32)
                  × IsVerified (find exe f) (find marker f) forms digests x (target_name uuid) g in
                rw e (
                  Ensures-weaken (IsQuiet (find exe f) (find marker f)) (Checked expected) Wanted
                    (stage_response forms digests expected (target_name uuid) (temp_name again)
                      answer f fates)
                    (λ name g v.
                      (v.0, refl, expected, refl, (==_iff (length expected) 32).0 bytes, v.1))
                    (stage_response-IsStaged forms digests expected uuid again answer f fates))
          ])
        ])
      ])
    ]
