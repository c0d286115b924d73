-- ===== src/Runtime/Update/Stuck.antt =====
-- An activation that dies before it removes the marker.
use mathlib.Core.Option.{map as map_option}
use agapornis_agent_rust.Base.Str
use agapornis_agent_rust.Runtime.Update.{
  Forms, marker, resolve_pending, pending_update_at, install_pending, activate_at,
}
use agapornis_agent_rust.Runtime.Update.Calls.{
  Place, exe, staged, Files, Fate, goes_well, fails, Outcome, File, find, next, ◌>>◌, act,
  untouched, remove_file, read, canonicalize, pass,
}
use agapornis_agent_rust.Runtime.Update.Staging.{
  Response, Digests, is_longer, target_name, temp_name, stage_response, stage,
}
use agapornis_agent_rust.Runtime.Update.Places.{put_self}
use agapornis_agent_rust.Runtime.Update.Well.{well}
use agapornis_agent_rust.Runtime.Update.Pending.{IsOwnName, IsBegun}
use agapornis_agent_rust.Runtime.Update.Return.{replaced, replaced-pending, activate_at-replaced}
use agapornis_agent_rust.Base.{
  ◌≡◌, refl, ◌∙◌, inl, inr, false, not, ◌||◌, Option, none, some, List, [], ◌∷◌, ◌==◌, Bool-cases,
  Option-cases, length, Text, codes,
}

next-fails :
    {A B : Type 0} (k : A → File B) (o : Outcome A)
    → o.result ≡ none
    → ((next k o).result ≡ none) × ((next k o).files ≡ o.files)
unfolding next
next-fails k o r = rw r (refl, refl)

-- A call that fails and changes no file.
abbrev pub IsRefusal : {A : Type 0} → Files → Outcome A → Type 0
IsRefusal f o = (o.result ≡ none) × (o.files ≡ f)

passes-fail :
    {A : Type 0} (k : File A) (f : Files) (fates : List Fate)
    → ((rest : List Fate) → IsRefusal f (k f rest))
    → IsRefusal f ((pass >> (pass >> k)) f fates)
unfolding pass act next
passes-fail k f [] h = (refl, refl)
passes-fail k f (fails left ∷ fates) h = (refl, refl)
passes-fail k f (goes_well ∷ []) h = (refl, refl)
passes-fail k f (goes_well ∷ (fails left ∷ fates)) h = (refl, refl)
passes-fail k f (goes_well ∷ (goes_well ∷ fates)) h = h fates

act-cannot :
    (effect : Files → Option Files) (f : Files) (fates : List Fate)
    → effect f ≡ none
    → ((act untouched effect f fates).result ≡ none) × ((act untouched effect f fates).files ≡ f)
unfolding act
act-cannot effect f [] h = (refl, refl)
act-cannot effect f (fails left ∷ fates) h = (refl, refl)
act-cannot effect f (goes_well ∷ fates) h = rw (h, act) (refl, refl)

canonicalize-absent :
    (p : Place) (f : Files) (fates : List Fate)
    → find p f ≡ none
    → ((canonicalize p f fates).result ≡ none) × ((canonicalize p f fates).files ≡ f)
unfolding canonicalize next
canonicalize-absent p f fates h =
    let (r, g) = act-cannot (λ k. map_option (λ b. k) (find p k)) f fates (rw h refl) in
    rw (r, g) (refl, refl)

-- The marker names a file that is gone.
module _ (forms : Forms) (name value : Text) (f : Files) (marked : find marker f ≡ some value)
    (named : forms.place_of (Str.trim value) ≡ staged name)
    (filled : Str.is_empty (Str.trim value) ≡ false) (gone : find (staged name) f ≡ none) where
  pending_update_at-fails :
      (fates : List Fate)
      → ((pending_update_at forms f fates).result ≡ none)
        × ((pending_update_at forms f fates).files ≡ f)
  unfolding pending_update_at read next resolve_pending pass act
  pending_update_at-fails [] = rw marked (refl, refl)
  pending_update_at-fails (fails left ∷ fates) = rw marked (refl, refl)
  pending_update_at-fails (goes_well ∷ []) = rw (marked, filled) (refl, refl)
  pending_update_at-fails (goes_well ∷ (fails left ∷ fates)) = rw (marked, filled) (refl, refl)
  pending_update_at-fails (goes_well ∷ (goes_well ∷ fates)) =
      let (r, g) = canonicalize-absent (staged name) f fates gone in
      rw (marked, filled, named, r, g) (refl, refl)

  activate_at-fails :
      (now stamp : Text) (fates : List Fate)
      → ((activate_at forms now stamp f fates).result ≡ none)
        × ((activate_at forms now stamp f fates).files ≡ f)
  unfolding activate_at
  activate_at-fails now stamp fates =
      let (r, g) = pending_update_at-fails fates in
      let (s, h) = next-fails (install_pending forms now) (pending_update_at forms f fates) r in
      rw (marked, activate_at) (s, h ∙ g)

  stage_response-fails :
      (digests : Digests) (expected target temp : Text) (response : Response) (fates : List Fate)
      → IsRefusal f (stage_response forms digests expected target temp response f fates)
  unfolding stage_response
  stage_response-fails digests expected target temp response fates =
      elim (Bool-cases (not response.is_https || is_longer response.content_length)) [
        | inl e ↦ rw e (refl, refl)
        | inr e ↦ rw e (
            passes-fail _ f fates (λ rest.
              let (r, g) = pending_update_at-fails rest in
              let (n, h) = next-fails _ _ r in (n, h ∙ g)))
      ]

  stage-fails :
      (digests : Digests) (url sha : Text) (response : Option Response) (uuid again : Text)
      (fates : List Fate)
      → IsRefusal f (stage forms digests url sha response uuid again f fates)
  unfolding stage
  stage-fails digests url sha response uuid again fates =
      elim (Bool-cases (Str.starts_with (codes "https://") url)) [
        | inr e ↦ rw e (refl, refl)
        | inl secure ↦ rw secure (elim (Option-cases (digests.hex_decode (Str.trim sha))) [
          | inl e ↦ rw e (refl, refl)
          | inr (expected, sum) ↦ rw sum (elim (Bool-cases (length expected == 32)) [
            | inr e ↦ rw e (refl, refl)
            | inl bytes ↦ rw bytes (elim (Option-cases response) [
              | inl e ↦ rw e (refl, refl)
              | inr (answer, e) ↦ rw e (
                  stage_response-fails digests expected (target_name uuid) (temp_name again) answer
                    fates)
            ])
          ])
        ])
      ]

-- A later call, with what comes of its file calls.
pub data Attempt : Type 0 where
  activation : (now stamp : Text) (fates : List Fate) → Attempt
  staging :
      (digests : Digests) (url sha : Text) (response : Option Response) (uuid again : Text)
      (fates : List Fate)
      → Attempt

-- Each of these calls, one after the other, fails and changes no file.
abbrev pub AllRefused : Forms → List Attempt → Files → Type 0
AllRefused forms [] f = Unit
AllRefused forms (activation now stamp fates ∷ attempts) f =
    IsRefusal f (activate_at forms now stamp f fates)
    × AllRefused forms attempts (activate_at forms now stamp f fates).files
AllRefused forms (staging digests url sha response uuid again fates ∷ attempts) f =
    IsRefusal f (stage forms digests url sha response uuid again f fates)
    × AllRefused forms attempts (stage forms digests url sha response uuid again f fates).files

all_refused :
    (forms : Forms) (name value : Text) (f : Files) (attempts : List Attempt)
    → find marker f ≡ some value
    → forms.place_of (Str.trim value) ≡ staged name
    → Str.is_empty (Str.trim value) ≡ false
    → find (staged name) f ≡ none
    → AllRefused forms attempts f
all_refused forms name value f [] m p e g = tt
all_refused forms name value f (activation now stamp fates ∷ attempts) m p e g =
    let (r, same_files) = activate_at-fails forms name value f m p e g now stamp fates in
    ((r, same_files), rw same_files (all_refused forms name value f attempts m p e g))
all_refused forms name value f (staging digests url sha response uuid again fates ∷ attempts) m p e
      g =
    let (r, same_files) =
      stage-fails forms name value f m p e g digests url sha response uuid again fates in
    ((r, same_files), rw same_files (all_refused forms name value f attempts m p e g))

-- An activation whose process dies just before it removes the marker, when the new binary is in
-- place, leaves a marker that stops the updates: of any activations and stagings that come after
-- it, in any order, whatever comes of their file calls and with no other change of the files
-- between them, each fails and changes no file.
pub activate_at-stuck :
    (forms : Forms) (now stamp name old new value : Text) (f : Files) (attempts : List Attempt)
    → IsOwnName name
    → IsBegun forms now name old new value f
    → forms.place_of (Str.trim value) ≡ staged name
    → Str.is_empty (Str.trim value) ≡ false
    → let left = (activate_at forms now stamp f (well 8 [])).files in
      (find exe left ≡ some new) × AllRefused forms attempts left
unfolding next remove_file act
activate_at-stuck forms now stamp name old new value f attempts own b p e =
    let after = replaced forms now name old new value own f in
    let (marked, gone) = replaced-pending forms now name old new value own f in
    let m = marked b in
    rw (activate_at-replaced forms now name old new value own stamp f [] b p e)
      (put_self exe new _, all_refused forms name value after attempts m p e gone)
