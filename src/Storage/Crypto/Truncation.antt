-- ===== src/Storage/Crypto/Truncation.antt =====
-- An encrypted file that is cut off between two chunks.
use agapornis_agent_rust.Base.Str
use agapornis_agent_rust.Storage.Crypto.RoundTrip.{
  IsRead, IsCipher, small_mod, encrypt_chunks-Wrote, decrypt_file_of_chunks,
}
use agapornis_agent_rust.Storage.Crypto.{magic_bytes, encrypt_chunks, encrypt_file, decrypt_file}
use agapornis_agent_rust.Storage.Crypto.Bytes.{to_be_bytes}
use mathlib.Core.List.{append_assoc}
use agapornis_agent_rust.Base.{flatten}
use agapornis_agent_rust.Base.{
  ℕ, suc, ◌≡◌, refl, sym, ap, ◌∙◌, inl, inr, Option, some, List, [], ◌∷◌, ◌++◌, arith, Option-cases,
  length, All, Text,
}

module _ {encrypt decrypt : Text → Text → Text → Option Text}
    (cipher : IsCipher encrypt decrypt) where
  -- The chunks before a cut, with the end mark, are what the encryption of those reads writes.
  encrypt_chunks-prefix :
      (prefix : Text) (xs ys : List Text) (counter : ℕ) (body : Text)
      → All IsRead xs
      → encrypt_chunks encrypt prefix counter (xs ++ ys) ≡ some body
      → (kept : Text) × (rest : Text) × (body ≡ kept ++ rest)
        × (encrypt_chunks encrypt prefix counter xs ≡ some (kept ++ to_be_bytes 0))
  unfolding encrypt_chunks Str.is_empty
  encrypt_chunks-prefix prefix [] ys counter body a h = ([], body, refl, refl)
  encrypt_chunks-prefix prefix ([] ∷ xs) ys counter body a h = absurd (omega (arith, a.0.0))
  encrypt_chunks-prefix prefix ((b ∷ bs) ∷ xs) ys counter body a h =
      let w = encrypt_chunks-Wrote cipher prefix counter (b ∷ bs) (xs ++ ys) body a.0 h in
      let (kept, rest, e, f) = encrypt_chunks-prefix prefix xs ys (suc counter) w.rest a.1 w.more in
      let size = to_be_bytes (length (b ∷ bs)) in
      (
        size ++ (w.sealed ++ kept),
        rest,
        w.whole
            ∙ rw (e, append_assoc size (w.sealed ++ kept) rest, append_assoc w.sealed kept rest)
                refl,
        rw (w.encrypted, w.counted, f, small_mod (length (b ∷ bs)) a.0.1)
            (ap some (
              rw
                (
                  append_assoc size (w.sealed ++ kept) (to_be_bytes 0),
                  append_assoc w.sealed kept (to_be_bytes 0),
                )
                refl)),
      )

  -- The end mark is not authenticated: when an encrypted file is cut between two chunks and four
  -- zero bytes are put in place of the rest, its decryption succeeds and returns the part before
  -- the cut.
  pub truncated_accepted :
      (prefix : Text) (xs ys : List Text) {out : Text}
      → length prefix ≡ 8
      → All IsRead xs
      → encrypt_file encrypt prefix (xs ++ ys) ≡ some out
      → (kept : Text) × (rest : Text) × (out ≡ kept ++ rest)
        × (decrypt_file decrypt (kept ++ to_be_bytes 0) ≡ some (flatten xs))
  unfolding encrypt_file
  truncated_accepted prefix xs ys {out} l a h =
      elim (Option-cases (encrypt_chunks encrypt prefix 0 (xs ++ ys))) [
        | inl e ↦ absurd (let g = rw (e, encrypt_file) at h in cc)
        | inr (body, e) ↦
            let g : magic_bytes ++ (prefix ++ body) ≡ out =
              let k = rw (e, encrypt_file) at h in cc in
            let (kept, rest, f, n) = encrypt_chunks-prefix prefix xs ys 0 body a e in
            (
              magic_bytes ++ (prefix ++ kept),
              rest,
              sym g ∙ rw (f, append_assoc prefix kept rest) refl,
              rw (append_assoc prefix kept (to_be_bytes 0))
                  (decrypt_file_of_chunks cipher prefix xs (kept ++ to_be_bytes 0) l a n),
            )
      ]
