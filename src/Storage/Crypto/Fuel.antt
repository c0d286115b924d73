-- ===== src/Storage/Crypto/Fuel.antt =====
-- The rounds of the decryption.
use agapornis_agent_rust.Storage.Crypto.{
  Ended, text, failed, chunk_limit, checked_next, read_exact, nonce, decrypted, decrypt_chunk,
  decrypt_chunks,
}
use agapornis_agent_rust.Storage.Crypto.Bytes.{to_be_bytes, from_be_bytes}
use agapornis_agent_rust.Base.{
  ℕ, zero, suc, ◌+◌, ◌≤◌, ◌<◌, ◌≡◌, refl, inl, inr, Option, some, [], ◌∷◌, ◌++◌, arith, ltb, leb,
  ◌==◌, Bool-cases, Option-cases, is_some, length, drop, Text,
}

length-drop : (n : ℕ) (xs : Text) → n ≤ length xs → length (drop n xs) + n ≡ length xs
length-drop zero xs h = omega arith
length-drop (suc n) [] h = absurd (omega (arith, h))
length-drop (suc n) (x ∷ xs) h = omega (arith, length-drop n xs (omega (arith, h)))

read_exact-length :
    (n : ℕ) (src : Text) {front rest : Text}
    → read_exact n src ≡ some (front, rest)
    → length rest + n ≡ length src
unfolding read_exact
read_exact-length n src {front} {rest} h = elim (Bool-cases (leb n (length src))) [
  | inr short ↦ absurd (let g = rw short at h in cc)
  | inl fits ↦
      let g = rw fits at h in
      let is : drop n src ≡ rest = cc in rw (← is) (length-drop n src (ground arith))
]

-- The end with one more chunk before.
abbrev with_chunk : Text → Ended → Ended
with_chunk plain (text rest) = text (plain ++ rest)
with_chunk plain failed = failed

decrypted-with : (plain : Text) (e : Ended) → decrypted plain (some e) ≡ some (with_chunk plain e)
decrypted-with plain (text rest) = refl
decrypted-with plain failed = refl

module _ (decrypt : Text → Text → Text → Option Text) (prefix : Text) where
  decrypt_chunk-shorter :
      (counter n : ℕ) (src : Text) {plain left : Text}
      → decrypt_chunk decrypt prefix counter n src ≡ some (plain, left)
      → length left ≤ length src
  unfolding decrypt_chunk
  decrypt_chunk-shorter counter n src {plain} {left} h = elim (Bool-cases (ltb chunk_limit n)) [
    | inl large ↦ absurd (let g = rw large at h in cc)
    | inr small ↦
        let g = rw small at h in
        elim (Option-cases (read_exact (n + 16) src)) [
          | inl e ↦ absurd (let k = rw e at g in cc)
          | inr ((sealed, rest), e) ↦
              let k = rw e at g in
              elim (Option-cases (decrypt (nonce prefix counter) (to_be_bytes counter) sealed)) [
                | inl f ↦ absurd (let l = rw f at k in cc)
                | inr (opened, f) ↦
                    let l = rw f at k in
                    elim (Bool-cases (is_some (checked_next counter))) [
                      | inr over ↦ absurd (let m = rw over at l in cc)
                      | inl counted ↦
                          let m = rw counted at l in
                          let is : rest ≡ left = cc in
                          rw (← is) (omega (arith, read_exact-length (n + 16) src e))
                    ]
              ]
        ]
  ]

  -- The rounds of the decryption end, with the plain text or with an error, before they are more
  -- than the bytes of the file: with more fuel than bytes the loop never runs out of fuel, and how
  -- it ends does not depend on the fuel.
  pub decrypt_chunks-ends :
      (fuel other counter : ℕ) (src : Text)
      → length src < fuel
      → length src < other
      → (e : Ended) × (decrypt_chunks decrypt fuel prefix counter src ≡ some e)
        × (decrypt_chunks decrypt other prefix counter src ≡ some e)
  unfolding decrypt_chunks
  decrypt_chunks-ends zero other counter src h k = absurd (omega (arith, h))
  decrypt_chunks-ends (suc fuel) zero counter src h k = absurd (omega (arith, k))
  decrypt_chunks-ends (suc fuel) (suc other) counter src h k =
      elim (Option-cases (read_exact 4 src)) [
        | inl e ↦ (failed, rw (e, decrypt_chunks) refl, rw (e, decrypt_chunks) refl)
        | inr ((size, rest), e) ↦ elim (Bool-cases (from_be_bytes size == 0)) [
          | inl last ↦ (
            text [],
            rw (e, decrypt_chunks) (rw last refl),
            rw (e, decrypt_chunks) (rw last refl),
          )
          | inr goes_on ↦
              elim (Option-cases (decrypt_chunk decrypt prefix counter (from_be_bytes size) rest)) [
                | inl f ↦ (
                  failed,
                  rw (e, decrypt_chunks) (rw goes_on (rw f refl)),
                  rw (e, decrypt_chunks) (rw goes_on (rw f refl)),
                )
                | inr ((plain, left), f) ↦
                    let shorter = decrypt_chunk-shorter counter (from_be_bytes size) rest f in
                    let read = read_exact-length 4 src e in
                    let (ended, g, l) =
                      decrypt_chunks-ends fuel other (suc counter) left
                        (omega (arith, h, shorter, read)) (omega (arith, k, shorter, read)) in
                    (
                      with_chunk plain ended,
                      rw (e, decrypt_chunks)
                          (rw goes_on (rw f (rw g (decrypted-with plain ended)))),
                      rw (e, decrypt_chunks)
                          (rw goes_on (rw f (rw l (decrypted-with plain ended)))),
                    )
              ]
        ]
      ]
