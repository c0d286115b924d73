-- ===== src/Storage/Crypto/RoundTrip.antt =====
-- A file that was encrypted is decrypted to what was read of it.
use agapornis_agent_rust.Base.Str
use agapornis_agent_rust.Storage.Crypto.{
  magic_bytes, chunk_limit, checked_next, read_exact, nonce, decrypted, text, encrypt_chunks,
  encrypt_file, decrypt_chunk, decrypt_chunks, decrypt_file,
}
use agapornis_agent_rust.Storage.Crypto.Bytes.{
  to_be_bytes, from_be_bytes, from_be_bytes-to_be_bytes, length-to_be_bytes,
}
use agapornis_agent_rust.Base.{flatten, take-length-append, drop-length-append}
use agapornis_agent_rust.Base.{
  ℕ, zero, suc, ◌+◌, ◌%◌, ◌≤◌, ◌≡◌, refl, ap, ◌∙◌, inl, inr, true, false, Option, some, List, [],
  ◌∷◌, ◌++◌, arith, ltb, leb, ◌==◌, Bool-cases, Option-cases, is_some, length, length-append, All,
  Text, same_refl,
}

read_exact-append : (xs ys : Text) → read_exact (length xs) (xs ++ ys) ≡ some (xs, ys)
unfolding read_exact
read_exact-append xs ys =
    let fits : leb (length xs) (length (xs ++ ys)) ≡ true = ground (arith, length-append xs ys) in
    rw (fits, take-length-append xs ys, drop-length-append xs ys) refl

-- A read of the source returns something, and no more than the buffer holds.
abbrev pub IsRead : Text → Type 0
IsRead chunk = (1 ≤ length chunk) × (length chunk ≤ chunk_limit)

-- What the cipher promises: a message of at most 4 MiB is encrypted, which makes it 16 bytes longer,
-- and is decrypted again.
pub record IsCipher (encrypt decrypt : Text → Text → Text → Option Text) : Type 0 where
  pub decrypts :
      (n aad plain : Text) {sealed : Text}
      → encrypt n aad plain ≡ some sealed
      → decrypt n aad sealed ≡ some plain
  pub seals :
      (n aad plain : Text)
      → length plain ≤ chunk_limit
      → (sealed : Text) × (encrypt n aad plain ≡ some sealed)
  pub tagged :
      (n aad plain : Text) {sealed : Text}
      → encrypt n aad plain ≡ some sealed
      → length sealed ≡ length plain + 16

pub small_mod : (n : ℕ) → n ≤ chunk_limit → n % 4294967296 ≡ n
small_mod n h = omega arith

module _ {encrypt decrypt : Text → Text → Text → Option Text}
    (cipher : IsCipher encrypt decrypt) where
  -- What one round of the encryption wrote.
  pub record Wrote (prefix : Text) (counter : ℕ) (chunk : Text) (reads : List Text) (body : Text)
      : Type 0 where
    pub sealed : Text
    pub rest : Text
    pub encrypted : encrypt (nonce prefix counter) (to_be_bytes counter) chunk ≡ some sealed
    pub counted : is_some (checked_next counter) ≡ true
    pub more : encrypt_chunks encrypt prefix (suc counter) reads ≡ some rest
    pub whole : body ≡ to_be_bytes (length chunk) ++ (sealed ++ rest)

  pub encrypt_chunks-Wrote :
      (prefix : Text) (counter : ℕ) (chunk : Text) (reads : List Text) (body : Text)
      → IsRead chunk
      → encrypt_chunks encrypt prefix counter (chunk ∷ reads) ≡ some body
      → Wrote prefix counter chunk reads body
  unfolding encrypt_chunks Str.is_empty
  encrypt_chunks-Wrote prefix counter [] reads body r h = absurd (omega (arith, r.0))
  encrypt_chunks-Wrote prefix counter (b ∷ bs) reads body r h =
      elim (Option-cases (encrypt (nonce prefix counter) (to_be_bytes counter) (b ∷ bs))) [
        | inl e ↦ absurd (let g = rw e at h in cc)
        | inr (sealed, e) ↦
            let g = rw e at h in
            elim (Bool-cases (is_some (checked_next counter))) [
              | inr over ↦ absurd (let k = rw over at g in cc)
              | inl counted ↦
                  let k = rw counted at g in
                  elim (Option-cases (encrypt_chunks encrypt prefix (suc counter) reads)) [
                    | inl f ↦ absurd (let l = rw f at k in cc)
                    | inr (rest, f) ↦
                        let l = rw (f, small_mod (length (b ∷ bs)) r.1) at k in
                        record {
                          sealed = sealed;
                          rest = rest;
                          encrypted = e;
                          counted = counted;
                          more = f;
                          whole = cc;
                        }
                  ]
            ]
      ]

  decrypt_chunk-Wrote :
      (prefix : Text) (counter : ℕ) (chunk : Text) (reads : List Text) (body : Text)
      → IsRead chunk
      → (w : Wrote prefix counter chunk reads body)
      → decrypt_chunk decrypt prefix counter (length chunk) (w.sealed ++ w.rest)
        ≡ some (chunk, w.rest)
  unfolding decrypt_chunk
  decrypt_chunk-Wrote prefix counter chunk reads body r w =
      let small : ltb chunk_limit (length chunk) ≡ false = ground (arith, r.1) in
      let read = read_exact-append w.sealed w.rest in
      let sized = cipher.tagged _ _ chunk w.encrypted in
      let opened = cipher.decrypts _ _ chunk w.encrypted in
      rw (small, ← sized, read, opened, w.counted) refl

  read_size :
      (n : ℕ) (rest : Text) → read_exact 4 (to_be_bytes n ++ rest) ≡ some (to_be_bytes n, rest)
  read_size n rest = rw (length-to_be_bytes n) at (read_exact-append (to_be_bytes n) rest)

  decrypt_chunks-end :
      (fuel counter : ℕ) (prefix : Text)
      → 4 ≤ fuel
      → decrypt_chunks decrypt fuel prefix counter (to_be_bytes 0) ≡ some (text [])
  unfolding decrypt_chunks read_exact to_be_bytes from_be_bytes
  decrypt_chunks-end zero counter prefix h = absurd (omega (arith, h))
  decrypt_chunks-end (suc fuel) counter prefix h = refl

  decrypt_chunks-Wrote :
      (fuel : ℕ) (prefix : Text) (counter : ℕ) (chunk : Text) (reads : List Text) (body : Text)
      → IsRead chunk
      → (w : Wrote prefix counter chunk reads body)
      → decrypt_chunks decrypt (suc fuel) prefix counter body
        ≡ decrypted chunk (decrypt_chunks decrypt fuel prefix (suc counter) w.rest)
  unfolding decrypt_chunks
  decrypt_chunks-Wrote fuel prefix counter chunk reads body r w =
      let size = from_be_bytes-to_be_bytes (length chunk) (omega (arith, r.1)) in
      let some_bytes : (length chunk == 0) ≡ false = ground (arith, r.0) in
      rw
        (
          w.whole,
          read_size (length chunk) (w.sealed ++ w.rest),
          size,
          some_bytes,
          size,
          decrypt_chunk-Wrote prefix counter chunk reads body r w,
          decrypt_chunks,
        )
        refl

  Wrote-shorter :
      (prefix : Text) (counter : ℕ) (chunk : Text) (reads : List Text) (body : Text)
      → (w : Wrote prefix counter chunk reads body) → length w.rest + 4 ≤ length body
  Wrote-shorter prefix counter chunk reads body w =
      let size = to_be_bytes (length chunk) in
      rw w.whole (
        omega (
          arith,
          length-append size (w.sealed ++ w.rest),
          length-append w.sealed w.rest,
          length-to_be_bytes (length chunk),
        ))

  decrypt_chunks-encrypt_chunks :
      (prefix : Text) (reads : List Text) (fuel counter : ℕ) (body : Text)
      → All IsRead reads
      → encrypt_chunks encrypt prefix counter reads ≡ some body
      → length body ≤ fuel
      → decrypt_chunks decrypt fuel prefix counter body ≡ some (text (flatten reads))
  unfolding encrypt_chunks
  decrypt_chunks-encrypt_chunks prefix [] fuel counter body a h le =
      let e : to_be_bytes 0 ≡ body = cc in
      rw (← e) (
        decrypt_chunks-end fuel counter prefix
          (omega (arith, le, ap (λ (b : Text). length b) e, length-to_be_bytes 0)))
  decrypt_chunks-encrypt_chunks prefix (chunk ∷ reads) zero counter body a h le =
      let w = encrypt_chunks-Wrote prefix counter chunk reads body a.0 h in
      absurd (omega (arith, Wrote-shorter prefix counter chunk reads body w, le))
  decrypt_chunks-encrypt_chunks prefix (chunk ∷ reads) (suc fuel) counter body a h le =
      let w = encrypt_chunks-Wrote prefix counter chunk reads body a.0 h in
      let shorter = Wrote-shorter prefix counter chunk reads body w in
      let ih =
        decrypt_chunks-encrypt_chunks prefix reads fuel (suc counter) w.rest a.1 w.more
          (omega (arith, shorter, le)) in
      decrypt_chunks-Wrote fuel prefix counter chunk reads body a.0 w ∙ rw ih refl

  encrypt_chunks-total :
      (prefix : Text) (reads : List Text) (counter : ℕ)
      → All IsRead reads
      → counter + length reads ≤ 4294967295
      → (body : Text) × (encrypt_chunks encrypt prefix counter reads ≡ some body)
  unfolding encrypt_chunks Str.is_empty checked_next
  encrypt_chunks-total prefix [] counter a le = (to_be_bytes 0, refl)
  encrypt_chunks-total prefix ([] ∷ reads) counter a le = absurd (omega (arith, a.0.0))
  encrypt_chunks-total prefix ((b ∷ bs) ∷ reads) counter a le =
      let (rest, e) = encrypt_chunks-total prefix reads (suc counter) a.1 (omega (arith, le)) in
      let (sealed, f) = cipher.seals (nonce prefix counter) (to_be_bytes counter) (b ∷ bs) a.0.1 in
      let room : ltb counter 4294967295 ≡ true = ground (arith, le) in
      (to_be_bytes (length (b ∷ bs) % 4294967296) ++ (sealed ++ rest), rw (f, room, e) refl)

  pub decrypt_file_of_chunks :
      (prefix : Text) (reads : List Text) (body : Text)
      → length prefix ≡ 8
      → All IsRead reads
      → encrypt_chunks encrypt prefix 0 reads ≡ some body
      → decrypt_file decrypt (magic_bytes ++ (prefix ++ body)) ≡ some (flatten reads)
  unfolding decrypt_file
  decrypt_file_of_chunks prefix reads body l a e =
      let header = read_exact-append magic_bytes (prefix ++ body) in
      let eight = rw l at (read_exact-append prefix body) in
      let decrypts =
        decrypt_chunks-encrypt_chunks prefix reads (suc (length body)) 0 body a e (omega arith) in
      rw (header, same_refl magic_bytes, eight, decrypt_file) (rw decrypts refl)

  -- A file of less than 2^32 reads, each of 1 byte to 4 MiB, is encrypted, and what is written is
  -- decrypted to the bytes that were read, however the reads cut the file; under a cipher that
  -- encrypts such chunks, adds 16 bytes to each and decrypts what it encrypted.
  pub decrypt_file-encrypt_file :
      (prefix : Text) (reads : List Text)
      → length prefix ≡ 8
      → All IsRead reads
      → length reads ≤ 4294967295
      → (out : Text) × (encrypt_file encrypt prefix reads ≡ some out)
        × (decrypt_file decrypt out ≡ some (flatten reads))
  unfolding encrypt_file
  decrypt_file-encrypt_file prefix reads l a le =
      let (body, e) = encrypt_chunks-total prefix reads 0 a (omega (arith, le)) in
      (
        magic_bytes ++ (prefix ++ body),
        rw (e, encrypt_file) refl,
        decrypt_file_of_chunks prefix reads body l a e,
      )
