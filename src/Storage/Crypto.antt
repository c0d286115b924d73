-- ===== src/Storage/Crypto.antt =====
-- Encrypted backups: src/storage/backup/crypto.rs. The cipher, under its key, is a parameter: what
-- it makes of a nonce, the additional data and a message. The reads of the source file are given as
-- the chunks that they return, and the file that is decrypted as its bytes.
pub mod Bytes
pub mod RoundTrip
pub mod Fuel
pub mod Truncation
use agapornis_agent_rust.Storage.Crypto.Bytes.{to_be_bytes, from_be_bytes}
use agapornis_agent_rust.Base.Str
use agapornis_agent_rust.Base.{
  ℕ, zero, suc, ◌+◌, ◌-◌, ◌*◌, ◌/◌, ◌%◌, ◌^◌, ◌≤◌, ◌<◌, min, max, ◌≡◌, refl, sym, ap, ◌∙◌, ◌≢◌, ◌↔◌,
  ◌⊎◌, inl, inr, Bool, true, false, not, ◌&&◌, ◌||◌, Option, none, some, List, [], ◌∷◌, ◌++◌, map,
  arith, ltb, leb, ◌==◌, if◌then◌else◌, ==_iff, ltb-eq-false, Bool-cases, Option-cases, is_some,
  length, length-append, take, drop, take-append-drop, All, All-append, IsSuffix, Text, same,
  same_iff, same_refl, codes, u64_max, sat_add, wrapping_add, sat_add_exact,
}

abbrev pub magic_bytes : Text
magic_bytes = codes "AGPBK01" ++ 0 ∷ []

abbrev pub chunk_limit : ℕ
chunk_limit = 4194304

-- `u32::checked_add(1)`
unfoldable pub checked_next : ℕ → Option ℕ
checked_next counter = if ltb counter 4294967295 then some (suc counter) else none

-- `read_exact` for `n` bytes, with the rest of the file
unfoldable pub read_exact : ℕ → Text → Option (Text × Text)
read_exact n src = if leb n (length src) then some (take n src, drop n src) else none

unfoldable pub nonce : Text → ℕ → Text
nonce prefix counter = prefix ++ to_be_bytes counter

-- What a further round of the encryption writes, after this one's chunk.
abbrev pub written : ℕ → Text → Option Text → Option Text
written n encrypted none = none
written n encrypted (some rest) = some (to_be_bytes (n % 4294967296) ++ (encrypted ++ rest))

-- How the rounds of the decryption end: with the plain text, or with an error.
pub data Ended : Type 0 where
  text : Text → Ended
  failed : Ended

-- How they end with this chunk before.
abbrev pub decrypted : Text → Option Ended → Option Ended
decrypted plain none = none
decrypted plain (some failed) = some failed
decrypted plain (some (text rest)) = some (text (plain ++ rest))

abbrev pub outcome : Option Ended → Option Text
outcome none = none
outcome (some failed) = none
outcome (some (text plain)) = some plain

module _ (encrypt : Text → Text → Text → Option Text) where
  -- The loop of `encrypt_file_blocking`, over the reads that follow. A read of nothing ends it.
  unfoldable pub encrypt_chunks : Text → ℕ → List Text → Option Text
  encrypt_chunks prefix counter [] = some (to_be_bytes 0)
  encrypt_chunks prefix counter (chunk ∷ reads) =
      let rest = encrypt_chunks prefix (suc counter) reads in
      if Str.is_empty chunk
      then some (to_be_bytes 0)
      else elim (encrypt (nonce prefix counter) (to_be_bytes counter) chunk) [
        | none ↦ none
        | some encrypted ↦
            if is_some (checked_next counter) then written (length chunk) encrypted rest else none
      ]

  unfoldable pub encrypt_file : Text → List Text → Option Text
  encrypt_file prefix reads = elim (encrypt_chunks prefix 0 reads) [
    | none ↦ none
    | some body ↦ some (magic_bytes ++ (prefix ++ body))
  ]

module _ (decrypt : Text → Text → Text → Option Text) where
  -- One chunk, once its length is read: the plain text, and what is left of the file.
  unfoldable pub decrypt_chunk : Text → ℕ → ℕ → Text → Option (Text × Text)
  decrypt_chunk prefix counter n src =
      if ltb chunk_limit n then none else elim (read_exact (n + 16) src) [
        | none ↦ none
        | some (sealed, rest) ↦ elim (decrypt (nonce prefix counter) (to_be_bytes counter) sealed) [
          | none ↦ none
          | some plain ↦ if is_some (checked_next counter) then some (plain, rest) else none
        ]
      ]

  -- The loop of `decrypt_file_blocking`, on fuel; `none` where the fuel runs out.
  unfoldable pub decrypt_chunks : ℕ → Text → ℕ → Text → Option Ended
  decrypt_chunks zero prefix counter src = none
  decrypt_chunks (suc fuel) prefix counter src = elim (read_exact 4 src) [
    | none ↦ some failed
    | some (size, rest) ↦ elim (from_be_bytes size == 0) [
      | true ↦ some (text [])
      | false ↦ elim (decrypt_chunk prefix counter (from_be_bytes size) rest) [
        | none ↦ some failed
        | some (plain, left) ↦ decrypted plain (decrypt_chunks fuel prefix (suc counter) left)
      ]
    ]
  ]

  unfoldable pub decrypt_file : Text → Option Text
  decrypt_file src = elim (read_exact 8 src) [
    | none ↦ none
    | some (magic, rest) ↦
        if same magic magic_bytes
        then elim (read_exact 8 rest) [
          | none ↦ none
          | some (prefix, body) ↦ outcome (decrypt_chunks (suc (length body)) prefix 0 body)
        ]
        else none
  ]
