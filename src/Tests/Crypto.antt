-- ===== src/Tests/Crypto.antt =====
-- An encrypted file of two chunks, under a cipher that only adds a tag: src/storage/backup/crypto.rs.
use agapornis_agent_rust.Storage.Crypto
use agapornis_agent_rust.Base.Str
use agapornis_agent_rust.Storage.Crypto.{encrypt_file, decrypt_file, decrypt_chunks, Ended}
use agapornis_agent_rust.Storage.Crypto.Fuel.{decrypt_chunks-ends}
use agapornis_agent_rust.Storage.Crypto.Bytes.{to_be_bytes}
use agapornis_agent_rust.Storage.Crypto.RoundTrip.{IsCipher, decrypt_file-encrypt_file}
use agapornis_agent_rust.Storage.Crypto.Truncation.{truncated_accepted}
use agapornis_agent_rust.Base.{take-length-append}
use agapornis_agent_rust.Base.{
  ◌-◌, ◌≡◌, refl, ap, Option, some, List, [], ◌∷◌, ◌++◌, arith, length, length-append, take, Text,
  codes,
}

abbrev empty_tag : Text
empty_tag = codes "................"

abbrev add_tag : Text → Text → Text → Option Text
add_tag n aad plain = some (plain ++ empty_tag)

abbrev drop_tag : Text → Text → Text → Option Text
drop_tag n aad sealed = some (take (length sealed - 16) sealed)

untagged : (plain : Text) → take (length (plain ++ empty_tag) - 16) (plain ++ empty_tag) ≡ plain
untagged plain =
    let short : length (plain ++ empty_tag) - 16 ≡ length plain =
      omega (arith, length-append plain empty_tag) in
    rw (short, take-length-append plain empty_tag) refl

tag-IsCipher : IsCipher add_tag drop_tag
tag-IsCipher = record {
  decrypts = λ n aad plain {sealed} e.
      let is : plain ++ empty_tag ≡ sealed = cc in rw (← is) (ap some (untagged plain));
  seals = λ n aad plain h. (plain ++ empty_tag, refl);
  tagged = λ n aad plain {sealed} e.
      let is : plain ++ empty_tag ≡ sealed = cc in rw (← is) (length-append plain empty_tag);
}

abbrev file_prefix : Text
file_prefix = codes "12345678"

abbrev two_reads : List Text
two_reads = codes "first " ∷ codes "second" ∷ []

decrypt_file-encrypt_file_example :
    (out : Text) × (encrypt_file add_tag file_prefix two_reads ≡ some out)
    × (decrypt_file drop_tag out ≡ some (codes "first second"))
decrypt_file-encrypt_file_example =
    decrypt_file-encrypt_file tag-IsCipher file_prefix two_reads refl
      ((omega arith, omega arith), ((omega arith, omega arith), tt)) (omega arith)

abbrev body_of_two : Text
body_of_two =
    to_be_bytes 6
    ++ (codes "first "
        ++ (empty_tag ++ (to_be_bytes 6 ++ (codes "second" ++ (empty_tag ++ to_be_bytes 0)))))

file_of_two :
    encrypt_file add_tag file_prefix two_reads
    ≡ some (Crypto.magic_bytes ++ (file_prefix ++ body_of_two))
unfolding encrypt_file Crypto.encrypt_chunks Crypto.checked_next to_be_bytes Str.is_empty
file_of_two = refl

truncated_accepted_example :
    (kept : Text) × (rest : Text) × (Crypto.magic_bytes ++ (file_prefix ++ body_of_two)
      ≡ kept ++ rest)
    × (decrypt_file drop_tag (kept ++ to_be_bytes 0) ≡ some (codes "first "))
truncated_accepted_example =
    truncated_accepted tag-IsCipher file_prefix (codes "first " ∷ []) (codes "second" ∷ []) refl
      ((omega arith, omega arith), tt) file_of_two

decrypt_chunks-ends_example :
    (e : Ended) × (decrypt_chunks drop_tag 60 file_prefix 0 body_of_two ≡ some e)
    × (decrypt_chunks drop_tag 100 file_prefix 0 body_of_two ≡ some e)
decrypt_chunks-ends_example =
    decrypt_chunks-ends drop_tag file_prefix 60 100 0 body_of_two
      (unfold to_be_bytes in omega arith) (unfold to_be_bytes in omega arith)
