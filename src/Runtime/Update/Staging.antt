-- ===== src/Runtime/Update/Staging.antt =====
-- How an update is downloaded and staged: `stage` of src/runtime/update.rs. The answer of the
-- server is an argument, and so are the two names that `uuid` draws.
use agapornis_agent_rust.Base.Str
use agapornis_agent_rust.Runtime.Update.{Forms, marker, exists, pending_update_at}
use agapornis_agent_rust.Runtime.Update.Calls.{
  Place, staged, File, give, give_up, ◌>>=◌, ◌>>◌, rename, remove_file, set_permissions, create_new,
  append, pass, attempt,
}
use agapornis_agent_rust.Base.{
  ℕ, ◌*◌, Bool, true, false, not, ◌||◌, Option, none, some, List, [], ◌∷◌, ◌++◌, ltb, ◌==◌,
  if◌then◌else◌, is_some, length, Text, same, codes,
}

-- What the server answers, after redirects; a chunk that is `none` is one that fails to come.
pub record Response : Type 0 where
  pub is_https : Bool
  pub content_length : Option ℕ
  pub chunks : List (Option Text)

-- `hex::decode` and SHA-256.
pub record Digests : Type 0 where
  pub hex_decode : Text → Option Text
  pub sha256 : Text → Text

abbrev pub artifact_limit : ℕ
artifact_limit = 512 * 1024 * 1024

abbrev pub is_longer : Option ℕ → Bool
is_longer none = false
is_longer (some v) = ltb artifact_limit v

-- `let _ = fs::remove_file(..); bail!(..)`
unfoldable pub discard : {A : Type 0} → Place → File A
discard target = attempt (remove_file target) >> give_up

-- The loop over the chunks, with what was received before; the hash is taken of the whole.
unfoldable pub receive : Place → Text → List (Option Text) → File Text
receive target received [] = give received
receive target received (none ∷ chunks) = give_up
receive target received (some chunk ∷ chunks) =
    let all = received ++ chunk in
    let rest = receive target all chunks in
    if ltb artifact_limit (length all) then discard target else (append target chunk >> rest)

-- A marker that names nothing is removed.
unfoldable pub clear_marker : File Bool
clear_marker f fates = if exists marker f then remove_file marker f fates else give true f fates

abbrev pub target_name : Text → Text
target_name uuid = codes "agapornis-agent-" ++ (uuid ++ codes ".pending")

abbrev pub temp_name : Text → Text
temp_name uuid = codes ".pending-artifact-" ++ (uuid ++ codes ".tmp")

module _ (forms : Forms) (digests : Digests) where
  -- The marker is written beside its place and moved there.
  unfoldable pub commit_marker : Text → Text → File Text
  commit_marker target marker_temp =
      create_new (staged marker_temp)
      >> (append (staged marker_temp) (forms.display (staged target))
          >> (pass >> λ f fates.
              let moved = rename (staged marker_temp) marker f fates in
              elim moved.result [
                | none ↦
                    (attempt (remove_file (staged marker_temp)) >> discard (staged target))
                      moved.files moved.fates
                | some done ↦ give target moved.files moved.fates
              ]))

  -- Once all is received.
  unfoldable pub verify : Text → Text → Text → Text → File Text
  verify expected target marker_temp received =
      if Str.is_empty received
      then discard (staged target)
      else (pass
          >> (if same (digests.sha256 received) expected
              then set_permissions (staged target) >> commit_marker target marker_temp
              else discard (staged target)))

  unfoldable pub download : Text → Text → Text → List (Option Text) → File Text
  download expected target marker_temp chunks =
      create_new (staged target)
      >> (receive (staged target) [] chunks >>= verify expected target marker_temp)

  -- From the answer on.
  unfoldable pub stage_response : Text → Text → Text → Response → File Text
  stage_response expected target marker_temp response =
      if not response.is_https || is_longer response.content_length
      then give_up
      else (pass
          >> (pass
              >> (pending_update_at forms >>= λ pending.
                  if is_some pending
                  then give_up
                  else (clear_marker >> download expected target marker_temp response.chunks))))

  -- With the two numbers that `uuid` draws.
  unfoldable pub stage : Text → Text → Option Response → Text → Text → File Text
  stage url sha response uuid again =
      if not (Str.starts_with (codes "https://") url)
      then give_up
      else elim (digests.hex_decode (Str.trim sha)) [
        | none ↦ give_up
        | some expected ↦ if not (length expected == 32) then give_up else elim response [
          | none ↦ give_up
          | some answer ↦ stage_response expected (target_name uuid) (temp_name again) answer
        ]
      ]
