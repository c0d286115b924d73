-- ===== src/Core/Paths/Ids.antt =====
-- The files that belong to a server id, and the data path of an image.
use mathlib.Core.List.{
  append_assoc, append_cancel_left, append_cancel_right, reverse, reverse-append,
}
use agapornis_agent_rust.Base.Str
use agapornis_agent_rust.Core.Paths.{
  slash, backslash, FilePath, join, relative, validate_id, server_dir, disk_limit_path,
  config_files_path, backup_dir,
}
use agapornis_agent_rust.Core.Paths.Joined.{
  validate_id-IsName, join-name, metadata-IsName, backups-IsName, suffixed-IsName,
}
use agapornis_agent_rust.Core.Paths.RoundTrip.{relative-join}
use agapornis_agent_rust.Base.{
  ℕ, ◌≡◌, refl, sym, ap, ◌∙◌, ◌≢◌, inl, inr, true, false, Option, none, some, [], ◌∷◌, ◌++◌, arith,
  Bool-cases, Text, same, codes,
}

-- An id that is accepted is one component for the path functions too: read as a path, it names
-- that one entry of the directory of the servers.
pub relative-validate_id : (id : Text) → validate_id id ≡ true → relative id ≡ some (id ∷ [])
unfolding Str.join
relative-validate_id id h = relative-join (id ∷ []) (validate_id-IsName id h, tt)

-- The files and directories that belong to one server.
pub data FileKind : Type 0 where
  directory disk_limit config_files backups : FileKind

abbrev pub file : FilePath → FileKind → Text → Option FilePath
file base directory id = server_dir base id
file base disk_limit id = disk_limit_path base id
file base config_files id = config_files_path base id
file base backups id = backup_dir base id

-- Where a file stands below `base_servers_dir()`.
abbrev place : FileKind → Text → FilePath
place directory id = id ∷ []
place disk_limit id = codes ".metadata" ∷ (id ++ codes ".disk-limit") ∷ []
place config_files id = codes ".metadata" ∷ (id ++ codes ".config-files.json") ∷ []
place backups id = id ∷ codes ".agapornis-backups" ∷ []

module _ (base : FilePath) (id : Text) (valid : validate_id id ≡ true) where
  in_metadata :
      (c d : ℕ) (suffix : Text)
      → Str.has_char slash (c ∷ d ∷ suffix) ≡ false
      → Str.has_char backslash (c ∷ d ∷ suffix) ≡ false
      → join (join base (codes ".metadata")) (id ++ c ∷ d ∷ suffix)
        ≡ base ++ (codes ".metadata" ∷ (id ++ c ∷ d ∷ suffix) ∷ [])
  in_metadata c d suffix s t =
      join-name _ (id ++ c ∷ d ∷ suffix)
        (suffixed-IsName id c d suffix (validate_id-IsName id valid) s t)
      ∙ rw (join-name base (codes ".metadata") metadata-IsName)
          (append_assoc base (codes ".metadata" ∷ []) _)

  server_dir-valid : server_dir base id ≡ some (base ++ id ∷ [])
  unfolding server_dir
  server_dir-valid = rw (valid, join-name base id (validate_id-IsName id valid)) refl

  file-valid : (k : FileKind) → file base k id ≡ some (base ++ place k id)
  unfolding server_dir disk_limit_path config_files_path backup_dir
  file-valid directory = server_dir-valid
  file-valid disk_limit =
      rw
        (
          valid,
          in_metadata b'.' b'd' (codes "isk-limit") (unfold Str.has_char in refl)
              (unfold Str.has_char in refl),
        )
        refl
  file-valid config_files =
      rw
        (
          valid,
          in_metadata b'.' b'c' (codes "onfig-files.json") (unfold Str.has_char in refl)
              (unfold Str.has_char in refl),
        )
        refl
  file-valid backups =
      rw (server_dir-valid, backup_dir)
        (ap some (
          join-name _ (codes ".agapornis-backups") backups-IsName
          ∙ append_assoc base (id ∷ []) (codes ".agapornis-backups" ∷ [])))

server_dir-refused :
    (base : FilePath) (id : Text) → validate_id id ≡ false → server_dir base id ≡ none
unfolding server_dir
server_dir-refused base id h = rw h refl

-- Only a valid id has files.
file-refused :
    (base : FilePath) (k : FileKind) (id : Text) → validate_id id ≡ false → file base k id ≡ none
unfolding server_dir disk_limit_path config_files_path backup_dir
file-refused base directory id h = server_dir-refused base id h
file-refused base disk_limit id h = rw h refl
file-refused base config_files id h = rw h refl
file-refused base backups id h = rw (server_dir-refused base id h, backup_dir) refl

file-place :
    (base : FilePath) (k : FileKind) (id : Text) (p : FilePath)
    → file base k id ≡ some p
    → p ≡ base ++ place k id
file-place base k id p h = elim (Bool-cases (validate_id id)) [
  | inl valid ↦ let both = sym h ∙ file-valid base id valid k in cc
  | inr refused ↦ let both = sym h ∙ file-refused base k id refused in absurd (ground arith)
]

last_differs : (a s b t : Text) (c d : ℕ) → c ≢ d → a ++ (s ++ c ∷ []) ≢ b ++ (t ++ d ∷ [])
last_differs a s b t c d ne e =
    let turned : (x y : Text) (z : ℕ)
        → reverse (x ++ (y ++ z ∷ [])) ≡ z ∷ (reverse y ++ reverse x) =
      λ x y z.
        reverse-append x (y ++ z ∷ [])
        ∙ ap (λ (r : Text). r ++ reverse x) (reverse-append y (z ∷ [])) in
    let h : c ∷ (reverse s ++ reverse a) ≡ d ∷ (reverse t ++ reverse b) =
      sym (turned a s c) ∙ ap reverse e ∙ turned b t d in
    ne (cc)

second : {x y z w : Text} → x ∷ y ∷ [] ≡ z ∷ w ∷ [] → y ≡ w
second e = cc

place-injective : (k j : FileKind) (a b : Text) → place k a ≡ place j b → (k ≡ j) × (a ≡ b)
place-injective directory directory a b e = (refl, cc)
place-injective directory disk_limit a b e = absurd (ground arith)
place-injective directory config_files a b e = absurd (ground arith)
place-injective directory backups a b e = absurd (ground arith)
place-injective disk_limit disk_limit a b e =
    (refl, append_cancel_right a b (codes ".disk-limit") (second e))
place-injective disk_limit config_files a b e = absurd (
    last_differs a (codes ".disk-limi") b (codes ".config-files.jso") b't' b'n' (omega arith)
      (second e))
place-injective disk_limit backups a b e = absurd (
    last_differs a (codes ".disk-limi") [] (codes ".agapornis-backup") b't' b's' (omega arith)
      (second e))
place-injective config_files disk_limit a b e = absurd (
    last_differs a (codes ".config-files.jso") b (codes ".disk-limi") b'n' b't' (omega arith)
      (second e))
place-injective config_files config_files a b e =
    (refl, append_cancel_right a b (codes ".config-files.json") (second e))
place-injective config_files backups a b e = absurd (
    last_differs a (codes ".config-files.jso") [] (codes ".agapornis-backup") b'n' b's'
      (omega arith) (second e))
place-injective backups disk_limit a b e = absurd (
    last_differs [] (codes ".agapornis-backup") b (codes ".disk-limi") b's' b't' (omega arith)
      (second e))
place-injective backups config_files a b e = absurd (
    last_differs [] (codes ".agapornis-backup") b (codes ".config-files.jso") b's' b'n'
      (omega arith) (second e))
place-injective backups directory a b e = absurd (ground arith)
place-injective disk_limit directory a b e = absurd (ground arith)
place-injective config_files directory a b e = absurd (ground arith)
place-injective backups backups a b e = (refl, cc)

-- Each path of a server is its own: the path of the directory, of the disk limit, of the
-- configuration descriptor or of the backup directory of one server is that of no other server, nor
-- of another kind.
pub file-injective :
    (base : FilePath) (k j : FileKind) (a b : Text) {p : FilePath}
    → file base k a ≡ some p
    → file base j b ≡ some p
    → (k ≡ j) × (a ≡ b)
file-injective base k j a b {p} h g =
    place-injective k j a b
      (append_cancel_left base _ _ (sym (file-place base k a p h) ∙ file-place base j b p g))

-- The id ".metadata" is accepted, and its directory is the one that holds the disk limit and the
-- configuration descriptor of every server with a valid id.
pub metadata_holds :
    (base : FilePath) (id : Text)
    → validate_id id ≡ true
    → (dir : FilePath) × (name other : Text) × (server_dir base (codes ".metadata") ≡ some dir)
      × (disk_limit_path base id ≡ some (dir ++ name ∷ []))
      × (config_files_path base id ≡ some (dir ++ other ∷ []))
metadata_holds base id h = (
  base ++ codes ".metadata" ∷ [],
  id ++ codes ".disk-limit",
  id ++ codes ".config-files.json",
  file-valid base (codes ".metadata") (unfold validate_id Str.is_empty same Str.has_char in refl)
      directory,
  file-valid base id h disk_limit ∙ rw (append_assoc base (codes ".metadata" ∷ [])) refl,
  file-valid base id h config_files ∙ rw (append_assoc base (codes ".metadata" ∷ [])) refl,
)
