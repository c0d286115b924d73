-- ===== src/Core/Paths.antt =====
-- Names of servers and paths of files: src/core/paths.rs.
-- A text is the list of its code points, and a path the list of its components. `base` stands for
-- the components of `base_servers_dir()`.
pub mod Relative
pub mod Confined
pub mod RoundTrip
pub mod Joined
pub mod Ids
pub mod Containers
use agapornis_agent_rust.Base.Str
use agapornis_agent_rust.Base.{
  ℕ, zero, suc, ◌+◌, ◌-◌, ◌*◌, ◌/◌, ◌%◌, ◌^◌, ◌≤◌, ◌<◌, min, max, ◌≡◌, refl, sym, ap, ◌∙◌, ◌≢◌, ◌↔◌,
  ◌⊎◌, inl, inr, Bool, true, false, not, ◌&&◌, ◌||◌, Option, none, some, List, [], ◌∷◌, ◌++◌, map,
  arith, ltb, leb, ◌==◌, if◌then◌else◌, ==_iff, ltb-eq-false, Bool-cases, Option-cases, is_some,
  length, length-append, take, drop, take-append-drop, All, All-append, IsSuffix, Text, same,
  same_iff, same_refl, codes, u64_max, sat_add, wrapping_add, sat_add_exact,
}

abbrev pub home_container_path : Text
home_container_path = codes "/home/container"

abbrev pub data_container_path : Text
data_container_path = codes "/data"

abbrev pub dot : Text
dot = codes "."

abbrev pub dot_dot : Text
dot_dot = codes ".."

abbrev pub slash : ℕ
slash = b'/'

abbrev pub backslash : ℕ
backslash = b'\\'

abbrev pub FilePath : Type 0
FilePath = List Text

-- Whether `validate_id` returns `Ok`.
unfoldable pub validate_id : Text → Bool
validate_id id = not (
    Str.is_empty id
    || same id dot
    || same id dot_dot
    || Str.has_char slash id
    || Str.has_char backslash id
    || Str.has_char 0 id)

-- `std::path::Component` on Unix, where there are no prefixes.
pub data Component : Type 0 where
  root_dir cur_dir parent_dir : Component
  normal : Text → Component

-- One part between slashes. Only a leading "." is a component of its own.
abbrev pub component : Bool → Text → List Component
component first part =
    if Str.is_empty part
    then []
    else if same part dot
    then (if first then cur_dir ∷ [] else [])
    else if same part dot_dot
    then parent_dir ∷ []
    else normal part ∷ []

unfoldable pub body : Bool → List Text → List Component
body first [] = []
body first (part ∷ parts) = component first part ++ body false parts

-- `Path::components`: a leading slash is the root; repeated slashes and inner "." are skipped.
unfoldable pub components : Text → List Component
components path =
    if Str.starts_with (slash ∷ []) path
    then root_dir ∷ body false (Str.split slash path)
    else body true (Str.split slash path)

-- What `Path::join` appends of a path: its components, less the root and any ".".
unfoldable pub appended : List Component → FilePath
appended [] = []
appended (normal value ∷ parts) = value ∷ appended parts
appended (parent_dir ∷ parts) = dot_dot ∷ appended parts
appended (root_dir ∷ parts) = appended parts
appended (cur_dir ∷ parts) = appended parts

-- `Path::join`: a path that begins at the root takes the place of the first one.
unfoldable pub join : FilePath → Text → FilePath
join base path =
    if Str.starts_with (slash ∷ []) path
    then appended (components path)
    else base ++ appended (components path)

module _ (base : FilePath) where
  unfoldable pub server_dir : Text → Option FilePath
  server_dir id = if validate_id id then some (join base id) else none

  unfoldable pub disk_limit_path : Text → Option FilePath
  disk_limit_path id =
      if validate_id id
      then some (join (join base (codes ".metadata")) (id ++ codes ".disk-limit"))
      else none

  unfoldable pub config_files_path : Text → Option FilePath
  config_files_path id =
      if validate_id id
      then some (join (join base (codes ".metadata")) (id ++ codes ".config-files.json"))
      else none

  unfoldable pub backup_dir : Text → Option FilePath
  backup_dir id = elim (server_dir id) [
    | none ↦ none
    | some dir ↦ some (join dir (codes ".agapornis-backups"))
  ]

abbrev pub push_front : Text → Option FilePath → Option FilePath
push_front name none = none
push_front name (some path) = some (name ∷ path)

-- The loop of `relative`; the number is `index`.
unfoldable pub collect : ℕ → List Component → Option FilePath
collect index [] = some []
collect index (normal value ∷ parts) = push_front value (collect (suc index) parts)
collect index (cur_dir ∷ parts) = collect (suc index) parts
collect index (root_dir ∷ parts) =
    let rest = collect (suc index) parts in if index == 0 then rest else none
collect index (parent_dir ∷ parts) = none

unfoldable pub relative : Text → Option FilePath
relative requested = collect 0 (components (Str.replace_char backslash slash requested))

unfoldable pub safe_host_path : FilePath → Text → Option FilePath
safe_host_path root requested = elim (relative requested) [
  | none ↦ none
  | some rel ↦ some (root ++ rel)
]

-- `to_string_lossy().replace('\\', "/")`
abbrev pub path_text : FilePath → Text
path_text path = Str.replace_char backslash slash (Str.join (slash ∷ []) path)

unfoldable pub container_path : Text → Text → Option Text
container_path root requested = elim (relative requested) [
  | none ↦ none
  | some path ↦ some (
      let rel = path_text path in
      if Str.is_empty rel
      then root
      else Str.trim_end_matches (λ c. c == slash) root ++ (slash ∷ rel))
]

abbrev pub data_keys : List Text
data_keys =
    codes "AGAPORNIS_DATA_DIR"
    ∷ codes "SERVER_WORKDIR"
    ∷ codes "SERVER_DATA_DIR"
    ∷ codes "DATA_DIR"
    ∷ []

-- The condition on one entry, with the value that is returned for it.
unfoldable pub data_entry : Text → Option Text
data_entry entry = elim (Str.split_once (λ c. c == b'=') entry) [
  | none ↦ none
  | some (key, value) ↦
      if Str.any_same key data_keys
        && Str.starts_with (slash ∷ []) value
        && not (Str.has_text dot_dot value)
      then some value
      else none
]

unfoldable pub data_path : Text → List Text → Text
data_path image [] =
    if Str.has_text (codes "itzg/") (Str.to_ascii_lowercase image)
      || Str.has_text (codes "minecraft-server") (Str.to_ascii_lowercase image)
    then data_container_path
    else home_container_path
data_path image (entry ∷ env) =
    let rest = data_path image env in elim (data_entry entry) [ none ↦ rest | some value ↦ value ]
