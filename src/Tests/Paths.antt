-- ===== src/Tests/Paths.antt =====
-- Paths and ids on concrete texts: src/core/paths.rs.
use agapornis_agent_rust.Base.Str
use agapornis_agent_rust.Core.Paths
use agapornis_agent_rust.Core.Paths.{
  FilePath, validate_id, relative, safe_host_path, server_dir, disk_limit_path, config_files_path,
  container_path, data_path, slash, join, components, body, appended,
}
use agapornis_agent_rust.Core.Paths.Relative.{described, parts_of, relative-described}
use agapornis_agent_rust.Core.Paths.Confined.{IsName, walk, down, safe_host_path-below}
use agapornis_agent_rust.Core.Paths.Ids.{disk_limit, file-injective, metadata_holds}
use agapornis_agent_rust.Core.Paths.Containers.{below, container_path-below}
use agapornis_agent_rust.Base.{
  ◌≡◌, refl, ◌⊎◌, true, none, some, List, [], ◌∷◌, ◌++◌, arith, All, Text, same, codes,
}

abbrev request : Text
request = codes "/world\\./region//r.0.mca"

abbrev region : FilePath
region = codes "world" ∷ codes "region" ∷ codes "r.0.mca" ∷ []

abbrev root_path : FilePath
root_path = codes "srv" ∷ codes "a1" ∷ []

traversal_refused : relative (codes "world/../../etc/passwd") ≡ none
unfolding relative Paths.components Paths.collect Paths.body Str.replace_char Str.split Str.is_empty
    Str.starts_with same
traversal_refused = refl

region_found : safe_host_path root_path request ≡ some (root_path ++ region)
unfolding safe_host_path relative Paths.components Paths.collect Paths.body Str.replace_char
    Str.split Str.is_empty Str.starts_with same
region_found = refl

safe_host_path-below_example :
    (rel : FilePath) × (root_path ++ region ≡ root_path ++ rel)
    × All IsName rel
    × (walk [] (root_path ++ region) ≡ down (walk [] root_path) rel)
safe_host_path-below_example = safe_host_path-below root_path request region_found

relative-described_example : relative request ≡ described (parts_of request)
relative-described_example = relative-described request

abbrev names_only : FilePath
names_only = codes "mods" ∷ codes "a b.jar" ∷ []

names_only-IsName : All IsName names_only
unfolding Str.has_char Str.is_empty same
names_only-IsName = ground arith

container_path-below_example :
    ((relative request ≡ none) × (container_path (codes "/data/") request ≡ none))
    ⊎ ((rel : FilePath) × (relative request ≡ some rel)
        × All IsName rel
        × (container_path (codes "/data/") request ≡ some (below (codes "/data/") rel)))
container_path-below_example = container_path-below (codes "/data/") request

abbrev server_id : Text
server_id = codes "a1"

server_id-valid : validate_id server_id ≡ true
unfolding validate_id Str.is_empty same Str.has_char
server_id-valid = refl

server_id-disk_limit :
    disk_limit_path root_path server_id
    ≡ some (root_path ++ (codes ".metadata" ∷ codes "a1.disk-limit" ∷ []))
unfolding disk_limit_path join components body appended Str.starts_with Str.split Str.is_empty same
server_id-disk_limit = rw server_id-valid refl

file-injective_example : (disk_limit ≡ disk_limit) × (server_id ≡ server_id)
file-injective_example =
    file-injective root_path disk_limit disk_limit server_id server_id
      {p = root_path ++ (codes ".metadata" ∷ codes "a1.disk-limit" ∷ [])} server_id-disk_limit
      server_id-disk_limit

metadata_holds_example :
    (dir : FilePath) × (name other : Text) × (server_dir root_path (codes ".metadata") ≡ some dir)
    × (disk_limit_path root_path server_id ≡ some (dir ++ name ∷ []))
    × (config_files_path root_path server_id ≡ some (dir ++ other ∷ []))
metadata_holds_example = metadata_holds root_path server_id server_id-valid

abbrev environment : List Text
environment = codes "DATA_DIR=../up" ∷ codes "SERVER_WORKDIR=/srv/game" ∷ []

workdir_taken : data_path (codes "ghcr.io/x") environment ≡ codes "/srv/game"
unfolding data_path Paths.data_entry Str.split_once Str.any_same Str.starts_with Str.has_text
    Str.to_ascii_lowercase same
workdir_taken = refl
