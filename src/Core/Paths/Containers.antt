-- ===== src/Core/Paths/Containers.antt =====
-- Paths inside a container: `container_path` and `data_path`.
use mathlib.Core.Path.{subst}
use agapornis_agent_rust.Base.Str
use agapornis_agent_rust.Core.Paths.{
  dot_dot, slash, FilePath, relative, container_path, path_text, data_entry, data_keys, data_path,
}
use agapornis_agent_rust.Core.Paths.Confined.{IsName, relative-IsName}
use agapornis_agent_rust.Core.Paths.RoundTrip.{replace_char_idle, join-Lacks, All-backslash}
use agapornis_agent_rust.Base.{
  ◌≡◌, refl, ap, ◌⊎◌, inl, inr, true, false, not, ◌&&◌, ◌||◌, none, some, List, [], ◌∷◌, ◌++◌,
  arith, ◌==◌, if◌then◌else◌, Bool-cases, Option-cases, All, Text, codes,
}

-- The text of a container path that stands for `rel`, below `root`.
abbrev pub below : Text → FilePath → Text
below root [] = root
below root (name ∷ names) =
    Str.trim_end_matches (λ c. c == slash) root ++ (slash ∷ Str.join (slash ∷ []) (name ∷ names))

not_empty_join :
    (n : Text) (ns : FilePath) → IsName n → Str.is_empty (Str.join (slash ∷ []) (n ∷ ns)) ≡ false
unfolding Str.is_empty Str.join
not_empty_join [] ns a = ground arith
not_empty_join (c ∷ n) [] a = refl
not_empty_join (c ∷ n) (m ∷ ns) a = refl

path_text-join : (path : FilePath) → All IsName path → path_text path ≡ Str.join (slash ∷ []) path
path_text-join path a = replace_char_idle _ (join-Lacks path (All-backslash path a))

container_path_written :
    (root : Text) (rel : FilePath)
    → All IsName rel
    → (if Str.is_empty (Str.join (slash ∷ []) rel)
        then root
        else Str.trim_end_matches (λ c. c == slash) root ++ (slash ∷ Str.join (slash ∷ []) rel))
      ≡ below root rel
container_path_written root [] a = unfold Str.join Str.is_empty in refl
container_path_written root (n ∷ ns) a = rw (not_empty_join n ns a.0) refl

-- `container_path` fails exactly when `relative` does, and otherwise returns the root followed by
-- names that are joined by one slash each, or the root alone when the request names nothing.
pub container_path-below :
    (root requested : Text)
    → ((relative requested ≡ none) × (container_path root requested ≡ none))
      ⊎ ((rel : FilePath) × (relative requested ≡ some rel)
          × All IsName rel
          × (container_path root requested ≡ some (below root rel)))
unfolding container_path
container_path-below root requested = elim (Option-cases (relative requested)) [
  | inl e ↦ inl (e, rw (e, container_path) refl)
  | inr (rel, e) ↦
      let a = relative-IsName requested e in
      inr (
        rel,
        e,
        a,
        rw (e, container_path, path_text-join rel a) (ap some (container_path_written root rel a)),
      )
]

-- A data path is absolute and holds no "..".
abbrev pub IsDataPath : Text → Type 0
IsDataPath t = (Str.starts_with (slash ∷ []) t ≡ true) × (Str.has_text dot_dot t ≡ false)

data_value :
    (key v value : Text)
    → (if Str.any_same key data_keys
          && Str.starts_with (slash ∷ []) v
          && not (Str.has_text dot_dot v)
        then some v
        else none)
      ≡ some value
    → IsDataPath value
data_value key v value h =
    elim (Bool-cases (
      Str.any_same key data_keys
      && Str.starts_with (slash ∷ []) v
      && not (Str.has_text dot_dot v))) [
        | inl ok ↦
            let same_value : v ≡ value = ground arith in
            subst IsDataPath same_value (ground arith, ground arith)
        | inr no_value ↦ absurd (ground arith)
      ]

data_entry-IsDataPath : (entry value : Text) → data_entry entry ≡ some value → IsDataPath value
unfolding data_entry
data_entry-IsDataPath entry value h = elim (Option-cases (Str.split_once (λ c. c == b'=') entry)) [
  | inl e ↦ absurd (let n = rw (e, data_entry) at h in cc)
  | inr ((key, v), e) ↦ let g = rw (e, data_entry) at h in data_value key v value g
]

-- Whatever the image and its environment, the data path is absolute and holds no "..".
pub data_path-IsDataPath : (image : Text) (env : List Text) → IsDataPath (data_path image env)
unfolding data_path
data_path-IsDataPath image [] =
    elim (Bool-cases (
      Str.has_text (codes "itzg/") (Str.to_ascii_lowercase image)
      || Str.has_text (codes "minecraft-server") (Str.to_ascii_lowercase image))) [
        | inl e ↦ rw e (unfold Str.starts_with Str.has_text in (refl, refl))
        | inr e ↦ rw e (unfold Str.starts_with Str.has_text in (refl, refl))
      ]
data_path-IsDataPath image (entry ∷ env) = elim (Option-cases (data_entry entry)) [
  | inl e ↦ rw (e, data_path) (data_path-IsDataPath image env)
  | inr (value, e) ↦ rw (e, data_path) (data_entry-IsDataPath entry value e)
]
