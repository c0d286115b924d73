-- ===== src/Core/Paths/Confined.antt =====
-- What a path that `relative` lets through is made of, and where it leads.
use agapornis_agent_rust.Base.Str
use agapornis_agent_rust.Base.Str.{in_front}
use agapornis_agent_rust.Core.Paths.{
  dot, dot_dot, slash, backslash, FilePath, relative, safe_host_path,
}
use agapornis_agent_rust.Core.Paths.Relative.{parts_of, names, relative-described}
use agapornis_agent_rust.Base.{
  ℕ, ◌≡◌, refl, sym, ◌∙◌, inl, inr, false, ◌||◌, some, List, [], ◌∷◌, ◌++◌, arith, ◌==◌,
  if◌then◌else◌, Bool-cases, Option-cases, All, Text, same,
}

-- One component that names an entry of its directory.
abbrev pub IsName : Text → Type 0
IsName n =
    (Str.is_empty n ≡ false)
    × (same n dot ≡ false)
    × (same n dot_dot ≡ false)
    × (Str.has_char slash n ≡ false)
    × (Str.has_char backslash n ≡ false)

-- No part holds the separator.
abbrev pub Lacks : ℕ → Text → Type 0
Lacks c s = Str.has_char c s ≡ false

in_front-Lacks :
    (c d : ℕ) (ps : List Text) → (d == c) ≡ false → All (Lacks c) ps → All (Lacks c) (in_front d ps)
unfolding Str.has_char
in_front-Lacks c d [] h a = (rw h refl, tt)
in_front-Lacks c d (p ∷ ps) h a = (rw h a.0, a.1)

split-Lacks : (c : ℕ) (s : Text) → All (Lacks c) (Str.split c s)
unfolding Str.split Str.has_char
split-Lacks c [] = (refl, tt)
split-Lacks c (d ∷ s) = elim (Bool-cases (d == c)) [
  | inl e ↦ rw e (refl, split-Lacks c s)
  | inr e ↦ rw e (in_front-Lacks c d (Str.split c s) e (split-Lacks c s))
]

split-Lacks_other : (c d : ℕ) (s : Text) → Lacks d s → All (Lacks d) (Str.split c s)
unfolding Str.split Str.has_char
split-Lacks_other c d [] h = (refl, tt)
split-Lacks_other c d (x ∷ s) h =
    let e : (x == d) ≡ false = ground arith in
    let f : Str.has_char d s ≡ false = ground arith in
    elim (Bool-cases (x == c)) [
      | inl g ↦ rw g (refl, split-Lacks_other c d s f)
      | inr g ↦ rw g (in_front-Lacks d x (Str.split c s) e (split-Lacks_other c d s f))
    ]

replaced-Lacks : (s : Text) → Lacks backslash (Str.replace_char backslash slash s)
unfolding Str.has_char Str.replace_char
replaced-Lacks [] = refl
replaced-Lacks (c ∷ s) = ground (arith, replaced-Lacks s)

names-IsName :
    (parts : List Text)
    → Str.any_same dot_dot parts ≡ false
    → All (Lacks slash) parts
    → All (Lacks backslash) parts
    → All IsName (names parts)
unfolding names Str.any_same
names-IsName [] h a b = tt
names-IsName (part ∷ parts) h a b =
    let e : same part dot_dot ≡ false = ground arith in
    let f : Str.any_same dot_dot parts ≡ false = ground arith in
    let ih = names-IsName parts f a.1 b.1 in
    elim (Bool-cases (Str.is_empty part || same part dot)) [
      | inl skip ↦ rw skip ih
      | inr name ↦ rw name ((ground arith, ground arith, e, a.0, b.0), ih)
    ]

-- Whatever is asked for, a path that `relative` returns is made of names: no component is empty,
-- "." or "..", and none holds a separator of either kind.
pub relative-IsName :
    (requested : Text) {path : FilePath} → relative requested ≡ some path → All IsName path
unfolding parts_of
relative-IsName requested {path} h =
    let path' = Str.replace_char backslash slash requested in
    let parts = parts_of requested in
    let d = sym (relative-described requested) ∙ h in
    elim (Bool-cases (Str.any_same dot_dot parts)) [
      | inl up ↦ absurd (ground arith)
      | inr down ↦
          let e : names parts ≡ path = ground arith in
          rw e at (
            names-IsName parts down (split-Lacks slash path')
              (split-Lacks_other slash backslash path' (replaced-Lacks requested)))
    ]

abbrev pub parent : FilePath → FilePath
parent [] = []
parent (_ ∷ above) = above

-- The directory that one component leads to; a directory is the list of names above it, innermost
-- first.
abbrev pub enter : FilePath → Text → FilePath
enter above part =
    if Str.is_empty part || same part dot
    then above
    else if same part dot_dot
    then parent above
    else part ∷ above

abbrev pub walk : FilePath → FilePath → FilePath
walk above [] = above
walk above (part ∷ parts) = walk (enter above part) parts

-- The directory that the names lead down to.
abbrev pub down : FilePath → FilePath → FilePath
down above [] = above
down above (name ∷ names) = down (name ∷ above) names

walk-append : (above xs ys : FilePath) → walk above (xs ++ ys) ≡ walk (walk above xs) ys
walk-append above [] ys = refl
walk-append above (x ∷ xs) ys = walk-append (enter above x) xs ys

walk-IsName : (above path : FilePath) → All IsName path → walk above path ≡ down above path
walk-IsName above [] a = refl
walk-IsName above (n ∷ path) ((e, f, g, _, _), a) = rw (e, f, g) (walk-IsName (n ∷ above) path a)

-- What `safe_host_path` returns lies below its root, whatever the request: from the directory of
-- the root the path leads down along names, and never back up, even where ".." is followed.
pub safe_host_path-below :
    (root : FilePath) (requested : Text) {path : FilePath}
    → safe_host_path root requested ≡ some path
    → (rel : FilePath) × (path ≡ root ++ rel)
      × All IsName rel
      × (walk [] path ≡ down (walk [] root) rel)
unfolding safe_host_path
safe_host_path-below root requested {path} h = elim (Option-cases (relative requested)) [
  | inl bad ↦ absurd (ground arith)
  | inr (rel, e) ↦
      let p : path ≡ root ++ rel = ground arith in
      let a = relative-IsName requested e in
      (rel, p, a, rw (p, walk-append [] root rel) (walk-IsName (walk [] root) rel a))
]
