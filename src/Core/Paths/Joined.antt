-- ===== src/Core/Paths/Joined.antt =====
-- What is joined to a path: names, as `server_dir` and the other path functions join them.
use agapornis_agent_rust.Base.Str
use agapornis_agent_rust.Core.Paths.{
  dot, dot_dot, slash, backslash, FilePath, body, components, appended, join, validate_id,
}
use agapornis_agent_rust.Core.Paths.Confined.{IsName}
use agapornis_agent_rust.Core.Paths.RoundTrip.{has_char-append, split_whole}
use agapornis_agent_rust.Base.{
  ℕ, ◌≡◌, refl, ◌∙◌, true, false, [], ◌∷◌, ◌++◌, arith, Text, same, codes,
}

pub validate_id-IsName : (id : Text) → validate_id id ≡ true → IsName id
unfolding validate_id
validate_id-IsName id h = ground arith

starts_with-Lacks :
    (id : Text) → Str.has_char slash id ≡ false → Str.starts_with (slash ∷ []) id ≡ false
unfolding Str.has_char Str.starts_with
starts_with-Lacks [] h = refl
starts_with-Lacks (c ∷ id) h = ground arith

-- A name is joined as one component.
pub join-name : (base : FilePath) (name : Text) → IsName name → join base name ≡ base ++ name ∷ []
unfolding join components body appended
join-name base name (e, f, g, h, k) =
    rw (starts_with-Lacks name h, split_whole slash name h) (rw (e, f, g) refl)

pub metadata-IsName : IsName (codes ".metadata")
metadata-IsName = unfold Str.is_empty same Str.has_char in (refl, refl, refl, refl, refl)

pub backups-IsName : IsName (codes ".agapornis-backups")
backups-IsName = unfold Str.is_empty same Str.has_char in (refl, refl, refl, refl, refl)

-- An id before a suffix of two characters or more is not "." nor "..".
longer :
    (id : Text) (c d : ℕ) (suffix : Text)
    → Str.is_empty id ≡ false
    → (Str.is_empty (id ++ c ∷ d ∷ suffix) ≡ false)
      × (same (id ++ c ∷ d ∷ suffix) dot ≡ false)
      × (same (id ++ c ∷ d ∷ suffix) dot_dot ≡ false)
unfolding Str.is_empty same
longer [] c d suffix h = absurd (ground arith)
longer (a ∷ []) c d suffix h = (refl, ground arith, ground arith)
longer (a ∷ b ∷ []) c d suffix h = (refl, ground arith, ground arith)
longer (a ∷ b ∷ e ∷ id) c d suffix h = (refl, ground arith, ground arith)

pub suffixed-IsName :
    (id : Text) (c d : ℕ) (suffix : Text)
    → IsName id
    → Str.has_char slash (c ∷ d ∷ suffix) ≡ false
    → Str.has_char backslash (c ∷ d ∷ suffix) ≡ false
    → IsName (id ++ c ∷ d ∷ suffix)
suffixed-IsName id c d suffix (e, f, g, h, k) s t =
    let (l, m, n) = longer id c d suffix e in
    (
      l,
      m,
      n,
      has_char-append slash id (c ∷ d ∷ suffix) ∙ rw (h, s) refl,
      has_char-append backslash id (c ∷ d ∷ suffix) ∙ rw (k, t) refl,
    )
