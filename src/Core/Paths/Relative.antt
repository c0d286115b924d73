-- ===== src/Core/Paths/Relative.antt =====
-- `relative` against a description by the parts between separators.
use agapornis_agent_rust.Base.Str
use agapornis_agent_rust.Core.Paths.{
  dot, dot_dot, slash, backslash, FilePath, Component, component, body, components, collect,
  relative,
}
use agapornis_agent_rust.Base.{
  ℕ, suc, ◌≡◌, refl, ◌↔◌, inl, inr, Bool, true, false, ◌||◌, Option, none, some, List, [], ◌∷◌,
  ◌++◌, arith, if◌then◌else◌, Bool-cases, Text, same, same_iff,
}

-- The parts of a requested path between separators of either kind.
unfoldable pub parts_of : Text → List Text
unfolding Str.split Str.replace_char
parts_of requested = Str.split slash (Str.replace_char backslash slash requested)

-- The parts that name something: not empty, and not ".".
unfoldable pub names : List Text → List Text
unfolding Str.is_empty same
names [] = []
names (part ∷ parts) =
    let rest = names parts in if Str.is_empty part || same part dot then rest else part ∷ rest

abbrev pub described : List Text → Option FilePath
described parts = if Str.any_same dot_dot parts then none else some (names parts)

is_empty_iff : (s : Text) → (Str.is_empty s ≡ true) ↔ (s ≡ [])
unfolding Str.is_empty
is_empty_iff [] = ground arith
is_empty_iff (c ∷ s) = ground arith

collect-component :
    (first : Bool) (part : Text) (n : ℕ) (rest : List Component) (parts : List Text)
    → ((m : ℕ) → collect m rest ≡ described parts)
    → collect n (component first part ++ rest) ≡ described (part ∷ parts)
unfolding collect names Str.any_same
collect-component first part n rest parts h = elim (Bool-cases (Str.is_empty part)) [
  | inl empty ↦
      let e = (is_empty_iff part).0 empty in rw (e, h n) (unfold Str.is_empty same in refl)
  | inr other ↦ elim (Bool-cases (same part dot)) [
    | inl here ↦
        let e = (same_iff part dot).0 here in
        rw e (
          unfold Str.is_empty same in
          elim (Bool-cases first) [ inl f ↦ rw (f, h (suc n)) refl | inr f ↦ rw (f, h n) refl ])
    | inr name ↦ elim (Bool-cases (same part dot_dot)) [
      | inl up ↦ rw (other, name, up) refl
      | inr down ↦
          rw (other, name, down, h (suc n))
            (elim (Bool-cases (Str.any_same dot_dot parts)) [
              | inl b ↦ rw b refl
              | inr b ↦ rw b refl
            ])
    ]
  ]
]

collect-body :
    (parts : List Text) (first : Bool) (n : ℕ) → collect n (body first parts) ≡ described parts
unfolding collect body names Str.any_same
collect-body [] first n = refl
collect-body (part ∷ parts) first n =
    collect-component first part n (body false parts) parts (λ m. collect-body parts false m)

-- `relative` fails exactly when some part, between separators of either kind, is ".."; otherwise
-- it returns the parts in their order, without the empty ones and the ".".
pub relative-described : (requested : Text) → relative requested ≡ described (parts_of requested)
unfolding relative components parts_of
relative-described requested =
    let path = Str.replace_char backslash slash requested in
    elim (Bool-cases (Str.starts_with (slash ∷ []) path)) [
      | inl rooted ↦ rw rooted (unfold collect in collect-body (Str.split slash path) false 1)
      | inr plain ↦ rw plain (collect-body (Str.split slash path) true 0)
    ]
