-- ===== src/Base/Str.antt =====
-- What the source uses of `str`, on the list of the code points of a text.
use Prim.Native.Nat.{ℕ, zero, suc, ◌+◌, ◌-◌, ◌*◌, ◌/◌, ◌%◌}
use mathlib.Core.Bool.{Bool, true, false, ◌&&◌, ◌||◌}
use mathlib.Core.List.{List, [], ◌∷◌, ◌++◌, map, reverse}
use mathlib.Core.Option.{Option, none, some}
use agapornis_agent_rust.Base.Tests.{◌==◌, leb, ltb, if◌then◌else◌}
use agapornis_agent_rust.Base.Lists.{length}
use agapornis_agent_rust.Base.Texts.{Text, same}

unfoldable pub is_empty : Text → Bool
is_empty [] = true
is_empty (_ ∷ _) = false

-- `contains(c)` for a character
unfoldable pub has_char : ℕ → Text → Bool
has_char c [] = false
has_char c (d ∷ s) = d == c || has_char c s

unfoldable pub starts_with : Text → Text → Bool
starts_with [] s = true
starts_with (c ∷ p) [] = false
starts_with (c ∷ p) (d ∷ s) = d == c && starts_with p s

-- `contains(needle)` for a text
unfoldable pub has_text : Text → Text → Bool
unfolding starts_with
has_text needle [] = starts_with needle []
has_text needle (c ∷ s) = starts_with needle (c ∷ s) || has_text needle s

unfoldable pub ends_with : Text → Text → Bool
unfolding starts_with
ends_with suffix s = starts_with (reverse suffix) (reverse s)

-- `strip_prefix`
unfoldable pub strip_prefix : Text → Text → Option Text
strip_prefix [] s = some s
strip_prefix (c ∷ p) [] = none
strip_prefix (c ∷ p) (d ∷ s) = let rest = strip_prefix p s in if d == c then rest else none

-- `replace(from, to)` for characters
unfoldable pub replace_char : ℕ → ℕ → Text → Text
replace_char from to s = map (λ c. if c == from then to else c) s

-- `replace(from, to)` for texts, from the left; `skip` characters of the last one found are left.
unfoldable pub replace_on : ℕ → Text → Text → Text → Text
unfolding starts_with
replace_on skip from to [] = []
replace_on (suc skip) from to (c ∷ s) = replace_on skip from to s
replace_on zero from to (c ∷ s) =
    let found = to ++ replace_on (length from - 1) from to s in
    let other = c ∷ replace_on zero from to s in if starts_with from (c ∷ s) then found else other

-- For a text that is not empty.
unfoldable pub replace_text : Text → Text → Text → Text
unfolding replace_on
replace_text = replace_on zero

-- A line without the carriage return at its end.
abbrev pub without_return : Text → Text
without_return [] = []
without_return (c ∷ []) = if c == 13 then [] else c ∷ []
without_return (c ∷ d ∷ s) = c ∷ without_return (d ∷ s)

abbrev pub ended_lines : List Text → List Text
ended_lines [] = []
ended_lines (last ∷ []) = if is_empty last then [] else last ∷ []
ended_lines (line ∷ next ∷ parts) = without_return line ∷ ended_lines (next ∷ parts)

abbrev pub in_front {ℓ} : {A : Type ℓ} → A → List (List A) → List (List A)
in_front c [] = (c ∷ []) ∷ []
in_front c (p ∷ ps) = (c ∷ p) ∷ ps

-- `split(c)`
unfoldable pub split : ℕ → Text → List Text
split c [] = [] ∷ []
split c (d ∷ s) = let rest = split c s in if d == c then [] ∷ rest else in_front d rest

-- `lines()`
unfoldable pub lines : Text → List Text
unfolding split is_empty
lines s = ended_lines (split 10 s)

-- `split` at each character that passes the test
unfoldable pub split_where : (ℕ → Bool) → Text → List Text
split_where p [] = [] ∷ []
split_where p (d ∷ s) = let rest = split_where p s in if p d then [] ∷ rest else in_front d rest

unfoldable pub without_empty : List Text → List Text
without_empty [] = []
without_empty ([] ∷ parts) = without_empty parts
without_empty ((c ∷ s) ∷ parts) = (c ∷ s) ∷ without_empty parts

abbrev pub first_in_front : ℕ → Option (Text × Text) → Option (Text × Text)
first_in_front c none = none
first_in_front c (some (a, b)) = some (c ∷ a, b)

-- `split_once` at the first character that passes the test
unfoldable pub split_once : (ℕ → Bool) → Text → Option (Text × Text)
split_once p [] = none
split_once p (d ∷ s) =
    let rest = split_once p s in if p d then some ([], s) else first_in_front d rest

unfoldable pub to_ascii_lowercase : Text → Text
to_ascii_lowercase s = map (λ c. if leb b'A' c && leb c b'Z' then c + 32 else c) s

-- `char::is_whitespace`: White_Space of Unicode
unfoldable pub is_whitespace : ℕ → Bool
is_whitespace c =
    (leb 9 c && leb c 13)
    || c == 32
    || c == 0x85
    || c == 0xa0
    || c == 0x1680
    || (leb 0x2000 c && leb c 0x200a)
    || c == 0x2028
    || c == 0x2029
    || c == 0x202f
    || c == 0x205f
    || c == 0x3000

unfoldable pub trim_start_matches : (ℕ → Bool) → Text → Text
trim_start_matches p [] = []
trim_start_matches p (c ∷ s) = let rest = trim_start_matches p s in if p c then rest else c ∷ s

abbrev pub drop_end : Bool → ℕ → Text → Text
drop_end b c [] = if b then [] else c ∷ []
drop_end b c (d ∷ s) = c ∷ d ∷ s

unfoldable pub trim_end_matches : (ℕ → Bool) → Text → Text
trim_end_matches p [] = []
trim_end_matches p (c ∷ s) = drop_end (p c) c (trim_end_matches p s)

unfoldable pub trim_start : Text → Text
unfolding trim_start_matches is_whitespace
trim_start = trim_start_matches is_whitespace

unfoldable pub trim : Text → Text
unfolding trim_start_matches trim_end_matches is_whitespace
trim s = trim_end_matches is_whitespace (trim_start_matches is_whitespace s)

unfoldable pub split_whitespace : Text → List Text
unfolding split_where without_empty is_whitespace
split_whitespace s = without_empty (split_where is_whitespace s)

-- `trim_matches(test)`
unfoldable pub trim_matches : (ℕ → Bool) → Text → Text
unfolding trim_start_matches trim_end_matches
trim_matches p s = trim_end_matches p (trim_start_matches p s)

-- `parts.join(sep)`
unfoldable pub join : Text → List Text → Text
join sep [] = []
join sep (p ∷ []) = p
join sep (p ∷ q ∷ ps) = p ++ (sep ++ join sep (q ∷ ps))

-- `list.contains(&text)`
unfoldable pub any_same : Text → List Text → Bool
any_same t [] = false
any_same t (x ∷ xs) = same x t || any_same t xs

-- The digits of a number, on fuel: a number has fewer digits than it is large, or one.
unfoldable pub digits_onto : ℕ → ℕ → Text → Text
digits_onto zero n rest = rest
digits_onto (suc fuel) n rest =
    let more = digits_onto fuel (n / 10) ((b'0' + n % 10) ∷ rest) in
    if ltb n 10 then (b'0' + n) ∷ rest else more

-- `to_string` of an unsigned number
unfoldable pub decimal : ℕ → Text
decimal n = digits_onto (suc n) n []

-- `rsplit_once` at a character
unfoldable pub rsplit_once : ℕ → Text → Option (Text × Text)
rsplit_once c [] = none
rsplit_once c (d ∷ s) = elim (rsplit_once c s) [
  | some (a, b) ↦ some (d ∷ a, b)
  | none ↦ if d == c then some ([], s) else none
]

unfoldable pub parse_digits : ℕ → Text → Option ℕ
parse_digits n [] = some n
parse_digits n (c ∷ s) =
    let rest = parse_digits (10 * n + (c - b'0')) s in
    if leb b'0' c && leb c b'9' then rest else none

abbrev pub after_plus : Text → Text
after_plus [] = []
after_plus (c ∷ s) = if c == b'+' then s else c ∷ s

-- `parse` of an unsigned number, with its largest value: digits, at least one, after a "+" or not
unfoldable pub parse_unsigned : ℕ → Text → Option ℕ
unfolding parse_digits is_empty
parse_unsigned largest s =
    if is_empty (after_plus s) then none else elim (parse_digits 0 (after_plus s)) [
      | none ↦ none
      | some n ↦ if leb n largest then some n else none
    ]
