-- ===== src/Runtime/Configuration/Lines.antt =====
-- The edits of files that consist of lines: src/runtime/docker/configuration/line.rs. The bytes of
-- the file are decoded before and encoded after by library code.
use agapornis_agent_rust.Base.Str
use agapornis_agent_rust.Runtime.Configuration.Values.{
  Value, Fields, closed, field, is_object, replacement_for_current, scalar_text,
}
use agapornis_agent_rust.Base.{
  ℕ, ◌-◌, Bool, true, false, not, ◌&&◌, ◌||◌, Option, none, some, List, [], ◌∷◌, ◌++◌, ◌==◌,
  if◌then◌else◌, length, take, drop, Text, same, codes,
}

unfoldable pub had_trailing_newline : Text → Bool
had_trailing_newline t = Str.ends_with (codes "\n") t

-- `String::from_utf8_lossy(bytes).replace("\r\n", "\n")`, of the decoded text
abbrev pub normalised : Text → Text
normalised t = Str.replace_text (codes "\r\n") (codes "\n") t

unfoldable pub finish_lines : List Text → Bool → Text
finish_lines lines trailing_newline =
    let output = Str.join (codes "\n") lines in
    if trailing_newline && not (Str.ends_with (codes "\n") output)
    then output ++ codes "\n"
    else output

-- A line that is edited, and whether it was.
abbrev pub Edit : Type 0
Edit = Text → Text × Bool

-- `for line in &mut lines`, with whether any was edited.
unfoldable pub edit_lines : Edit → List Text → List Text × Bool
edit_lines edit [] = ([], false)
edit_lines edit (line ∷ lines) =
    let (after, edited) = edit line in
    let (rest, more) = edit_lines edit lines in (after ∷ rest, edited || more)

-- The line is appended where none was edited.
abbrev pub or_push : Bool → Text → List Text × Bool → List Text
or_push wanted line (lines, replaced) = if not replaced && wanted then lines ++ line ∷ [] else lines

module _ (print : Value → Text) where
  abbrev pub replace_line : Text → Text → Edit
  replace_line needle replacement line =
      if Str.starts_with needle line then (replacement, true) else (line, false)

  unfoldable pub file_fields : Fields → List Text → List Text
  file_fields closed lines = lines
  file_fields (field needle value fields) lines =
      let replacement = scalar_text print value in
      file_fields fields
        (or_push true replacement (edit_lines (replace_line needle replacement) lines))

  unfoldable pub apply_file_parser : Text → Fields → Text
  apply_file_parser bytes find =
      let t = normalised bytes in
      finish_lines (file_fields find (Str.lines t)) (had_trailing_newline t)

abbrev pub is_separator : ℕ → Bool
is_separator c = c == b'=' || c == b':' || Str.is_whitespace c

abbrev pub is_comment : Text → Bool
is_comment t = Str.is_empty t || Str.starts_with (codes "#") t || Str.starts_with (codes "!") t

-- Up to the first character that passes the test, and from there on.
unfoldable pub span_until : (ℕ → Bool) → Text → Text × Text
span_until p [] = ([], [])
span_until p (c ∷ s) =
    let (front, rest) = span_until p s in if p c then ([], c ∷ s) else (c ∷ front, rest)

-- The key of a line, and the line from its value on.
unfoldable pub properties_key : Text → Option (Text × Text)
properties_key line =
    let trimmed = Str.trim_start line in
    let (key, rest) = span_until is_separator trimmed in
    if is_comment trimmed then none else some (key, Str.trim_start_matches is_separator rest)

abbrev pub assigned : (Value → Text) → Text → Value → Text
assigned print key value = key ++ (codes "=" ++ scalar_text print value)

abbrev pub or_line : (Value → Text) → Text → Text → Option Value → Text
or_line print key line none = line
or_line print key line (some value) = assigned print key value

module _ (print : Value → Text) where
  unfoldable pub set_property : Text → Value → Edit
  set_property key replacement line = elim (properties_key line) [
    | none ↦ (line, false)
    | some (line_key, value) ↦
        if same line_key key
        then (or_line print key line (replacement_for_current replacement (Str.trim value)), true)
        else (line, false)
  ]

  unfoldable pub properties_fields : Fields → List Text → List Text
  properties_fields closed lines = lines
  properties_fields (field key replacement fields) lines = properties_fields fields (
      or_push (not (is_object replacement)) (assigned print key replacement)
        (edit_lines (set_property key replacement) lines))

  unfoldable pub apply_properties_parser : Text → Fields → Text
  apply_properties_parser bytes find =
      let t = normalised bytes in
      finish_lines (properties_fields find (Str.lines t)) (had_trailing_newline t)

abbrev pub is_header : Text → Bool
is_header trimmed = Str.starts_with (codes "[") trimmed && Str.ends_with (codes "]") trimmed

-- `trimmed[1..trimmed.len() - 1]`
abbrev pub header_name : Text → Text
header_name trimmed = take (length trimmed - 2) (drop 1 trimmed)

abbrev pub wanted : Text → Text × Text
wanted path = elim (Str.split_once (λ c. c == b'.') path) [
  | none ↦ ([], path)
  | some (section, key) ↦ (section, key)
]

-- Before the first line that passes the test, or at the end.
unfoldable pub insert_before : (Text → Bool) → Text → List Text → List Text
insert_before p line [] = line ∷ []
insert_before p line (l ∷ lines) =
    let rest = l ∷ insert_before p line lines in if p l then line ∷ (l ∷ lines) else rest

-- After the first line that is this header, before the next header.
unfoldable pub insert_in_section : Text → Text → List Text → Option (List Text)
insert_in_section header line [] = none
insert_in_section header line (l ∷ lines) =
    let rest = insert_in_section header line lines in
    if same (Str.trim l) header
    then some (l ∷ insert_before (λ t. is_header (Str.trim t)) line lines)
    else elim rest [ none ↦ none | some more ↦ some (l ∷ more) ]

abbrev pub ends_blank : List Text → Bool
ends_blank [] = true
ends_blank (l ∷ []) = Str.is_empty l
ends_blank (l ∷ next ∷ lines) = ends_blank (next ∷ lines)

abbrev pub new_section : Text → Text → List Text → List Text
new_section header line lines =
    (if ends_blank lines then lines else lines ++ [] ∷ []) ++ (header ∷ (line ∷ []))

module _ (print : Value → Text) where
  -- The line, in a section that is not a header's.
  unfoldable pub set_entry : Text → Value → Edit
  set_entry wanted_key replacement line =
      elim (Str.split_once (λ c. c == b'=' || c == b':') (Str.trim line)) [
        | none ↦ (line, false)
        | some (key, current) ↦
            if same (Str.trim key) wanted_key
            then (
              or_line print wanted_key line
                  (replacement_for_current replacement (Str.trim current)),
              true,
            )
            else (line, false)
      ]

  -- The loop over the lines, with the section that it is in.
  unfoldable pub edit_section : Text → Text → Value → Text → List Text → List Text × Bool
  edit_section wanted_section wanted_key replacement section [] = ([], false)
  edit_section wanted_section wanted_key replacement section (line ∷ lines) =
      let trimmed = Str.trim line in
      let (after, edited) =
        if not (is_header trimmed) && same section wanted_section
        then set_entry wanted_key replacement line
        else (line, false) in
      let (rest, more) =
        edit_section wanted_section wanted_key replacement
          (if is_header trimmed then header_name trimmed else section) lines in
      (after ∷ rest, edited || more)

  unfoldable pub insert_entry : Text → Text → List Text → List Text
  insert_entry wanted_section line lines =
      let header = codes "[" ++ (wanted_section ++ codes "]") in
      if Str.is_empty wanted_section
      then insert_before (λ t. is_header (Str.trim t)) line lines
      else elim (insert_in_section header line lines) [
        | some after ↦ after
        | none ↦ new_section header line lines
      ]

  unfoldable pub ini_field : Text → Value → List Text → List Text
  ini_field path replacement lines =
      let (wanted_section, wanted_key) = wanted path in
      let (after, replaced) = edit_section wanted_section wanted_key replacement [] lines in
      if not replaced && not (is_object replacement)
      then insert_entry wanted_section (assigned print wanted_key replacement) after
      else after

  unfoldable pub ini_fields : Fields → List Text → List Text
  ini_fields closed lines = lines
  ini_fields (field path replacement fields) lines =
      ini_fields fields (ini_field path replacement lines)

  unfoldable pub apply_ini_parser : Text → Fields → Text
  apply_ini_parser bytes find =
      let t = normalised bytes in
      finish_lines (ini_fields find (Str.lines t)) (had_trailing_newline t)
