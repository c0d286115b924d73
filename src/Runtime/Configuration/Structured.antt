-- ===== src/Runtime/Configuration/Structured.antt =====
-- The edits of JSON and YAML files: src/runtime/docker/configuration/structured.rs, on the document
-- once it is parsed. The map of an object is sorted by its keys. Which texts are numbers, and how
-- these are printed, is an argument (`number_of`), as is the printer of arrays and objects.
use agapornis_agent_rust.Base.Str
use agapornis_agent_rust.Runtime.Configuration.Values.{
  Value, number, text, array, object, Items, drained, item, Fields, closed, field,
  replacement_for_current, scalar_text,
}
use agapornis_agent_rust.Runtime.Configuration.Lines.{span_until}
use agapornis_agent_rust.Base.{
  ℕ, zero, suc, Bool, true, false, ◌&&◌, ◌||◌, Option, none, some, List, [], ◌∷◌, ◌++◌, ltb, ◌==◌,
  if◌then◌else◌, length, drop, Text, same, codes, u64_max,
}

pub data PathSegment : Type 0 where
  key : Text → PathSegment
  index : ℕ → PathSegment
  wildcard : PathSegment

abbrev pub index_in_front : Option ℕ → List PathSegment → List PathSegment
index_in_front none segments = segments
index_in_front (some n) segments = index n ∷ segments

-- The loop over the brackets, on fuel: each round reads two characters at least.
unfoldable pub bracket_segments : ℕ → Text → List PathSegment
bracket_segments zero rest = []
bracket_segments (suc fuel) rest = elim (Str.strip_prefix (codes "[") rest) [
  | none ↦ []
  | some tail ↦
      let (digits, after) = span_until (λ c. c == b']') tail in
      let more = bracket_segments fuel (drop 1 after) in
      if Str.is_empty after then [] else index_in_front (Str.parse_unsigned u64_max digits) more
]

unfoldable pub part_segments : Text → List PathSegment
part_segments part =
    let (front, rest) = span_until (λ c. c == b'[') part in
    if same part (codes "*")
    then wildcard ∷ []
    else if Str.is_empty rest
    then key part ∷ []
    else (if Str.is_empty front then [] else key front ∷ []) ++ bracket_segments (length rest) rest

unfoldable pub parts_segments : List Text → List PathSegment
parts_segments [] = []
parts_segments (part ∷ parts) = part_segments part ++ parts_segments parts

unfoldable pub parse_path : Text → List PathSegment
parse_path path = parts_segments (Str.without_empty (Str.split b'.' path))

unfoldable pub initial_value : List PathSegment → Value
initial_value (index n ∷ path) = array drained
initial_value _ = object closed

-- The order of the keys.
unfoldable pub comes_before : Text → Text → Bool
comes_before a [] = false
comes_before [] (d ∷ b) = true
comes_before (c ∷ a) (d ∷ b) = ltb c d || (c == d && comes_before a b)

-- `entry(key).or_insert(initial)`, changed by `f`
unfoldable pub set_field : (Value → Value) → Value → Text → Fields → Fields
set_field f initial name closed = field name (f initial) closed
set_field f initial name (field other value fields) =
    let rest = field other value (set_field f initial name fields) in
    if same other name
    then field other (f value) fields
    else if comes_before name other
    then field name (f initial) (field other value fields)
    else rest

-- `while array.len() <= index { array.push(initial) }`, and the item changed by `f`
unfoldable pub set_item : (Value → Value) → Value → ℕ → Items → Items
set_item f initial zero drained = item (f initial) drained
set_item f initial zero (item value items) = item (f value) items
set_item f initial (suc n) drained = item initial (set_item f initial n drained)
set_item f initial (suc n) (item value items) = item value (set_item f initial n items)

unfoldable pub map_fields : (Value → Value) → Fields → Fields
map_fields f closed = closed
map_fields f (field name value fields) = field name (f value) (map_fields f fields)

unfoldable pub map_items : (Value → Value) → Items → Items
map_items f drained = drained
map_items f (item value items) = item (f value) (map_items f items)

abbrev pub fields_of : Value → Fields
fields_of (object fields) = fields
fields_of _ = closed

abbrev pub items_of : Value → Items
items_of (array items) = items
items_of _ = drained

unfoldable pub set_children : (Value → Value) → Value → Value
set_children f (object fields) = object (map_fields f fields)
set_children f (array items) = array (map_items f items)
set_children f value = value

unfoldable pub structured_value : (Text → Option Text) → Value → Value
structured_value number_of (text t) = elim (number_of t) [ none ↦ text t | some n ↦ number n ]
structured_value number_of value = value

module _ (number_of : Text → Option Text) (print : Value → Text) where
  unfoldable pub set_structured_path : Value → List PathSegment → Value → Value
  set_structured_path replacement [] node =
      elim (replacement_for_current replacement (scalar_text print node)) [
        | none ↦ node
        | some value ↦ structured_value number_of value
      ]
  set_structured_path replacement (wildcard ∷ path) node =
      set_children (set_structured_path replacement path) node
  set_structured_path replacement (key name ∷ path) node =
      object (
        set_field (set_structured_path replacement path) (initial_value path) name (fields_of node))
  set_structured_path replacement (index n ∷ path) node =
      array (set_item (set_structured_path replacement path) (initial_value path) n (items_of node))

  unfoldable pub apply_structured_replacements : Fields → Value → Value
  apply_structured_replacements closed document = document
  apply_structured_replacements (field path replacement find) document =
      apply_structured_replacements find
        (set_structured_path replacement (parse_path path) document)
