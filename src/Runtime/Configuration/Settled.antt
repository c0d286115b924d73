-- ===== src/Runtime/Configuration/Settled.antt =====
-- What is set in a document is there, and setting it again changes nothing.
use agapornis_agent_rust.Runtime.Configuration.Values.{
  Value, null, boolean, number, text, array, object, Items, drained, item, Fields, closed, field,
  is_object, get_field, scalar_text,
}
use agapornis_agent_rust.Runtime.Configuration.Properties.{scalar_current}
use agapornis_agent_rust.Runtime.Configuration.Structured.{
  PathSegment, key, index, wildcard, initial_value, comes_before, set_field, set_item, map_fields,
  map_items, fields_of, items_of, set_children, structured_value, set_structured_path,
}
use agapornis_agent_rust.Base.{
  ℕ, zero, suc, ◌≡◌, refl, sym, ap, ◌∙◌, inl, inr, Bool, true, false, Option, none, some, List, [],
  ◌∷◌, if◌then◌else◌, Bool-cases, Text, same, same_refl,
}

abbrev pub get_item : ℕ → Items → Option Value
get_item n drained = none
get_item zero (item value items) = some value
get_item (suc n) (item value items) = get_item n items

-- What stands at a path without wildcards.
unfoldable pub get_path : List PathSegment → Value → Option Value
get_path [] node = some node
get_path (wildcard ∷ path) node = none
get_path (key name ∷ path) (object fields) = elim (get_field name fields) [
  | none ↦ none
  | some child ↦ get_path path child
]
get_path (index n ∷ path) (array items) = elim (get_item n items) [
  | none ↦ none
  | some child ↦ get_path path child
]
get_path _ _ = none

get_path-key :
    (path : List PathSegment) (name : Text) (fields : Fields) {child : Value}
    → get_field name fields ≡ some child
    → get_path (key name ∷ path) (object fields) ≡ get_path path child
unfolding get_path
get_path-key path name fields h = rw (h, get_path) refl

get_path-index :
    (path : List PathSegment) (n : ℕ) (items : Items) {child : Value}
    → get_item n items ≡ some child
    → get_path (index n ∷ path) (array items) ≡ get_path path child
unfolding get_path
get_path-index path n items h = rw (h, get_path) refl

abbrev pub has_wildcard : List PathSegment → Bool
has_wildcard [] = false
has_wildcard (wildcard ∷ path) = true
has_wildcard (key name ∷ path) = has_wildcard path
has_wildcard (index n ∷ path) = has_wildcard path

-- What a field or an item was before it is changed.
abbrev found_field : Value → Text → Fields → Value
found_field initial name closed = initial
found_field initial name (field other value fields) =
    if same other name
    then value
    else if comes_before name other
    then initial
    else found_field initial name fields

abbrev found_item : Value → ℕ → Items → Value
found_item initial n drained = initial
found_item initial zero (item value items) = value
found_item initial (suc n) (item value items) = found_item initial n items

module _ (f : Value → Value) (initial : Value) where
  get_field-set_field :
      (name : Text) (fields : Fields)
      → get_field name (set_field f initial name fields)
        ≡ some (f (found_field initial name fields))
  unfolding get_field set_field
  get_field-set_field name closed = rw (same_refl name) refl
  get_field-set_field name (field other value fields) = elim (Bool-cases (same other name)) [
    | inl e ↦ rw e (rw e refl)
    | inr e ↦ rw e (elim (Bool-cases (comes_before name other)) [
      | inl b ↦ rw b (rw (same_refl name) refl)
      | inr b ↦ rw b (rw (e, get_field-set_field name fields) refl)
    ])
  ]

  get_item-set_item :
      (n : ℕ) (items : Items)
      → get_item n (set_item f initial n items) ≡ some (f (found_item initial n items))
  unfolding set_item
  get_item-set_item zero drained = refl
  get_item-set_item zero (item value items) = refl
  get_item-set_item (suc n) drained = get_item-set_item n drained
  get_item-set_item (suc n) (item value items) = get_item-set_item n items

  module _ (settled : (v : Value) → f (f v) ≡ f v) where
    set_field-again :
        (name : Text) (fields : Fields)
        → set_field f initial name (set_field f initial name fields)
          ≡ set_field f initial name fields
    unfolding set_field
    set_field-again name closed = rw (same_refl name, settled initial) refl
    set_field-again name (field other value fields) = elim (Bool-cases (same other name)) [
      | inl e ↦ rw e (rw (e, settled value) refl)
      | inr e ↦ rw e (elim (Bool-cases (comes_before name other)) [
        | inl b ↦ rw b (rw (same_refl name, settled initial) refl)
        | inr b ↦ rw b (rw (e, b, set_field-again name fields) refl)
      ])
    ]

    set_item-again :
        (n : ℕ) (items : Items)
        → set_item f initial n (set_item f initial n items) ≡ set_item f initial n items
    unfolding set_item
    set_item-again zero drained = rw (settled initial) refl
    set_item-again zero (item value items) = rw (settled value) refl
    set_item-again (suc n) drained = ap (item initial) (set_item-again n drained)
    set_item-again (suc n) (item value items) = ap (item value) (set_item-again n items)

map_fields-again :
    (f : Value → Value) (fields : Fields)
    → ((v : Value) → f (f v) ≡ f v)
    → map_fields f (map_fields f fields) ≡ map_fields f fields
unfolding map_fields
map_fields-again f closed h = refl
map_fields-again f (field name value fields) h =
    rw (h value) (ap (field name (f value)) (map_fields-again f fields h))

map_items-again :
    (f : Value → Value) (items : Items)
    → ((v : Value) → f (f v) ≡ f v)
    → map_items f (map_items f items) ≡ map_items f items
unfolding map_items
map_items-again f drained h = refl
map_items-again f (item value items) h =
    rw (h value) (ap (item (f value)) (map_items-again f items h))

set_children-again :
    (f : Value → Value) (node : Value)
    → ((v : Value) → f (f v) ≡ f v)
    → set_children f (set_children f node) ≡ set_children f node
unfolding set_children
set_children-again f null h = refl
set_children-again f (boolean b) h = refl
set_children-again f (number n) h = refl
set_children-again f (text t) h = refl
set_children-again f (array items) h = ap array (map_items-again f items h)
set_children-again f (object fields) h = ap object (map_fields-again f fields h)

module _ (number_of : Text → Option Text) (print : Value → Text) (replacement : Value)
    (scalar : is_object replacement ≡ false) where
  abbrev set : List PathSegment → Value → Value
  set = set_structured_path number_of print replacement

  set-here : (node : Value) → set [] node ≡ structured_value number_of replacement
  unfolding set_structured_path
  set-here node =
      rw (scalar_current replacement (scalar_text print node) scalar, set_structured_path) refl

  set-again : (path : List PathSegment) (node : Value) → set path (set path node) ≡ set path node
  unfolding set_structured_path
  set-again [] node = set-here (set [] node) ∙ sym (set-here node)
  set-again (wildcard ∷ path) node = set_children-again (set path) node (set-again path)
  set-again (key name ∷ path) node =
      ap object
        (set_field-again (set path) (initial_value path) (set-again path) name (fields_of node))
  set-again (index n ∷ path) node =
      ap array (set_item-again (set path) (initial_value path) (set-again path) n (items_of node))

  get_path-set :
      (path : List PathSegment) (node : Value)
      → get_path path (set path node)
        ≡ (if has_wildcard path then none else some (structured_value number_of replacement))
  unfolding get_path set_structured_path
  get_path-set [] node = ap (λ (v : Value). some v) (set-here node)
  get_path-set (wildcard ∷ path) node = refl
  get_path-set (key name ∷ path) node =
      get_path-key path name _
        (get_field-set_field (set path) (initial_value path) name (fields_of node))
      ∙ (get_path-set path (found_field (initial_value path) name (fields_of node)))
  get_path-set (index n ∷ path) node =
      get_path-index path n _ (get_item-set_item (set path) (initial_value path) n (items_of node))
      ∙ (get_path-set path (found_item (initial_value path) n (items_of node)))

-- A value that does not depend on the present one is found where it was set, at a path without
-- wildcards and whatever the document was; and setting it a second time changes nothing, at any
-- path.
pub set_structured_path-settles :
    (number_of : Text → Option Text) (print : Value → Text) (replacement : Value)
    (path : List PathSegment) (node : Value)
    → is_object replacement ≡ false
    → let after = set_structured_path number_of print replacement path node in
      (get_path path after
        ≡ (if has_wildcard path then none else some (structured_value number_of replacement)))
      × (set_structured_path number_of print replacement path after ≡ after)
set_structured_path-settles number_of print replacement path node scalar = (
  get_path-set number_of print replacement scalar path node,
  set-again number_of print replacement scalar path node,
)
