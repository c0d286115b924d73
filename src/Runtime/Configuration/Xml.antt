-- ===== src/Runtime/Configuration/Xml.antt =====
-- The edits of XML files: src/runtime/docker/configuration/xml.rs, on the elements of the document
-- once it is parsed. The text of an element is what the library says it is (`get_text`). A remark is a
-- comment or an instruction; prefixes and name spaces, which no edit reads or changes, are left out.
use mathlib.Core.List.{reverse}
use agapornis_agent_rust.Base.Str
use agapornis_agent_rust.Base.Dict
use agapornis_agent_rust.Base.Dict.{Dict}
use agapornis_agent_rust.Runtime.Configuration.Values.{
  Value, Fields, closed, field, replacement_for_current, scalar_text,
}
use agapornis_agent_rust.Base.{
  Bool, true, false, ◌||◌, Option, none, some, List, [], ◌∷◌, ◌==◌, if◌then◌else◌, Text, same,
  codes,
}

mutual
  pub data Element : Type 0 where
    an_element : Text → Dict Text → Nodes → Element

  pub data Nodes : Type 0 where
    childless : Nodes
    child : Element → Nodes → Nodes
    characters character_data remark : Text → Nodes → Nodes

abbrev pub name_of : Element → Text
name_of (an_element name attributes children) = name

abbrev pub new_element : Text → Element
new_element name = an_element name [] childless

unfoldable pub strip_suffix : Text → Text → Option Text
strip_suffix suffix t = elim (Str.strip_prefix (reverse suffix) (reverse t)) [
  | none ↦ none
  | some rest ↦ some (reverse rest)
]

-- The text between a prefix and a suffix.
abbrev pub within_marks : Text → Text → Text → Option Text
within_marks prefix suffix t = elim (Str.strip_prefix prefix t) [
  | none ↦ none
  | some rest ↦ strip_suffix suffix rest
]

unfoldable pub xml_attribute_replacement : Text → Option (Text × Text)
xml_attribute_replacement value = elim (within_marks (codes "[") (codes "]") value) [
  | none ↦ none
  | some inner ↦ elim (Str.split_once (λ c. c == b'=') inner) [
    | none ↦ none
    | some (key, quoted) ↦ elim (within_marks (codes "'") (codes "'") quoted) [
      | none ↦ none
      | some bare ↦ some (key, bare)
    ]
  ]
]

-- `retain` of what is no text, and the new text after it.
unfoldable pub with_text : Text → Nodes → Nodes
with_text t childless = characters t childless
with_text t (child e nodes) = child e (with_text t nodes)
with_text t (characters old nodes) = with_text t nodes
with_text t (character_data old nodes) = with_text t nodes
with_text t (remark r nodes) = remark r (with_text t nodes)

unfoldable pub set_value : Text → Element → Element
set_value value (an_element name attributes children) = elim (xml_attribute_replacement value) [
  | none ↦ an_element name attributes (with_text value children)
  | some (attribute, bare) ↦ an_element name (Dict.insert attribute bare attributes) children
]

-- The elements that pass the test are changed by `f`.
unfoldable pub change_elements : (Text → Bool) → (Element → Element) → Nodes → Nodes
change_elements p f childless = childless
change_elements p f (child e nodes) =
    child (if p (name_of e) then f e else e) (change_elements p f nodes)
change_elements p f (characters t nodes) = characters t (change_elements p f nodes)
change_elements p f (character_data t nodes) = character_data t (change_elements p f nodes)
change_elements p f (remark t nodes) = remark t (change_elements p f nodes)

unfoldable pub has_element : Text → Nodes → Bool
has_element name childless = false
has_element name (child e nodes) = same (name_of e) name || has_element name nodes
has_element name (characters t nodes) = has_element name nodes
has_element name (character_data t nodes) = has_element name nodes
has_element name (remark t nodes) = has_element name nodes

unfoldable pub push_element : Element → Nodes → Nodes
push_element new childless = child new childless
push_element new (child e nodes) = child e (push_element new nodes)
push_element new (characters t nodes) = characters t (push_element new nodes)
push_element new (character_data t nodes) = character_data t (push_element new nodes)
push_element new (remark t nodes) = remark t (push_element new nodes)

-- The children of that name, or a new one.
unfoldable pub change_named : Text → (Element → Element) → Nodes → Nodes
change_named part f nodes =
    if has_element part nodes
    then change_elements (λ name. same name part) f nodes
    else push_element (f (new_element part)) nodes

abbrev pub change_children : (Nodes → Nodes) → Element → Element
change_children g (an_element name attributes children) = an_element name attributes (g children)

abbrev pub current_text : Option Text → Text
current_text none = []
current_text (some t) = t

module _ (get_text : Element → Option Text) (print : Value → Text) where
  unfoldable pub set_xml_value : Value → Element → Element
  set_xml_value replacement e =
      elim (replacement_for_current replacement (current_text (get_text e))) [
        | none ↦ e
        | some value ↦ set_value (scalar_text print value) e
      ]

  unfoldable pub set_xml_path : Value → List Text → Element → Element
  set_xml_path replacement [] e = set_xml_value replacement e
  set_xml_path replacement (part ∷ path) e =
      let change = set_xml_path replacement path in
      if same part (codes "*")
      then change_children (change_elements (λ name. true) change) e
      else change_children (change_named part change) e

  -- The name of the root may stand before the path.
  abbrev pub from_root : Text → List Text → List Text
  from_root root [] = []
  from_root root (part ∷ parts) = if same part root then parts else part ∷ parts

  unfoldable pub set_xml_field : Text → Value → Element → Element
  set_xml_field path replacement root =
      let parts = Str.without_empty (Str.split b'.' path) in
      elim parts [
        | [] ↦ root
        | part ∷ more ↦ set_xml_path replacement (from_root (name_of root) (part ∷ more)) root
      ]

  unfoldable pub set_xml_fields : Fields → Element → Element
  set_xml_fields closed root = root
  set_xml_fields (field path replacement find) root =
      set_xml_fields find (set_xml_field path replacement root)
