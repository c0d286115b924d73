-- ===== src/Runtime/Configuration/Elements.antt =====
-- A second edit of an XML document changes nothing.
use agapornis_agent_rust.Base.Dict
use agapornis_agent_rust.Base.Dict.{Dict}
use agapornis_agent_rust.Runtime.Configuration.Values.{Value, is_object, scalar_text}
use agapornis_agent_rust.Runtime.Configuration.Properties.{scalar_current}
use agapornis_agent_rust.Runtime.Configuration.Xml.{
  Element, an_element, Nodes, childless, child, characters, character_data, remark, name_of,
  new_element, xml_attribute_replacement, with_text, set_value, change_elements, has_element,
  push_element, change_named, current_text, set_xml_value, set_xml_path,
}
use agapornis_agent_rust.Base.{
  ◌≡◌, refl, sym, ap, ◌∙◌, inl, inr, Bool, true, false, Option, List, [], ◌∷◌, arith, Bool-cases,
  Option-cases, Text, same, same_refl, codes,
}

insert-again :
    (k v : Text) (m : Dict Text) → Dict.insert k v (Dict.insert k v m) ≡ Dict.insert k v m
unfolding Dict.insert
insert-again k v [] = rw (same_refl k) refl
insert-again k v ((j, w) ∷ m) = elim (Bool-cases (same j k)) [
  | inl e ↦ rw e (rw (same_refl k) refl)
  | inr e ↦ rw e (rw (e, insert-again k v m) refl)
]

with_text-again : (t : Text) (nodes : Nodes) → with_text t (with_text t nodes) ≡ with_text t nodes
unfolding with_text
with_text-again t childless = refl
with_text-again t (child e nodes) = ap (child e) (with_text-again t nodes)
with_text-again t (characters old nodes) = with_text-again t nodes
with_text-again t (character_data old nodes) = with_text-again t nodes
with_text-again t (remark r nodes) = ap (remark r) (with_text-again t nodes)

set_value-again :
    (value : Text) (e : Element)
    → (set_value value (set_value value e) ≡ set_value value e)
      × (name_of (set_value value e) ≡ name_of e)
unfolding set_value
set_value-again value (an_element name attributes nodes) =
    elim (Option-cases (xml_attribute_replacement value)) [
      | inl none_found ↦
          rw (none_found, set_value)
            (rw (none_found, set_value) (rw (with_text-again value nodes) refl), refl)
      | inr ((attribute, bare), found) ↦
          rw (found, set_value)
            (rw (found, set_value) (rw (insert-again attribute bare attributes) refl), refl)
    ]

module _ (f : Element → Element) (settled : (e : Element) → f (f e) ≡ f e)
    (named : (e : Element) → name_of (f e) ≡ name_of e) where
  change_elements-again :
      (p : Text → Bool) (nodes : Nodes)
      → change_elements p f (change_elements p f nodes) ≡ change_elements p f nodes
  unfolding change_elements
  change_elements-again p childless = refl
  change_elements-again p (child e nodes) = elim (Bool-cases (p (name_of e))) [
    | inl h ↦ rw h (rw (named e, h, settled e, change_elements-again p nodes) refl)
    | inr h ↦ rw h (rw (h, change_elements-again p nodes) refl)
  ]
  change_elements-again p (characters t nodes) = ap (characters t) (change_elements-again p nodes)
  change_elements-again p (character_data t nodes) =
      ap (character_data t) (change_elements-again p nodes)
  change_elements-again p (remark t nodes) = ap (remark t) (change_elements-again p nodes)

  has_element-change_elements :
      (p : Text → Bool) (part : Text) (nodes : Nodes)
      → has_element part (change_elements p f nodes) ≡ has_element part nodes
  unfolding change_elements has_element
  has_element-change_elements p part childless = refl
  has_element-change_elements p part (child e nodes) = elim (Bool-cases (p (name_of e))) [
    | inl h ↦ rw h (rw (named e, has_element-change_elements p part nodes) refl)
    | inr h ↦ rw h (rw (has_element-change_elements p part nodes) refl)
  ]
  has_element-change_elements p part (characters t nodes) = has_element-change_elements p part nodes
  has_element-change_elements p part (character_data t nodes) =
      has_element-change_elements p part nodes
  has_element-change_elements p part (remark t nodes) = has_element-change_elements p part nodes

  -- The new child is the only one of its name.
  push_element-changed :
      (part : Text) (e : Element) (nodes : Nodes)
      → same (name_of e) part ≡ true
      → has_element part nodes ≡ false
      → (has_element part (push_element e nodes) ≡ true)
        × (change_elements (λ name. same name part) f (push_element e nodes)
            ≡ push_element (f e) nodes)
  unfolding change_elements has_element push_element
  push_element-changed part e childless h n = rw h (refl, refl)
  push_element-changed part e (child d nodes) h n =
      let a : same (name_of d) part ≡ false = ground arith in
      let b : has_element part nodes ≡ false = ground arith in
      let (x, y) = push_element-changed part e nodes h b in rw (a, x, y) (refl, refl)
  push_element-changed part e (characters t nodes) h n =
      let (x, y) = push_element-changed part e nodes h n in (x, ap (characters t) y)
  push_element-changed part e (character_data t nodes) h n =
      let (x, y) = push_element-changed part e nodes h n in (x, ap (character_data t) y)
  push_element-changed part e (remark t nodes) h n =
      let (x, y) = push_element-changed part e nodes h n in (x, ap (remark t) y)

  change_named-again :
      (part : Text) (nodes : Nodes)
      → change_named part f (change_named part f nodes) ≡ change_named part f nodes
  unfolding change_named
  change_named-again part nodes = elim (Bool-cases (has_element part nodes)) [
    | inl h ↦ rw h (
        rw (has_element-change_elements (λ name. same name part) part nodes, h)
          (change_elements-again (λ name. same name part) nodes))
    | inr h ↦ rw h (
        let own : same (name_of (f (new_element part))) part ≡ true =
          ap (λ (n : Text). same n part) (named (new_element part)) ∙ same_refl part in
        let (x, y) = push_element-changed part (f (new_element part)) nodes own h in
        rw (x, y, settled (new_element part)) refl)
  ]

module _ (get_text : Element → Option Text) (print : Value → Text) (replacement : Value)
    (scalar : is_object replacement ≡ false) where
  abbrev set : List Text → Element → Element
  set = set_xml_path get_text print replacement

  set-here : (e : Element) → set [] e ≡ set_value (scalar_text print replacement) e
  unfolding set_xml_path set_xml_value
  set-here e =
      rw
        (scalar_current replacement (current_text (get_text e)) scalar, set_xml_path, set_xml_value)
        refl

  set-named : (path : List Text) (e : Element) → name_of (set path e) ≡ name_of e
  unfolding set_xml_path
  set-named [] e = ap name_of (set-here e) ∙ (set_value-again (scalar_text print replacement) e).1
  set-named (part ∷ path) (an_element name attributes nodes) =
      elim (Bool-cases (same part (codes "*"))) [ inl h ↦ rw h refl | inr h ↦ rw h refl ]

  set-again : (path : List Text) (e : Element) → set path (set path e) ≡ set path e
  unfolding set_xml_path
  set-again [] e =
      set-here (set [] e)
      ∙ ap (set_value (scalar_text print replacement)) (set-here e)
      ∙ (set_value-again (scalar_text print replacement) e).0
      ∙ sym (set-here e)
  set-again (part ∷ path) (an_element name attributes nodes) =
      elim (Bool-cases (same part (codes "*"))) [
        | inl h ↦ rw h (
            ap (an_element name attributes) (
              change_elements-again (set path) (set-again path) (set-named path) (λ n. true) nodes))
        | inr h ↦ rw h (
            ap (an_element name attributes)
              (change_named-again (set path) (set-again path) (set-named path) part nodes))
      ]

-- An edit of an XML document that does not depend on the present text changes nothing when it is
-- made a second time, whatever its path is, wildcards included; and the root keeps its name.
pub set_xml_path-again :
    (get_text : Element → Option Text) (print : Value → Text) (replacement : Value)
    (path : List Text) (e : Element)
    → is_object replacement ≡ false
    → let after = set_xml_path get_text print replacement path e in
      (set_xml_path get_text print replacement path after ≡ after) × (name_of after ≡ name_of e)
set_xml_path-again get_text print replacement path e scalar = (
  set-again get_text print replacement scalar path e,
  set-named get_text print replacement scalar path e,
)
