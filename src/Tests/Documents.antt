-- ===== src/Tests/Documents.antt =====
-- Documents as src/runtime/docker/configuration/structured.rs and xml.rs edit them.
use agapornis_agent_rust.Base.Str
use agapornis_agent_rust.Runtime.Configuration.Values.{
  Value, null, object, array, item, drained, text, number, closed, field, scalar_text,
  replacement_for_current,
}
use agapornis_agent_rust.Base.Dict
use agapornis_agent_rust.Runtime.Configuration.Xml.{
  Element, an_element, childless, child, characters, name_of, strip_suffix,
  xml_attribute_replacement, with_text, set_value, change_elements, has_element, change_named,
  set_xml_value, set_xml_path,
}
use agapornis_agent_rust.Runtime.Configuration.Elements.{set_xml_path-again}
use agapornis_agent_rust.Runtime.Configuration.Lines.{span_until}
use agapornis_agent_rust.Runtime.Configuration.Structured.{
  PathSegment, key, index, wildcard, parse_path, parts_segments, part_segments, bracket_segments,
  initial_value, set_field, set_item, structured_value, set_structured_path,
}
use agapornis_agent_rust.Runtime.Configuration.Settled.{
  get_path, has_wildcard, set_structured_path-settles,
}
use agapornis_agent_rust.Base.{
  ◌≡◌, refl, Option, none, some, List, [], ◌∷◌, if◌then◌else◌, Text, same, codes,
}

abbrev print : Value → Text
print value = codes "{}"

parsed_path :
    parse_path (codes "servers[1].*.port")
    ≡ key (codes "servers") ∷ (index 1 ∷ (wildcard ∷ (key (codes "port") ∷ [])))
unfolding parse_path parts_segments part_segments bracket_segments span_until Str.split
    Str.without_empty Str.is_empty Str.strip_prefix Str.parse_unsigned Str.parse_digits same
parsed_path = refl

abbrev only_25565 : Text → Option Text
only_25565 t = if same t (codes "25565") then some t else none

abbrev port_path : List PathSegment
port_path = key (codes "listeners") ∷ (index 0 ∷ (key (codes "port") ∷ []))

set_port :
    set_structured_path only_25565 print (text (codes "25565")) port_path null
    ≡ object (
        field
          (codes "listeners")
          (array (item (object (field (codes "port") (number (codes "25565")) closed)) drained))
          closed)
unfolding set_structured_path set_field set_item initial_value structured_value
    replacement_for_current scalar_text same
set_port = refl

set_structured_path-settles_example :
    let after = set_structured_path only_25565 print (text (codes "25565")) port_path null in
    (get_path port_path after ≡ (
      if has_wildcard port_path
      then none
      else some (structured_value only_25565 (text (codes "25565")))))
    × (set_structured_path only_25565 print (text (codes "25565")) port_path after ≡ after)
set_structured_path-settles_example =
    set_structured_path-settles only_25565 print (text (codes "25565")) port_path null refl

-- `<server><port>1</port></server>`
abbrev server : Element
server =
    an_element (codes "server") []
      (child (an_element (codes "port") [] (characters (codes "1") childless)) childless)

abbrev first_text : Element → Option Text
first_text (an_element name attributes (characters t nodes)) = some t
first_text (an_element name attributes nodes) = none

abbrev port_parts : List Text
port_parts = codes "port" ∷ []

set_port_text :
    set_xml_path first_text print (number (codes "2")) port_parts server
    ≡ an_element
        (codes "server")
        []
        (child (an_element (codes "port") [] (characters (codes "2") childless)) childless)
unfolding set_xml_path set_xml_value set_value with_text change_named has_element change_elements
    xml_attribute_replacement Str.strip_prefix replacement_for_current scalar_text same
set_port_text = refl

set_port_attribute :
    set_xml_path first_text print (text (codes "[open='yes']")) port_parts server
    ≡ an_element (codes "server") [] (
        child
          (an_element
            (codes "port")
            ((codes "open", codes "yes") ∷ [])
            (characters (codes "1") childless))
          childless)
unfolding set_xml_path set_xml_value set_value with_text change_named has_element change_elements
    xml_attribute_replacement Str.strip_prefix strip_suffix Str.split_once Dict.insert
    replacement_for_current scalar_text same
set_port_attribute = refl

set_xml_path-again_example :
    let after = set_xml_path first_text print (number (codes "2")) port_parts server in
    (set_xml_path first_text print (number (codes "2")) port_parts after ≡ after)
    × (name_of after ≡ name_of server)
set_xml_path-again_example =
    set_xml_path-again first_text print (number (codes "2")) port_parts server refl
