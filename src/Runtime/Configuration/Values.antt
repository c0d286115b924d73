-- ===== src/Runtime/Configuration/Values.antt =====
-- The JSON values of the configuration descriptors: the functions of
-- src/runtime/docker/configuration.rs on `serde_json::Value`, with an object as its fields in the
-- order of the map. How a number, an array or an object is printed is `serde_json`'s: a number is
-- kept as its text, and the printer of the rest is an argument.
use agapornis_agent_rust.Base.Str
use agapornis_agent_rust.Base.{
  Bool, true, false, Option, none, some, [], if◌then◌else◌, Text, same, codes,
}

mutual
  pub data Value : Type 0 where
    null : Value
    boolean : Bool → Value
    number text : Text → Value
    array : Items → Value
    object : Fields → Value

  pub data Items : Type 0 where
    drained : Items
    item : Value → Items → Items

  pub data Fields : Type 0 where
    closed : Fields
    field : Text → Value → Fields → Fields

-- `object.get(name)`
unfoldable pub get_field : Text → Fields → Option Value
get_field name closed = none
get_field name (field key value fields) =
    if same key name then some value else get_field name fields

abbrev pub filled_text : Option Value → Option Text
filled_text (some (text t)) = if Str.is_empty t then none else some t
filled_text _ = none

abbrev pub or_found : Option Text → Option Text → Option Text
or_found none other = other
or_found (some t) other = some t

-- The name is the first argument, as it does not change.
unfoldable mutual
  unfolding get_field

  pub find_named_string : Text → Value → Option Text
  find_named_string name null = none
  find_named_string name (boolean b) = none
  find_named_string name (number n) = none
  find_named_string name (text t) = none
  find_named_string name (array items) = find_in_items name items
  find_named_string name (object fields) =
      or_found (filled_text (get_field name fields)) (find_in_fields name fields)

  pub find_in_items : Text → Items → Option Text
  find_in_items name drained = none
  find_in_items name (item value items) =
      or_found (find_named_string name value) (find_in_items name items)

  pub find_in_fields : Text → Fields → Option Text
  find_in_fields name closed = none
  find_in_fields name (field key value fields) =
      or_found (find_named_string name value) (find_in_fields name fields)

abbrev pub interface_placeholder : Text
interface_placeholder = codes "{{config.docker.interface}}"

abbrev pub network_placeholder : Text
network_placeholder = codes "{{config.docker.network.interface}}"

abbrev pub resolve_text : Text → Text → Text
resolve_text docker_interface t =
    Str.replace_text network_placeholder docker_interface
      (Str.replace_text interface_placeholder docker_interface t)

-- The interface is the first argument, as it does not change.
unfoldable mutual
  pub resolve_daemon_placeholders : Text → Value → Value
  resolve_daemon_placeholders docker_interface null = null
  resolve_daemon_placeholders docker_interface (boolean b) = boolean b
  resolve_daemon_placeholders docker_interface (number n) = number n
  resolve_daemon_placeholders docker_interface (text t) = text (resolve_text docker_interface t)
  resolve_daemon_placeholders docker_interface (array items) =
      array (resolve_items docker_interface items)
  resolve_daemon_placeholders docker_interface (object fields) =
      object (resolve_fields docker_interface fields)

  pub resolve_items : Text → Items → Items
  resolve_items docker_interface drained = drained
  resolve_items docker_interface (item value items) =
      item (resolve_daemon_placeholders docker_interface value)
        (resolve_items docker_interface items)

  pub resolve_fields : Text → Fields → Fields
  resolve_fields docker_interface closed = closed
  resolve_fields docker_interface (field key value fields) =
      field key (resolve_daemon_placeholders docker_interface value)
        (resolve_fields docker_interface fields)

abbrev pub is_object : Value → Bool
is_object (object fields) = true
is_object _ = false

unfoldable pub replacement_for_current : Value → Text → Option Value
replacement_for_current (object options) current = get_field current options
replacement_for_current value current = some value

unfoldable pub scalar_text : (Value → Text) → Value → Text
scalar_text print null = []
scalar_text print (boolean true) = codes "true"
scalar_text print (boolean false) = codes "false"
scalar_text print (number n) = n
scalar_text print (text t) = t
scalar_text print (array items) = print (array items)
scalar_text print (object fields) = print (object fields)
