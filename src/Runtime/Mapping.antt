-- ===== src/Runtime/Mapping.antt =====
-- Port mappings of a container: `add_port_mapping` and `normalize_container_port` of
-- src/runtime/docker/provisioning/ports.rs. Whether the host port can be bound is an argument.
pub mod Keys
use agapornis_agent_rust.Base.Dict
use agapornis_agent_rust.Base.Dict.{Dict}
use agapornis_agent_rust.Base.IdSet
use agapornis_agent_rust.Base.IdSet.{IdSet}
use agapornis_agent_rust.Base.Str
use agapornis_agent_rust.Base.{ℤ, pos, negsuc}
use agapornis_agent_rust.Runtime.Ports.{try_u16}
use agapornis_agent_rust.Base.{
  ℕ, zero, suc, ◌+◌, ◌-◌, ◌*◌, ◌/◌, ◌%◌, ◌^◌, ◌≤◌, ◌<◌, min, max, ◌≡◌, refl, sym, ap, ◌∙◌, ◌≢◌, ◌↔◌,
  ◌⊎◌, inl, inr, Bool, true, false, not, ◌&&◌, ◌||◌, Option, none, some, List, [], ◌∷◌, ◌++◌, map,
  arith, ltb, leb, ◌==◌, if◌then◌else◌, ==_iff, ltb-eq-false, Bool-cases, Option-cases, is_some,
  length, length-append, take, drop, take-append-drop, All, All-append, IsSuffix, Text, same,
  same_iff, same_refl, codes, u64_max, sat_add, wrapping_add, sat_add_exact,
}

pub record PortBinding : Type 0 where
  pub host_ip : Text
  pub host_port : Text

abbrev pub protocols : List Text
protocols = codes "tcp" ∷ codes "udp" ∷ codes "sctp" ∷ []

-- The number and the protocol of a port.
abbrev pub port_parts : Text → Text × Text
port_parts port = elim (Str.rsplit_once b'/' port) [
  | none ↦ (port, codes "tcp")
  | some parts ↦ parts
]

abbrev pub port_key : ℕ → Text → Text
port_key number protocol = Str.decimal number ++ (b'/' ∷ protocol)

unfoldable pub normalize_container_port : Text → Option Text
normalize_container_port port =
    let trimmed = Str.trim port in
    let (number, protocol) = port_parts trimmed in
    let lower = Str.to_ascii_lowercase protocol in
    if Str.is_empty trimmed then none else elim (Str.parse_unsigned 65535 number) [
      | none ↦ none
      | some n ↦ if IdSet.contains lower protocols then some (port_key n lower) else none
    ]

-- `exposed_ports` and `port_bindings`.
pub record PortMappings : Type 0 where
  pub exposed_ports : List Text
  pub port_bindings : Dict (Option (List PortBinding))

-- `or_insert_with(|| Some(Vec::new())).get_or_insert_with(Vec::new)`
abbrev pub bindings_of : Option (Option (List PortBinding)) → List PortBinding
bindings_of none = []
bindings_of (some none) = []
bindings_of (some (some bindings)) = bindings

abbrev pub expose : Text → PortMappings → PortMappings
expose key m =
    if IdSet.contains key m.exposed_ports
    then m
    else record m { exposed_ports = m.exposed_ports ++ key ∷ [] }

abbrev pub bind_port : Text → ℕ → PortMappings → PortMappings
bind_port key port m =
    let binding : PortBinding = record {
      host_ip = codes "0.0.0.0";
      host_port = Str.decimal port;
    } in
    record m {
      port_bindings =
          Dict.insert key (some (bindings_of (Dict.get key m.port_bindings) ++ binding ∷ []))
            m.port_bindings;
    }

-- The mappings after the call, and whether it returned `Ok`.
unfoldable pub add_port_mapping : Bool → Text → Option ℤ → PortMappings → PortMappings × Bool
add_port_mapping binds internal_port host_port m = elim (normalize_container_port internal_port) [
  | none ↦ (m, false)
  | some key ↦ elim host_port [
    | none ↦ (expose key m, true)
    | some port ↦ elim (try_u16 port) [
      | none ↦ (expose key m, false)
      | some port ↦
          if binds then (bind_port key port (expose key m), true) else (expose key m, false)
    ]
  ]
]
