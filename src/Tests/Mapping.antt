-- ===== src/Tests/Mapping.antt =====
-- Mappings of concrete ports: src/runtime/docker/provisioning/ports.rs.
use agapornis_agent_rust.Base.Dict
use agapornis_agent_rust.Base.IdSet
use agapornis_agent_rust.Base.Str
use agapornis_agent_rust.Base.{pos}
use agapornis_agent_rust.Runtime.Mapping.{PortMappings, normalize_container_port, add_port_mapping}
use agapornis_agent_rust.Runtime.Mapping.Keys.{IsMapped, add_port_mapping-IsMapped}
use agapornis_agent_rust.Base.{◌≡◌, refl, true, some, [], arith, same, codes}

abbrev unmapped : PortMappings
unmapped = record { exposed_ports = []; port_bindings = [] }

unmapped-IsMapped : IsMapped unmapped
unmapped-IsMapped = record {
  exposed_once = tt;
  exposed_keys = tt;
  bound_exposed = λ k h. absurd (unfold Dict.contains_key in ground arith);
}

protocol_lowered : normalize_container_port (codes " 25565/UDP ") ≡ some (codes "25565/udp")
unfolding normalize_container_port Str.trim Str.rsplit_once Str.parse_unsigned Str.parse_digits
    Str.is_empty Str.to_ascii_lowercase Str.trim_end_matches Str.trim_start_matches
    Str.is_whitespace Str.decimal Str.digits_onto IdSet.contains same
protocol_lowered = refl

add_port_mapping-IsMapped_example :
    IsMapped (add_port_mapping true (codes "25565") (some (pos 25565)) unmapped).0
add_port_mapping-IsMapped_example =
    add_port_mapping-IsMapped true (codes "25565") (some (pos 25565)) unmapped unmapped-IsMapped
