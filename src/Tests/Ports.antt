-- ===== src/Tests/Ports.antt =====
-- Reservations of concrete ports: src/runtime/docker/provisioning/ports.rs.
use agapornis_agent_rust.Base.NatSet
use agapornis_agent_rust.Runtime.Ports.{
  CreateSpec, Draw, err, being_allocated, find_from, find_port, reserve_requested,
  reserve_host_port,
}
use agapornis_agent_rust.Runtime.Ports.Reserving.{InRange, Reserves, reserve_host_port-Reserves}
use agapornis_agent_rust.Runtime.Ports.Sharing.{
  PortState, no_ports, reserves, drops, port_step, PortRun, start, followed, IsExclusive,
  PortRun-IsExclusive,
}
use agapornis_agent_rust.Base.{pos}
use agapornis_agent_rust.Base.{ℕ, ◌≡◌, refl, Bool, true, false, none, some, [], ◌∷◌, arith}

abbrev game_server : CreateSpec
game_server = record { expose_public_port = true; host_port = pos 25565 }

abbrev any_port : CreateSpec
any_port = record { expose_public_port = true; host_port = pos 0 }

-- The same port in each round, which can be bound or not.
abbrev one_port : Bool → ℕ → Draw
one_port binds n = record { port = 25007; binds = binds }

one_port-InRange : (binds : Bool) → InRange (one_port binds)
one_port-InRange binds n = omega arith

second_refused :
    (reserve_host_port true (one_port true) game_server (25565 ∷ [])).1 ≡ err being_allocated
unfolding reserve_host_port reserve_requested NatSet.contains
second_refused = refl

port_found : find_port (one_port true) (25565 ∷ []) ≡ some (25007 ∷ 25565 ∷ [], 25007)
unfolding find_port find_from NatSet.contains NatSet.insert
port_found = refl

reserve_host_port-Reserves_example :
    Reserves (25565 ∷ []) (reserve_host_port true (one_port true) any_port (25565 ∷ []))
reserve_host_port-Reserves_example =
    reserve_host_port-Reserves true (one_port true) any_port (25565 ∷ []) (one_port-InRange true)

all_busy : find_port (one_port false) [] ≡ none
unfolding find_port find_from
all_busy = refl

abbrev reserved_one : PortState
reserved_one = port_step (reserves true (one_port true) game_server) no_ports

abbrev dropped_one : PortState
dropped_one = port_step (drops true 25565) reserved_one

port_held : NatSet.contains 25565 reserved_one.held ≡ true
unfolding port_step reserve_host_port reserve_requested NatSet.contains NatSet.insert
port_held = refl

dropped_one-PortRun : PortRun dropped_one
dropped_one-PortRun =
    followed (drops true 25565)
      (followed (reserves true (one_port true) game_server) start (one_port-InRange true)) port_held

PortRun-IsExclusive_example : IsExclusive dropped_one
PortRun-IsExclusive_example = PortRun-IsExclusive dropped_one-PortRun
