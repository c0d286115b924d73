-- ===== src/Runtime/Ports.antt =====
-- Reservations of host ports: src/runtime/docker/provisioning/ports.rs. The set of the reserved
-- ports is shared by all reservations, so it is passed on; whether a port can be bound, and which
-- ports are drawn, are arguments.
pub mod Reserving
pub mod Sharing
use agapornis_agent_rust.Base.NatSet
use agapornis_agent_rust.Base.NatSet.{NatSet}
use agapornis_agent_rust.Base.{
  ℕ, zero, suc, Bool, false, not, ◌&&◌, Option, none, some, leb, ltb, if◌then◌else◌, List, [], ◌∷◌,
  ℤ, pos, negsuc,
}

-- What `reserve_host_port` reads of the request.
pub record CreateSpec : Type 0 where
  pub expose_public_port : Bool
  pub host_port : ℤ  -- i32

pub record PortReservation : Type 0 where
  pub port : Option ℕ

-- One draw of `find_port`, and whether a listener can be bound to it then.
pub record Draw : Type 0 where
  pub port : ℕ
  pub binds : Bool

pub data PortError : Type 0 where
  out_of_range in_use being_allocated no_open_ports : PortError

pub data PortResult (A : Type 0) : Type 0 where
  ok : A → PortResult A
  err : PortError → PortResult A

-- `u16::try_from`
abbrev pub try_u16 : ℤ → Option ℕ
try_u16 (pos n) = if leb n 65535 then some n else none
try_u16 (negsuc n) = none

-- `ok().filter(|port| *port > 0)`
abbrev pub filter_positive : Option ℕ → Option ℕ
filter_positive none = none
filter_positive (some n) = if ltb 0 n then some n else none

abbrev pub is_positive : ℤ → Bool
is_positive (pos n) = ltb 0 n
is_positive (negsuc n) = false

-- The loop of `find_port`, over the rounds that are left; round `n` draws `draw n`.
unfoldable pub find_from : ℕ → (ℕ → Draw) → NatSet → Option (NatSet × ℕ)
find_from zero draw ports = none
find_from (suc n) draw ports =
    let again = find_from n draw ports in
    if (draw n).binds && not (NatSet.contains (draw n).port ports)
    then some (NatSet.insert (draw n).port ports, (draw n).port)
    else again

unfoldable pub find_port : (ℕ → Draw) → NatSet → Option (NatSet × ℕ)
find_port = find_from 50

-- `PortReservation::new`, for a host port
abbrev pub reservation : ℤ → PortReservation
reservation host_port = record { port = filter_positive (try_u16 host_port) }

-- A port that was asked for: it is reserved if it can be bound and is not reserved.
unfoldable pub reserve_requested : Bool → ℤ → NatSet → NatSet × PortResult (ℤ × PortReservation)
reserve_requested binds host_port ports = elim (try_u16 host_port) [
  | none ↦ (ports, err out_of_range)
  | some port ↦
      if not binds
      then (ports, err in_use)
      else if NatSet.contains port ports
      then (ports, err being_allocated)
      else (NatSet.insert port ports, ok (host_port, reservation host_port))
]

unfoldable pub reserve_found : (ℕ → Draw) → NatSet → NatSet × PortResult (ℤ × PortReservation)
reserve_found draw ports = elim (find_port draw ports) [
  | none ↦ (ports, err no_open_ports)
  | some (found, port) ↦ (found, ok (pos port, reservation (pos port)))
]

unfoldable pub reserve_host_port :
    Bool → (ℕ → Draw) → CreateSpec → NatSet → NatSet × PortResult (ℤ × PortReservation)
reserve_host_port binds draw spec ports =
    if not spec.expose_public_port
    then (ports, ok (pos 0, reservation (pos 0)))
    else if is_positive spec.host_port
    then reserve_requested binds spec.host_port ports
    else reserve_found draw ports

-- `PortReservation::drop`: the ports after it, and the ports whose removal is left to a task,
-- which is so when the lock is taken.
unfoldable pub drop : Bool → PortReservation → NatSet → NatSet × List ℕ
drop locked r ports = elim r.port [
  | none ↦ (ports, [])
  | some port ↦ if locked then (ports, port ∷ []) else (NatSet.remove port ports, [])
]
