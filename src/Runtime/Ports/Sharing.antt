-- ===== src/Runtime/Ports/Sharing.antt =====
-- Reservations that share one set of ports, in any order of calls, drops and delayed removals.
use agapornis_agent_rust.Base.NatSet
use agapornis_agent_rust.Base.NatSet.{NatSet, IsNatSet}
use agapornis_agent_rust.Runtime.Ports.{
  CreateSpec, PortReservation, Draw, PortResult, ok, err, reserve_host_port, drop,
}
use agapornis_agent_rust.Runtime.Ports.Reserving.{InRange, Reserves, reserve_host_port-Reserves}
use agapornis_agent_rust.Base.{ℤ}
use agapornis_agent_rust.Base.{
  ℕ, ◌≡◌, refl, inl, inr, Bool, true, false, ◌&&◌, ◌||◌, none, some, List, [], ◌∷◌, ◌++◌, arith,
  ◌==◌,
}

-- The set, the ports of the reservations that are held, and those that a task is yet to remove.
pub record PortState : Type 0 where
  pub ports : NatSet
  pub held : List ℕ
  pub spawned : List ℕ

-- A reservation that is returned is held.
abbrev pub hold : PortReservation → List ℕ → List ℕ
hold r held = elim r.port [ none ↦ held | some port ↦ port ∷ held ]

abbrev pub reserved : PortState → NatSet × PortResult (ℤ × PortReservation) → PortState
reserved s (ports, err e) = record s { ports = ports }
reserved s (ports, ok (_, r)) = record s { ports = ports; held = hold r s.held }

abbrev pub dropped : PortState → ℕ → NatSet × List ℕ → PortState
dropped s port (ports, late) = record s {
  ports = ports;
  held = NatSet.remove port s.held;
  spawned = late ++ s.spawned;
}

pub data PortEvent : Type 0 where
  reserves : Bool → (ℕ → Draw) → CreateSpec → PortEvent
  drops : Bool → ℕ → PortEvent
  removes : ℕ → PortEvent

unfoldable pub port_step : PortEvent → PortState → PortState
unfolding drop
port_step (reserves binds draw spec) s = reserved s (reserve_host_port binds draw spec s.ports)
port_step (drops locked port) s = dropped s port (drop locked (record { port = some port }) s.ports)
port_step (removes port) s = record s {
  ports = NatSet.remove port s.ports;
  spawned = NatSet.remove port s.spawned;
}

-- Only a reservation that is held is dropped, and only what a task has to remove is removed late.
abbrev pub Happens : PortEvent → PortState → Type 0
Happens (reserves binds draw spec) s = InRange draw
Happens (drops locked port) s = NatSet.contains port s.held ≡ true
Happens (removes port) s = NatSet.contains port s.spawned ≡ true

abbrev pub no_ports : PortState
no_ports = record { ports = []; held = []; spawned = [] }

pub data PortRun : PortState → Type 0 where
  start : PortRun no_ports
  followed :
      {s : PortState} (event : PortEvent)
      → PortRun s
      → Happens event s
      → PortRun (port_step event s)

-- No two reservations hold one port, none holds a port that is yet to be removed, and exactly the
-- ports of both are in the set.
pub record IsExclusive (s : PortState) : Type 0 where
  pub held_once : IsNatSet s.held
  pub spawned_once : IsNatSet s.spawned
  pub apart : (p : ℕ) → (NatSet.contains p s.held && NatSet.contains p s.spawned) ≡ false
  pub exact :
      (p : ℕ)
      → NatSet.contains p s.ports ≡ (NatSet.contains p s.held || NatSet.contains p s.spawned)

contains-cons : (p q : ℕ) (l : List ℕ) → NatSet.contains p (q ∷ l) ≡ (q == p || NatSet.contains p l)
unfolding NatSet.contains
contains-cons p q l = refl

reserved-IsExclusive :
    (s : PortState) (r : NatSet × PortResult (ℤ × PortReservation))
    → IsExclusive s
    → Reserves s.ports r
    → IsExclusive (reserved s r)
reserved-IsExclusive s (ports, err e) x e' = rw e' x
reserved-IsExclusive s (ports, ok (host_port, r)) x (inl (e, _, none_held)) = rw (e, none_held) x
reserved-IsExclusive s (ports, ok (host_port, r)) x (inr (port, _, e, _, _, a)) =
    let free = a.was_free in
    let was = x.exact port in
    rw e (record {
      held_once = (ground arith, x.held_once);
      spawned_once = x.spawned_once;
      apart = λ p. ground (arith, contains-cons p port s.held, x.apart p);
      exact = λ p. ground (arith, contains-cons p port s.held, x.exact p, a.only p);
    })

step-IsExclusive :
    (event : PortEvent) (s : PortState)
    → Happens event s
    → IsExclusive s
    → IsExclusive (port_step event s)
unfolding port_step
step-IsExclusive (reserves binds draw spec) s d x =
    reserved-IsExclusive s (reserve_host_port binds draw spec s.ports) x
      (reserve_host_port-Reserves binds draw spec s.ports d)
step-IsExclusive (drops true port) s h x = record {
  held_once = NatSet.remove-IsNatSet port s.held x.held_once;
  spawned_once = (ground (arith, x.apart port), x.spawned_once);
  apart = λ p.
      ground
        (arith, contains-cons p port s.spawned, NatSet.contains-remove port p s.held, x.apart p);
  exact = λ p.
      ground
        (arith, contains-cons p port s.spawned, NatSet.contains-remove port p s.held, x.exact p);
}
step-IsExclusive (drops false port) s h x = record {
  held_once = NatSet.remove-IsNatSet port s.held x.held_once;
  spawned_once = x.spawned_once;
  apart = λ p. ground (arith, NatSet.contains-remove port p s.held, x.apart p);
  exact = λ p. ground (
    arith,
    NatSet.contains-remove port p s.held,
    NatSet.contains-remove port p s.ports,
    x.exact p,
    x.apart p,
  );
}
step-IsExclusive (removes port) s h x = record {
  held_once = x.held_once;
  spawned_once = NatSet.remove-IsNatSet port s.spawned x.spawned_once;
  apart = λ p. ground (arith, NatSet.contains-remove port p s.spawned, x.apart p);
  exact = λ p. ground (
    arith,
    NatSet.contains-remove port p s.spawned,
    NatSet.contains-remove port p s.ports,
    x.exact p,
    x.apart p,
  );
}

-- Whatever reservations are made and dropped, and however late the removals of dropped ones come:
-- no two held reservations have the same port, and the set holds exactly the ports that are held or
-- yet to be removed.
pub PortRun-IsExclusive : {s : PortState} → PortRun s → IsExclusive s
PortRun-IsExclusive start = record {
  held_once = tt;
  spawned_once = tt;
  apart = λ p. unfold NatSet.contains in refl;
  exact = λ p. unfold NatSet.contains in refl;
}
PortRun-IsExclusive (followed {s} event r h) = step-IsExclusive event s h (PortRun-IsExclusive r)
