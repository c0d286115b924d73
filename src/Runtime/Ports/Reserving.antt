-- ===== src/Runtime/Ports/Reserving.antt =====
-- What one reservation does to the set of the reserved ports.
use agapornis_agent_rust.Base.NatSet
use agapornis_agent_rust.Base.NatSet.{NatSet}
use agapornis_agent_rust.Runtime.Ports.{
  CreateSpec, PortReservation, Draw, PortResult, ok, err, is_positive, find_from, find_port,
  reserve_requested, reserve_found, reserve_host_port,
}
use agapornis_agent_rust.Base.{ℤ, pos, negsuc}
use agapornis_agent_rust.Base.{
  ℕ, zero, suc, ◌≤◌, ◌<◌, ◌≡◌, refl, ◌⊎◌, inl, inr, Bool, true, false, not, ◌&&◌, ◌||◌, none, some,
  arith, ltb, leb, ◌==◌, ==_iff, Bool-cases, Option-cases,
}

-- `rand::rng().random_range(25000..26000)`
abbrev pub InRange : (ℕ → Draw) → Type 0
InRange draw = (n : ℕ) → (25000 ≤ (draw n).port) × ((draw n).port < 26000)

-- The port is new in the set, and nothing else is changed in it.
pub record Adds (port : ℕ) (before after : NatSet) : Type 0 where
  pub was_free : NatSet.contains port before ≡ false
  pub only : (j : ℕ) → NatSet.contains j after ≡ (port == j || NatSet.contains j before)

-- What a reservation may come to.
abbrev pub Reserves : NatSet → NatSet × PortResult (ℤ × PortReservation) → Type 0
Reserves before (after, err e) = after ≡ before
Reserves before (after, ok (host_port, r)) =
    ((after ≡ before) × (host_port ≡ pos 0) × (r.port ≡ none))
    ⊎ ((port : ℕ) × (host_port ≡ pos port)
        × (r.port ≡ some port)
        × (1 ≤ port)
        × (port ≤ 65535)
        × Adds port before after)

find_from-Adds :
    (n : ℕ) (draw : ℕ → Draw) (before after : NatSet) (port : ℕ)
    → InRange draw
    → find_from n draw before ≡ some (after, port)
    → (25000 ≤ port) × (port < 26000) × Adds port before after
unfolding find_from
find_from-Adds zero draw before after port d h = absurd (ground arith)
find_from-Adds (suc n) draw before after port d h =
    elim (Bool-cases ((draw n).binds && not (NatSet.contains (draw n).port before))) [
      | inl usable ↦
          let g = rw usable at h in
          let p : (draw n).port ≡ port = ground arith in
          let a : NatSet.insert (draw n).port before ≡ after = ground arith in
          rw (← p, ← a)
            (
              (d n).0,
              (d n).1,
              record {
                was_free = ground arith;
                only = λ j. NatSet.contains-insert (draw n).port j before;
              },
            )
      | inr idle ↦ find_from-Adds n draw before after port d (rw idle at h)
    ]

reserve_requested-Reserves :
    (binds : Bool) (host_port : ℤ) (ports : NatSet)
    → is_positive host_port ≡ true
    → Reserves ports (reserve_requested binds host_port ports)
unfolding reserve_requested
reserve_requested-Reserves binds (negsuc n) ports h = refl
reserve_requested-Reserves binds (pos n) ports h = elim (Bool-cases (leb n 65535)) [
  | inr large ↦ rw (large, reserve_requested) refl
  | inl small ↦
      rw (small, reserve_requested)
        (elim (Bool-cases binds) [
          | inr unbound ↦ rw unbound refl
          | inl bound ↦ rw bound (elim (Bool-cases (NatSet.contains n ports)) [
            | inl taken ↦ rw taken refl
            | inr free ↦
                rw (free, small, h)
                  (inr (
                    n,
                    refl,
                    refl,
                    ground arith,
                    ground arith,
                    record { was_free = free; only = λ j. NatSet.contains-insert n j ports },
                  ))
          ])
        ])
]

reserve_found-Reserves :
    (draw : ℕ → Draw) (ports : NatSet) → InRange draw → Reserves ports (reserve_found draw ports)
unfolding reserve_found find_port
reserve_found-Reserves draw ports d = elim (Option-cases (find_from 50 draw ports)) [
  | inl e ↦ rw (e, reserve_found) refl
  | inr ((after, port), e) ↦
      let (low, high, a) = find_from-Adds 50 draw ports after port d e in
      let small : leb port 65535 ≡ true = ground arith in
      let positive : ltb 0 port ≡ true = ground arith in
      rw (e, reserve_found)
        (inr (port, refl, rw (small, positive) refl, omega arith, omega arith, a))
]

-- A reservation that fails changes nothing; one that succeeds without a port, for a server that is
-- not exposed, changes nothing either; and any other returns a port from 1 to 65535 that was not
-- reserved, now is, and is the only change. Draws are from the range of `find_port`.
pub reserve_host_port-Reserves :
    (binds : Bool) (draw : ℕ → Draw) (spec : CreateSpec) (ports : NatSet)
    → InRange draw
    → Reserves ports (reserve_host_port binds draw spec ports)
unfolding reserve_host_port
reserve_host_port-Reserves binds draw spec ports d = elim (Bool-cases spec.expose_public_port) [
  | inr hidden ↦ rw hidden (inl (refl, refl, refl))
  | inl exposed ↦ rw exposed (elim (Bool-cases (is_positive spec.host_port)) [
    | inl asked ↦ rw asked (reserve_requested-Reserves binds spec.host_port ports asked)
    | inr any ↦ rw any (reserve_found-Reserves draw ports d)
  ])
]

-- A draw that `find_port` takes.
abbrev pub is_usable : NatSet → Draw → Bool
is_usable ports d = d.binds && not (NatSet.contains d.port ports)

find_from-none :
    (n : ℕ) (draw : ℕ → Draw) (ports : NatSet)
    → find_from n draw ports ≡ none
    → (i : ℕ) → i < n
    → is_usable ports (draw i) ≡ false
unfolding find_from
find_from-none zero draw ports h i l = absurd (omega arith)
find_from-none (suc n) draw ports h i l = elim (Bool-cases (is_usable ports (draw n))) [
  | inl usable ↦ absurd (ground arith)
  | inr idle ↦ elim (Bool-cases (i == n)) [
    | inl e ↦ rw ((==_iff i n).0 e) idle
    | inr e ↦ find_from-none n draw ports (rw idle at h) i (ground arith)
  ]
]

-- `find_port` does not give up early: if it finds no port, then each of its 50 draws could not be
-- bound or was reserved.
pub find_port-none :
    (draw : ℕ → Draw) (ports : NatSet) (i : ℕ)
    → find_port draw ports ≡ none
    → i < 50
    → is_usable ports (draw i) ≡ false
unfolding find_port
find_port-none draw ports i h l = find_from-none 50 draw ports h i l
