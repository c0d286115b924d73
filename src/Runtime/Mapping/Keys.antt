-- ===== src/Runtime/Mapping/Keys.antt =====
-- The keys of the port mappings.
use agapornis_agent_rust.Base.Dict
use agapornis_agent_rust.Base.Dict.{Dict}
use agapornis_agent_rust.Base.IdSet
use agapornis_agent_rust.Base.IdSet.{IsIdSet}
use agapornis_agent_rust.Base.Str
use agapornis_agent_rust.Base.{ℤ}
use agapornis_agent_rust.Runtime.Ports.{try_u16}
use agapornis_agent_rust.Runtime.Mapping.{
  PortMappings, protocols, port_parts, port_key, normalize_container_port, expose, bind_port,
  add_port_mapping,
}
use agapornis_agent_rust.Base.{
  ℕ, ◌≤◌, ◌≡◌, refl, inl, inr, Bool, true, false, ◌||◌, Option, some, List, [], ◌∷◌, ◌++◌, arith,
  Bool-cases, Option-cases, All, All-append, Text, same, same_iff, same_refl,
}

-- A port from 0 to 65535 and one of the three protocols.
abbrev pub IsKey : Text → Type 0
IsKey key =
    (n : ℕ) × (protocol : Text) × (key ≡ port_key n protocol)
    × (n ≤ 65535)
    × (IdSet.contains protocol protocols ≡ true)

parse_unsigned-le :
    (largest : ℕ) (s : Text) {n : ℕ} → Str.parse_unsigned largest s ≡ some n → n ≤ largest
unfolding Str.parse_unsigned
parse_unsigned-le largest s {n} h = elim (Bool-cases (Str.is_empty (Str.after_plus s))) [
  | inl empty ↦ absurd (let g = rw empty at h in cc)
  | inr full ↦
      let g = rw full at h in
      elim (Option-cases (Str.parse_digits 0 (Str.after_plus s))) [
        | inl e ↦ absurd (let k = rw e at g in cc)
        | inr (m, e) ↦ let k = rw e at g in ground arith
      ]
]

normalize_container_port-IsKey :
    (port : Text) {key : Text} → normalize_container_port port ≡ some key → IsKey key
unfolding normalize_container_port
normalize_container_port-IsKey port {key} h =
    let parts = port_parts (Str.trim port) in
    let lower = Str.to_ascii_lowercase parts.1 in
    elim (Bool-cases (Str.is_empty (Str.trim port))) [
      | inl empty ↦ absurd (let g = rw empty at h in cc)
      | inr full ↦
          let g = rw full at h in
          elim (Option-cases (Str.parse_unsigned 65535 parts.0)) [
            | inl e ↦ absurd (let k = rw e at g in cc)
            | inr (n, e) ↦
                let k = rw e at g in
                elim (Bool-cases (IdSet.contains lower protocols)) [
                  | inr other ↦ absurd (let l = rw other at k in cc)
                  | inl known ↦
                      let l = rw known at k in
                      let key_is : key ≡ port_key n lower = cc in
                      (n, lower, key_is, parse_unsigned-le 65535 parts.0 e, known)
                ]
          ]
    ]

-- No port is exposed twice, each is a port and a protocol, and what is bound is exposed.
pub record IsMapped (m : PortMappings) : Type 0 where
  pub exposed_once : IsIdSet m.exposed_ports
  pub exposed_keys : All IsKey m.exposed_ports
  pub bound_exposed :
      (k : Text)
      → Dict.contains_key k m.port_bindings ≡ true
      → IdSet.contains k m.exposed_ports ≡ true

contains-append :
    (k : Text) (xs : List Text) (key : Text)
    → IdSet.contains k (xs ++ key ∷ []) ≡ (IdSet.contains k xs || same key k)
unfolding IdSet.contains
contains-append k [] key = ground arith
contains-append k (x ∷ xs) key = ground (arith, contains-append k xs key)

append-IsIdSet :
    (xs : List Text) (key : Text)
    → IsIdSet xs
    → IdSet.contains key xs ≡ false
    → IsIdSet (xs ++ key ∷ [])
unfolding IdSet.contains
append-IsIdSet [] key d h = (refl, tt)
append-IsIdSet (x ∷ xs) key d h = (
  ground (arith, contains-append x xs key, d.0, same_iff x key, same_iff key x),
  append-IsIdSet xs key d.1 (ground arith),
)

expose-IsMapped :
    (key : Text) (m : PortMappings)
    → IsKey key
    → IsMapped m
    → IsMapped (expose key m) × (IdSet.contains key (expose key m).exposed_ports ≡ true)
expose-IsMapped key m is_key x = elim (Bool-cases (IdSet.contains key m.exposed_ports)) [
  | inl listed ↦ rw listed (x, listed)
  | inr new ↦ rw new (
    record {
      exposed_once = append-IsIdSet m.exposed_ports key x.exposed_once new;
      exposed_keys = All-append IsKey m.exposed_ports (key ∷ []) x.exposed_keys (is_key, tt);
      bound_exposed = λ k h. rw (contains-append k m.exposed_ports key, x.bound_exposed k h) refl;
    },
    ground (arith, contains-append key m.exposed_ports key, same_refl key),
  )
]

bind_port-IsMapped :
    (key : Text) (port : ℕ) (m : PortMappings)
    → IdSet.contains key m.exposed_ports ≡ true
    → IsMapped m
    → IsMapped (bind_port key port m)
bind_port-IsMapped key port m listed x = record {
  exposed_once = x.exposed_once;
  exposed_keys = x.exposed_keys;
  bound_exposed = λ k h. elim (Bool-cases (same key k)) [
    | inl e ↦ rw (← (same_iff key k).0 e) listed
    | inr e ↦ x.bound_exposed k (rw (Dict.contains_key-insert, e) at h)
  ];
}

-- A call that starts from such mappings leaves such mappings, whatever is mapped and whether it
-- succeeds or fails: no port is exposed twice, each exposed port is a number from 0 to 65535 with
-- one of the three protocols, and host ports are bound only for exposed ports.
pub add_port_mapping-IsMapped :
    (binds : Bool) (internal_port : Text) (host_port : Option ℤ) (m : PortMappings)
    → IsMapped m
    → IsMapped (add_port_mapping binds internal_port host_port m).0
unfolding add_port_mapping
add_port_mapping-IsMapped binds internal_port host_port m x =
    elim (Option-cases (normalize_container_port internal_port)) [
      | inl e ↦ rw (e, add_port_mapping) x
      | inr (key, e) ↦
          let (exposed, listed) =
            expose-IsMapped key m (normalize_container_port-IsKey internal_port e) x in
          rw (e, add_port_mapping)
            (elim (Option-cases host_port) [
              | inl unmapped ↦ rw unmapped exposed
              | inr (port, mapped) ↦ rw mapped (elim (Option-cases (try_u16 port)) [
                | inl large ↦ rw large exposed
                | inr (p, small) ↦ rw small (elim (Bool-cases binds) [
                  | inl bound ↦ rw bound (bind_port-IsMapped key p (expose key m) listed exposed)
                  | inr busy ↦ rw busy exposed
                ])
              ])
            ])
    ]
