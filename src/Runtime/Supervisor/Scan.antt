-- ===== src/Runtime/Supervisor/Scan.antt =====
-- A scan forgets the servers that Docker does not list any more.
use agapornis_agent_rust.Base.Dict
use agapornis_agent_rust.Base.Dict.{Dict}
use agapornis_agent_rust.Base.IdSet
use agapornis_agent_rust.Base.IdSet.{IdSet}
use agapornis_agent_rust.Base.{ℤ, pos, is_less}
use agapornis_agent_rust.Console.Hub.Calls.{wake_reader}
use agapornis_agent_rust.Security.Protection
use agapornis_agent_rust.Security.Protection.{or_insert}
use agapornis_agent_rust.Runtime.Supervisor.{
  Observation, Supervised, ObserveClock, Inspection, new_observation, watch, is_crash_loop, observe,
  quarantine, enforce_disk, scan_server, scan_servers, forget, forget_all, keys, stale_ids,
  scan_once,
}
use agapornis_agent_rust.Runtime.Supervisor.Assigned.{
  assigned, scan_servers-assigned, forget_all-assigned,
}
use agapornis_agent_rust.Base.{
  ℕ, ◌≡◌, refl, ◌∙◌, inl, inr, Bool, true, false, not, ◌&&◌, ◌||◌, Option, none, some, List, [],
  ◌∷◌, arith, leb, if◌then◌else◌, Bool-cases, Option-cases, Text, same,
}

-- Whether the loops watch a server: it has an observation, or a time for its next disk scan.
abbrev pub is_watched : Text → Supervised → Bool
is_watched j s = Dict.contains_key j s.observations || Dict.contains_key j s.disk_due

contains-keys {ℓ} :
    {V : Type ℓ} (j : Text) (m : Dict V) → IdSet.contains j (keys m) ≡ Dict.contains_key j m
unfolding IdSet.contains Dict.contains_key
contains-keys j [] = refl
contains-keys j ((k, v) ∷ m) = rw (contains-keys j m) refl

observe-watched :
    (clock : ObserveClock) (id j : Text) (restart : ℤ) (running : Bool) (exit : ℤ) (s : Supervised)
    → same id j ≡ false
    → (Dict.contains_key j (observe clock id restart running exit s).observations
        ≡ Dict.contains_key j s.observations)
      × ((observe clock id restart running exit s).disk_due ≡ s.disk_due)
unfolding observe quarantine
observe-watched clock id j restart running exit s h =
    let watched =
      watch clock restart running exit
        (or_insert (Dict.get id s.observations) (new_observation restart running clock.now)) in
    elim (Bool-cases (Protection.in_manual_recovery clock.recovery_test id s.hub.protection).1) [
      | inl recovers ↦ rw recovers (rw (Dict.contains_key-insert, h) refl, refl)
      | inr other ↦ rw other (elim (Bool-cases (is_crash_loop watched)) [
        | inl loops ↦ rw loops (rw (Dict.contains_key-insert, h) refl, refl)
        | inr fine ↦ rw fine (rw (Dict.contains_key-insert, h) refl, refl)
      ])
    ]

enforce_disk-watched :
    (clock : Protection.LineClock) (id j : Text) (measured : ℤ × ℤ) (s : Supervised)
    → is_watched j (enforce_disk clock id measured s) ≡ is_watched j s
unfolding enforce_disk
enforce_disk-watched clock id j (usage, limit) s =
    elim (Bool-cases (is_less (pos 0) limit && is_less limit usage)) [
      | inl e ↦ rw e refl
      | inr e ↦ rw e refl
    ]

-- The state that `observe` gets.
abbrev woken : Text → Bool → Supervised → Supervised
woken id running s = if running then record s { hub = wake_reader id s.hub } else s

woken-watched :
    (id : Text) (running : Bool) (s : Supervised)
    → ((woken id running s).observations ≡ s.observations)
      × ((woken id running s).disk_due ≡ s.disk_due)
woken-watched id true s = (refl, refl)
woken-watched id false s = (refl, refl)

due-watched :
    (id j : Text) (due : ℕ) (observations : Dict Observation) (m : Dict ℕ)
    → same id j ≡ false
    → (Dict.contains_key j observations || Dict.contains_key j (Dict.insert id due m))
      ≡ (Dict.contains_key j observations || Dict.contains_key j m)
due-watched id j due observations m h = rw (Dict.contains_key-insert, h) refl

scan_server-watched :
    (disk_every : ℕ) (id j : Text) (i : Inspection) (s : Supervised)
    → same id j ≡ false
    → is_watched j (scan_server disk_every id i s).0 ≡ is_watched j s
unfolding scan_server
scan_server-watched disk_every id j i s h =
    let before = woken id i.running s in
    let seen = observe i.clock id i.restart i.running i.exit before in
    let (o, d) = observe-watched i.clock id j i.restart i.running i.exit before h in
    let (p, e) = woken-watched id i.running s in
    let stays : is_watched j seen ≡ is_watched j s = rw (o, d, p, e) refl in
    elim (Bool-cases (leb (or_insert (Dict.get id seen.disk_due) i.due_inserted) i.due_test)) [
      | inl due ↦ rw due (elim (Option-cases i.disk) [
        | inl none_found ↦
            rw none_found (due-watched id j _ seen.observations seen.disk_due h ∙ stays)
        | inr (measured, found) ↦ rw found (
            enforce_disk-watched i.line id j measured _
            ∙ due-watched id j _ seen.observations seen.disk_due h
            ∙ stays)
      ])
      | inr later ↦ rw later (due-watched id j _ seen.observations seen.disk_due h ∙ stays)
    ]

not_listed :
    (id j : Text) (ids : List Text)
    → IdSet.contains j (id ∷ ids) ≡ false
    → (same id j ≡ false) × (IdSet.contains j ids ≡ false)
unfolding IdSet.contains
not_listed id j ids h = (ground arith, ground arith)

scan_servers-watched :
    (disk_every : ℕ) (j : Text) (active : List (Text × Option Inspection)) (s : Supervised)
    → IdSet.contains j (keys active) ≡ false
    → is_watched j (scan_servers disk_every active s) ≡ is_watched j s
unfolding scan_servers
scan_servers-watched disk_every j [] s h = refl
scan_servers-watched disk_every j ((id, none) ∷ active) s h = refl
scan_servers-watched disk_every j ((id, some i) ∷ active) s h =
    let (other, rest) = not_listed id j (keys active) h in
    let kept = scan_server-watched disk_every id j i s other in
    let (after, _) = scan_server disk_every id i s in
    elim (Bool-cases (scan_server disk_every id i s).1) [
      | inl goes_on ↦ rw goes_on (scan_servers-watched disk_every j active after rest ∙ kept)
      | inr ends ↦ rw ends kept
    ]

forget_all-watched :
    (j : Text) (ids : List Text) (s : Supervised)
    → is_watched j (forget_all ids s) ≡ (not (IdSet.contains j ids) && is_watched j s)
unfolding forget_all forget IdSet.contains
forget_all-watched j [] s = refl
forget_all-watched j (id ∷ ids) s = ground (
  arith,
  forget_all-watched j ids (forget id s),
  Dict.contains_key-remove id j s.observations,
  Dict.contains_key-remove id j s.disk_due,
)

-- After a scan the loops have no observation and no disk schedule of a server that Docker did not
-- list, whether the scan came to its end or failed on the way; and the scan leaves the servers that
-- are assigned as they were, the ones that Docker did not list included.
pub scan_once-forgets :
    (disk_every : ℕ) (j : Text) (active : List (Text × Option Inspection)) (s : Supervised)
    → IdSet.contains j (keys active) ≡ false
    → (is_watched j (scan_once disk_every active s) ≡ false)
      × (assigned (scan_once disk_every active s) ≡ assigned s)
unfolding scan_once stale_ids
scan_once-forgets disk_every j active s h = (
  scan_servers-watched disk_every j active (forget_all (stale_ids (keys active) s) s) h
      ∙ forget_all-watched j (stale_ids (keys active) s) s
      ∙ ground (
        arith,
        h,
        IdSet.contains-difference
            (IdSet.extend (IdSet.extend [] (keys s.observations)) (keys s.disk_due)) (keys active)
            j,
        IdSet.contains-extend (IdSet.extend [] (keys s.observations)) (keys s.disk_due) j,
        IdSet.contains-extend [] (keys s.observations) j,
        contains-keys j s.observations,
        contains-keys j s.disk_due,
      ),
  scan_servers-assigned disk_every active _ ∙ forget_all-assigned (stale_ids (keys active) s) s,
)
