-- ===== src/Console/Hub/Effects.antt =====
-- What the helpers of the calls change, and what they leave alone.
use mathlib.Core.Path.{subst}
use agapornis_agent_rust.Base.Dict
use agapornis_agent_rust.Base.Dict.{Dict, IsDict}
use agapornis_agent_rust.Base.IdSet
use agapornis_agent_rust.Base.IdSet.{IdSet, IsIdSet}
use agapornis_agent_rust.Console.History
use agapornis_agent_rust.Security.Protection
use agapornis_agent_rust.Console.Hub.{
  ConsoleLifecycle, ConsoleHub, stop_reader, stop_readers, validate_from, validate_inventory,
}
use agapornis_agent_rust.Console.Hub.Calls.{forget, merged}
use agapornis_agent_rust.Console.Hub.Invariant.{IsSound, without_reader}
use agapornis_agent_rust.Base.{
  ◌≡◌, refl, sym, ap, ◌∙◌, inl, inr, not, ◌&&◌, some, List, [], ◌∷◌, arith, Option-cases, Text,
}

-- The parts of a hub that the invariant is about.
abbrev pub IsSoundHub : ConsoleHub → Type 0
IsSoundHub hub = IsSound hub.max_active_readers hub.lifecycle hub.senders

pub stop_reader-lifecycle :
    (id : Text) (hub : ConsoleHub)
    → (stop_reader id hub).lifecycle
      ≡ record hub.lifecycle { readers = Dict.remove id hub.lifecycle.readers }
unfolding stop_reader
stop_reader-lifecycle id hub = elim (Option-cases (Dict.get id hub.lifecycle.readers)) [
  | inl e ↦
      let same_readers =
        Dict.remove_absent id hub.lifecycle.readers
          (Dict.absent_of_get id hub.lifecycle.readers e) in
      rw (e, stop_reader) (λ i. record hub.lifecycle { readers = sym same_readers i })
  | inr (r, e) ↦ rw (e, stop_reader) refl
]

-- What stopping a reader leaves alone.
pub stop_reader-keeps :
    (id : Text) (hub : ConsoleHub)
    → ((stop_reader id hub).senders ≡ hub.senders)
      × ((stop_reader id hub).max_active_readers ≡ hub.max_active_readers)
      × ((stop_reader id hub).history ≡ hub.history)
      × ((stop_reader id hub).docker ≡ hub.docker)
      × ((stop_reader id hub).protection ≡ hub.protection)
unfolding stop_reader
stop_reader-keeps id hub = ground arith

pub stop_reader-IsSound :
    (id : Text) (hub : ConsoleHub) → IsSoundHub hub → IsSoundHub (stop_reader id hub)
stop_reader-IsSound id hub s =
    let (senders, limit, _, _, _) = stop_reader-keeps id hub in
    rw (stop_reader-lifecycle id hub, senders, limit) (without_reader s id)

pub stop_readers-IsSound :
    (ids : List Text) (hub : ConsoleHub) → IsSoundHub hub → IsSoundHub (stop_readers ids hub)
unfolding stop_readers
stop_readers-IsSound [] hub s = s
stop_readers-IsSound (id ∷ ids) hub s =
    stop_readers-IsSound ids (stop_reader id hub) (stop_reader-IsSound id hub s)

-- The readers that are left when some are stopped.
pub stop_readers-keys :
    (ids : List Text) (hub : ConsoleHub) (j : Text)
    → Dict.contains_key j (stop_readers ids hub).lifecycle.readers
      ≡ (not (IdSet.contains j ids) && Dict.contains_key j hub.lifecycle.readers)
unfolding stop_readers IdSet.contains
stop_readers-keys [] hub j = refl
stop_readers-keys (id ∷ ids) hub j =
    let step =
      ap (λ (l : ConsoleLifecycle). Dict.contains_key j l.readers) (stop_reader-lifecycle id hub) in
    ground (
      arith,
      stop_readers-keys ids (stop_reader id hub) j,
      step,
      Dict.contains_key-remove id j hub.lifecycle.readers,
    )

pub stop_readers-keeps :
    (ids : List Text) (hub : ConsoleHub)
    → ((stop_readers ids hub).senders ≡ hub.senders)
      × ((stop_readers ids hub).max_active_readers ≡ hub.max_active_readers)
      × ((stop_readers ids hub).lifecycle.desired ≡ hub.lifecycle.desired)
      × ((stop_readers ids hub).history ≡ hub.history)
unfolding stop_readers
stop_readers-keeps [] hub = (refl, refl, refl, refl)
stop_readers-keeps (id ∷ ids) hub =
    let (a, b, c, d) = stop_readers-keeps ids (stop_reader id hub) in
    let (e, f, g, _, _) = stop_reader-keeps id hub in
    let h = ap (λ (l : ConsoleLifecycle). l.desired) (stop_reader-lifecycle id hub) in
    (a ∙ e, b ∙ f, c ∙ h, d ∙ g)

pub forget-keeps :
    (ids : List Text) (hub : ConsoleHub)
    → ((forget ids hub).lifecycle ≡ hub.lifecycle)
      × ((forget ids hub).max_active_readers ≡ hub.max_active_readers)
      × ((forget ids hub).inactive ≡ hub.inactive)
unfolding forget
forget-keeps [] hub = (refl, refl, refl)
forget-keeps (id ∷ ids) hub = forget-keeps ids _

pub forget-keys :
    (ids : List Text) (hub : ConsoleHub) (j : Text)
    → Dict.contains_key j (forget ids hub).senders
      ≡ (not (IdSet.contains j ids) && Dict.contains_key j hub.senders)
unfolding forget IdSet.contains
forget-keys [] hub j = refl
forget-keys (id ∷ ids) hub j = ground (
  arith,
  forget-keys ids
      (record hub {
        senders = Dict.remove id hub.senders;
        history = History.remove id hub.history;
        protection = Protection.remove id hub.protection;
      })
      j,
  Dict.contains_key-remove id j hub.senders,
)

pub forget-IsDict :
    (ids : List Text) (hub : ConsoleHub) → IsDict hub.senders → IsDict (forget ids hub).senders
unfolding forget
forget-IsDict [] hub d = d
forget-IsDict (id ∷ ids) hub d = forget-IsDict ids _ (Dict.remove-IsDict id hub.senders d)

validate_from-IsIdSet :
    (ids : List Text) (desired : IdSet) {accepted : IdSet}
    → validate_from desired ids ≡ some accepted
    → IsIdSet desired
    → IsIdSet accepted
unfolding validate_from
validate_from-IsIdSet [] desired e d = subst IsIdSet (ground arith) d
validate_from-IsIdSet (id ∷ ids) desired e d =
    validate_from-IsIdSet ids (IdSet.insert id desired) (ground arith)
      (IdSet.insert-IsIdSet id desired d)

pub validate_inventory-IsIdSet :
    (ids : List Text) {accepted : IdSet} → validate_inventory ids ≡ some accepted → IsIdSet accepted
unfolding validate_inventory
validate_inventory-IsIdSet ids e = validate_from-IsIdSet ids [] e tt

pub merged-IsIdSet :
    (l : ConsoleLifecycle) (accepted : IdSet) → IsIdSet accepted → IsIdSet (merged l accepted)
unfolding merged
merged-IsIdSet l accepted d =
    IdSet.remove_all-IsIdSet _ l.pending_removals
      (IdSet.extend-IsIdSet accepted l.pending_additions d)
