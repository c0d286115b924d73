-- ===== src/Console/Hub/Bootstrap.antt =====
-- The first inventory: `synchronize_servers` and what was added and removed before it.
use agapornis_agent_rust.Base.Dict
use agapornis_agent_rust.Base.Dict.{Dict}
use agapornis_agent_rust.Base.IdSet
use agapornis_agent_rust.Base.IdSet.{IdSet}
use agapornis_agent_rust.Console.Hub.{
  Sender, ConsoleLifecycle, ConsoleHub, validate_from, validate_inventory,
}
use agapornis_agent_rust.Console.Hub.Calls.{merged, install, synchronize_servers}
use agapornis_agent_rust.Console.Hub.Effects.{
  stop_readers-keys, stop_readers-keeps, forget-keeps, forget-keys,
}
use agapornis_agent_rust.Console.Hub.Preserved.{
  synchronize_servers_again, synchronize_servers_first,
}
use agapornis_agent_rust.Base.{
  ◌≡◌, refl, ap, ◌∙◌, true, false, not, ◌&&◌, ◌||◌, some, List, [], ◌∷◌, arith, Text,
}

validate_from-contains :
    (ids : List Text) (desired : IdSet) (j : Text) (accepted : IdSet)
    → validate_from desired ids ≡ some accepted
    → IdSet.contains j accepted ≡ (IdSet.contains j desired || IdSet.contains j ids)
unfolding validate_from IdSet.contains
validate_from-contains [] desired j accepted e = ground arith
validate_from-contains (id ∷ ids) desired j accepted e =
    let ih = validate_from-contains ids (IdSet.insert id desired) j accepted (ground arith) in
    ground (arith, ih, IdSet.contains-insert id j desired)

pub merged-contains :
    (l : ConsoleLifecycle) (accepted : IdSet) (j : Text)
    → IdSet.contains j (merged l accepted) ≡ (
        not (IdSet.contains j l.pending_removals)
        && (IdSet.contains j accepted || IdSet.contains j l.pending_additions))
unfolding merged
merged-contains l accepted j =
    IdSet.contains-remove_all (IdSet.extend accepted l.pending_additions) l.pending_removals j
    ∙ rw (IdSet.contains-extend accepted l.pending_additions j) refl

pub install-desired :
    (desired : IdSet) (hub : ConsoleHub) → (install desired hub).0.lifecycle.desired ≡ desired
unfolding install
install-desired desired hub = ap (λ (l : ConsoleLifecycle). l.desired) (forget-keeps _ _).0

pub install_initialized :
    (desired : IdSet) (hub : ConsoleHub)
    → (install desired hub).0.lifecycle.inventory_initialized ≡ true
unfolding install
install_initialized desired hub =
    ap (λ (l : ConsoleLifecycle). l.inventory_initialized) (forget-keeps _ _).0

install-readers :
    (desired : IdSet) (hub : ConsoleHub) (j : Text)
    → Dict.contains_key j (install desired hub).0.lifecycle.readers ≡ (
        not (IdSet.contains j (IdSet.difference hub.lifecycle.desired desired))
        && Dict.contains_key j hub.lifecycle.readers)
unfolding install
install-readers desired hub j =
    ap (λ (l : ConsoleLifecycle). Dict.contains_key j l.readers) (forget-keeps _ _).0
    ∙ stop_readers-keys (IdSet.difference hub.lifecycle.desired desired) hub j

install-senders :
    (desired : IdSet) (hub : ConsoleHub) (j : Text)
    → Dict.contains_key j (install desired hub).0.senders ≡ (
        not (IdSet.contains j (IdSet.difference hub.lifecycle.desired desired))
        && Dict.contains_key j hub.senders)
unfolding install
install-senders desired hub j =
    let removed = IdSet.difference hub.lifecycle.desired desired in
    forget-keys removed _ j
    ∙ ap (λ (m : Dict Sender). not (IdSet.contains j removed) && Dict.contains_key j m)
        (stop_readers-keeps removed hub).0

-- A hub as the first inventory leaves it: which servers are in it, that it is final, and that no
-- reader or channel is left of a server that it dropped.
pub record Bootstrapped (ids : List Text) (hub hub' : ConsoleHub) : Type 0 where
  pub initialized : hub'.lifecycle.inventory_initialized ≡ true
  pub members :
      (j : Text)
      → IdSet.contains j hub'.lifecycle.desired ≡ (
          not (IdSet.contains j hub.lifecycle.pending_removals)
          && (IdSet.contains j ids || IdSet.contains j hub.lifecycle.pending_additions))
  pub readers_kept :
      (j : Text)
      → Dict.contains_key j hub'.lifecycle.readers ≡ (
          not (
            IdSet.contains j hub.lifecycle.desired && not (IdSet.contains j hub'.lifecycle.desired))
          && Dict.contains_key j hub.lifecycle.readers)
  pub senders_kept :
      (j : Text)
      → Dict.contains_key j hub'.senders ≡ (
          not (
            IdSet.contains j hub.lifecycle.desired && not (IdSet.contains j hub'.lifecycle.desired))
          && Dict.contains_key j hub.senders)

install-Bootstrapped :
    (ids : List Text) (accepted : IdSet) (hub : ConsoleHub)
    → validate_inventory ids ≡ some accepted
    → Bootstrapped ids hub (install (merged hub.lifecycle accepted) hub).0
unfolding validate_inventory
install-Bootstrapped ids accepted hub e =
    let desired = merged hub.lifecycle accepted in
    let same_desired = install-desired desired hub in
    record {
      initialized = install_initialized desired hub;
      members = λ j. rw same_desired (
          merged-contains hub.lifecycle accepted j
          ∙ rw (validate_from-contains ids [] j accepted e) (unfold IdSet.contains in refl));
      readers_kept = λ j.
          rw (same_desired, ← IdSet.contains-difference hub.lifecycle.desired desired j)
            (install-readers desired hub j);
      senders_kept = λ j.
          rw (same_desired, ← IdSet.contains-difference hub.lifecycle.desired desired j)
            (install-senders desired hub j);
    }

-- The first inventory whose ids are all valid decides, and no later one does: a server is in the
-- inventory exactly when the master listed it, or it was added meanwhile, and it was not removed
-- since; readers and channels of servers that it drops are gone, and all others are kept.
pub synchronize_servers-Bootstrapped :
    (ids later : List Text) (hub : ConsoleHub) (accepted : IdSet)
    → hub.lifecycle.inventory_initialized ≡ false
    → validate_inventory ids ≡ some accepted
    → Bootstrapped ids hub (synchronize_servers ids hub).0
      × ((synchronize_servers later (synchronize_servers ids hub).0).0
          ≡ (synchronize_servers ids hub).0)
synchronize_servers-Bootstrapped ids later hub accepted early e =
    let b = install-Bootstrapped ids accepted hub e in
    rw (synchronize_servers_first ids hub early e) (
      b,
      synchronize_servers_again later (install (merged hub.lifecycle accepted) hub).0 b.initialized,
    )
