-- ===== src/Console/Hub/Preserved.antt =====
-- Every call keeps the invariant of the hub, in any order of the calls.
use agapornis_agent_rust.Base.Dict
use agapornis_agent_rust.Base.Dict.{Dict, IsDict}
use agapornis_agent_rust.Base.IdSet
use agapornis_agent_rust.Base.IdSet.{IdSet, IsIdSet}
use agapornis_agent_rust.Core.Paths.{validate_id}
use agapornis_agent_rust.Console.Hub.{
  ReaderTask, Sender, ConsoleLifecycle, ConsoleHub, ok, stop_readers, validate_inventory,
}
use agapornis_agent_rust.Console.Hub.Calls.{
  merged, install, synchronize_servers, tracked, track_server, update_reader, refresh_server,
  detach_reader, wake_reader,
}
use agapornis_agent_rust.Console.Hub.Invariant.{IsSound, with_reader, with_desired, with_addition}
use agapornis_agent_rust.Console.Hub.Effects.{
  IsSoundHub, stop_readers-IsSound, stop_readers-keys, stop_readers-keeps, forget-keeps,
  forget-keys, forget-IsDict, validate_inventory-IsIdSet, merged-IsIdSet,
}
use agapornis_agent_rust.Base.{
  ℕ, ◌≡◌, refl, ap, ◌∙◌, inl, inr, true, false, none, some, List, [], arith, Bool-cases,
  Option-cases, Text, same_refl,
}

pub install-IsSound :
    (desired : IdSet) (hub : ConsoleHub)
    → IsIdSet desired
    → IsSoundHub hub
    → IsSoundHub (install desired hub).0
unfolding install
install-IsSound desired hub d s =
    let removed = IdSet.difference hub.lifecycle.desired desired in
    let stopped = stop_readers removed hub in
    let (senders, limit, _, _) = stop_readers-keeps removed hub in
    let t = stop_readers-IsSound removed hub s in
    let ready : ConsoleHub = record stopped {
      lifecycle = record stopped.lifecycle {
        desired = desired;
        pending_additions = [];
        pending_removals = [];
        inventory_initialized = true;
      };
    } in
    let (l, m, _) = forget-keeps removed ready in
    rw (l, m)
      (record {
        desired_set = d;
        readers_dict = t.readers_dict;
        senders_dict = forget-IsDict removed ready t.senders_dict;
        readers_desired = λ j h. ground (
          arith,
          stop_readers-keys removed hub j,
          s.readers_desired j,
          IdSet.contains-difference hub.lifecycle.desired desired j,
        );
        senders_desired = λ j h. ground (
          arith,
          forget-keys removed ready j,
          senders,
          s.senders_desired j,
          ap (λ (m : Dict Sender). Dict.contains_key j m) senders,
          IdSet.contains-difference hub.lifecycle.desired desired j,
        );
        apart = λ j h. unfold IdSet.contains in refl;
        settled = λ h. (refl, refl);
        capacity = t.capacity;
      })

pub synchronize_servers_again :
    (ids : List Text) (hub : ConsoleHub)
    → hub.lifecycle.inventory_initialized ≡ true
    → (synchronize_servers ids hub).0 ≡ hub
unfolding synchronize_servers
synchronize_servers_again ids hub e = ground arith

pub synchronize_servers_invalid :
    (ids : List Text) (hub : ConsoleHub)
    → validate_inventory ids ≡ none
    → (synchronize_servers ids hub).0 ≡ hub
unfolding synchronize_servers
synchronize_servers_invalid ids hub e = ground arith

pub synchronize_servers_first :
    (ids : List Text) (hub : ConsoleHub) {accepted : IdSet}
    → hub.lifecycle.inventory_initialized ≡ false
    → validate_inventory ids ≡ some accepted
    → synchronize_servers ids hub ≡ (
      (install (merged hub.lifecycle accepted) hub).0,
      ok (install (merged hub.lifecycle accepted) hub).1,
    )
unfolding synchronize_servers
synchronize_servers_first ids hub e v = ground arith

pub synchronize_servers-IsSound :
    (ids : List Text) (hub : ConsoleHub)
    → IsSoundHub hub
    → IsSoundHub (synchronize_servers ids hub).0
synchronize_servers-IsSound ids hub s = elim (Bool-cases hub.lifecycle.inventory_initialized) [
  | inl done ↦ rw (synchronize_servers_again ids hub done) s
  | inr early ↦ elim (Option-cases (validate_inventory ids)) [
    | inl bad ↦ rw (synchronize_servers_invalid ids hub bad) s
    | inr (accepted, e) ↦ rw (synchronize_servers_first ids hub early e) (
        install-IsSound (merged hub.lifecycle accepted) hub
          (merged-IsIdSet hub.lifecycle accepted (validate_inventory-IsIdSet ids e)) s)
  ]
]

pub tracked-IsSound :
    {limit : ℕ} {senders : Dict Sender} (id : Text) (l : ConsoleLifecycle)
    → IsSound limit l senders
    → IsSound limit (tracked id l) senders
tracked-IsSound id l s = with_desired (with_addition s id) id

tracked-desired :
    (id : Text) (l : ConsoleLifecycle) → IdSet.contains id (tracked id l).desired ≡ true
tracked-desired id l = IdSet.contains-insert id id _ ∙ rw same_refl refl

pub track_server-IsSound :
    (id : Text) (hub : ConsoleHub) → IsSoundHub hub → IsSoundHub (track_server id hub).0
unfolding track_server
track_server-IsSound id hub s = elim (Bool-cases (validate_id id)) [
  | inl e ↦ rw e (tracked-IsSound id hub.lifecycle s)
  | inr e ↦ rw e s
]

-- A reader that is changed in place still runs or has still finished.
update_reader-IsSound :
    {limit : ℕ} {senders : Dict Sender} (id : Text) (change : ReaderTask → ReaderTask)
    (l : ConsoleLifecycle)
    → ((r : ReaderTask) → (change r).finished ≡ r.finished)
    → IsSound limit l senders
    → IsSound limit (update_reader id change l) senders
unfolding update_reader
update_reader-IsSound id change l keeps s = elim (Option-cases (Dict.get id l.readers)) [
  | inl e ↦ rw (e, update_reader) s
  | inr (r, e) ↦
      rw (e, update_reader)
        (with_reader s id (change r)
          (s.readers_desired id (Dict.contains_key_of_get id l.readers e))
          (rw (e, keeps r) (omega (arith, s.capacity))))
]

pub refresh_server-IsSound :
    (id : Text) (hub : ConsoleHub) → IsSoundHub hub → IsSoundHub (refresh_server id hub).0
unfolding refresh_server
refresh_server-IsSound id hub s = elim (Bool-cases (validate_id id)) [
  | inl e ↦ rw e (
      update_reader-IsSound id _ (tracked id hub.lifecycle) (λ r. refl)
        (tracked-IsSound id hub.lifecycle s))
  | inr e ↦ rw e s
]

pub detach_reader-IsSound :
    (id : Text) (hub : ConsoleHub) → IsSoundHub hub → IsSoundHub (detach_reader id hub)
unfolding detach_reader
detach_reader-IsSound id hub s = update_reader-IsSound id _ hub.lifecycle (λ r. refl) s

pub wake_reader-IsSound :
    (id : Text) (hub : ConsoleHub) → IsSoundHub hub → IsSoundHub (wake_reader id hub)
unfolding wake_reader
wake_reader-IsSound id hub s = elim (Bool-cases (IdSet.contains id hub.lifecycle.desired)) [
  | inl e ↦ rw e (update_reader-IsSound id _ hub.lifecycle (λ r. refl) s)
  | inr e ↦ rw e s
]
