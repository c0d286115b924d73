-- ===== src/Console/Hub/Retiring.antt =====
-- `retire_idle_reader` and `remove` keep the invariant of the hub.
use agapornis_agent_rust.Base.Dict
use agapornis_agent_rust.Base.Dict.{Dict, IsDict}
use agapornis_agent_rust.Base.IdSet
use agapornis_agent_rust.Base.IdSet.{IdSet, IsIdSet}
use agapornis_agent_rust.Console.Hub.{ReaderTask, Sender, ConsoleLifecycle, ConsoleHub}
use agapornis_agent_rust.Console.Hub.Calls.{
  forget, same_idle_channel, retire_idle_reader, record_removal, remove,
}
use agapornis_agent_rust.Console.Hub.Invariant.{
  IsSound, without_reader, without_sender, active_count-remove,
}
use agapornis_agent_rust.Console.Hub.Effects.{IsSoundHub, stop_reader-lifecycle, stop_reader-keeps}
use agapornis_agent_rust.Console.Hub.Subscription.{start_reader_locked-IsSound}
use agapornis_agent_rust.Base.{
  ℕ, ◌≡◌, inl, inr, true, false, ◌&&◌, Option, none, some, arith, ltb, ◌==◌, ==_iff, Bool-cases,
  Option-cases, Text,
}

-- The task that retires has not finished: it is the one that makes the call.
abbrev pub Retires : ℕ → Option ReaderTask → Type 0
Retires ticket none = Unit
Retires ticket (some reader) = reader.ticket ≡ ticket → reader.finished ≡ false

pub retire_idle_reader-IsSound :
    (id : Text) (ticket : ℕ) (sender : Sender) (hub : ConsoleHub)
    → Retires ticket (Dict.get id hub.lifecycle.readers)
    → IsSoundHub hub
    → IsSoundHub (retire_idle_reader id ticket sender hub)
unfolding retire_idle_reader
retire_idle_reader-IsSound id ticket sender hub alive s =
    elim (Option-cases (Dict.get id hub.lifecycle.readers)) [
      | inl e ↦ rw (e, retire_idle_reader) s
      | inr (r, e) ↦
          rw (e, retire_idle_reader)
            (elim (Bool-cases (r.ticket == ticket)) [
              | inr stale ↦ rw stale s
              | inl current ↦ rw current (
                  let runs_now : r.finished ≡ false =
                    (rw e at alive) ((==_iff r.ticket ticket).0 current) in
                  let retired : ConsoleHub = record hub {
                    lifecycle = record hub.lifecycle {
                      readers = Dict.remove id hub.lifecycle.readers;
                    };
                  } in
                  let t = without_reader s id in
                  elim (Bool-cases
                    (ltb 0 sender.receivers && IdSet.contains id hub.lifecycle.desired)) [
                      | inl watched ↦ rw watched (
                          start_reader_locked-IsSound id retired (ground arith)
                            (λ _.
                              let fewer =
                                rw (e, runs_now) at
                                  (active_count-remove id hub.lifecycle.readers s.readers_dict) in
                              omega (arith, fewer, s.capacity))
                            t)
                      | inr idle ↦
                          rw idle
                            (elim (Bool-cases
                              (same_idle_channel sender (Dict.get id hub.senders))) [
                                | inl mine ↦ rw mine (without_sender t id)
                                | inr other ↦ rw other t
                              ])
                    ])
            ])
    ]

pub record_removal_done :
    (id : Text) (l : ConsoleLifecycle) → l.inventory_initialized ≡ true → record_removal id l ≡ l
record_removal_done id l e = ground arith

pub record_removal_open :
    (id : Text) (l : ConsoleLifecycle)
    → l.inventory_initialized ≡ false
    → record_removal id l ≡ record l {
      pending_additions = IdSet.remove id l.pending_additions;
      pending_removals = IdSet.insert id l.pending_removals;
    }
record_removal_open id l e = ground arith

with_removal :
    {limit : ℕ} {senders : Dict Sender} (id : Text) (l : ConsoleLifecycle)
    → IsSound limit l senders
    → IsSound limit (record_removal id l) senders
with_removal id l s = elim (Bool-cases l.inventory_initialized) [
  | inl e ↦ rw (record_removal_done id l e) s
  | inr e ↦ rw (record_removal_open id l e) (record {
    desired_set = s.desired_set;
    readers_dict = s.readers_dict;
    senders_dict = s.senders_dict;
    readers_desired = s.readers_desired;
    senders_desired = s.senders_desired;
    apart = λ j h. ground (
      arith,
      IdSet.contains-insert id j l.pending_removals,
      IdSet.contains-remove id j l.pending_additions,
      s.apart j,
    );
    settled = λ h. cc;
    capacity = s.capacity;
  })
]

-- A server leaves the inventory together with its reader and its channel.
without_server :
    {limit : ℕ} {l : ConsoleLifecycle} {senders : Dict Sender} (id : Text)
    → IsSound limit l senders
    → IsSound limit
        (record l { desired = IdSet.remove id l.desired; readers = Dict.remove id l.readers })
        (Dict.remove id senders)
without_server {limit} {l} {senders} id s =
    let t = without_reader s id in
    record {
      desired_set = IdSet.remove-IsIdSet id l.desired s.desired_set;
      readers_dict = t.readers_dict;
      senders_dict = Dict.remove-IsDict id senders s.senders_dict;
      readers_desired = λ j h. ground (
        arith,
        Dict.contains_key-remove id j l.readers,
        s.readers_desired j,
        IdSet.contains-remove id j l.desired,
      );
      senders_desired = λ j h. ground (
        arith,
        Dict.contains_key-remove id j senders,
        s.senders_desired j,
        IdSet.contains-remove id j l.desired,
      );
      apart = s.apart;
      settled = s.settled;
      capacity = t.capacity;
    }

pub remove-IsSound : (id : Text) (hub : ConsoleHub) → IsSoundHub hub → IsSoundHub (remove id hub)
unfolding remove forget
remove-IsSound id hub s =
    let noted = record_removal id hub.lifecycle in
    let shrunk : ConsoleHub = record hub {
      lifecycle = record noted { desired = IdSet.remove id noted.desired };
    } in
    let (senders, limit, _, _, _) = stop_reader-keeps id shrunk in
    rw (stop_reader-lifecycle id shrunk, senders, limit)
      (without_server id (with_removal id hub.lifecycle s))
