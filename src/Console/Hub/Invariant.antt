-- ===== src/Console/Hub/Invariant.antt =====
-- What holds of the lifecycle and the channels between two calls, and the changes that keep it.
use agapornis_agent_rust.Base.Dict
use agapornis_agent_rust.Base.Dict.{Dict, IsDict}
use agapornis_agent_rust.Base.IdSet
use agapornis_agent_rust.Base.IdSet.{IsIdSet}
use agapornis_agent_rust.Console.Hub.{
  ReaderTask, Sender, ConsoleLifecycle, record_addition, active_count, is_running,
}
use agapornis_agent_rust.Base.{
  ℕ, ◌+◌, ◌≤◌, ◌≡◌, refl, inl, inr, true, false, Option, some, [], ◌∷◌, arith, if◌then◌else◌,
  Bool-cases, Text, same, same_iff,
}

-- Readers and channels are there only for servers of the inventory, at most as many readers run as
-- the hub allows, no server is both added and removed before the inventory has come, and nothing
-- is pending after.
pub record IsSound (limit : ℕ) (l : ConsoleLifecycle) (senders : Dict Sender) : Type 0 where
  pub desired_set : IsIdSet l.desired
  pub readers_dict : IsDict l.readers
  pub senders_dict : IsDict senders
  pub readers_desired :
      (id : Text) → Dict.contains_key id l.readers ≡ true → IdSet.contains id l.desired ≡ true
  pub senders_desired :
      (id : Text) → Dict.contains_key id senders ≡ true → IdSet.contains id l.desired ≡ true
  pub apart :
      (id : Text)
      → IdSet.contains id l.pending_additions ≡ true
      → IdSet.contains id l.pending_removals ≡ false
  pub settled :
      l.inventory_initialized ≡ true → (l.pending_additions ≡ []) × (l.pending_removals ≡ [])
  pub capacity : active_count l.readers ≤ limit

abbrev pub runs : Option ReaderTask → ℕ
runs o = if is_running o then 1 else 0

pub active_count-insert :
    (id : Text) (r : ReaderTask) (m : Dict ReaderTask)
    → active_count (Dict.insert id r m) + runs (Dict.get id m) ≡ active_count m + runs (some r)
unfolding active_count Dict.insert Dict.get
active_count-insert id r [] = ground arith
active_count-insert id r ((i, w) ∷ m) = ground (arith, active_count-insert id r m)

pub active_count-remove :
    (id : Text) (m : Dict ReaderTask)
    → IsDict m
    → active_count (Dict.remove id m) + runs (Dict.get id m) ≡ active_count m
unfolding active_count Dict.remove Dict.get
active_count-remove id [] d = refl
active_count-remove id ((i, w) ∷ m) d =
    ground (arith, same_iff i id, Dict.remove_absent id m, active_count-remove id m)

pub record_addition_done :
    (id : Text) (l : ConsoleLifecycle) → l.inventory_initialized ≡ true → record_addition id l ≡ l
unfolding record_addition
record_addition_done id l e = ground arith

pub record_addition_open :
    (id : Text) (l : ConsoleLifecycle)
    → l.inventory_initialized ≡ false
    → record_addition id l ≡ record l {
      pending_removals = IdSet.remove id l.pending_removals;
      pending_additions = IdSet.insert id l.pending_additions;
    }
unfolding record_addition
record_addition_open id l e = ground arith

module _ {limit : ℕ} {l : ConsoleLifecycle} {senders : Dict Sender}
    (s : IsSound limit l senders) where
  pub without_reader :
      (id : Text) → IsSound limit (record l { readers = Dict.remove id l.readers }) senders
  without_reader id = record {
    desired_set = s.desired_set;
    readers_dict = Dict.remove-IsDict id l.readers s.readers_dict;
    senders_dict = s.senders_dict;
    readers_desired =
        λ j h. s.readers_desired j (ground (arith, Dict.contains_key-remove id j l.readers));
    senders_desired = s.senders_desired;
    apart = s.apart;
    settled = s.settled;
    capacity = omega (arith, active_count-remove id l.readers s.readers_dict, s.capacity);
  }

  -- A reader is changed or started for a server of the inventory.
  pub with_reader :
      (id : Text) (r : ReaderTask)
      → IdSet.contains id l.desired ≡ true
      → active_count l.readers + runs (some r) ≤ limit + runs (Dict.get id l.readers)
      → IsSound limit (record l { readers = Dict.insert id r l.readers }) senders
  with_reader id r d room = record {
    desired_set = s.desired_set;
    readers_dict = Dict.insert-IsDict id r l.readers s.readers_dict;
    senders_dict = s.senders_dict;
    readers_desired = λ j h. elim (Bool-cases (same id j)) [
      | inl e ↦ rw (← (same_iff id j).0 e) d
      | inr e ↦ s.readers_desired j (ground (arith, Dict.contains_key-insert id j r l.readers))
    ];
    senders_desired = s.senders_desired;
    apart = s.apart;
    settled = s.settled;
    capacity = omega (arith, active_count-insert id r l.readers, room);
  }

  pub with_desired :
      (id : Text) → IsSound limit (record l { desired = IdSet.insert id l.desired }) senders
  with_desired id = record {
    desired_set = IdSet.insert-IsIdSet id l.desired s.desired_set;
    readers_dict = s.readers_dict;
    senders_dict = s.senders_dict;
    readers_desired = λ j h. rw (IdSet.contains-insert, s.readers_desired j h) (ground arith);
    senders_desired = λ j h. rw (IdSet.contains-insert, s.senders_desired j h) (ground arith);
    apart = s.apart;
    settled = s.settled;
    capacity = s.capacity;
  }

  pub with_sender :
      (id : Text) (v : Sender)
      → IdSet.contains id l.desired ≡ true
      → IsSound limit l (Dict.insert id v senders)
  with_sender id v d = record {
    desired_set = s.desired_set;
    readers_dict = s.readers_dict;
    senders_dict = Dict.insert-IsDict id v senders s.senders_dict;
    readers_desired = s.readers_desired;
    senders_desired = λ j h. elim (Bool-cases (same id j)) [
      | inl e ↦ rw (← (same_iff id j).0 e) d
      | inr e ↦ s.senders_desired j (ground (arith, Dict.contains_key-insert id j v senders))
    ];
    apart = s.apart;
    settled = s.settled;
    capacity = s.capacity;
  }

  pub without_sender : (id : Text) → IsSound limit l (Dict.remove id senders)
  without_sender id = record {
    desired_set = s.desired_set;
    readers_dict = s.readers_dict;
    senders_dict = Dict.remove-IsDict id senders s.senders_dict;
    readers_desired = s.readers_desired;
    senders_desired =
        λ j h. s.senders_desired j (ground (arith, Dict.contains_key-remove id j senders));
    apart = s.apart;
    settled = s.settled;
    capacity = s.capacity;
  }

  pub with_addition : (id : Text) → IsSound limit (record_addition id l) senders
  with_addition id = elim (Bool-cases l.inventory_initialized) [
    | inl e ↦ rw (record_addition_done id l e) s
    | inr e ↦ rw (record_addition_open id l e) (record {
      desired_set = s.desired_set;
      readers_dict = s.readers_dict;
      senders_dict = s.senders_dict;
      readers_desired = s.readers_desired;
      senders_desired = s.senders_desired;
      apart = λ j h. ground (
        arith,
        IdSet.contains-insert id j l.pending_additions,
        IdSet.contains-remove id j l.pending_removals,
        s.apart j,
      );
      settled = λ h. cc;
      capacity = s.capacity;
    })
  ]
