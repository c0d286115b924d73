-- ===== src/Console/Hub/Calls.antt =====
-- The calls on the hub: src/grpc/services/console/lifecycle.rs.
use agapornis_agent_rust.Base.Dict
use agapornis_agent_rust.Base.IdSet
use agapornis_agent_rust.Console.History
use agapornis_agent_rust.Core.Paths.{validate_id}
use agapornis_agent_rust.Security.Protection
use agapornis_agent_rust.Console.Hub.{
  ReaderTask, Sender, ConsoleLifecycle, ConsoleSyncResult, ConsoleHub, invalid_server_id,
  not_assigned, removed_before_bootstrap, capacity_reached, Result, ok, err, validate_inventory,
  record_addition, sync_result, stop_reader, stop_readers, start_reader_locked,
  ensure_reader_locked, validate_reader_capacity, validate_subscription,
}
use agapornis_agent_rust.Base.{
  ℕ, suc, Bool, true, false, not, ◌&&◌, ◌||◌, Option, none, some, List, [], ◌∷◌, ltb, ◌==◌,
  if◌then◌else◌, length, Text,
}

-- `for id in &removed { senders.remove(id) }`, and the histories and rates of the same servers.
unfoldable pub forget : List Text → ConsoleHub → ConsoleHub
forget [] hub = hub
forget (id ∷ ids) hub = forget ids (record hub {
  senders = Dict.remove id hub.senders;
  history = History.remove id hub.history;
  protection = Protection.remove id hub.protection;
})

-- What the inventory becomes: the list of the master, with what was added and removed meanwhile.
unfoldable pub merged : ConsoleLifecycle → IdSet.IdSet → IdSet.IdSet
merged l accepted = IdSet.remove_all (IdSet.extend accepted l.pending_additions) l.pending_removals

-- `synchronize_servers` once the inventory is merged.
unfoldable pub install : IdSet.IdSet → ConsoleHub → ConsoleHub × ConsoleSyncResult
install desired hub =
    let removed = IdSet.difference hub.lifecycle.desired desired in
    let stopped = stop_readers removed hub in
    let ready = forget removed (record stopped {
      lifecycle = record stopped.lifecycle {
        desired = desired;
        pending_additions = [];
        pending_removals = [];
        inventory_initialized = true;
      };
    }) in
    (ready, sync_result ready.lifecycle (length removed))

unfoldable pub synchronize_servers : List Text → ConsoleHub → ConsoleHub × Result ConsoleSyncResult
synchronize_servers server_ids hub =
    if hub.lifecycle.inventory_initialized
    then (hub, ok (sync_result hub.lifecycle 0))
    else elim (validate_inventory server_ids) [
      | none ↦ (hub, err invalid_server_id)
      | some accepted ↦ (
        (install (merged hub.lifecycle accepted) hub).0,
        ok (install (merged hub.lifecycle accepted) hub).1,
      )
    ]

abbrev pub tracked : Text → ConsoleLifecycle → ConsoleLifecycle
tracked id l =
    let added = record_addition id l in record added { desired = IdSet.insert id added.desired }

unfoldable pub track_server : Text → ConsoleHub → ConsoleHub × Result (Unit {0})
track_server id hub =
    if validate_id id
    then (record hub { lifecycle = tracked id hub.lifecycle }, ok tt)
    else (hub, err invalid_server_id)

-- The reader of the server, if there is one, is changed in place.
unfoldable pub update_reader :
    Text → (ReaderTask → ReaderTask) → ConsoleLifecycle → ConsoleLifecycle
update_reader id change l = elim (Dict.get id l.readers) [
  | none ↦ l
  | some reader ↦ record l { readers = Dict.insert id (change reader) l.readers }
]

unfoldable pub refresh_server : Text → ConsoleHub → ConsoleHub × Result (Unit {0})
refresh_server id hub =
    if validate_id id
    then (
      record hub {
        lifecycle =
            update_reader id (λ r. record r { suspended = false; wake = true })
              (tracked id hub.lifecycle);
      },
      ok tt,
    )
    else (hub, err invalid_server_id)

unfoldable pub attach_requires_inspection : Text → ConsoleHub → Result Bool
attach_requires_inspection id hub =
    if hub.lifecycle.inventory_initialized && not (IdSet.contains id hub.lifecycle.desired)
    then err not_assigned
    else if not hub.lifecycle.inventory_initialized
        && IdSet.contains id hub.lifecycle.pending_removals
    then err removed_before_bootstrap
    else ok (not (IdSet.contains id hub.lifecycle.desired))

unfoldable pub detach_reader : Text → ConsoleHub → ConsoleHub
detach_reader id hub = record hub {
  lifecycle = update_reader id (λ r. record r { suspended = true; wake = true }) hub.lifecycle;
}

unfoldable pub wake_reader : Text → ConsoleHub → ConsoleHub
wake_reader id hub =
    if IdSet.contains id hub.lifecycle.desired
    then record hub {
      lifecycle =
          update_reader id
            (λ r. record r { suspended = false; wake = r.suspended || r.parked || r.wake })
            hub.lifecycle;
    }
    else hub

-- `senders.entry(id).or_insert_with(channel)`, and one more receiver on it.
unfoldable pub add_receiver : Text → ConsoleHub → ConsoleHub
add_receiver id hub = elim (Dict.get id hub.senders) [
  | none ↦ record hub {
    senders = Dict.insert id (record { channel = hub.next_channel; receivers = 1 }) hub.senders;
    next_channel = suc hub.next_channel;
  }
  | some sender ↦ record hub {
    senders = Dict.insert id (record sender { receivers = suc sender.receivers }) hub.senders;
  }
]

-- What `subscribe` does with the lifecycle locked.
unfoldable pub admit : Text → ConsoleHub → ConsoleHub × Result (Unit {0})
admit id hub = elim (validate_subscription id hub.lifecycle) [
  | err refusal ↦ (hub, err refusal)
  | ok l ↦
      let admitted = record hub { lifecycle = l } in
      if validate_reader_capacity id admitted
      then (ensure_reader_locked id (add_receiver id admitted), ok tt)
      else (admitted, err capacity_reached)
]

-- What it does after: the history that is replayed, and the number of its last line.
unfoldable pub replay : Text → ConsoleHub → ConsoleHub × (List Text × ℕ)
replay id hub = (
  record hub { history = (History.snapshot id hub.history).0 },
  (History.snapshot id hub.history).1,
)

-- The second part, once the first has returned.
abbrev pub replayed :
    Text
    → (ConsoleHub → ConsoleHub)
    → ConsoleHub × Result (Unit {0})
    → ConsoleHub × Result (List Text × ℕ)
replayed id meanwhile (hub, err refusal) = (hub, err refusal)
replayed id meanwhile (hub, ok _) =
    ((replay id (meanwhile hub)).0, ok (replay id (meanwhile hub)).1)

-- `subscribe`. Other calls may run between its two parts: `meanwhile` is the hub as they leave it.
unfoldable pub subscribe :
    Text → (ConsoleHub → ConsoleHub) → ConsoleHub → ConsoleHub × Result (List Text × ℕ)
subscribe id meanwhile hub = replayed id meanwhile (admit id hub)

-- Whether the entry of the server is the reader with this ticket.
abbrev pub is_current : ℕ → Option ReaderTask → Bool
is_current ticket none = false
is_current ticket (some reader) = reader.ticket == ticket

abbrev pub same_idle_channel : Sender → Option Sender → Bool
same_idle_channel sender none = false
same_idle_channel sender (some current) =
    current.channel == sender.channel && current.receivers == 0

-- `retire_idle_reader`, called by the task with this ticket over its channel.
unfoldable pub retire_idle_reader : Text → ℕ → Sender → ConsoleHub → ConsoleHub
retire_idle_reader id ticket sender hub =
    if not (is_current ticket (Dict.get id hub.lifecycle.readers))
    then hub
    else (let retired = record hub {
      lifecycle = record hub.lifecycle { readers = Dict.remove id hub.lifecycle.readers };
    } in
        if ltb 0 sender.receivers && IdSet.contains id hub.lifecycle.desired
        then start_reader_locked id retired
        else record retired {
          senders =
              if same_idle_channel sender (Dict.get id hub.senders)
              then Dict.remove id hub.senders
              else hub.senders;
          history = History.remove id hub.history;
        })

-- `pending` of `remove`, before the inventory has come.
abbrev pub record_removal : Text → ConsoleLifecycle → ConsoleLifecycle
record_removal id l = if l.inventory_initialized then l else record l {
  pending_additions = IdSet.remove id l.pending_additions;
  pending_removals = IdSet.insert id l.pending_removals;
}

unfoldable pub remove : Text → ConsoleHub → ConsoleHub
unfolding forget
remove id hub =
    let noted = record_removal id hub.lifecycle in
    forget (id ∷ []) (
      stop_reader id
        (record hub { lifecycle = record noted { desired = IdSet.remove id noted.desired } }))
