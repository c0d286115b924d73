-- ===== src/Console/Hub/Refused.antt =====
-- A server that was removed is refused until it is added again.
use agapornis_agent_rust.Base.IdSet
use agapornis_agent_rust.Base.IdSet.{IdSet}
use agapornis_agent_rust.Core.Paths.{validate_id}
use agapornis_agent_rust.Security.Protection.{LineClock}
use agapornis_agent_rust.Console.Hub.{
  ConsoleHub, Refusal, not_assigned, removed_before_bootstrap, err, validate_inventory,
  validate_subscription,
}
use agapornis_agent_rust.Console.Hub.Calls.{
  remove, admit, replay, subscribe, attach_requires_inspection, synchronize_servers, track_server,
  refresh_server, detach_reader, wake_reader, retire_idle_reader, tracked, merged,
}
use agapornis_agent_rust.Console.Hub.Retiring.{record_removal_done, record_removal_open}
use agapornis_agent_rust.Console.Hub.Removal.{remove-lifecycle, contains-remove_self}
use agapornis_agent_rust.Console.Hub.Preserved.{
  synchronize_servers_again, synchronize_servers_invalid, synchronize_servers_first,
}
use agapornis_agent_rust.Console.Hub.Bootstrap.{
  merged-contains, install-desired, install_initialized,
}
use agapornis_agent_rust.Console.Hub.Publish.{publish}
use agapornis_agent_rust.Console.Hub.Events.{Event, step}
use agapornis_agent_rust.Console.Hub.Runs.{publish-Keeps, streamed-Keeps}
use agapornis_agent_rust.Base.{
  ◌≡◌, refl, ◌∙◌, inl, inr, Bool, true, false, not, ◌&&◌, ◌||◌, none, arith, if◌then◌else◌,
  Bool-cases, Option-cases, Text, same, same_iff, same_refl,
}
use agapornis_agent_rust.Console.Hub.Unchanged.{
  Same, update_reader-Same, admit-Same, retire-Same, wake-Same, tracked-Same,
  drop_receiver-lifecycle,
}

-- The refusal that a removed server meets.
abbrev pub gone_refusal : ConsoleHub → Refusal
gone_refusal hub =
    if hub.lifecycle.inventory_initialized then not_assigned else removed_before_bootstrap

-- The hub does not know the server, or knows that it was removed.
abbrev pub IsRefused : Text → ConsoleHub → Type 0
IsRefused id hub =
    ((hub.lifecycle.inventory_initialized && not (IdSet.contains id hub.lifecycle.desired))
      || (not hub.lifecycle.inventory_initialized
          && IdSet.contains id hub.lifecycle.pending_removals))
    ≡ true

validate_refused :
    (id : Text) (hub : ConsoleHub)
    → IsRefused id hub
    → validate_subscription id hub.lifecycle ≡ err (gone_refusal hub)
unfolding validate_subscription
validate_refused id hub h = ground arith

remove_settled :
    (id : Text) (hub : ConsoleHub)
    → hub.lifecycle.inventory_initialized ≡ true
    → ((remove id hub).lifecycle.inventory_initialized ≡ true)
      × (IdSet.contains id (remove id hub).lifecycle.desired ≡ false)
remove_settled id hub e =
    rw (remove-lifecycle id hub, record_removal_done id hub.lifecycle e)
      (e, contains-remove_self id hub.lifecycle.desired)

remove_unsettled :
    (id : Text) (hub : ConsoleHub)
    → hub.lifecycle.inventory_initialized ≡ false
    → ((remove id hub).lifecycle.inventory_initialized ≡ false)
      × (IdSet.contains id (remove id hub).lifecycle.pending_removals ≡ true)
remove_unsettled id hub e =
    rw (remove-lifecycle id hub, record_removal_open id hub.lifecycle e)
      (e, IdSet.contains-insert id id hub.lifecycle.pending_removals ∙ rw (same_refl id) refl)

remove-IsRefused : (id : Text) (hub : ConsoleHub) → IsRefused id (remove id hub)
remove-IsRefused id hub = elim (Bool-cases hub.lifecycle.inventory_initialized) [
  | inl e ↦ let (settled, gone) = remove_settled id hub e in rw (settled, gone) refl
  | inr e ↦ let (unsettled, listed) = remove_unsettled id hub e in rw (unsettled, listed) refl
]

admit_refused :
    (id : Text) (hub : ConsoleHub) → IsRefused id hub → admit id hub ≡ (hub, err (gone_refusal hub))
unfolding admit
admit_refused id hub h = rw (validate_refused id hub h, admit) refl

stays-IsRefused :
    (id : Text) (hub after : ConsoleHub)
    → Same id hub.lifecycle after.lifecycle
    → IsRefused id hub
    → IsRefused id after
stays-IsRefused id hub after (e, f, g) h = rw (e, f, g) h

-- The first inventory does not bring a removed server back, and no later one does.
synchronize_servers-IsRefused :
    (id : Text) (ids : IdSet) (hub : ConsoleHub)
    → IsRefused id hub
    → IsRefused id (synchronize_servers ids hub).0
synchronize_servers-IsRefused id ids hub h = elim (Bool-cases hub.lifecycle.inventory_initialized) [
  | inl done ↦ rw (synchronize_servers_again ids hub done) h
  | inr early ↦ elim (Option-cases (validate_inventory ids)) [
    | inl bad ↦ rw (synchronize_servers_invalid ids hub bad) h
    | inr (accepted, e) ↦
        let desired = merged hub.lifecycle accepted in
        let pending : IdSet.contains id hub.lifecycle.pending_removals ≡ true = ground arith in
        let gone : IdSet.contains id desired ≡ false =
          merged-contains hub.lifecycle accepted id ∙ rw pending refl in
        rw (synchronize_servers_first ids hub early e)
          (rw (install_initialized desired hub, install-desired desired hub, gone) refl)
  ]
]

-- So it is when another server is removed.
remove-keeps_IsRefused :
    (id j : Text) (hub : ConsoleHub) → IsRefused id hub → IsRefused id (remove j hub)
remove-keeps_IsRefused id j hub h = elim (Bool-cases hub.lifecycle.inventory_initialized) [
  | inl e ↦
      rw (remove-lifecycle j hub, record_removal_done j hub.lifecycle e)
        (ground (arith, IdSet.contains-remove j id hub.lifecycle.desired))
  | inr e ↦
      rw (remove-lifecycle j hub, record_removal_open j hub.lifecycle e)
        (ground (arith, IdSet.contains-insert j id hub.lifecycle.pending_removals))
]

-- Whether an event adds the server to the inventory by itself.
abbrev pub adds : Text → Event → Bool
adds id (Event.tracked j) = same j id
adds id (Event.refreshed j) = same j id
adds id _ = false

-- What comes of a hub by events that do not add the server.
pub data Since (id : Text) (start : ConsoleHub) : ConsoleHub → Type 0 where
  now : Since id start start
  later :
      {hub : ConsoleHub} (event : Event)
      → Since id start hub
      → adds id event ≡ false
      → Since id start (step event hub)

admit-IsRefused : (id j : Text) (hub : ConsoleHub) → IsRefused id hub → IsRefused id (admit j hub).0
admit-IsRefused id j hub h = elim (Bool-cases (same j id)) [
  | inl e ↦ let is = (same_iff j id).0 e in rw is (rw (admit_refused id hub h) h)
  | inr other ↦ stays-IsRefused id hub (admit j hub).0 (admit-Same id j hub other) h
]

track_server-IsRefused :
    (id j : Text) (hub : ConsoleHub)
    → same j id ≡ false
    → IsRefused id hub
    → IsRefused id (track_server j hub).0
unfolding track_server
track_server-IsRefused id j hub other h = elim (Bool-cases (validate_id j)) [
  | inl e ↦ rw e (
      stays-IsRefused id hub (record hub { lifecycle = tracked j hub.lifecycle })
        (tracked-Same id j hub.lifecycle other) h)
  | inr e ↦ rw e h
]

refresh_server-IsRefused :
    (id j : Text) (hub : ConsoleHub)
    → same j id ≡ false
    → IsRefused id hub
    → IsRefused id (refresh_server j hub).0
unfolding refresh_server
refresh_server-IsRefused id j hub other h = elim (Bool-cases (validate_id j)) [
  | inl e ↦
      let (a, b, c) = tracked-Same id j hub.lifecycle other in
      let (d, f, g) =
        update_reader-Same id j (λ r. record r { suspended = false; wake = true })
          (tracked j hub.lifecycle) in
      rw e (rw (d, f, g) (rw (a, b, c) h))
  | inr e ↦ rw e h
]

step-IsRefused :
    (id : Text) (event : Event) (hub : ConsoleHub)
    → adds id event ≡ false
    → IsRefused id hub
    → IsRefused id (step event hub)
unfolding step detach_reader
step-IsRefused id (Event.synchronized ids) hub a h = synchronize_servers-IsRefused id ids hub h
step-IsRefused id (Event.tracked j) hub a h = track_server-IsRefused id j hub a h
step-IsRefused id (Event.refreshed j) hub a h = refresh_server-IsRefused id j hub a h
step-IsRefused id (Event.detached j) hub a h =
    stays-IsRefused id hub (detach_reader j hub) (update_reader-Same id j _ hub.lifecycle) h
step-IsRefused id (Event.woken j) hub a h =
    stays-IsRefused id hub (wake_reader j hub) (wake-Same id j hub) h
step-IsRefused id (Event.admitted j) hub a h = admit-IsRefused id j hub h
step-IsRefused id (Event.replayed j) hub a h = unfold replay in h
step-IsRefused id (Event.removed j) hub a h = remove-keeps_IsRefused id j hub h
step-IsRefused id (Event.finished j) hub a h =
    stays-IsRefused id hub (step (Event.finished j) hub) (update_reader-Same id j _ hub.lifecycle) h
step-IsRefused id (Event.left j) hub a h = rw (drop_receiver-lifecycle j hub) h
step-IsRefused id (Event.retired j ticket sender) hub a h =
    stays-IsRefused id hub (retire_idle_reader j ticket sender hub)
      (retire-Same id j ticket sender hub) h
step-IsRefused id (Event.published t j line) hub a h = rw ((publish-Keeps t j line hub).0) h
step-IsRefused id (Event.streamed t j line ticket) hub a h =
    rw ((streamed-Keeps t j line ticket hub).0) h

Since-IsRefused :
    (id : Text) {start hub : ConsoleHub}
    → IsRefused id start
    → Since id start hub
    → IsRefused id hub
Since-IsRefused id h now = h
Since-IsRefused id h (later {hub} event s a) =
    step-IsRefused id event hub a (Since-IsRefused id h s)

-- A removed server is refused until `track_server` or `refresh_server` adds it again: whatever
-- other calls, viewers and lines come after its removal, inventories that list it included, a
-- subscription and an attachment fail, with the reason, and a subscription or a published line
-- changes nothing in the hub.
pub removed_refused :
    (id line : Text) (t : LineClock) (meanwhile : ConsoleHub → ConsoleHub) (hub : ConsoleHub)
    {after : ConsoleHub}
    → Since id (remove id hub) after
    → (subscribe id meanwhile after ≡ (after, err (gone_refusal after)))
      × (attach_requires_inspection id after ≡ err (gone_refusal after))
      × (publish t id line after ≡ (after, none))
unfolding attach_requires_inspection publish subscribe
removed_refused id line t meanwhile hub {after} s =
    let h = Since-IsRefused id (remove-IsRefused id hub) s in
    (rw (admit_refused id after h, subscribe) refl, ground (arith, h), rw h refl)
