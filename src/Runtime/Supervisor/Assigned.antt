-- ===== src/Runtime/Supervisor/Assigned.antt =====
-- What the supervisor leaves alone in the console hub: which servers are assigned.
use agapornis_agent_rust.Base.Dict
use agapornis_agent_rust.Base.IdSet
use agapornis_agent_rust.Base.IdSet.{IdSet}
use agapornis_agent_rust.Base.{ℤ, pos, is_less}
use agapornis_agent_rust.Security.Protection
use agapornis_agent_rust.Security.Protection.{LineClock, or_insert}
use agapornis_agent_rust.Console.Hub.{ReaderTask, ConsoleLifecycle, ConsoleHub}
use agapornis_agent_rust.Console.Hub.Calls.{update_reader, detach_reader, wake_reader}
use agapornis_agent_rust.Console.Hub.Publish.{publish}
use agapornis_agent_rust.Console.Hub.Runs.{publish-Keeps}
use agapornis_agent_rust.Runtime.Supervisor.{
  Supervised, ObserveClock, Inspection, new_observation, watch, is_crash_loop, observe, quarantine,
  enforce_disk, scan_server, scan_servers, forget, forget_all,
}
use agapornis_agent_rust.Base.{
  ℕ, ◌≡◌, refl, ap, ◌∙◌, inl, inr, Bool, true, false, ◌&&◌, Option, none, some, List, [], ◌∷◌, leb,
  if◌then◌else◌, Bool-cases, Option-cases, Text,
}

abbrev pub assigned : Supervised → IdSet
assigned s = s.hub.lifecycle.desired

update_reader-desired :
    (id : Text) (change : ReaderTask → ReaderTask) (l : ConsoleLifecycle)
    → (update_reader id change l).desired ≡ l.desired
unfolding update_reader
update_reader-desired id change l = elim (Option-cases (Dict.get id l.readers)) [
  | inl e ↦ rw (e, update_reader) refl
  | inr (r, e) ↦ rw (e, update_reader) refl
]

detach_reader-desired :
    (id : Text) (hub : ConsoleHub)
    → (detach_reader id hub).lifecycle.desired ≡ hub.lifecycle.desired
unfolding detach_reader
detach_reader-desired id hub = update_reader-desired id _ hub.lifecycle

wake_reader-desired :
    (id : Text) (hub : ConsoleHub) → (wake_reader id hub).lifecycle.desired ≡ hub.lifecycle.desired
unfolding wake_reader
wake_reader-desired id hub = elim (Bool-cases (IdSet.contains id hub.lifecycle.desired)) [
  | inl e ↦ rw e (update_reader-desired id _ hub.lifecycle)
  | inr e ↦ rw e refl
]

publish-desired :
    (t : LineClock) (id line : Text) (hub : ConsoleHub)
    → (publish t id line hub).0.lifecycle.desired ≡ hub.lifecycle.desired
publish-desired t id line hub =
    ap (λ (l : ConsoleLifecycle). l.desired) (publish-Keeps t id line hub).0

observe-assigned :
    (clock : ObserveClock) (id : Text) (restart : ℤ) (running : Bool) (exit : ℤ) (s : Supervised)
    → assigned (observe clock id restart running exit s) ≡ assigned s
unfolding observe quarantine
observe-assigned clock id restart running exit s =
    let watched =
      watch clock restart running exit
        (or_insert (Dict.get id s.observations) (new_observation restart running clock.now)) in
    elim (Bool-cases (Protection.in_manual_recovery clock.recovery_test id s.hub.protection).1) [
      | inl recovers ↦ rw recovers refl
      | inr other ↦ rw other (elim (Bool-cases (is_crash_loop watched)) [
        | inl loops ↦ rw loops (publish-desired clock.line id _ _)
        | inr fine ↦ rw fine refl
      ])
    ]

enforce_disk-assigned :
    (clock : LineClock) (id : Text) (measured : ℤ × ℤ) (s : Supervised)
    → assigned (enforce_disk clock id measured s) ≡ assigned s
unfolding enforce_disk
enforce_disk-assigned clock id (usage, limit) s =
    elim (Bool-cases (is_less (pos 0) limit && is_less limit usage)) [
      | inl e ↦ rw e (publish-desired clock id _ _)
      | inr e ↦ rw e refl
    ]

-- The state that `observe` gets.
abbrev woken : Text → Bool → Supervised → Supervised
woken id running s = if running then record s { hub = wake_reader id s.hub } else s

woken-assigned :
    (id : Text) (running : Bool) (s : Supervised) → assigned (woken id running s) ≡ assigned s
woken-assigned id true s = wake_reader-desired id s.hub
woken-assigned id false s = refl

scan_server-assigned :
    (disk_every : ℕ) (id : Text) (i : Inspection) (s : Supervised)
    → assigned (scan_server disk_every id i s).0 ≡ assigned s
unfolding scan_server
scan_server-assigned disk_every id i s =
    let before = woken id i.running s in
    let seen = observe i.clock id i.restart i.running i.exit before in
    let stays =
      observe-assigned i.clock id i.restart i.running i.exit before
      ∙ woken-assigned id i.running s in
    elim (Bool-cases (leb (or_insert (Dict.get id seen.disk_due) i.due_inserted) i.due_test)) [
      | inr later ↦ rw later stays
      | inl due ↦ rw due (elim (Option-cases i.disk) [
        | inl none_found ↦ rw none_found stays
        | inr (measured, found) ↦ rw found (enforce_disk-assigned i.line id measured _ ∙ stays)
      ])
    ]

pub scan_servers-assigned :
    (disk_every : ℕ) (active : List (Text × Option Inspection)) (s : Supervised)
    → assigned (scan_servers disk_every active s) ≡ assigned s
unfolding scan_servers
scan_servers-assigned disk_every [] s = refl
scan_servers-assigned disk_every ((id, none) ∷ active) s = refl
scan_servers-assigned disk_every ((id, some i) ∷ active) s =
    let (after, _) = scan_server disk_every id i s in
    let stays = scan_server-assigned disk_every id i s in
    elim (Bool-cases (scan_server disk_every id i s).1) [
      | inl goes_on ↦ rw goes_on (scan_servers-assigned disk_every active after ∙ stays)
      | inr ends ↦ rw ends stays
    ]

pub forget_all-assigned :
    (ids : List Text) (s : Supervised) → assigned (forget_all ids s) ≡ assigned s
unfolding forget_all forget
forget_all-assigned [] s = refl
forget_all-assigned (id ∷ ids) s =
    forget_all-assigned ids (forget id s) ∙ detach_reader-desired id _
