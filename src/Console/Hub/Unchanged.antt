-- ===== src/Console/Hub/Unchanged.antt =====
-- What the calls for other servers leave as it was of a server.
use agapornis_agent_rust.Base.Dict
use agapornis_agent_rust.Base.IdSet
use agapornis_agent_rust.Base.IdSet.{IdSet}
use agapornis_agent_rust.Console.Hub.{
  ReaderTask, Sender, ConsoleLifecycle, ConsoleHub, ok, stop_reader, start_reader_locked,
  ensure_reader_locked, validate_subscription, validate_reader_capacity, record_addition,
}
use agapornis_agent_rust.Console.Hub.Calls.{
  admit, update_reader, add_receiver, wake_reader, retire_idle_reader, tracked,
}
use agapornis_agent_rust.Console.Hub.Effects.{stop_reader-lifecycle}
use agapornis_agent_rust.Console.Hub.Subscription.{Result-cases}
use agapornis_agent_rust.Console.Hub.Events.{drop_receiver}
use agapornis_agent_rust.Base.{
  ℕ, ◌≡◌, refl, inl, inr, false, arith, Bool-cases, Option-cases, Text, same,
}

-- What the refusal of a server rests on is as it was.
abbrev pub Same : Text → ConsoleLifecycle → ConsoleLifecycle → Type 0
Same id l l' =
    (l'.inventory_initialized ≡ l.inventory_initialized)
    × (IdSet.contains id l'.desired ≡ IdSet.contains id l.desired)
    × (IdSet.contains id l'.pending_removals ≡ IdSet.contains id l.pending_removals)

pub update_reader-Same :
    (id j : Text) (change : ReaderTask → ReaderTask) (l : ConsoleLifecycle)
    → Same id l (update_reader j change l)
unfolding update_reader
update_reader-Same id j change l = elim (Option-cases (Dict.get j l.readers)) [
  | inl e ↦ rw (e, update_reader) (refl, refl, refl)
  | inr (r, e) ↦ rw (e, update_reader) (refl, refl, refl)
]

start_reader_locked-Same :
    (id j : Text) (hub : ConsoleHub) → Same id hub.lifecycle (start_reader_locked j hub).lifecycle
unfolding start_reader_locked
start_reader_locked-Same id j hub = elim (Bool-cases hub.docker) [
  | inl e ↦ rw e (refl, refl, refl)
  | inr e ↦ rw e (refl, refl, refl)
]

restart-Same :
    (id j : Text) (hub : ConsoleHub)
    → Same id hub.lifecycle (start_reader_locked j (stop_reader j hub)).lifecycle
restart-Same id j hub =
    let (a, b, c) = start_reader_locked-Same id j (stop_reader j hub) in
    rw (a, b, c, stop_reader-lifecycle j hub) (refl, refl, refl)

ensure_reader_locked-Same :
    (id j : Text) (hub : ConsoleHub) → Same id hub.lifecycle (ensure_reader_locked j hub).lifecycle
unfolding ensure_reader_locked
ensure_reader_locked-Same id j hub = elim (Option-cases (Dict.get j hub.lifecycle.readers)) [
  | inl e ↦ rw (e, ensure_reader_locked) (restart-Same id j hub)
  | inr (r, e) ↦
      rw (e, ensure_reader_locked)
        (elim (Bool-cases r.finished) [
          | inl f ↦ rw f (restart-Same id j hub)
          | inr f ↦ rw f (refl, refl, refl)
        ])
]

add_receiver-lifecycle :
    (j : Text) (hub : ConsoleHub) → (add_receiver j hub).lifecycle ≡ hub.lifecycle
unfolding add_receiver
add_receiver-lifecycle j hub = elim (Option-cases (Dict.get j hub.senders)) [
  | inl e ↦ rw (e, add_receiver) refl
  | inr (v, e) ↦ rw (e, add_receiver) refl
]

-- A subscription to another server.
validate_subscription-Same :
    (id j : Text) (l : ConsoleLifecycle) {l' : ConsoleLifecycle}
    → same j id ≡ false
    → validate_subscription j l ≡ ok l'
    → Same id l l'
unfolding validate_subscription
validate_subscription-Same id j l {l'} other e =
    let insert = IdSet.contains-insert j id l.desired in ground (arith, insert)

pub admit-Same :
    (id j : Text) (hub : ConsoleHub)
    → same j id ≡ false
    → Same id hub.lifecycle (admit j hub).0.lifecycle
unfolding admit
admit-Same id j hub other = elim (Result-cases (validate_subscription j hub.lifecycle)) [
  | inr (refusal, e) ↦ rw (e, admit) (refl, refl, refl)
  | inl (l, e) ↦
      let (a, b, c) = validate_subscription-Same id j hub.lifecycle other e in
      let admitted : ConsoleHub = record hub { lifecycle = l } in
      rw (e, admit)
        (elim (Bool-cases (validate_reader_capacity j admitted)) [
          | inr full ↦ rw full (a, b, c)
          | inl room ↦
              let (d, f, g) = ensure_reader_locked-Same id j (add_receiver j admitted) in
              rw room (rw (d, f, g, add_receiver-lifecycle j admitted) (a, b, c))
        ])
]

pub retire-Same :
    (id j : Text) (ticket : ℕ) (sender : Sender) (hub : ConsoleHub)
    → Same id hub.lifecycle (retire_idle_reader j ticket sender hub).lifecycle
unfolding retire_idle_reader start_reader_locked
retire-Same id j ticket sender hub = ground arith

pub wake-Same :
    (id j : Text) (hub : ConsoleHub) → Same id hub.lifecycle (wake_reader j hub).lifecycle
unfolding wake_reader
wake-Same id j hub = elim (Bool-cases (IdSet.contains j hub.lifecycle.desired)) [
  | inl e ↦ rw e (update_reader-Same id j _ hub.lifecycle)
  | inr e ↦ rw e (refl, refl, refl)
]

pub drop_receiver-lifecycle :
    (j : Text) (hub : ConsoleHub) → (drop_receiver j hub).lifecycle ≡ hub.lifecycle
unfolding drop_receiver
drop_receiver-lifecycle j hub = elim (Option-cases (Dict.get j hub.senders)) [
  | inl e ↦ rw (e, drop_receiver) refl
  | inr (v, e) ↦ rw (e, drop_receiver) refl
]

pub tracked-Same :
    (id j : Text) (l : ConsoleLifecycle) → same j id ≡ false → Same id l (tracked j l)
unfolding record_addition
tracked-Same id j l other =
    let removals = IdSet.contains-remove j id l.pending_removals in
    let desired = IdSet.contains-insert j id l.desired in
    elim (Bool-cases l.inventory_initialized) [
      | inl e ↦ ground (arith, desired)
      | inr e ↦ ground (arith, removals, desired)
    ]
