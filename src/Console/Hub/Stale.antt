-- ===== src/Console/Hub/Stale.antt =====
-- A reader that is told to stop while it has a line to publish.
use agapornis_agent_rust.Console.History
use agapornis_agent_rust.Security.Protection.{LineClock}
use agapornis_agent_rust.Console.Hub.{ConsoleHub, is_active}
use agapornis_agent_rust.Console.Hub.Publish.{
  Meanwhile, publish_line_when_active, publish_prepared, prepare_line,
}
use agapornis_agent_rust.Base.{
  ℕ, ◌≡◌, refl, ◌∙◌, inl, inr, Bool, true, false, Option, none, some, Bool-cases, Text,
}

-- The hub with a line pushed.
abbrev pub pushed : Text → Text → ConsoleHub → ConsoleHub
pushed id shown hub = record hub { history = (History.push id shown hub.history).0 }

-- When the reader of this ticket is told to stop: before it has the line, while the line waits for
-- the lock of the histories, or while it waits for that of the channels.
pub data Stopped (t : LineClock) (id line : Text) (ticket : ℕ) (meanwhile : Meanwhile)
    (hub : ConsoleHub) : Type 0 where
  at_once : is_active hub ticket ≡ false → Stopped t id line ticket meanwhile hub
  at_history :
      (shown : Text)
      → (prepare_line t id line hub).1 ≡ some shown
      → is_active (meanwhile.for_history (prepare_line t id line hub).0) ticket ≡ false
      → Stopped t id line ticket meanwhile hub
  at_senders :
      (shown : Text)
      → (prepare_line t id line hub).1 ≡ some shown
      → is_active
          (meanwhile.for_senders
            (pushed id shown (meanwhile.for_history (prepare_line t id line hub).0)))
          ticket
        ≡ false
      → Stopped t id line ticket meanwhile hub

-- What such a publication makes of the hub: nothing is pushed, unless the reader was active both
-- when it had the line and when the histories were locked for it.
pub data Leaves (id : Text) (ticket : ℕ) (meanwhile : Meanwhile) (prepared after : ConsoleHub)
    : Type 0 where
  unlocked : after ≡ prepared → Leaves id ticket meanwhile prepared after
  unpushed : after ≡ meanwhile.for_history prepared → Leaves id ticket meanwhile prepared after
  unsent :
      (shown : Text)
      → is_active prepared ticket ≡ true
      → is_active (meanwhile.for_history prepared) ticket ≡ true
      → after ≡ meanwhile.for_senders (pushed id shown (meanwhile.for_history prepared))
      → Leaves id ticket meanwhile prepared after

prepare_line-active :
    (t : LineClock) (id line : Text) (ticket : ℕ) (hub : ConsoleHub)
    → is_active (prepare_line t id line hub).0 ticket ≡ is_active hub ticket
unfolding prepare_line
prepare_line-active t id line ticket hub = refl

module _ (t : LineClock) (id line : Text) (ticket : ℕ) (meanwhile : Meanwhile)
    (hub : ConsoleHub) where
  abbrev IsUnsent : ConsoleHub × Option (ℕ × History.ConsoleEntry) × Bool → Type 0
  IsUnsent (after, out, still) =
      (out ≡ none)
      × (still ≡ false)
      × Leaves id ticket meanwhile (prepare_line t id line hub).0 after

  stops_at_once :
      is_active hub ticket ≡ false
      → IsUnsent (publish_line_when_active t id line ticket meanwhile hub)
  unfolding publish_line_when_active
  stops_at_once h =
      let early = prepare_line-active t id line ticket hub ∙ h in
      rw early (refl, refl, unlocked refl)

  stops_at_history :
      (shown : Text)
      → (prepare_line t id line hub).1 ≡ some shown
      → is_active hub ticket ≡ true
      → is_active (meanwhile.for_history (prepare_line t id line hub).0) ticket ≡ false
      → IsUnsent (publish_line_when_active t id line ticket meanwhile hub)
  unfolding publish_line_when_active publish_prepared
  stops_at_history shown e active h =
      let early = prepare_line-active t id line ticket hub ∙ active in
      rw (early, e, h) (refl, h, unpushed refl)

  stops_at_senders :
      (shown : Text)
      → (prepare_line t id line hub).1 ≡ some shown
      → is_active hub ticket ≡ true
      → is_active (meanwhile.for_history (prepare_line t id line hub).0) ticket ≡ true
      → is_active
          (meanwhile.for_senders
            (pushed id shown (meanwhile.for_history (prepare_line t id line hub).0)))
          ticket
        ≡ false
      → IsUnsent (publish_line_when_active t id line ticket meanwhile hub)
  unfolding publish_line_when_active publish_prepared
  stops_at_senders shown e active locked h =
      let early = prepare_line-active t id line ticket hub ∙ active in
      rw (early, e, locked, h) (refl, h, unsent shown early locked refl)

-- A reader that is told to stop, before it has a line or while the line waits for the histories or
-- for the channels, sends nothing and hears that it is not active. The line is in the history only
-- if the reader was active when it had the line and when the histories were locked for it; else
-- the hub is as the rate limits or the other tasks have left it.
pub publish_line_when_active_stale :
    (t : LineClock) (id line : Text) (ticket : ℕ) (meanwhile : Meanwhile) (hub : ConsoleHub)
    → Stopped t id line ticket meanwhile hub
    → let (after, out, still) = publish_line_when_active t id line ticket meanwhile hub in
      (out ≡ none)
      × (still ≡ false)
      × Leaves id ticket meanwhile (prepare_line t id line hub).0 after
publish_line_when_active_stale t id line ticket meanwhile hub (at_once h) =
    stops_at_once t id line ticket meanwhile hub h
publish_line_when_active_stale t id line ticket meanwhile hub (at_history shown e h) =
    elim (Bool-cases (is_active hub ticket)) [
      | inr early ↦ stops_at_once t id line ticket meanwhile hub early
      | inl active ↦ stops_at_history t id line ticket meanwhile hub shown e active h
    ]
publish_line_when_active_stale t id line ticket meanwhile hub (at_senders shown e h) =
    elim (Bool-cases (is_active hub ticket)) [
      | inr early ↦ stops_at_once t id line ticket meanwhile hub early
      | inl active ↦
          elim (Bool-cases
            (is_active (meanwhile.for_history (prepare_line t id line hub).0) ticket)) [
              | inr late ↦ stops_at_history t id line ticket meanwhile hub shown e active late
              | inl locked ↦ stops_at_senders t id line ticket meanwhile hub shown e active locked h
            ]
    ]
