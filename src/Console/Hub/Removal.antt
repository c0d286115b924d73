-- ===== src/Console/Hub/Removal.antt =====
-- A server that is removed.
use agapornis_agent_rust.Base.Dict
use agapornis_agent_rust.Base.Dict.{Dict}
use agapornis_agent_rust.Base.IdSet
use agapornis_agent_rust.Console.History
use agapornis_agent_rust.Console.History.{ConsoleEntry, HistoryCache}
use agapornis_agent_rust.Security.Protection
use agapornis_agent_rust.Security.Protection.{LineClock}
use agapornis_agent_rust.Console.Hub.{ReaderTask, ConsoleHub, is_active, stop_reader}
use agapornis_agent_rust.Console.Hub.Calls.{forget, remove, record_removal}
use agapornis_agent_rust.Console.Hub.Effects.{IsSoundHub, stop_reader-lifecycle, forget-keeps}
use agapornis_agent_rust.Base.{
  ◌≡◌, refl, ap, ◌∙◌, inl, inr, Bool, true, false, not, Option, none, some, [], ◌∷◌, arith, ==_iff,
  Bool-cases, Option-cases, Text, same_refl,
}

-- What is left of server `id`.
pub record IsGone (id : Text) (hub : ConsoleHub) : Type 0 where
  pub not_desired : IdSet.contains id hub.lifecycle.desired ≡ false
  pub not_added : IdSet.contains id hub.lifecycle.pending_additions ≡ false
  pub no_reader : Dict.get id hub.lifecycle.readers ≡ none
  pub no_sender : Dict.get id hub.senders ≡ none
  pub no_history : Dict.get id hub.history.entries ≡ none
  pub no_rates :
      (Dict.get id hub.protection.commands ≡ none)
      × (Dict.get id hub.protection.console ≡ none)
      × (Dict.get id hub.protection.statuses ≡ none)
      × (Dict.get id hub.protection.recovery ≡ none)

pub history_removed :
    (id : Text) (c : HistoryCache) → Dict.get id (History.remove id c).entries ≡ none
unfolding History.remove
history_removed id c = elim (Option-cases (Dict.get id c.entries)) [
  | inl e ↦ rw (e, History.remove) e
  | inr (h, e) ↦ rw (e, History.remove) (Dict.get-remove_self id c.entries)
]

-- The reader that the server had is told to stop.
stop_reader-inactive :
    (id : Text) (hub : ConsoleHub) (r : ReaderTask)
    → Dict.get id hub.lifecycle.readers ≡ some r
    → is_active (stop_reader id hub) r.ticket ≡ false
unfolding stop_reader
stop_reader-inactive id hub r e = rw (e, stop_reader) (rw ((==_iff r.ticket r.ticket).1 refl) refl)

-- The hub once the inventory no longer has the server, before its reader is stopped.
abbrev pub unlisted : Text → ConsoleHub → ConsoleHub
unlisted id hub =
    let noted = record_removal id hub.lifecycle in
    record hub { lifecycle = record noted { desired = IdSet.remove id noted.desired } }

pub unlisted-keeps :
    (id : Text) (hub : ConsoleHub)
    → ((unlisted id hub).lifecycle.readers ≡ hub.lifecycle.readers)
      × ((unlisted id hub).lifecycle.desired ≡ IdSet.remove id hub.lifecycle.desired)
      × ((unlisted id hub).lifecycle.inventory_initialized ≡ hub.lifecycle.inventory_initialized)
unlisted-keeps id hub = elim (Bool-cases hub.lifecycle.inventory_initialized) [
  | inl e ↦ ground arith
  | inr e ↦ ground arith
]

unlisted-additions :
    (id : Text) (hub : ConsoleHub)
    → IsSoundHub hub
    → IdSet.contains id (unlisted id hub).lifecycle.pending_additions ≡ false
unlisted-additions id hub s = elim (Bool-cases hub.lifecycle.inventory_initialized) [
  | inl e ↦
      let (none_added, _) = s.settled e in
      let same_additions : (unlisted id hub).lifecycle.pending_additions
          ≡ hub.lifecycle.pending_additions =
        ground arith in
      rw (same_additions, none_added) (unfold IdSet.contains in refl)
  | inr e ↦
      let fewer : (unlisted id hub).lifecycle.pending_additions
          ≡ IdSet.remove id hub.lifecycle.pending_additions =
        ground arith in
      rw fewer
        (IdSet.contains-remove id id hub.lifecycle.pending_additions ∙ rw (same_refl id) refl)
]

pub contains-remove_self :
    (id : Text) (s : IdSet.IdSet) → IdSet.contains id (IdSet.remove id s) ≡ false
contains-remove_self id s = IdSet.contains-remove id id s ∙ rw (same_refl id) refl

pub remove-lifecycle :
    (id : Text) (hub : ConsoleHub)
    → (remove id hub).lifecycle ≡ record (unlisted id hub).lifecycle {
      readers = Dict.remove id (unlisted id hub).lifecycle.readers;
    }
unfolding remove
remove-lifecycle id hub =
    (forget-keeps (id ∷ []) (stop_reader id (unlisted id hub))).0
    ∙ stop_reader-lifecycle id (unlisted id hub)

-- Whether the reader of an entry, if there was one, is told to stop.
abbrev pub is_stopped : ConsoleHub → Option ReaderTask → Bool
is_stopped hub none = true
is_stopped hub (some r) = not (is_active hub r.ticket)

remove-is_stopped :
    (id : Text) (hub : ConsoleHub)
    → is_stopped (remove id hub) (Dict.get id hub.lifecycle.readers) ≡ true
remove-is_stopped id hub = elim (Option-cases (Dict.get id hub.lifecycle.readers)) [
  | inl e ↦ rw e refl
  | inr (r, e) ↦
      let (readers, _, _) = unlisted-keeps id hub in
      let listed = ap (λ (m : Dict ReaderTask). Dict.get id m) readers ∙ e in
      let stopped : is_active (remove id hub) r.ticket ≡ false =
        unfold remove forget in stop_reader-inactive id (unlisted id hub) r listed in
      rw e (rw stopped refl)
]

-- After `remove` nothing is left of the server: it is not in the inventory, nor added to it, and
-- has no reader, no channel, no history and no rates; and the reader that it had is told to stop.
-- The hub before is one where nothing is pending once the inventory has come.
pub remove-IsGone :
    (id : Text) (hub : ConsoleHub)
    → IsSoundHub hub
    → IsGone id (remove id hub)
      × (is_stopped (remove id hub) (Dict.get id hub.lifecycle.readers) ≡ true)
remove-IsGone id hub s =
    let l = remove-lifecycle id hub in
    let (readers, desired, _) = unlisted-keeps id hub in
    (
      record {
        not_desired = rw (l, desired) (contains-remove_self id hub.lifecycle.desired);
        not_added = rw l (unlisted-additions id hub s);
        no_reader = rw l (Dict.get-remove_self id _);
        no_sender = unfold remove forget in Dict.get-remove_self id _;
        no_history = unfold remove forget in history_removed id _;
        no_rates =
            unfold remove forget Protection.remove in
            (
              Dict.get-remove_self id _,
              Dict.get-remove_self id _,
              Dict.get-remove_self id _,
              Dict.get-remove_self id _,
            );
      },
      remove-is_stopped id hub,
    )
