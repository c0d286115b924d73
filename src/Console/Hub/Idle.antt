-- ===== src/Console/Hub/Idle.antt =====
-- What a reader takes with it when it retires.
use agapornis_agent_rust.Base.Dict
use agapornis_agent_rust.Base.Dict.{Dict, IsDict}
use agapornis_agent_rust.Base.IdSet
use agapornis_agent_rust.Base.IdSet.{IdSet, IsIdSet}
use agapornis_agent_rust.Console.Hub.{Sender, ReaderTask, ConsoleHub, start_reader_locked}
use agapornis_agent_rust.Console.Hub.Calls.{retire_idle_reader, same_idle_channel, is_current}
use agapornis_agent_rust.Base.{
  ℕ, ◌≡◌, refl, sym, ltb, ◌&&◌, Bool-cases, same, same_iff, inl, inr, Bool, true, false, ◌==◌,
  Option, none, some, arith, Text,
}
use agapornis_agent_rust.Console.Hub.Removal.{history_removed}

-- The receivers of a channel, if it is there.
abbrev pub viewers : Option Sender → ℕ
viewers none = 0
viewers (some sender) = sender.receivers

idle_viewers :
    (sender : Sender) (found : Option Sender)
    → same_idle_channel sender found ≡ true
    → viewers found ≡ 0
idle_viewers sender none h = refl
idle_viewers sender (some v) h = ground arith

removed_viewers :
    (id other : Text) (sender : Sender) (m : Dict Sender)
    → same_idle_channel sender (Dict.get id m) ≡ true
    → viewers (Dict.get other (Dict.remove id m)) ≡ viewers (Dict.get other m)
removed_viewers id other sender m h = elim (Bool-cases (same id other)) [
  | inr e ↦ rw (Dict.get-remove, e) refl
  | inl e ↦
      rw (Dict.get-remove, e)
        (rw (← (same_iff id other).0 e) (sym (idle_viewers sender (Dict.get id m) h)))
]

pub retire_idle_reader-viewers :
    (id other : Text) (ticket : ℕ) (sender : Sender) (hub : ConsoleHub)
    → viewers (Dict.get other (retire_idle_reader id ticket sender hub).senders)
      ≡ viewers (Dict.get other hub.senders)
unfolding retire_idle_reader start_reader_locked
retire_idle_reader-viewers id other ticket sender hub =
    elim (Bool-cases (is_current ticket (Dict.get id hub.lifecycle.readers))) [
      | inr stale ↦ rw stale refl
      | inl current ↦
          rw current
            (elim (Bool-cases (ltb 0 sender.receivers && IdSet.contains id hub.lifecycle.desired)) [
              | inl watched ↦ rw watched (ground arith)
              | inr idle ↦
                  rw idle (elim (Bool-cases (same_idle_channel sender (Dict.get id hub.senders))) [
                    | inl mine ↦ rw mine (removed_viewers id other sender hub.senders mine)
                    | inr not_mine ↦ rw not_mine refl
                  ])
            ])
    ]

-- Whether the reader of an entry is the one with this ticket.
abbrev pub owns : ℕ → Option ReaderTask → Bool
owns ticket none = false
owns ticket (some reader) = reader.ticket == ticket

-- Whether an entry is the channel that a task knows, and neither sees a receiver on it.
abbrev pub is_unwatched : Sender → Option Sender → Bool
is_unwatched sender none = false
is_unwatched sender (some v) =
    v.channel == sender.channel && v.receivers == 0 && sender.receivers == 0

is_current_lem :
    (ticket : ℕ) (found : Option ReaderTask)
    → owns ticket found ≡ true
    → is_current ticket found ≡ true
is_current_lem ticket none h = h
is_current_lem ticket (some r) h = h

idle_of_unwatched :
    (sender : Sender) (found : Option Sender)
    → is_unwatched sender found ≡ true
    → (same_idle_channel sender found ≡ true) × (ltb 0 sender.receivers ≡ false)
idle_of_unwatched sender none h = absurd (ground arith)
idle_of_unwatched sender (some v) h = (ground arith, ground arith)

-- Nothing is left of the reader of the server, its channel and its history.
abbrev pub IsRetired : Text → ConsoleHub → Type 0
IsRetired id hub =
    (Dict.get id hub.lifecycle.readers ≡ none)
    × (Dict.get id hub.senders ≡ none)
    × (Dict.get id hub.history.entries ≡ none)

both : (a b : Bool) → (a && b) ≡ true → (a ≡ true) × (b ≡ true)
both a b h = (ground arith, ground arith)

pub retire_idle_reader-IsRetired :
    (id : Text) (ticket : ℕ) (sender : Sender) (hub : ConsoleHub)
    → (owns ticket (Dict.get id hub.lifecycle.readers)
        && is_unwatched sender (Dict.get id hub.senders))
      ≡ true
    → IsRetired id (retire_idle_reader id ticket sender hub)
unfolding retire_idle_reader
retire_idle_reader-IsRetired id ticket sender hub h =
    let (mine, unwatched) = both (owns ticket (Dict.get id hub.lifecycle.readers)) _ h in
    let (idle, unseen) = idle_of_unwatched sender (Dict.get id hub.senders) unwatched in
    let current = is_current_lem ticket (Dict.get id hub.lifecycle.readers) mine in
    rw (current, unseen, idle)
      (Dict.get-remove_self id _, Dict.get-remove_self id _, history_removed id _)
