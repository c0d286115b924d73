-- ===== src/Console/Hub/Publish.antt =====
-- Lines into the hub: `publish` and `prepare_line` of src/grpc/services/console/mod.rs, and
-- `publish_prepared` of reader.rs. A line is here the list of its bytes. What goes out on a channel
-- is returned: the channel, and the entry that is sent.
use agapornis_agent_rust.Base.Dict
use agapornis_agent_rust.Base.Str
use agapornis_agent_rust.Base.IdSet
use agapornis_agent_rust.Console.Decoder.{truncation_suffix}
use agapornis_agent_rust.Console.History
use agapornis_agent_rust.Console.History.{ConsoleEntry}
use agapornis_agent_rust.Security.Protection
use agapornis_agent_rust.Security.Protection.{
  ProtectionState, LineClock, LineDecision, allow, suppress, notify, trip,
}
use agapornis_agent_rust.Console.Hub.{Sender, ConsoleHub, is_active}
use agapornis_agent_rust.Base.{
  ℕ, zero, suc, Bool, true, false, not, ◌&&◌, ◌||◌, Option, none, some, [], ◌∷◌, ◌++◌, ltb, leb,
  if◌then◌else◌, length, take, drop, Text, codes,
}

-- Whether a byte begins a character.
abbrev pub is_boundary_byte : ℕ → Bool
is_boundary_byte b = not (leb 0x80 b && leb b 0xbf)

-- Whether a text can be cut before these bytes.
abbrev pub starts_character : Text → Bool
starts_character [] = true
starts_character (b ∷ _) = is_boundary_byte b

-- `floor_char_boundary`: the last place, no further than `n`, where a character begins.
unfoldable pub floor_char_boundary : Text → ℕ → ℕ
floor_char_boundary line zero = 0
floor_char_boundary line (suc n) =
    let before = floor_char_boundary line n in
    if leb (length line) (suc n)
    then length line
    else if starts_character (drop (suc n) line)
    then suc n
    else before

abbrev pub throttled_notice : ℕ → Text
throttled_notice limit =
    codes "[agent] Console output throttled above " ++ (Str.decimal limit ++ codes " lines/second.")

abbrev pub flood_notice : Text
flood_notice =
    codes
      "[agent] Sustained console flood detected. Output remains throttled to protect the control plane."

-- The line that stands for `line` after a decision on it.
abbrev pub decided : ProtectionState → Text → LineDecision → Option Text
decided p line allow = some line
decided p line notify = some (throttled_notice p.console_lines_per_second)
decided p line trip = some flood_notice
decided p line suppress = none

-- The line cut off at the limit on its length.
unfoldable pub shorten : ℕ → Text → Text
shorten maximum line =
    if ltb maximum (length line)
    then take (floor_char_boundary line maximum) line ++ truncation_suffix
    else line

unfoldable pub prepare_line : LineClock → Text → Text → ConsoleHub → ConsoleHub × Option Text
prepare_line t id line hub =
    let (protection, decision) = Protection.observe_line t id hub.protection in
    (
      record hub { protection = protection },
      decided hub.protection (shorten hub.protection.console_max_line_length line) decision,
    )

-- The channel of the server, if it has one, with the entry.
abbrev pub sent : Option Sender → ConsoleEntry → Option (ℕ × ConsoleEntry)
sent none entry = none
sent (some sender) entry = some (sender.channel, entry)

-- `active.is_some_and(|active| !active.load(Acquire))`
abbrev pub is_stale : ConsoleHub → Option ℕ → Bool
is_stale hub none = false
is_stale hub (some ticket) = not (is_active hub ticket)

-- What other tasks do to the hub while a line waits for the lock of the histories, and while it
-- waits for the lock of the channels.
pub record Meanwhile : Type 0 where
  pub for_history : ConsoleHub → ConsoleHub
  pub for_senders : ConsoleHub → ConsoleHub

abbrev pub undisturbed : Meanwhile
undisturbed = record { for_history = λ hub. hub; for_senders = λ hub. hub }

-- `publish_prepared`; the ticket is that of the `active` flag, if there is one.
unfoldable pub publish_prepared :
    Text → Option Text → Option ℕ → Meanwhile → ConsoleHub → ConsoleHub × Option (ℕ × ConsoleEntry)
publish_prepared id none ticket meanwhile hub = (hub, none)
publish_prepared id (some line) ticket meanwhile hub =
    let locked = meanwhile.for_history hub in
    if is_stale locked ticket
    then (locked, none)
    else (let (history, entry) = History.push id line locked.history in
        let later = meanwhile.for_senders (record locked { history = history }) in
        if is_stale later ticket
        then (later, none)
        else (later, sent (Dict.get id later.senders) entry))

-- `publish_line`, called by `publish` with the lifecycle locked.
unfoldable pub publish_line :
    LineClock → Text → Text → ConsoleHub → ConsoleHub × Option (ℕ × ConsoleEntry)
publish_line t id line hub =
    let (prepared, text) = prepare_line t id line hub in
    publish_prepared id text none undisturbed prepared

unfoldable pub publish :
    LineClock → Text → Text → ConsoleHub → ConsoleHub × Option (ℕ × ConsoleEntry)
publish t id line hub =
    if (hub.lifecycle.inventory_initialized && not (IdSet.contains id hub.lifecycle.desired))
      || (not hub.lifecycle.inventory_initialized
          && IdSet.contains id hub.lifecycle.pending_removals)
    then (hub, none)
    else publish_line t id line hub

-- `publish_line_when_active`, by the reader with this ticket, and whether it is still active.
unfoldable pub publish_line_when_active :
    LineClock
    → Text
    → Text
    → ℕ
    → Meanwhile
    → ConsoleHub
    → ConsoleHub × Option (ℕ × ConsoleEntry) × Bool
publish_line_when_active t id line ticket meanwhile hub =
    let (prepared, text) = prepare_line t id line hub in
    if is_active prepared ticket
    then (let (after, out) = publish_prepared id text (some ticket) meanwhile prepared in
        (after, out, is_active after ticket))
    else (prepared, none, false)
