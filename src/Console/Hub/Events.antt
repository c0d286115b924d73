-- ===== src/Console/Hub/Events.antt =====
-- What may happen to a console hub, one call or change of the runtime after the other.
use agapornis_agent_rust.Base.Dict
use agapornis_agent_rust.Base.Dict.{Dict, IsDict}
use agapornis_agent_rust.Console.History.{HistoryCache}
use agapornis_agent_rust.Security.Protection.{ProtectionState, LineClock}
use agapornis_agent_rust.Console.Hub.{Sender, ConsoleHub, configured_max_active_readers}
use agapornis_agent_rust.Console.Hub.Calls.{
  retire_idle_reader, remove, admit, synchronize_servers, track_server, refresh_server,
  detach_reader, wake_reader, update_reader, replay,
}
use agapornis_agent_rust.Console.Hub.Publish.{publish, publish_line_when_active, undisturbed}
use agapornis_agent_rust.Console.Hub.Retiring.{Retires}
use agapornis_agent_rust.Base.{ℕ, ◌-◌, Bool, true, false, Option, none, some, List, [], Text}

-- What may happen to the hub: the calls, and what the runtime does between them.
pub data Event : Type 0 where
  synchronized : List Text → Event
  tracked refreshed detached woken admitted replayed removed finished left : Text → Event
  retired : Text → ℕ → Sender → Event
  published : LineClock → Text → Text → Event
  streamed : LineClock → Text → Text → ℕ → Event

-- A receiver of the channel is dropped.
unfoldable pub drop_receiver : Text → ConsoleHub → ConsoleHub
drop_receiver id hub = elim (Dict.get id hub.senders) [
  | none ↦ hub
  | some sender ↦ record hub {
    senders = Dict.insert id (record sender { receivers = sender.receivers - 1 }) hub.senders;
  }
]

unfoldable pub step : Event → ConsoleHub → ConsoleHub
step (synchronized ids) hub = (synchronize_servers ids hub).0
step (tracked id) hub = (track_server id hub).0
step (refreshed id) hub = (refresh_server id hub).0
step (detached id) hub = detach_reader id hub
step (woken id) hub = wake_reader id hub
step (admitted id) hub = (admit id hub).0
step (replayed id) hub = (replay id hub).0
step (removed id) hub = remove id hub
step (finished id) hub = record hub {
  lifecycle = update_reader id (λ r. record r { finished = true }) hub.lifecycle;
}
step (left id) hub = drop_receiver id hub
step (retired id ticket sender) hub = retire_idle_reader id ticket sender hub
step (published t id line) hub = (publish t id line hub).0
step (streamed t id line ticket) hub = (publish_line_when_active t id line ticket undisturbed hub).0

-- Only a task that runs can retire.
abbrev pub IsPossible : Event → ConsoleHub → Type 0
IsPossible (retired id ticket sender) hub = Retires ticket (Dict.get id hub.lifecycle.readers)
IsPossible _ hub = Unit

pub data Reach (start : ConsoleHub) : ConsoleHub → Type 0 where
  here : Reach start start
  next :
      {hub : ConsoleHub} (event : Event)
      → Reach start hub
      → IsPossible event hub
      → Reach start (step event hub)

-- `ConsoleHub::with_optional_docker`; the last argument is the parsed value of
-- AGAPORNIS_CONSOLE_MAX_ACTIVE_READERS, if there is one.
abbrev pub new_hub : Bool → HistoryCache → ProtectionState → Option ℕ → ConsoleHub
new_hub docker history protection readers = record {
  docker = docker;
  senders = [];
  history = history;
  lifecycle = record {
    desired = [];
    readers = [];
    pending_additions = [];
    pending_removals = [];
    inventory_initialized = false;
  };
  protection = protection;
  max_active_readers = configured_max_active_readers readers;
  inactive = [];
  next_ticket = 0;
  next_channel = 0;
}
