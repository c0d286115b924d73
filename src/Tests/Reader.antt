-- ===== src/Tests/Reader.antt =====
-- A log whose first line comes again after a reconnect: src/grpc/services/console/reader.rs.
use agapornis_agent_rust.Base.IdSet
use agapornis_agent_rust.Base.Str
use agapornis_agent_rust.Base.Dict
use agapornis_agent_rust.Console.History.{with_maximum}
use agapornis_agent_rust.Security.Protection
use agapornis_agent_rust.Security.Protection.{ProtectionState, LineClock, default, env_usize}
use agapornis_agent_rust.Console.Hub.{ConsoleHub}
use agapornis_agent_rust.Console.Hub.Publish.{
  undisturbed, publish_line_when_active, publish_prepared, prepare_line, shorten,
}
use agapornis_agent_rust.Console.Hub.Events.{new_hub}
use agapornis_agent_rust.Console.Reader.{
  new_cursor, RawLine, process_lines, process_docker_line, split_docker_timestamp,
}
use agapornis_agent_rust.Console.Reader.Replay.{IsResent, process_lines-replay}
use agapornis_agent_rust.Base.{
  ℕ, ◌-◌, ◌≡◌, refl, true, false, Option, none, some, List, [], ◌∷◌, All, Text, same, codes,
}

abbrev alpha : Text
alpha = codes "alpha"

-- Timestamps of one digit.
abbrev parse_digit : Text → Option ℕ
parse_digit (d ∷ []) = some (d - b'0')
parse_digit _ = none

abbrev hub : ConsoleHub
unfolding with_maximum default env_usize
hub = new_hub true (with_maximum 65536) (default none none none none) none

abbrev raw : Text → RawLine
raw text = record {
  raw_line = text;
  clock = record { inserted = 5; strike_test = 5; window_test = 5; reopened = 5; struck = 5 };
  meanwhile = undisturbed;
}

abbrev lines : List RawLine
lines = raw (codes "1 up") ∷ raw (codes "2 joined") ∷ []

goes_on : (process_lines parse_digit alpha 0 lines new_cursor new_cursor hub).stopped ≡ false
unfolding hub process_lines process_docker_line split_docker_timestamp Str.split_once
    publish_line_when_active publish_prepared prepare_line shorten Protection.observe_line
    Protection.observe_rate Protection.forget_strikes Protection.reopen_window Protection.judge
    Dict.get Dict.insert same
goes_on = refl

resent : All (IsResent parse_digit lines) (raw (codes "2 joined") ∷ [])
unfolding IdSet.contains same split_docker_timestamp Str.split_once
resent = ((refl, refl), tt)

process_lines-replay_example :
    let seen = (process_lines parse_digit alpha 0 lines new_cursor new_cursor hub).cursor in
    process_lines parse_digit alpha 0 (raw (codes "2 joined") ∷ []) seen seen hub
    ≡ record { cursor = seen; hub = hub; sent = []; received_new_output = false; stopped = false }
process_lines-replay_example =
    process_lines-replay parse_digit alpha 0 lines (raw (codes "2 joined") ∷ []) new_cursor hub hub
      goes_on resent
