-- ===== src/Console/Reader.antt =====
-- Which lines of a container's log a reader publishes: src/grpc/services/console/reader.rs. Instants
-- are numbers, since the code only compares them, and their parser is a parameter.
pub mod Replay
use agapornis_agent_rust.Base.IdSet
use agapornis_agent_rust.Base.IdSet.{IdSet}
use agapornis_agent_rust.Base.Str
use agapornis_agent_rust.Console.History.{ConsoleEntry}
use agapornis_agent_rust.Security.Protection.{LineClock}
use agapornis_agent_rust.Console.Hub.{ConsoleHub}
use agapornis_agent_rust.Console.Hub.Publish.{Meanwhile, publish_line_when_active}
use agapornis_agent_rust.Base.{
  ℕ, zero, suc, ◌+◌, ◌-◌, ◌*◌, ◌/◌, ◌%◌, ◌^◌, ◌≤◌, ◌<◌, min, max, ◌≡◌, refl, sym, ap, ◌∙◌, ◌≢◌, ◌↔◌,
  ◌⊎◌, inl, inr, Bool, true, false, not, ◌&&◌, ◌||◌, Option, none, some, List, [], ◌∷◌, ◌++◌, map,
  arith, ltb, leb, ◌==◌, if◌then◌else◌, ==_iff, ltb-eq-false, Bool-cases, Option-cases, is_some,
  length, length-append, take, drop, take-append-drop, All, All-append, IsSuffix, Text, same,
  same_iff, same_refl, codes, u64_max, sat_add, wrapping_add, sat_add_exact,
}

-- `cursor` with `cursor_lines`, and so the cutoff that is made of them for the next connection.
pub record Cursor : Type 0 where
  pub at : Option ℕ
  pub lines : IdSet

abbrev pub new_cursor : Cursor
new_cursor = record { at = none; lines = [] }

pub data ProcessLineOutcome : Type 0 where
  published skipped stale : ProcessLineOutcome

-- A line as it comes from Docker, with the clock at its observation, and what other tasks do to the
-- hub while it is published.
pub record RawLine : Type 0 where
  pub raw_line : Text
  pub clock : LineClock
  pub meanwhile : Meanwhile

-- Whether a line with this timestamp was published before the reader reconnected.
abbrev pub is_before : Cursor → ℕ → Text → Bool
is_before cutoff t line = elim cutoff.at [
  | none ↦ false
  | some c ↦ ltb t c || t == c && IdSet.contains line cutoff.lines
]

abbrev pub is_replayed : Cursor → Option ℕ → Text → Bool
is_replayed cutoff none line = false
is_replayed cutoff (some t) line = is_before cutoff t line

-- The cursor after a line with this timestamp.
unfoldable pub advance_to : ℕ → Text → Cursor → Cursor
advance_to t line cursor = elim cursor.at [
  | none ↦ record { at = some t; lines = IdSet.insert line [] }
  | some current ↦
      if ltb t current
      then cursor
      else if t == current
      then record cursor { lines = IdSet.insert line cursor.lines }
      else record { at = some t; lines = IdSet.insert line [] }
]

abbrev pub advance : Option ℕ → Text → Cursor → Cursor
advance none line cursor = cursor
advance (some t) line cursor = advance_to t line cursor

-- What a round of the loop over lines adds to what the later rounds send and publish.
pub record Processed : Type 0 where
  pub cursor : Cursor
  pub hub : ConsoleHub
  pub sent : List (Option (ℕ × ConsoleEntry))
  pub received_new_output : Bool
  pub stopped : Bool

module _ (parse_from_rfc3339 : Text → Option ℕ) where
  unfoldable pub split_docker_timestamp : Text → Option ℕ × Text
  split_docker_timestamp line = elim (Str.split_once (λ c. c == b' ') line) [
    | none ↦ (none, line)
    | some (candidate, output) ↦ elim (parse_from_rfc3339 candidate) [
      | none ↦ (none, line)
      | some timestamp ↦ (some timestamp, output)
    ]
  ]

  unfoldable pub process_docker_line :
      Text
      → ℕ
      → RawLine
      → Cursor
      → Cursor
      → ConsoleHub
      → Cursor × ConsoleHub × Option (ℕ × ConsoleEntry) × ProcessLineOutcome
  process_docker_line id ticket raw cutoff cursor hub =
      let (timestamp, line) = split_docker_timestamp raw.raw_line in
      if is_replayed cutoff timestamp line
      then (cursor, hub, none, skipped)
      else (let (after, out, still) =
            publish_line_when_active raw.clock id line ticket raw.meanwhile hub in
          (advance timestamp line cursor, after, out, if still then published else stale))

  -- `for line in … { match self.process_docker_line(…) … }` of `read_loop`.
  unfoldable pub process_lines : Text → ℕ → List RawLine → Cursor → Cursor → ConsoleHub → Processed
  process_lines id ticket [] cutoff cursor hub = record {
    cursor = cursor;
    hub = hub;
    sent = [];
    received_new_output = false;
    stopped = false;
  }
  process_lines id ticket (raw ∷ lines) cutoff cursor hub =
      let (cursor', hub', out, outcome) = process_docker_line id ticket raw cutoff cursor hub in
      let rest = process_lines id ticket lines cutoff cursor' hub' in
      elim outcome [
        | published ↦ record rest { sent = out ∷ rest.sent; received_new_output = true }
        | skipped ↦ rest
        | stale ↦ record {
          cursor = cursor';
          hub = hub';
          sent = out ∷ [];
          received_new_output = false;
          stopped = true;
        }
      ]
