-- ===== src/Security/Protection.antt =====
-- Runtime protection: src/security/protection.rs.
-- An `Instant` is a number of nanoseconds, and each place that reads the clock has a reading of its
-- own. `elapsed` is 0 for an instant that lies ahead. A mutex guards each map, and no call holds
-- two, so a call on one map is one step.
pub mod Windows
pub mod Commands
pub mod Marks
use agapornis_agent_rust.Base.Dict
use agapornis_agent_rust.Base.Dict.{Dict}
use agapornis_agent_rust.Base.{
  ℕ, zero, suc, ◌+◌, ◌-◌, ◌*◌, ◌/◌, ◌%◌, ◌^◌, ◌≤◌, ◌<◌, min, max, ◌≡◌, refl, sym, ap, ◌∙◌, ◌≢◌, ◌↔◌,
  ◌⊎◌, inl, inr, Bool, true, false, not, ◌&&◌, ◌||◌, Option, none, some, List, [], ◌∷◌, ◌++◌, map,
  arith, ltb, leb, ◌==◌, if◌then◌else◌, ==_iff, ltb-eq-false, Bool-cases, Option-cases, is_some,
  length, length-append, take, drop, take-append-drop, All, All-append, IsSuffix, Text, same,
  same_iff, same_refl, codes, u64_max, sat_add, wrapping_add, sat_add_exact,
}

abbrev pub second : ℕ
second = 1000000000

abbrev pub elapsed : ℕ → ℕ → ℕ
elapsed now since = now - since

pub record Rate : Type 0 where
  pub started : ℕ
  pub count : ℕ

pub record ConsoleRate : Type 0 where
  pub started : ℕ
  pub count : ℕ
  pub strikes : ℕ
  pub last_strike : Option ℕ
  pub exceeded : Bool

pub data LineDecision : Type 0 where
  allow suppress notify trip : LineDecision

pub record ProtectionState : Type 0 where
  pub commands : Dict Rate
  pub console : Dict ConsoleRate
  pub statuses : Dict Text
  pub recovery : Dict ℕ
  pub console_lines_per_second : ℕ
  pub console_strike_limit : ℕ
  pub console_max_line_length : ℕ
  pub console_commands_per_5_seconds : ℕ

-- `env_usize`, over the parsed value of the variable, if there is one.
unfoldable pub env_usize : Option ℕ → ℕ → ℕ
env_usize none fallback = fallback
env_usize (some v) fallback = if ltb 0 v then v else fallback

-- `ProtectionState::default`, over the four values that the environment holds.
unfoldable pub default : Option ℕ → Option ℕ → Option ℕ → Option ℕ → ProtectionState
unfolding env_usize
default lines strikes line_length commands = record {
  commands = [];
  console = [];
  statuses = [];
  recovery = [];
  console_lines_per_second = env_usize lines 2000;
  console_strike_limit = env_usize strikes 3;
  console_max_line_length = env_usize line_length 16384;
  console_commands_per_5_seconds = env_usize commands 20;
}

-- The clock where one call of `observe_line` reads it: when it makes a new entry, at the test of the
-- last strike, at the test of the window, when it opens a window, and when it notes a strike.
pub record LineClock : Type 0 where
  pub inserted : ℕ
  pub strike_test : ℕ
  pub window_test : ℕ
  pub reopened : ℕ
  pub struck : ℕ

abbrev pub new_rate : ℕ → ConsoleRate
new_rate now = record {
  started = now;
  count = 0;
  strikes = 0;
  last_strike = none;
  exceeded = false;
}

-- `if let Some(ls) = rate.last_strike && ls.elapsed() >= 10s`
unfoldable pub forget_strikes : ℕ → ConsoleRate → ConsoleRate
forget_strikes now rate = elim rate.last_strike [
  | none ↦ rate
  | some ls ↦
      if leb (10 * second) (elapsed now ls)
      then record rate { strikes = 0; last_strike = none }
      else rate
]

-- `if rate.started.elapsed() >= 1s`
unfoldable pub reopen_window : LineClock → ConsoleRate → ConsoleRate
reopen_window t rate =
    if leb second (elapsed t.window_test rate.started)
    then record rate { started = t.reopened; count = 0; exceeded = false }
    else rate

-- The decision, once the line is counted.
unfoldable pub judge : ProtectionState → LineClock → ConsoleRate → ConsoleRate × LineDecision
judge s t rate =
    if leb rate.count s.console_lines_per_second
    then (rate, allow)
    else if rate.exceeded
    then (rate, suppress)
    else (let struck = record rate {
      exceeded = true;
      strikes = wrapping_add rate.strikes 1;
      last_strike = some t.struck;
    } in
        if leb s.console_strike_limit struck.strikes
        then (struck, trip)
        else if struck.strikes == 1
        then (struck, notify)
        else (struck, suppress))

abbrev pub counted : ConsoleRate → ConsoleRate
counted rate = record rate { count = wrapping_add rate.count 1 }

-- `observe_line` on the entry of one server.
unfoldable pub observe_rate : ProtectionState → LineClock → ConsoleRate → ConsoleRate × LineDecision
observe_rate s t rate = judge s t (counted (reopen_window t (forget_strikes t.strike_test rate)))

abbrev pub or_insert {ℓ} : {A : Type ℓ} → Option A → A → A
or_insert none new = new
or_insert (some old) new = old

unfoldable pub observe_line : LineClock → Text → ProtectionState → ProtectionState × LineDecision
observe_line t id s =
    let (rate, decision) =
      observe_rate s t (or_insert (Dict.get id s.console) (new_rate t.inserted)) in
    (record s { console = Dict.insert id rate s.console }, decision)

-- The clock where one call of `accept_command` reads it.
pub record CommandClock : Type 0 where
  pub inserted : ℕ
  pub window_test : ℕ
  pub reopened : ℕ

unfoldable pub accept_rate : ProtectionState → CommandClock → Rate → Rate × Bool
accept_rate s t rate =
    let current =
      if leb (5 * second) (elapsed t.window_test rate.started)
      then record { started = t.reopened; count = 0 }
      else rate in
    let bumped = wrapping_add current.count 1 in
    (
      record { started = current.started; count = bumped },
      leb bumped s.console_commands_per_5_seconds,
    )

unfoldable pub accept_command : CommandClock → Text → ProtectionState → ProtectionState × Bool
accept_command t id s =
    let (rate, accepted) =
      accept_rate s t
        (or_insert (Dict.get id s.commands) (record { started = t.inserted; count = 0 })) in
    (record s { commands = Dict.insert id rate s.commands }, accepted)

unfoldable pub status : Text → ProtectionState → Option Text
status id s = Dict.get id s.statuses

unfoldable pub mark : Text → Text → ProtectionState → ProtectionState
mark id value s = record s { statuses = Dict.insert id value s.statuses }

abbrev pub disk_limit_exceeded : Text
disk_limit_exceeded = codes "disk-limit-exceeded"

abbrev pub is_some_and : (Text → Bool) → Option Text → Bool
is_some_and p none = false
is_some_and p (some v) = p v

unfoldable pub clear_disk : Text → ProtectionState → ProtectionState
clear_disk id s =
    if is_some_and (λ v. same v disk_limit_exceeded) (Dict.get id s.statuses)
    then record s { statuses = Dict.remove id s.statuses }
    else s

unfoldable pub manual_recovery : ℕ → Text → ProtectionState → ProtectionState
manual_recovery now id s = record s {
  statuses = Dict.remove id s.statuses;
  recovery = Dict.insert id (now + 120 * second) s.recovery;
}

unfoldable pub in_manual_recovery : ℕ → Text → ProtectionState → ProtectionState × Bool
in_manual_recovery now id s = elim (Dict.get id s.recovery) [
  | none ↦ (s, false)
  | some until ↦
      if ltb now until
      then (s, true)
      else (record s { recovery = Dict.remove id s.recovery }, false)
]

unfoldable pub remove : Text → ProtectionState → ProtectionState
remove id s = record s {
  commands = Dict.remove id s.commands;
  console = Dict.remove id s.console;
  statuses = Dict.remove id s.statuses;
  recovery = Dict.remove id s.recovery;
}
