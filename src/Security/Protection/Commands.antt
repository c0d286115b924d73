-- ===== src/Security/Protection/Commands.antt =====
-- How many commands of a server are accepted in one window of five seconds.
use agapornis_agent_rust.Base.Dict
use agapornis_agent_rust.Security.Protection.{
  second, elapsed, Rate, ProtectionState, CommandClock, accept_rate, accept_command, or_insert,
}
use agapornis_agent_rust.Base.{
  ℕ, suc, ◌+◌, ◌-◌, ◌*◌, ◌≤◌, ◌<◌, min, ◌≡◌, refl, ◌∙◌, inl, inr, Bool, true, false, Option, none,
  some, List, [], ◌∷◌, arith, leb, Bool-cases, length, Text, same_refl, u64_max,
}

-- The commands for one server, each with its readings of the clock, and which are accepted.
unfoldable pub accept_all : Text → List CommandClock → ProtectionState → ProtectionState × List Bool
accept_all id [] s = (s, [])
accept_all id (t ∷ ts) s =
    let (s', accepted) = accept_command t id s in
    let (s'', rest) = accept_all id ts s' in (s'', accepted ∷ rest)

abbrev pub count_true : List Bool → ℕ
count_true [] = 0
count_true (true ∷ bs) = suc (count_true bs)
count_true (false ∷ bs) = count_true bs

abbrev pub WithinWindow : ℕ → List CommandClock → Type 0
WithinWindow started [] = Unit
WithinWindow started (t ∷ ts) =
    (elapsed t.window_test started < 5 * second) × WithinWindow started ts

abbrev pub Opens : CommandClock → Option Rate → Type 0
Opens t none = elapsed t.window_test t.inserted < 5 * second
Opens t (some r) = 5 * second ≤ elapsed t.window_test r.started

abbrev pub opened : CommandClock → Option Rate → ℕ
opened t none = t.inserted
opened t (some r) = t.reopened

accept_rate_inside :
    (s : ProtectionState) (t : CommandClock) (r : Rate)
    → elapsed t.window_test r.started < 5 * second
    → r.count < u64_max
    → accept_rate s t r ≡ (
      record { started = r.started; count = r.count + 1 },
      leb (r.count + 1) s.console_commands_per_5_seconds,
    )
unfolding accept_rate
accept_rate_inside s t r h n = ground arith

accept_rate-Opens :
    (s : ProtectionState) (t : CommandClock) (entry : Option Rate)
    → Opens t entry
    → accept_rate s t (or_insert entry (record { started = t.inserted; count = 0 }))
      ≡ (record { started = opened t entry; count = 1 }, leb 1 s.console_commands_per_5_seconds)
unfolding accept_rate
accept_rate-Opens s t none h = ground arith
accept_rate-Opens s t (some r) h = ground arith

-- One more command, when `count` have come in the window and `n` are still to come.
count_true-cons :
    (limit count n : ℕ) (rest : List Bool)
    → count_true rest ≡ min (limit - (count + 1)) n
    → count_true (leb (count + 1) limit ∷ rest) ≡ min (limit - count) (suc n)
count_true-cons limit count n rest h = elim (Bool-cases (leb (count + 1) limit)) [
  | inl room ↦ let le : count + 1 ≤ limit = ground arith in rw room (omega (arith, h, le))
  | inr full ↦ let gt : limit < count + 1 = ground arith in rw full (omega (arith, h, gt))
]

first_of_window :
    (limit n : ℕ) (rest : List Bool)
    → count_true rest ≡ min (limit - 1) n
    → count_true (leb 1 limit ∷ rest) ≡ min limit (suc n)
first_of_window limit n rest h = count_true-cons limit 0 n rest h ∙ omega arith

accept_all-count :
    (id : Text) (ts : List CommandClock) (s : ProtectionState) (r : Rate)
    → Dict.get id s.commands ≡ some r
    → WithinWindow r.started ts
    → r.count + length ts ≤ u64_max
    → count_true (accept_all id ts s).1
      ≡ min (s.console_commands_per_5_seconds - r.count) (length ts)
unfolding accept_all accept_command
accept_all-count id [] s r e w n = omega arith
accept_all-count id (t ∷ ts) s r e w n =
    let r' : Rate = record { started = r.started; count = r.count + 1 } in
    let s' : ProtectionState = record s { commands = Dict.insert id r' s.commands } in
    let ih =
      accept_all-count id ts s' r' (rw (Dict.get-insert, same_refl) refl) w.1 (omega (arith, n)) in
    let one = accept_rate_inside s t r w.0 (omega (arith, n)) in
    rw (e, one) (count_true-cons s.console_commands_per_5_seconds r.count (length ts) _ ih)

-- When a command opens a window, as the first of its server or five seconds or more after the
-- last window opened, and `ts` are the commands of that window, which are fewer than 2^64:
-- exactly as many are accepted as the limit on commands in five seconds, or all if there are
-- fewer.
pub command_window_exact :
    (id : Text) (t : CommandClock) (ts : List CommandClock) (s : ProtectionState)
    → Opens t (Dict.get id s.commands)
    → WithinWindow (opened t (Dict.get id s.commands)) ts
    → suc (length ts) ≤ u64_max
    → count_true (accept_all id (t ∷ ts) s).1
      ≡ min s.console_commands_per_5_seconds (suc (length ts))
unfolding accept_all accept_command
command_window_exact id t ts s o w n =
    let r' : Rate = record { started = opened t (Dict.get id s.commands); count = 1 } in
    let s' : ProtectionState = record s { commands = Dict.insert id r' s.commands } in
    let rest =
      accept_all-count id ts s' r' (rw (Dict.get-insert, same_refl) refl) w (omega (arith, n)) in
    rw (accept_rate-Opens s t (Dict.get id s.commands) o)
      (first_of_window s.console_commands_per_5_seconds (length ts) _ rest)
