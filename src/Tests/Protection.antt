-- ===== src/Tests/Protection.antt =====
-- Rates and marks at concrete times: src/security/protection.rs.
use agapornis_agent_rust.Base.Dict
use agapornis_agent_rust.Security.Protection.{
  LineClock, CommandClock, ProtectionState, default, env_usize, mark, disk_limit_exceeded,
}
use agapornis_agent_rust.Security.Protection.Windows.{observe_all, allowed, notices, window_exact}
use agapornis_agent_rust.Base.{ℕ, ◌≤◌, ◌≡◌, none, some, List, [], ◌∷◌, arith, Text, codes}

abbrev alpha : Text
alpha = codes "alpha"

abbrev beta : Text
beta = codes "beta"

-- A limit of two lines per second and of one command in five.
abbrev strict : ProtectionState
unfolding default env_usize
strict = default (some 2) (some 3) none (some 1)

abbrev line_at : ℕ → LineClock
line_at now = record {
  inserted = now;
  strike_test = now;
  window_test = now;
  reopened = now;
  struck = now;
}

abbrev command_at : ℕ → CommandClock
command_at now = record { inserted = now; window_test = now; reopened = now }

abbrev three_lines : List LineClock
three_lines = line_at 10 ∷ line_at 20 ∷ line_at 30 ∷ []

window_exact_example :
    (allowed (observe_all alpha (line_at 5 ∷ three_lines) strict).1 ≡ 2)
    × (notices (observe_all alpha (line_at 5 ∷ three_lines) strict).1 ≤ 1)
unfolding strict
window_exact_example =
    window_exact alpha (line_at 5) three_lines strict (unfold Dict.get default in omega arith)
      (unfold Dict.get default in omega arith) (omega arith)

abbrev full_disk : ProtectionState
full_disk = mark alpha disk_limit_exceeded strict
