-- ===== src/Base/Words.antt =====
-- Machine integers: `u64` and `usize` on the 64-bit targets that the agent is released for.
use Prim.Native.Nat.{ℕ, ◌+◌, ◌%◌, ◌≤◌, min}
use mathlib.Core.Path.{◌≡◌}
use native.Mathlib.Omega.{arith}

abbrev pub u64_max : ℕ
u64_max = 18446744073709551615

-- `saturating_add`; `saturating_sub` is the truncated `-`.
abbrev pub sat_add : ℕ → ℕ → ℕ
sat_add a b = min (a + b) u64_max

-- `+` in a release build wraps.
abbrev pub wrapping_add : ℕ → ℕ → ℕ
wrapping_add a b = (a + b) % 18446744073709551616

pub sat_add_exact : (a b : ℕ) → a + b ≤ u64_max → sat_add a b ≡ a + b
sat_add_exact a b h = omega arith
