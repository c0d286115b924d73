-- ===== src/Base/Integers.antt =====
-- Signed integers over the native numbers: `negsuc n` is -(n + 1).
use Prim.Native.Nat.{ℕ, suc, ◌+◌, ◌-◌}
use mathlib.Core.Bool.{Bool}
use agapornis_agent_rust.Base.Tests.{ltb}

pub data ℤ : Type 0 where
  pos negsuc : ℕ → ℤ

abbrev pub pos_part : ℤ → ℕ
pos_part (pos n) = n
pos_part (negsuc n) = 0

abbrev pub neg_part : ℤ → ℕ
neg_part (pos n) = 0
neg_part (negsuc n) = suc n

-- `a < b`
abbrev pub is_less : ℤ → ℤ → Bool
is_less a b = ltb (pos_part a + neg_part b) (pos_part b + neg_part a)

-- `a - b` where that is positive, and else 0.
abbrev pub excess : ℤ → ℤ → ℕ
excess a b = (pos_part a + neg_part b) - (pos_part b + neg_part a)
