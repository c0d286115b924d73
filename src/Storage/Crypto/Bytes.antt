-- ===== src/Storage/Crypto/Bytes.antt =====
-- Four bytes for a number below 2^32, the highest first.
use agapornis_agent_rust.Base.{ℕ, ◌+◌, ◌*◌, ◌/◌, ◌%◌, ◌<◌, ◌≡◌, refl, [], ◌∷◌, arith, length, Text}

unfoldable pub to_be_bytes : ℕ → Text
to_be_bytes n = (n / 16777216) % 256 ∷ (n / 65536) % 256 ∷ (n / 256) % 256 ∷ n % 256 ∷ []

-- `from_be_bytes`, for any number of bytes
unfoldable pub from_be_bytes : Text → ℕ
from_be_bytes (a ∷ b ∷ c ∷ d ∷ []) = a * 16777216 + b * 65536 + c * 256 + d
from_be_bytes _ = 0

pub from_be_bytes-to_be_bytes : (n : ℕ) → n < 4294967296 → from_be_bytes (to_be_bytes n) ≡ n
unfolding from_be_bytes to_be_bytes
from_be_bytes-to_be_bytes n h = omega arith

pub length-to_be_bytes : (n : ℕ) → length (to_be_bytes n) ≡ 4
unfolding to_be_bytes
length-to_be_bytes n = refl
