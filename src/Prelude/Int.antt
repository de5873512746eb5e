-- ===== src/Prelude/Int.antt =====
-- Signed integers over the native numbers, and the wrap-around of Go's 64-bit arithmetic.
use Prim.Native.Nat.{ℕ, suc, ◌+◌, ◌-◌, ◌*◌, ◌%◌}
use mathlib.Core.Path.{◌≡◌}
use mathlib.Core.Bool.{Bool, true}
use native.Mathlib.Omega.{arith}
use beacon_desk.Prelude.Tests.{ltb, leb, if◌then◌else◌}

-- `negsuc n` is -(n + 1).
pub data ℤ : Type 0 where
  pos : ℕ → ℤ
  negsuc : ℕ → ℤ

abbrev pub pos_part : ℤ → ℕ
pos_part (pos n) = n
pos_part (negsuc n) = 0

abbrev pub neg_part : ℤ → ℕ
neg_part (pos n) = 0
neg_part (negsuc n) = suc n

-- a - b, as an integer.
abbrev pub sub_ℕ : ℕ → ℕ → ℤ
sub_ℕ a b = if leb b a then pos (a - b) else negsuc (b - a - 1)

abbrev pub sub_ℤ : ℤ → ℤ → ℤ
sub_ℤ a b = sub_ℕ (pos_part a + neg_part b) (neg_part a + pos_part b)

abbrev pub ltb_ℤ : ℤ → ℤ → Bool
ltb_ℤ a b = ltb (pos_part a + neg_part b) (pos_part b + neg_part a)

abbrev pub int64_limit : ℕ
int64_limit = 0x8000000000000000

-- The range of Go's `int64` (and of `int`, on the 64-bit targets that the program is built for).
abbrev pub in_int64 : ℤ → Bool
in_int64 (pos n) = ltb n int64_limit
in_int64 (negsuc n) = ltb n int64_limit

-- The bit pattern of `x`, read as a signed 64-bit integer.
abbrev pub from_bits : ℕ → ℤ
from_bits b = if ltb b int64_limit then pos b else negsuc (0xffffffffffffffff - b)

unfoldable pub wrap64 : ℤ → ℤ
wrap64 (pos n) = from_bits (n % 0x10000000000000000)
wrap64 (negsuc n) = from_bits (0xffffffffffffffff - n % 0x10000000000000000)

-- `a * k` for a constant `k > 0`, before it is wrapped.
abbrev pub scale : ℤ → ℕ → ℤ
scale (pos n) k = pos (n * k)
scale (negsuc n) k = negsuc (suc n * k - 1)

pub wrap64_in_range : (a : ℤ) → in_int64 (wrap64 a) ≡ true
unfolding wrap64
wrap64_in_range a = ground arith

pub wrap64_id : (a : ℤ) → in_int64 a ≡ true → wrap64 a ≡ a
unfolding wrap64
wrap64_id a h = ground arith
