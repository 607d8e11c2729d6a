-- ===== src/Common/Signed.antt =====
-- Integers over the native numbers, and the two's complement reading of a machine word.
use Prim.Native.Nat.{ℕ, suc, ◌+◌, ◌-◌, ◌*◌, ◌<◌}
use mathlib.Core.Path.{◌≡◌}
use native.Mathlib.Omega.{arith}
use morgue.Common.Tests.{ltb, leb, if◌then◌else◌}

-- `negsuc n` is -(n + 1).
pub data ℤ : Type 0 where
  pos : ℕ → ℤ
  negsuc : ℕ → ℤ

-- a - b, as an integer.
abbrev pub sub_ℕ : ℕ → ℕ → ℤ
sub_ℕ a b = if leb b a then pos (a - b) else negsuc (b - a - 1)

abbrev pub pos_part : ℤ → ℕ
pos_part (pos n) = n
pos_part (negsuc n) = 0

abbrev pub neg_part : ℤ → ℕ
neg_part (pos n) = 0
neg_part (negsuc n) = suc n

-- `z + 1` and `z - 1`, for counters that may go below zero.
abbrev pub inc : ℤ → ℤ
inc z = sub_ℕ (pos_part z + 1) (neg_part z)

abbrev pub dec : ℤ → ℤ
dec z = sub_ℕ (pos_part z) (neg_part z + 1)

-- The conversions int8(v), int16(v), int32(v) and int64(v) of a word below 2 * half, where half
-- is 2^7, 2^15, 2^31 and 2^63.
unfoldable pub signed : ℕ → ℕ → ℤ
signed half v = if ltb v half then pos v else negsuc (2 * half - 1 - v)

-- The word that stands for an integer.
unfoldable pub unsigned : ℕ → ℤ → ℕ
unsigned half (pos n) = n
unsigned half (negsuc n) = 2 * half - 1 - n

abbrev pub Fits : ℕ → ℤ → Type 0
Fits half (pos n) = n < half
Fits half (negsuc n) = n < half

pub signed-unsigned : (half : ℕ) (z : ℤ) → Fits half z → signed half (unsigned half z) ≡ z
unfolding signed unsigned
signed-unsigned half (pos n) h = ground arith
signed-unsigned half (negsuc n) h = ground arith

pub unsigned-lt : (half : ℕ) (z : ℤ) → Fits half z → unsigned half z < 2 * half
unfolding unsigned
unsigned-lt half (pos n) h = omega arith
unsigned-lt half (negsuc n) h = omega arith

pub signed-Fits : (half v : ℕ) → v < 2 * half → Fits half (signed half v)
unfolding signed
signed-Fits half v h = ground arith
