-- ===== src/Prelude/Int.antt =====
-- Signed integers over the native numbers: the values of Go's `int` and `int64`.
use Prim.Native.Nat.{ℕ, suc, ◌+◌, ◌-◌, ◌%◌, ◌^◌}
use mathlib.Core.Bool.{Bool}
use webridge.Prelude.Tests.{ltb, eqb, if◌then◌else◌}

-- `negsuc n` is -(n + 1).
pub data ℤ : Type 0 where
  pos : ℕ → ℤ
  negsuc : ℕ → ℤ

abbrev pub pos_part : ℤ → ℕ
pos_part (pos n) = n
pos_part (negsuc n) = 0

abbrev pub neg_part : ℤ → ℕ
neg_part (pos n) = 0
neg_part (negsuc n) = suc n

abbrev pub ltb_ℤ : ℤ → ℤ → Bool
ltb_ℤ a b = ltb (pos_part a + neg_part b) (pos_part b + neg_part a)

-- v > 0
abbrev pub is_positive : ℤ → Bool
is_positive a = ltb 0 (pos_part a)

-- v == 0
abbrev pub is_zero : ℤ → Bool
is_zero a = eqb (pos_part a + neg_part a) 0

-- An int64 from its 64 bits, and the bits of an integer.
abbrev pub signed : ℕ → ℤ
signed n = if ltb n (2 ^ 63) then pos n else negsuc (2 ^ 64 - 1 - n)

abbrev pub bits : ℤ → ℕ
bits (pos n) = n % 2 ^ 64
bits (negsuc n) = 2 ^ 64 - 1 - n % 2 ^ 64

-- a + b in int64
abbrev pub add64 : ℤ → ℤ → ℤ
add64 a b = signed ((bits a + bits b) % 2 ^ 64)
