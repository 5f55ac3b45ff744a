-- ===== src/Base/Int.antt =====
-- Python's integers over the native numbers, with the bit operations of two's complement.
use Prim.Native.Nat.{ℕ, zero, suc, ◌+◌, ◌-◌, ◌*◌, ◌^◌, bit_and, bit_or}
use mathlib.Core.Bool.{Bool, false}
use frenetic.Base.Tests.{leb, ◌==◌, if◌then◌else◌}

-- `negsuc n` is -(n + 1), the complement of n.
pub data ℤ : Type 0 where
  pos : ℕ → ℤ
  negsuc : ℕ → ℤ

-- -n
abbrev pub neg_ℕ : ℕ → ℤ
neg_ℕ zero = pos 0
neg_ℕ (suc n) = negsuc n

-- a - b
abbrev pub sub_ℕ : ℕ → ℕ → ℤ
sub_ℕ a b = if leb b a then pos (a - b) else negsuc (b - a - 1)

abbrev pub eq_ℤ : ℤ → ℤ → Bool
eq_ℤ (pos a) (pos b) = a == b
eq_ℤ (negsuc a) (negsuc b) = a == b
eq_ℤ _ _ = false

-- ~a
abbrev pub complement : ℤ → ℤ
complement (pos n) = negsuc n
complement (negsuc n) = pos n

-- a & b; on a negative number the bits are those of the complement, inverted.
abbrev pub int_and : ℤ → ℤ → ℤ
int_and (pos a) (pos b) = pos (bit_and a b)
int_and (pos a) (negsuc b) = pos (a - bit_and a b)
int_and (negsuc a) (pos b) = pos (b - bit_and b a)
int_and (negsuc a) (negsuc b) = negsuc (bit_or a b)

-- a | b
abbrev pub int_or : ℤ → ℤ → ℤ
int_or (pos a) (pos b) = pos (bit_or a b)
int_or (pos a) (negsuc b) = negsuc (b - bit_and b a)
int_or (negsuc a) (pos b) = negsuc (a - bit_and a b)
int_or (negsuc a) (negsuc b) = negsuc (bit_and a b)

-- a << k
abbrev pub shl : ℤ → ℕ → ℤ
shl (pos n) k = pos (n * 2 ^ k)
shl (negsuc n) k = negsuc ((n + 1) * 2 ^ k - 1)

-- a * b
abbrev pub mul_ℤ : ℤ → ℤ → ℤ
mul_ℤ (pos a) (pos b) = pos (a * b)
mul_ℤ (pos a) (negsuc b) = neg_ℕ (a * (b + 1))
mul_ℤ (negsuc a) (pos b) = neg_ℕ ((a + 1) * b)
mul_ℤ (negsuc a) (negsuc b) = pos ((a + 1) * (b + 1))
