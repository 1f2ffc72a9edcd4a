-- ===== src/Common/Int.antt =====
-- Go's `int`, `int64` and `time.Duration` as integers, with the tests that the code makes on them.
use Prim.Native.Nat.{ℕ, suc, ◌+◌, ◌-◌, ◌*◌, ◌%◌, ◌^◌}
use mathlib.Core.Bool.{Bool, true, false}
use spooled_sdk_go.Common.Tests.{leb, ltb, ◌==◌, if◌then◌else◌}

-- `negsuc n` is -(n + 1).
pub data ℤ : Type 0 where
  pos : ℕ → ℤ
  negsuc : ℕ → ℤ

-- a - b, as an integer.
abbrev pub sub_ℕ : ℕ → ℕ → ℤ
sub_ℕ a b = if leb b a then pos (a - b) else negsuc (b - a - 1)

abbrev pub leb_ℤ : ℤ → ℤ → Bool
leb_ℤ (pos a) (pos b) = leb a b
leb_ℤ (pos a) (negsuc b) = false
leb_ℤ (negsuc a) (pos b) = true
leb_ℤ (negsuc a) (negsuc b) = leb b a

abbrev pub ltb_ℤ : ℤ → ℤ → Bool
ltb_ℤ (pos a) (pos b) = ltb a b
ltb_ℤ (pos a) (negsuc b) = false
ltb_ℤ (negsuc a) (pos b) = true
ltb_ℤ (negsuc a) (negsuc b) = ltb b a

abbrev pub is_zero : ℤ → Bool
is_zero (pos a) = a == 0
is_zero (negsuc a) = false

abbrev pub pos_part : ℤ → ℕ
pos_part (pos n) = n
pos_part (negsuc n) = 0

abbrev pub neg_part : ℤ → ℕ
neg_part (pos n) = 0
neg_part (negsuc n) = suc n

infixl 65 ◌+ℤ◌
unfoldable pub ◌+ℤ◌ : ℤ → ℤ → ℤ
a +ℤ b = sub_ℕ (pos_part a + pos_part b) (neg_part a + neg_part b)

-- A product with a natural number.
unfoldable pub scale : ℕ → ℤ → ℤ
scale k a = sub_ℕ (k * pos_part a) (k * neg_part a)

-- The `int64` that a bit pattern below 2 ^ 64 stands for.
unfoldable pub of_bits : ℕ → ℤ
of_bits r = if ltb r (2 ^ 63) then pos r else negsuc (2 ^ 64 - 1 - r)

-- What an `int64` operation leaves of its exact result.
unfoldable pub wrap64 : ℤ → ℤ
unfolding of_bits
wrap64 (pos n) = of_bits (n % 2 ^ 64)
wrap64 (negsuc n) = of_bits (2 ^ 64 - 1 - n % 2 ^ 64)
