-- ===== src/Base/Int.antt =====
-- `int32_t` values: signed numbers, and the bounds that arithmetic in `int` must keep.
use Prim.Native.Nat.{ℕ, zero, suc, ◌+◌, ◌-◌, ◌/◌, ◌%◌, ◌^◌}
use arduino_dsmr.Base.Tests.{if◌then◌else◌, leb}
use arduino_dsmr.Base.Outcome.{Outcome, ok, undefined}

-- `negsuc n` is -(n + 1).
pub data ℤ : Type 0 where
  pos : ℕ → ℤ
  negsuc : ℕ → ℤ

-- `-value` of a value that is not negative; it always fits.
abbrev pub neg : ℕ → ℤ
neg zero = pos 0
neg (suc n) = negsuc n

abbrev pub int_max : ℕ
int_max = 2 ^ 31 - 1

-- a - b, as an integer.
abbrev pub sub_ℕ : ℕ → ℕ → ℤ
sub_ℕ a b = if leb b a then pos (a - b) else negsuc (b - a - 1)

infixl 65 ◌+ℤ◌
unfoldable pub ◌+ℤ◌ : ℤ → ℤ → ℤ
pos a +ℤ pos b = pos (a + b)
pos a +ℤ negsuc b = sub_ℕ a (b + 1)
negsuc a +ℤ pos b = sub_ℕ b (a + 1)
negsuc a +ℤ negsuc b = negsuc (a + b + 1)

-- A result of `int32_t` arithmetic.
unfoldable pub int32_of : ℤ → Outcome ℤ
int32_of (pos n) = if leb n int_max then ok (pos n) else undefined
int32_of (negsuc n) = if leb n int_max then ok (negsuc n) else undefined

-- `a / b` for a positive `b`: the quotient is rounded towards 0.
unfoldable pub div_ℕ : ℤ → ℕ → ℤ
div_ℕ (pos a) b = pos (a / b)
div_ℕ (negsuc a) b = neg ((a + 1) / b)

-- The cast to an unsigned type of `w` bits.
unfoldable pub to_unsigned : ℕ → ℤ → ℕ
to_unsigned w (pos n) = n % 2 ^ w
to_unsigned w (negsuc n) = 2 ^ w - 1 - n % 2 ^ w
