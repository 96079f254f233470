-- ===== src/Base/Bits.antt =====
-- `^` and `|` at variables: one equation for the lowest digit, and what follows from it.
use Prim.Native.Nat.{
  ℕ, zero, suc, ◌+◌, ◌*◌, ◌/◌, ◌%◌, ◌≤◌, ◌<◌, ◌^◌, min, max, digits, bitwise, differ, bit_xor,
  bit_or, bit_and, bit_xor-bitwise, bit_or-bitwise, bit_and-bitwise,
}
use mathlib.Core.Path.{◌≡◌, refl, ap, ◌∙◌}
use native.Mathlib.Nat.{le_refl, pow-suc}
use native.Mathlib.Decide.{dec_lt}
use native.Mathlib.Omega.{arith}

module _ (base : ℕ → ℕ) (op : ℕ → ℕ → ℕ) where
  -- Fuel that covers the first number: one more makes no difference.
  digits-suc : (k x y : ℕ) → x ≤ k → digits base op (suc k) x y ≡ digits base op k x y
  digits-suc zero zero y h = refl
  digits-suc zero (suc x) y h = absurd (omega arith)
  digits-suc (suc k) zero y h = refl
  digits-suc (suc k) (suc x) y h = rw (digits-suc k (suc x / 2) (y / 2) (omega arith))

  -- So neither do any more.
  digits-le : (k l x y : ℕ) → x ≤ l → l ≤ k → digits base op k x y ≡ digits base op l x y
  digits-le zero zero x y h i = refl
  digits-le zero (suc l) x y h i = absurd (omega arith)
  digits-le (suc k) l x y h i = elim (dec_lt k l) [
    | yes most ↦ let top : suc k ≡ l = omega arith in ap (λ fuel. digits base op fuel x y) top
    | no less ↦ digits-suc k x y (omega arith) ∙ digits-le k l x y h (omega arith)
  ]

  bitwise_step :
      (x y : ℕ)
      → bitwise base op (suc x) y ≡ bitwise base op (suc x / 2) (y / 2) * 2 + op (suc x % 2) (y % 2)
  bitwise_step x y =
      let half : suc x / 2 ≤ x = omega arith in
      ap (λ rest. rest * 2 + op (suc x % 2) (y % 2))
        (digits-le x (suc x / 2) (suc x / 2) (y / 2) (le_refl (suc x / 2)) half)

differ-zero : (b : ℕ) → differ 0 (b % 2) ≡ b % 2
differ-zero b = refl

pub bit_xor_step : (x y : ℕ) → bit_xor x y ≡ differ (x % 2) (y % 2) + 2 * bit_xor (x / 2) (y / 2)
bit_xor_step (suc x) y =
    let digit = bitwise_step (λ x. x) differ x y in simp bit_xor-bitwise (omega (arith, digit))
bit_xor_step zero y = simp bit_xor-bitwise (omega (arith, differ-zero y))

pub bit_or_step : (x y : ℕ) → bit_or x y ≡ max (x % 2) (y % 2) + 2 * bit_or (x / 2) (y / 2)
bit_or_step (suc x) y =
    let digit = bitwise_step (λ x. x) max x y in simp bit_or-bitwise (omega (arith, digit))
bit_or_step zero y = simp bit_or-bitwise (omega arith)

pub bit_and_step : (x y : ℕ) → bit_and x y ≡ min (x % 2) (y % 2) + 2 * bit_and (x / 2) (y / 2)
bit_and_step (suc x) y =
    let digit = bitwise_step (λ _. 0) min x y in simp bit_and-bitwise (omega (arith, digit))
bit_and_step zero y = simp bit_and-bitwise (omega arith)

bit_and-zero_below : (n a : ℕ) → a ≤ n → bit_and a 0 ≡ 0
bit_and-zero_below n zero h = refl
bit_and-zero_below zero (suc a) h = absurd (omega arith)
bit_and-zero_below (suc n) (suc a) h =
    omega (arith, bit_and_step (suc a) 0, bit_and-zero_below n (suc a / 2) (omega arith))

-- `a & 1` is the parity.
pub bit_and-one : (a : ℕ) → bit_and a 1 ≡ a % 2
bit_and-one a = omega (arith, bit_and_step a 1, bit_and-zero_below (a / 2) (a / 2) (le_refl _))

bit_or-zero_below : (n a : ℕ) → a ≤ n → bit_or a 0 ≡ a
bit_or-zero_below n zero h = refl
bit_or-zero_below zero (suc a) h = absurd (omega arith)
bit_or-zero_below (suc n) (suc a) h =
    omega (arith, bit_or_step (suc a) 0, bit_or-zero_below n (suc a / 2) (omega arith))

-- `|` of a number whose `k` low digits are 0 with one of at most `k` digits is their sum.
pub bit_or-add : (k q r : ℕ) → r < 2 ^ k → bit_or (q * 2 ^ k) r ≡ q * 2 ^ k + r
bit_or-add zero q r h = ground (arith, bit_or-zero_below q q (le_refl _))
bit_or-add (suc k) q r h = ground (
  arith,
  ap (λ (t : ℕ). q * t) (pow-suc 2 k),
  pow-suc 2 k,
  bit_or_step (q * 2 ^ suc k) r,
  bit_or-add k q (r / 2) (omega (arith, pow-suc 2 k)),
)

-- `differ` of two digits, as arithmetic.
digit_differ : (x y : ℕ) → x < 2 → y < 2 → differ x y ≡ (x + y) % 2
digit_differ zero zero h k = refl
digit_differ zero (suc zero) h k = refl
digit_differ (suc zero) zero h k = refl
digit_differ (suc zero) (suc zero) h k = refl
digit_differ zero (suc (suc y)) h k = absurd (omega arith)
digit_differ (suc zero) (suc (suc y)) h k = absurd (omega arith)
digit_differ (suc (suc x)) y h k = absurd (omega arith)

-- One step of `^`, in arithmetic alone.
pub bit_xor_digit : (a b : ℕ) → bit_xor a b ≡ bit_xor (a / 2) (b / 2) * 2 + (a % 2 + b % 2) % 2
bit_xor_digit a b =
    omega (arith, bit_xor_step a b, digit_differ (a % 2) (b % 2) (omega arith) (omega arith))

pub bit_xor-lt : (k a b : ℕ) → a < 2 ^ k → b < 2 ^ k → bit_xor a b < 2 ^ k
bit_xor-lt zero zero zero h l = omega arith
bit_xor-lt zero zero (suc b) h l = absurd (omega arith)
bit_xor-lt zero (suc a) b h l = absurd (omega arith)
bit_xor-lt (suc k) a b h l = omega (
  arith,
  pow-suc 2 k,
  bit_xor_digit a b,
  bit_xor-lt k (a / 2) (b / 2) (omega (arith, pow-suc 2 k)) (omega (arith, pow-suc 2 k)),
)

-- A digit that only the second number has stays.
pub le-bit_xor : (k a r : ℕ) → a < 2 ^ k → r < 2 ^ k → 2 ^ k ≤ bit_xor a (2 ^ k + r)
le-bit_xor zero zero zero h l = omega arith
le-bit_xor zero zero (suc r) h l = absurd (omega arith)
le-bit_xor zero (suc a) r h l = absurd (omega arith)
le-bit_xor (suc k) a r h l = omega (
  arith,
  pow-suc 2 k,
  bit_xor_digit a (2 ^ suc k + r),
  ap (bit_xor (a / 2)) half,
  le-bit_xor k (a / 2) (r / 2) (omega (arith, pow-suc 2 k)) (omega (arith, pow-suc 2 k)),
)
  where
    half : (2 ^ suc k + r) / 2 ≡ 2 ^ k + r / 2
    half = omega (arith, pow-suc 2 k)

bit_xor_cancel_below : (n a b c : ℕ) → a ≤ n → b ≤ n → bit_xor a c ≡ bit_xor b c → a ≡ b
bit_xor_cancel_below zero a b c h l e = omega arith
bit_xor_cancel_below (suc n) a b c h l e = omega (
  arith,
  bit_xor_digit a c,
  bit_xor_digit b c,
  bit_xor_cancel_below n (a / 2) (b / 2) (c / 2) (omega arith) (omega arith)
      (omega (arith, bit_xor_digit a c, bit_xor_digit b c)),
)

-- `^` with a fixed number can be undone.
pub bit_xor_cancel : (a b c : ℕ) → bit_xor a c ≡ bit_xor b c → a ≡ b
bit_xor_cancel a b c = bit_xor_cancel_below (a + b) a b c (omega arith) (omega arith)

bit_xor_comm_below : (n a b : ℕ) → a ≤ n → b ≤ n → bit_xor a b ≡ bit_xor b a
bit_xor_comm_below zero zero zero h l = refl
bit_xor_comm_below zero zero (suc b) h l = absurd (omega arith)
bit_xor_comm_below zero (suc a) b h l = absurd (omega arith)
bit_xor_comm_below (suc n) a b h l = omega (
  arith,
  bit_xor_digit a b,
  bit_xor_digit b a,
  bit_xor_comm_below n (a / 2) (b / 2) (omega arith) (omega arith),
)

pub bit_xor_comm : (a b : ℕ) → bit_xor a b ≡ bit_xor b a
bit_xor_comm a b = bit_xor_comm_below (a + b) a b (omega arith) (omega arith)

-- `^` digit by digit.
pub bit_xor_half : (a b : ℕ) → bit_xor a b / 2 ≡ bit_xor (a / 2) (b / 2)
bit_xor_half a b = omega (arith, bit_xor_digit a b)

pub bit_xor_parity : (a b : ℕ) → bit_xor a b % 2 ≡ (a + b) % 2
bit_xor_parity a b = omega (arith, bit_xor_digit a b)

bit_xor-zero_below : (n a : ℕ) → a ≤ n → bit_xor a 0 ≡ a
bit_xor-zero_below n zero h = refl
bit_xor-zero_below zero (suc a) h = absurd (omega arith)
bit_xor-zero_below (suc n) (suc a) h =
    omega (arith, bit_xor_digit (suc a) 0, bit_xor-zero_below n (suc a / 2) (omega arith))

pub bit_xor-zero : (a : ℕ) → bit_xor a 0 ≡ a
bit_xor-zero a = bit_xor-zero_below a a (le_refl a)

bit_xor_right_comm_below :
    (n a b c : ℕ) → a ≤ n → b ≤ n → c ≤ n → bit_xor (bit_xor a b) c ≡ bit_xor (bit_xor a c) b
bit_xor_right_comm_below zero zero zero zero h k l = refl
bit_xor_right_comm_below zero (suc a) b c h k l = absurd (omega arith)
bit_xor_right_comm_below zero zero (suc b) c h k l = absurd (omega arith)
bit_xor_right_comm_below zero zero zero (suc c) h k l = absurd (omega arith)
bit_xor_right_comm_below (suc n) a b c h k l = omega (
  arith,
  bit_xor_digit a b,
  bit_xor_digit a c,
  bit_xor_digit (bit_xor a b) c,
  bit_xor_digit (bit_xor a c) b,
  ap (λ t. bit_xor t (c / 2)) (bit_xor_half a b),
  ap (λ t. bit_xor t (b / 2)) (bit_xor_half a c),
  bit_xor_right_comm_below n (a / 2) (b / 2) (c / 2) (omega arith) (omega arith) (omega arith),
)

pub bit_xor_right_comm : (a b c : ℕ) → bit_xor (bit_xor a b) c ≡ bit_xor (bit_xor a c) b
bit_xor_right_comm a b c =
    bit_xor_right_comm_below (a + b + c) a b c (omega arith) (omega arith) (omega arith)
