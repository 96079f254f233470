-- ===== src/Crc/Polynomial.antt =====
-- Polynomials over the field of two elements, and the remainder that a CRC-16 is.
use arduino_dsmr.Base.{
  ℕ, zero, suc, ◌+◌, ◌*◌, ◌/◌, ◌%◌, ◌^◌, ◌<◌, bit_xor, Bool, true, false, List, [], ◌∷◌, ◌++◌, ◌≡◌,
  refl, ap, ap₂, arith, Bytes, length, ◌==◌, if◌then◌else◌,
}
use native.Mathlib.Nat.{pow-suc}
use arduino_dsmr.Base.Bits.{bit_xor_digit}

-- A coefficient: 0 or 1, added without carry.
abbrev pub plus : Bool → Bool → Bool
plus true true = false
plus true false = true
plus false b = b

abbrev pub plus_all : List Bool → List Bool → List Bool
plus_all (a ∷ r) (b ∷ s) = plus a b ∷ plus_all r s
plus_all _ _ = []

-- The generator, x¹⁶ + x¹⁵ + x² + 1, without its first term: the coefficients of x¹⁵ down to x⁰.
abbrev pub generator : List Bool
generator =
    true ∷ false ∷ false ∷ false ∷ false ∷ false ∷ false ∷ false ∷ false ∷ false ∷ false ∷ false
    ∷ false ∷ true ∷ false ∷ true ∷ []

-- From the remainder of a message, that of the message with one more coefficient at its end: times
-- x, plus the coefficient times x¹⁶, less the generator if that has a term in x¹⁶.
abbrev pub next_remainder : List Bool → Bool → List Bool
next_remainder [] bit = []
next_remainder (first ∷ rest) bit =
    if plus first bit then plus_all (rest ++ false ∷ []) generator else rest ++ false ∷ []

abbrev pub remainder_from : List Bool → List Bool → List Bool
remainder_from r [] = r
remainder_from r (bit ∷ bits) = remainder_from (next_remainder r bit) bits

-- The remainder of a message times x¹⁶ in the division by the generator.
abbrev pub remainder : List Bool → List Bool
remainder = remainder_from (
    false ∷ false ∷ false ∷ false ∷ false ∷ false ∷ false ∷ false ∷ false ∷ false ∷ false ∷ false
    ∷ false ∷ false ∷ false ∷ false ∷ [])

abbrev pub is_odd : ℕ → Bool
is_odd n = n % 2 == 1

abbrev pub bits_of : ℕ → ℕ → List Bool
bits_of zero b = []
bits_of (suc n) b = is_odd b ∷ bits_of n (b / 2)

-- The eight bits of each character, the lowest first.
abbrev pub message_bits : Bytes → List Bool
message_bits [] = []
message_bits (c ∷ s) = bits_of 8 (c % 256) ++ message_bits s

abbrev pub digit : Bool → ℕ
digit true = 1
digit false = 0

-- A remainder as a number, the coefficient of x¹⁵ in its lowest digit.
abbrev pub number_of : List Bool → ℕ
number_of [] = 0
number_of (b ∷ r) = digit b + 2 * number_of r

pub number_of-append : (r : List Bool) → number_of (r ++ false ∷ []) ≡ number_of r
number_of-append [] = refl
number_of-append (b ∷ r) = ap (λ t. digit b + 2 * t) (number_of-append r)

pub number_of-lt : (n : ℕ) (r : List Bool) → length r ≡ n → number_of r < 2 ^ n
number_of-lt zero [] e = omega arith
number_of-lt zero (b ∷ r) e = absurd (omega arith)
number_of-lt (suc n) [] e = absurd (omega arith)
number_of-lt (suc n) (true ∷ r) e = omega (arith, pow-suc 2 n, number_of-lt n r (omega arith))
number_of-lt (suc n) (false ∷ r) e = omega (arith, pow-suc 2 n, number_of-lt n r (omega arith))

pub digit-lt : (b : Bool) → digit b < 2
digit-lt true = omega arith
digit-lt false = omega arith

pub digit-plus : (a b : Bool) → digit (plus a b) ≡ (digit a + digit b) % 2
digit-plus true true = refl
digit-plus true false = refl
digit-plus false true = refl
digit-plus false false = refl

pub half-number_of : (b : Bool) (r : List Bool) → (digit b + 2 * number_of r) / 2 ≡ number_of r
half-number_of b r = omega (arith, digit-lt b)

pub number_of-plus_all :
    (r s : List Bool)
    → length r ≡ length s
    → number_of (plus_all r s) ≡ bit_xor (number_of r) (number_of s)
number_of-plus_all [] [] e = refl
number_of-plus_all [] (b ∷ s) e = absurd (omega arith)
number_of-plus_all (a ∷ r) [] e = absurd (omega arith)
number_of-plus_all (a ∷ r) (b ∷ s) e = omega (
  arith,
  digit-plus a b,
  digit-lt a,
  digit-lt b,
  bit_xor_digit (digit a + 2 * number_of r) (digit b + 2 * number_of s),
  ap₂ bit_xor (half-number_of a r) (half-number_of b s),
  number_of-plus_all r s (omega arith),
)
