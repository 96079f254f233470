-- ===== src/Crc/Division.antt =====
-- `calculate_crc16` is the remainder of a polynomial division.
use arduino_dsmr.Base.{
  ℕ, zero, suc, ◌+◌, ◌/◌, ◌%◌, ◌^◌, ◌<◌, ◌≤◌, bit_xor, Bool, true, false, List, [], ◌∷◌, ◌++◌, ◌≡◌,
  refl, sym, ap, ◌∙◌, Bool-cases, arith, Bytes, length, length-append, inl, inr,
}
use native.Mathlib.Nat.{pow-suc, pow-le-pow_right}
use arduino_dsmr.Base.Bits.{
  bit_xor_half, bit_xor_parity, bit_xor-zero, bit_xor_right_comm, bit_xor-lt,
}
use arduino_dsmr.Crc.{crc_bit, crc_bits, crc_byte, crc16_from, calculate_crc16}
use arduino_dsmr.Crc.Detect.{crc_bit_even, crc_bit_odd, xor_byte}
use arduino_dsmr.Crc.Polynomial.{
  plus, plus_all, generator, next_remainder, remainder_from, remainder, is_odd, bits_of,
  message_bits, digit, number_of, number_of-append, number_of-lt, number_of-plus_all, digit-lt,
  digit-plus, half-number_of,
}

digit-is_odd : (b : ℕ) → digit (is_odd b) ≡ b % 2
digit-is_odd b = ground arith

next_remainder-false :
    (first bit : Bool) (rest : List Bool)
    → plus first bit ≡ false
    → number_of (next_remainder (first ∷ rest) bit) ≡ number_of rest
next_remainder-false first bit rest e = rw e (number_of-append rest)

next_remainder-true :
    (first bit : Bool) (rest : List Bool)
    → length rest ≡ 15
    → plus first bit ≡ true
    → number_of (next_remainder (first ∷ rest) bit) ≡ bit_xor (number_of rest) 0xa001
next_remainder-true first bit rest size e = rw e (
    number_of-plus_all (rest ++ false ∷ []) generator
      (length-append rest (false ∷ []) ∙ omega (arith, size))
    ∙ ap (λ t. bit_xor t 0xa001) (number_of-append rest))

length-plus_all : (r s : List Bool) → length r ≡ length s → length (plus_all r s) ≡ length r
length-plus_all [] [] e = refl
length-plus_all [] (b ∷ s) e = absurd (omega arith)
length-plus_all (a ∷ r) [] e = absurd (omega arith)
length-plus_all (a ∷ r) (b ∷ s) e = ap suc (length-plus_all r s (omega arith))

length-next_remainder :
    (r : List Bool) (bit : Bool) → length r ≡ 16 → length (next_remainder r bit) ≡ 16
length-next_remainder [] bit e = absurd (omega arith)
length-next_remainder (first ∷ rest) bit e = elim (Bool-cases (plus first bit)) [
  | inl h ↦ rw h (length-plus_all (rest ++ false ∷ []) generator (omega (arith, shifted)) ∙ shifted)
  | inr h ↦ rw h shifted
]
  where
    shifted : length (rest ++ false ∷ []) ≡ 16
    shifted = length-append rest (false ∷ []) ∙ omega (arith, e)

-- A round of the loop over the bits, with a character still to be added from its lowest bit on.
crc_bit-next_remainder :
    (r : List Bool) (b : ℕ)
    → length r ≡ 16
    → b < 2 ^ 16
    → crc_bit (bit_xor (number_of r) b) ≡ bit_xor (number_of (next_remainder r (is_odd b))) (b / 2)
crc_bit-next_remainder [] b e h = absurd (omega arith)
crc_bit-next_remainder (first ∷ rest) b e h = elim (Bool-cases (plus first (is_odd b))) [
  | inl k ↦
      crc_bit_odd _ small (bit_xor_parity _ b ∙ sym parity ∙ ap digit k)
      ∙ ap (λ t. bit_xor t 0xa001) halves
      ∙ bit_xor_right_comm (number_of rest) (b / 2) 0xa001
      ∙ ap (λ t. bit_xor t (b / 2))
          (sym (next_remainder-true first (is_odd b) rest (omega arith) k))
  | inr k ↦
      crc_bit_even _ small (bit_xor_parity _ b ∙ sym parity ∙ ap digit k)
      ∙ halves
      ∙ ap (λ t. bit_xor t (b / 2)) (sym (next_remainder-false first (is_odd b) rest k))
]
  where
    small : bit_xor (number_of (first ∷ rest)) b < 2 ^ 16
    small = bit_xor-lt 16 _ b (number_of-lt 16 (first ∷ rest) e) h

    parity : digit (plus first (is_odd b)) ≡ (number_of (first ∷ rest) + b) % 2
    parity = omega (arith, digit-plus first (is_odd b), digit-is_odd b, digit-lt first)

    halves : bit_xor (number_of (first ∷ rest)) b / 2 ≡ bit_xor (number_of rest) (b / 2)
    halves = bit_xor_half _ b ∙ ap (λ t. bit_xor t (b / 2)) (half-number_of first rest)

crc_bits-remainder_from :
    (n b : ℕ) (r : List Bool)
    → length r ≡ 16
    → n ≤ 16
    → b < 2 ^ n
    → crc_bits n (bit_xor (number_of r) b) ≡ number_of (remainder_from r (bits_of n b))
unfolding crc_bits
crc_bits-remainder_from zero b r e k h =
    ap (bit_xor (number_of r)) (omega arith) ∙ bit_xor-zero (number_of r)
crc_bits-remainder_from (suc n) b r e k h =
    ap (crc_bits n) (crc_bit-next_remainder r b e wide)
    ∙ crc_bits-remainder_from n (b / 2) (next_remainder r (is_odd b))
        (length-next_remainder r (is_odd b) e) (omega arith) (omega (arith, pow-suc 2 n))
  where
    wide : b < 2 ^ 16
    wide = omega (arith, pow-le-pow_right {n = 2} (omega arith) k)

remainder_from-append :
    (r bits more : List Bool)
    → remainder_from r (bits ++ more) ≡ remainder_from (remainder_from r bits) more
remainder_from-append r [] more = refl
remainder_from-append r (bit ∷ bits) more = remainder_from-append (next_remainder r bit) bits more

length-remainder_from : (r bits : List Bool) → length r ≡ 16 → length (remainder_from r bits) ≡ 16
length-remainder_from r [] e = e
length-remainder_from r (bit ∷ bits) e =
    length-remainder_from (next_remainder r bit) bits (length-next_remainder r bit e)

crc_byte-remainder_from :
    (r : List Bool) (c : ℕ)
    → length r ≡ 16
    → crc_byte (number_of r) c ≡ number_of (remainder_from r (bits_of 8 (c % 256)))
unfolding crc_byte
crc_byte-remainder_from r c e =
    ap (crc_bits 8) (xor_byte (number_of r) c (number_of-lt 16 r e))
    ∙ crc_bits-remainder_from 8 (c % 256) r e (omega arith) (omega arith)

crc16_from-remainder_from :
    (s : Bytes) (r : List Bool)
    → length r ≡ 16
    → crc16_from (number_of r) s ≡ number_of (remainder_from r (message_bits s))
unfolding crc16_from
crc16_from-remainder_from [] r e = refl
crc16_from-remainder_from (c ∷ s) r e =
    ap (λ t. crc16_from t s) (crc_byte-remainder_from r c e)
    ∙ crc16_from-remainder_from s _ (length-remainder_from r (bits_of 8 (c % 256)) e)
    ∙ ap number_of (sym (remainder_from-append r (bits_of 8 (c % 256)) (message_bits s)))

-- The checksum is the remainder of the polynomial of the text times x¹⁶ in the division by
-- x¹⁶ + x¹⁵ + x² + 1 over the field of two elements. The text's coefficients are the bits of its
-- characters, the lowest bit of a character first; the checksum's lowest bit is the coefficient
-- of x¹⁵.
pub calculate_crc16-remainder :
    (s : Bytes) → calculate_crc16 s ≡ number_of (remainder (message_bits s))
unfolding calculate_crc16
calculate_crc16-remainder s = crc16_from-remainder_from s _ refl
