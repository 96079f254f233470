-- ===== src/Crc/Detect.antt =====
-- `calculate_crc16` tells apart any two texts that differ in one byte.
use arduino_dsmr.Base.{
  ℕ, zero, suc, ◌/◌, ◌%◌, ◌^◌, ◌<◌, bit_xor, [], ◌∷◌, ◌++◌, ◌≡◌, ◌≢◌, sym, ◌∙◌, arith, Bytes, ◌⊎◌,
  inl, inr,
}
use arduino_dsmr.Base.Bits.{bit_and-one, bit_xor-lt, le-bit_xor, bit_xor_cancel, bit_xor_comm}
use arduino_dsmr.Crc.{u8, u16, crc_bit, crc_bits, crc_byte, crc16_from, calculate_crc16}

-- `crc_bit` in arithmetic: which branch was taken shows in the highest digit.
pub crc_bit_even : (c : ℕ) → c < 2 ^ 16 → c % 2 ≡ 0 → (crc_bit c ≡ c / 2)
unfolding crc_bit
crc_bit_even c h e = ground (arith, bit_and-one c)

pub crc_bit_odd : (c : ℕ) → c < 2 ^ 16 → c % 2 ≡ 1 → crc_bit c ≡ bit_xor (c / 2) 0xa001
unfolding crc_bit
crc_bit_odd c h e = ground (arith, bit_and-one c, bit_xor-lt 16 (c / 2) 0xa001)

crc_bit-lt : (c : ℕ) → crc_bit c < 2 ^ 16
unfolding crc_bit
crc_bit-lt c = ground arith

parity : (c : ℕ) → (c % 2 ≡ 0) ⊎ (c % 2 ≡ 1)
parity c = omega arith

crc_bit_cancel : (c d : ℕ) → c < 2 ^ 16 → d < 2 ^ 16 → crc_bit c ≡ crc_bit d → c ≡ d
crc_bit_cancel c d h k e = elim (parity c) [
  | inl p ↦ elim (parity d) [
    | inl q ↦ omega (arith, crc_bit_even c h p, crc_bit_even d k q)
    | inr q ↦ absurd (
        omega (
          arith,
          crc_bit_even c h p,
          crc_bit_odd d k q,
          le-bit_xor 15 (d / 2) 0x2001 (omega arith) (omega arith),
        ))
  ]
  | inr p ↦ elim (parity d) [
    | inl q ↦ absurd (
        omega (
          arith,
          crc_bit_odd c h p,
          crc_bit_even d k q,
          le-bit_xor 15 (c / 2) 0x2001 (omega arith) (omega arith),
        ))
    | inr q ↦ omega (
      arith,
      bit_xor_cancel (c / 2) (d / 2) 0xa001 (sym (crc_bit_odd c h p) ∙ e ∙ crc_bit_odd d k q),
    )
  ]
]

crc_bits-lt : (n c : ℕ) → c < 2 ^ 16 → crc_bits n c < 2 ^ 16
unfolding crc_bits
crc_bits-lt zero c h = h
crc_bits-lt (suc n) c h = crc_bits-lt n (crc_bit c) (crc_bit-lt c)

crc_bits_cancel : (n c d : ℕ) → c < 2 ^ 16 → d < 2 ^ 16 → crc_bits n c ≡ crc_bits n d → c ≡ d
unfolding crc_bits
crc_bits_cancel zero c d h k e = e
crc_bits_cancel (suc n) c d h k e =
    crc_bit_cancel c d h k
      (crc_bits_cancel n (crc_bit c) (crc_bit d) (crc_bit-lt c) (crc_bit-lt d) e)

crc_byte-lt : (c b : ℕ) → crc_byte c b < 2 ^ 16
unfolding crc_byte
crc_byte-lt c b = crc_bits-lt 8 (u16 (bit_xor c (u8 b))) (omega arith)

-- `^` of a checksum with a byte needs no truncation.
pub xor_byte : (c b : ℕ) → c < 2 ^ 16 → u16 (bit_xor c (u8 b)) ≡ bit_xor c (u8 b)
xor_byte c b h = omega (arith, bit_xor-lt 16 c (u8 b))

crc_byte_cancel_state : (c d b : ℕ) → c < 2 ^ 16 → d < 2 ^ 16 → crc_byte c b ≡ crc_byte d b → c ≡ d
unfolding crc_byte
crc_byte_cancel_state c d b h k e =
    bit_xor_cancel c d (u8 b)
      (sym (xor_byte c b h) ∙ crc_bits_cancel 8 _ _ (omega arith) (omega arith) e ∙ xor_byte d b k)

crc_byte_cancel : (c a b : ℕ) → c < 2 ^ 16 → crc_byte c a ≡ crc_byte c b → u8 a ≡ u8 b
unfolding crc_byte
crc_byte_cancel c a b h e = bit_xor_cancel (u8 a) (u8 b) c (
    bit_xor_comm (u8 a) c
    ∙ sym (xor_byte c a h)
    ∙ crc_bits_cancel 8 _ _ (omega arith) (omega arith) e
    ∙ xor_byte c b h
    ∙ bit_xor_comm c (u8 b))

crc16_from-lt : (s : Bytes) (c : ℕ) → c < 2 ^ 16 → crc16_from c s < 2 ^ 16
unfolding crc16_from
crc16_from-lt [] c h = h
crc16_from-lt (b ∷ s) c h = crc16_from-lt s (crc_byte c b) (crc_byte-lt c b)

crc16_from_cancel :
    (s : Bytes) (c d : ℕ) → c < 2 ^ 16 → d < 2 ^ 16 → crc16_from c s ≡ crc16_from d s → c ≡ d
unfolding crc16_from
crc16_from_cancel [] c d h k e = e
crc16_from_cancel (b ∷ s) c d h k e =
    crc_byte_cancel_state c d b h k
      (crc16_from_cancel s (crc_byte c b) (crc_byte d b) (crc_byte-lt c b) (crc_byte-lt d b) e)

crc16_from_detects :
    (pre post : Bytes) (c a b : ℕ)
    → c < 2 ^ 16
    → crc16_from c (pre ++ a ∷ post) ≡ crc16_from c (pre ++ b ∷ post)
    → u8 a ≡ u8 b
unfolding crc16_from
crc16_from_detects [] post c a b h e =
    crc_byte_cancel c a b h
      (crc16_from_cancel post (crc_byte c a) (crc_byte c b) (crc_byte-lt c a) (crc_byte-lt c b) e)
crc16_from_detects (x ∷ pre) post c a b h e =
    crc16_from_detects pre post (crc_byte c x) a b (crc_byte-lt c x) e

-- Texts that differ in exactly one byte, at any place, have different checksums.
pub crc16_detects :
    (pre post : Bytes) (a b : ℕ)
    → a < 256
    → b < 256
    → a ≢ b
    → calculate_crc16 (pre ++ a ∷ post) ≢ calculate_crc16 (pre ++ b ∷ post)
unfolding calculate_crc16
crc16_detects pre post a b h k ne e =
    ne (omega (arith, crc16_from_detects pre post 0 a b (omega arith) e))
