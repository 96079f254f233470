-- ===== src/Crc.antt =====
-- The checksum of src/dsmr_parser/util.h: `calculate_crc16` and `to_crc`, the two private
-- functions of `DsmrUnencryptedTelegram`.
pub mod Hex
pub mod Detect
pub mod Polynomial
pub mod Division
use arduino_dsmr.Base.{
  ℕ, zero, suc, ◌+◌, ◌-◌, ◌*◌, ◌/◌, ◌%◌, ◌^◌, bit_xor, bit_or, bit_and, [], ◌∷◌, Option, none, some,
  ◌==◌, if◌then◌else◌, within, Bytes,
}

-- Casts to `uint8_t` and `uint16_t`.
abbrev pub u8 : ℕ → ℕ
u8 n = n % 2 ^ 8

abbrev pub u16 : ℕ → ℕ
u16 n = n % 2 ^ 16

-- The body of the loop over the bits: `crc >>= 1`, and `^ 0xa001` if the bit shifted out was 1.
pub crc_bit : ℕ → ℕ
crc_bit crc = if bit_and crc 1 == 0 then u16 (crc / 2) else u16 (bit_xor (crc / 2) 0xa001)

-- `for (bit = 0; bit < 8; bit++)`, by the rounds left.
pub crc_bits : ℕ → ℕ → ℕ
crc_bits zero crc = crc
crc_bits (suc n) crc = crc_bits n (crc_bit crc)

-- The body of the loop over the characters.
pub crc_byte : ℕ → ℕ → ℕ
crc_byte crc c = crc_bits 8 (u16 (bit_xor crc (u8 c)))

-- The loop over the characters, from the value that `crc` has.
pub crc16_from : ℕ → Bytes → ℕ
crc16_from crc [] = crc
crc16_from crc (c ∷ cs) = crc16_from (crc_byte crc c) cs

unfoldable pub calculate_crc16 : Bytes → ℕ
unfolding crc16_from crc_byte crc_bits crc_bit
calculate_crc16 = crc16_from 0

-- The chain of tests in `to_crc`: the value of a hexadecimal character.
unfoldable pub crc_nibble : ℕ → Option ℕ
crc_nibble c =
    if within b'0' b'9' c
    then some (c - b'0')
    else if within b'A' b'F' c
    then some (c - b'A' + 10)
    else if within b'a' b'f' c
    then some (c - b'a' + 10)
    else none

-- The loop of `to_crc`: `crc <<= 4`, then `|` with the value of the character.
unfoldable pub to_crc_from : ℕ → Bytes → Option ℕ
to_crc_from crc [] = some crc
to_crc_from crc (c ∷ cs) = elim (crc_nibble c) [
  | none ↦ none
  | some n ↦ to_crc_from (u16 (bit_or (u16 (crc * 16)) n)) cs
]

unfoldable pub to_crc : Bytes → Option ℕ
unfolding to_crc_from crc_nibble
to_crc = to_crc_from 0
