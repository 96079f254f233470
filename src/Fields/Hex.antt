-- ===== src/Fields/Hex.antt =====
-- The text that an equipment identifier is stored as.
use arduino_dsmr.Base.{
  ℕ, ◌+◌, ◌*◌, ◌/◌, ◌%◌, ◌^◌, ◌<◌, true, [], ◌∷◌, some, ◌≡◌, refl, ap, arith, Bytes, length,
}
use arduino_dsmr.Crc.Hex.{hex_char}
use arduino_dsmr.Key.RoundTrip.{hex_text, length-hex_text}
use arduino_dsmr.Fields.{is_hex_digit, is_alnum, all_hex, hex_value, decode_pairs, hex_or_regular}

-- Digits and capital letters only.
abbrev pub AllAlnum : Bytes → Type 0
AllAlnum [] = Unit {0}
AllAlnum (c ∷ s) = (is_alnum c ≡ true) × AllAlnum s

is_hex_digit-hex_char : (n : ℕ) → n < 16 → is_hex_digit (hex_char true n) ≡ true
unfolding hex_char
is_hex_digit-hex_char n h = ground arith

hex_value-hex_char : (n : ℕ) → n < 16 → hex_value (hex_char true n) ≡ n
unfolding hex_char
hex_value-hex_char n h = ground arith

all_hex-hex_text : (s : Bytes) → AllAlnum s → all_hex (hex_text true s) ≡ true
unfolding all_hex hex_text
all_hex-hex_text [] h = refl
all_hex-hex_text (c ∷ s) (h, hs) =
    let high : c / 16 < 16 = ground arith in
    let low : c % 16 < 16 = omega arith in
    rw (is_hex_digit-hex_char (c / 16) high, is_hex_digit-hex_char (c % 16) low)
      (all_hex-hex_text s hs)

decode_pairs-hex_text : (s : Bytes) → AllAlnum s → decode_pairs (hex_text true s) ≡ some s
unfolding decode_pairs hex_text
decode_pairs-hex_text [] h = refl
decode_pairs-hex_text (c ∷ s) (h, hs) =
    let high : c / 16 < 16 = ground arith in
    let low : c % 16 < 16 = omega arith in
    let ch : (hex_value (hex_char true (c / 16)) * 16 + hex_value (hex_char true (c % 16))) % 2 ^ 8
        ≡ c =
      ground (arith, hex_value-hex_char (c / 16) high, hex_value-hex_char (c % 16) low) in
    rw (ch, decode_pairs-hex_text s hs, h) (ap (λ n. some (n ∷ s)) ch)

-- A text of digits and capital letters that is sent as its capital hexadecimal digits, two for a
-- character, is stored as that text.
pub hex_or_regular-hex_text : (s : Bytes) → AllAlnum s → hex_or_regular (hex_text true s) ≡ s
unfolding hex_or_regular
hex_or_regular-hex_text s h =
    let even : length (hex_text true s) % 2 ≡ 0 = omega (arith, length-hex_text true s) in
    rw (decode_pairs-hex_text s h, all_hex-hex_text s h) (ground (arith, even))
