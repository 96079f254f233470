-- ===== src/Key/RoundTrip.antt =====
-- `from_hex` against a printer of keys.
use arduino_dsmr.Base.{
  ℕ, ◌+◌, ◌*◌, ◌/◌, ◌%◌, ◌<◌, Bool, [], ◌∷◌, some, ◌≡◌, refl, sym, ◌∙◌, ap, arith, Bytes, length,
}
use arduino_dsmr.Crc.Hex.{hex_char}
use arduino_dsmr.ParseObis.Bounds.{AllBytes}
use arduino_dsmr.Key.{digit_of, from_chars, read_pairs, from_hex}

-- Two digits for each byte, with capital letters if `upper`.
unfoldable pub hex_text : Bool → Bytes → Bytes
hex_text upper [] = []
hex_text upper (x ∷ xs) = hex_char upper (x / 16) ∷ hex_char upper (x % 16) ∷ hex_text upper xs

pub length-hex_text : (upper : Bool) (xs : Bytes) → length (hex_text upper xs) ≡ length xs * 2
unfolding hex_text
length-hex_text upper [] = refl
length-hex_text upper (x ∷ xs) = omega (arith, length-hex_text upper xs)

digit_of-hex_char : (upper : Bool) (n : ℕ) → n < 16 → digit_of (hex_char upper n) ≡ some n
unfolding digit_of hex_char
digit_of-hex_char upper n h = ground arith

from_chars-hex_char :
    (upper : Bool) (x : ℕ)
    → x < 256
    → from_chars (hex_char upper (x / 16)) (hex_char upper (x % 16)) ≡ some x
unfolding from_chars
from_chars-hex_char upper x h =
    let high = digit_of-hex_char upper (x / 16) (omega arith) in
    let low = digit_of-hex_char upper (x % 16) (omega arith) in
    let whole : x / 16 * 16 + x % 16 ≡ x = omega arith in rw (high, low, from_chars) (ap some whole)

read_pairs-hex_text :
    (upper : Bool) (xs : Bytes) → AllBytes xs → read_pairs (length xs) (hex_text upper xs) ≡ some xs
unfolding read_pairs hex_text
read_pairs-hex_text upper [] h = refl
read_pairs-hex_text upper (x ∷ xs) (h, hs) =
    rw (from_chars-hex_char upper x h, read_pairs-hex_text upper xs hs, read_pairs) refl

-- `from_hex` reads 16 bytes back from their 32 hexadecimal digits, of either case.
pub from_hex-hex_text :
    (upper : Bool) (key : Bytes)
    → length key ≡ 16
    → AllBytes key
    → from_hex (hex_text upper key) ≡ some key
unfolding from_hex
from_hex-hex_text upper key n h =
    let read : read_pairs 16 (hex_text upper key) ≡ some key =
      ap (λ k. read_pairs k (hex_text upper key)) (sym n) ∙ read_pairs-hex_text upper key h in
    ground (arith, length-hex_text upper key, read)
