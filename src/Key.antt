-- ===== src/Key.antt =====
-- `Aes128Key` and the authentication data of `Aes128GcmDecryptor`, in
-- src/dsmr_parser/decryption/aes128gcm.h. A key is the list of its 16 bytes.
pub mod RoundTrip
pub mod Accepts
use arduino_dsmr.Base.{
  ℕ, zero, suc, ◌+◌, ◌-◌, ◌*◌, Bool, true, false, not, [], ◌∷◌, Option, none, some, ◌==◌,
  if◌then◌else◌, within, Bytes, length,
}

-- A digit as `std::from_chars` reads it in base 16: of either case.
unfoldable pub digit_of : ℕ → Option ℕ
digit_of c =
    if within b'0' b'9' c
    then some (c - b'0')
    else if within b'A' b'F' c
    then some (c - b'A' + 10)
    else if within b'a' b'f' c
    then some (c - b'a' + 10)
    else none

-- `std::from_chars` on two characters: it reads the digits at the front, at least one. The code
-- does not look where it has stopped.
unfoldable pub from_chars : ℕ → ℕ → Option ℕ
from_chars a b = elim (digit_of a) [
  | none ↦ none
  | some hi ↦ elim (digit_of b) [ none ↦ some hi | some low ↦ some (hi * 16 + low) ]
]

-- The loop over the pairs, by the rounds left. Behind the test of the size no round reads past the
-- end of the text.
unfoldable pub read_pairs : ℕ → Bytes → Option Bytes
read_pairs zero s = some []
read_pairs (suc rounds) [] = none
read_pairs (suc rounds) (a ∷ []) = none
read_pairs (suc rounds) (a ∷ b ∷ s) =
    let rest = read_pairs rounds s in
    elim (from_chars a b) [
      | none ↦ none
      | some x ↦ elim rest [ none ↦ none | some xs ↦ some (x ∷ xs) ]
    ]

unfoldable pub from_hex : Bytes → Option Bytes
from_hex hex = if not (length hex == 32) then none else read_pairs 16 hex

-- `set_authentication_key`: what it stores in `aad`.
unfoldable pub set_authentication_key : Bytes → Option Bytes
set_authentication_key key = some (48 ∷ key)
