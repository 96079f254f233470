-- ===== src/Telegram.antt =====
-- `DsmrUnencryptedTelegram` of src/dsmr_parser/util.h: a telegram from '/' to the first '!',
-- with or without the four characters of its checksum. A `std::string_view` is the list of
-- the bytes that it shows.
pub mod Content
pub mod Integrity
use arduino_dsmr.Base.{
  ℕ, ◌+◌, Bool, true, false, not, [], ◌∷◌, Option, none, some, ◌==◌, leb, if◌then◌else◌, Bytes,
  length, take, drop, find, sub_size,
}
use arduino_dsmr.Crc.{calculate_crc16, to_crc}

-- The member `data` is called `view` here.
pub record DsmrUnencryptedTelegram : Type 0 where
  pub view : Bytes
  pub has_crc_suffix : Bool

abbrev pub full_content : DsmrUnencryptedTelegram → Bytes
full_content t = t.view

unfoldable pub content_without_crc : DsmrUnencryptedTelegram → Bytes
content_without_crc t =
    if t.has_crc_suffix then take (sub_size (length t.view) 4) t.view else t.view

-- `telegram.starts_with(c)`
abbrev pub starts_with : ℕ → Bytes → Bool
starts_with c [] = false
starts_with c (x ∷ xs) = x == c

abbrev with_crc : Bytes → ℕ → DsmrUnencryptedTelegram
with_crc telegram end_pos = record { view = take (end_pos + 5) telegram; has_crc_suffix = true }

-- The checks of `from_bytes` behind the one for a checksum's four bytes.
check_crc_of : Bytes → ℕ → Option DsmrUnencryptedTelegram
check_crc_of telegram end_pos = elim (to_crc (take 4 (drop (end_pos + 1) telegram))) [
  | none ↦ none
  | some crc_of_telegram ↦
      if calculate_crc16 (take (end_pos + 1) telegram) == crc_of_telegram
      then some (with_crc telegram end_pos)
      else none
]

-- `from_bytes` once the first '!' is found, at `end_pos`.
from_end : Bytes → Bool → ℕ → Option DsmrUnencryptedTelegram
unfolding check_crc_of
from_end telegram crc_check end_pos =
    let has_suffix = leb (end_pos + 5) (length telegram) in
    if not crc_check
    then if has_suffix
      then some (with_crc telegram end_pos)
      else some (record { view = take (end_pos + 1) telegram; has_crc_suffix = false })
    else if not has_suffix
    then none
    else check_crc_of telegram end_pos

unfoldable pub from_bytes : Bytes → Bool → Option DsmrUnencryptedTelegram
unfolding from_end
from_bytes telegram crc_check =
    if not (starts_with b'/' telegram) then none else elim (find b'!' telegram) [
      | none ↦ none
      | some end_pos ↦ from_end telegram crc_check end_pos
    ]
