-- ===== src/Tests/Telegrams.antt =====
-- Telegrams and checksums.
use arduino_dsmr.Base.{
  ◌≢◌, ◌↔◌, true, [], ◌∷◌, ◌++◌, none, some, ◌≡◌, refl, arith, Bytes, codes, find,
}
use arduino_dsmr.Crc.{calculate_crc16, to_crc}
use arduino_dsmr.Crc.Hex.{print_crc, to_crc-print_crc}
use arduino_dsmr.Crc.Detect.{crc16_detects}
use arduino_dsmr.Crc.Polynomial.{number_of, remainder, message_bits}
use arduino_dsmr.Crc.Division.{calculate_crc16-remainder}
use arduino_dsmr.Telegram.{from_bytes}
use arduino_dsmr.Telegram.Content.{framed, with_suffix, IsFramed, accepted, from_bytes_iff}
use arduino_dsmr.Telegram.Integrity.{IsAccepted, from_bytes-IsAccepted, from_bytes_detects}

-- A telegram with its checksum, and one more byte.
abbrev some_telegram : Bytes
some_telegram = codes "/a!41D8 "

some_telegram-from_bytes :
    from_bytes some_telegram true ≡ some (with_suffix (codes "a") (codes "41D8"))
unfolding from_bytes to_crc calculate_crc16 find
some_telegram-from_bytes = refl

from_bytes_detects_example : from_bytes (framed (codes "b") ++ codes "41D8 ") true ≡ none
from_bytes_detects_example =
    from_bytes_detects [] [] (codes "41D8 ") b'a' b'b' (omega arith) (omega arith) (omega arith)
      (omega arith) (omega arith, tt) some_telegram-from_bytes

from_bytes-IsAccepted_example :
    IsAccepted some_telegram true (with_suffix (codes "a") (codes "41D8"))
from_bytes-IsAccepted_example = from_bytes-IsAccepted some_telegram true some_telegram-from_bytes

from_bytes_iff_example :
    (from_bytes some_telegram true ≡ some (with_suffix (codes "a") (codes "41D8"))) ↔ (
      (body : Bytes) × (tail : Bytes) × IsFramed some_telegram body tail
      × (accepted body tail true ≡ some (with_suffix (codes "a") (codes "41D8"))))
from_bytes_iff_example = from_bytes_iff some_telegram true (with_suffix (codes "a") (codes "41D8"))

crc16_detects_example :
    calculate_crc16 (codes "/" ++ b'a' ∷ codes "!")
    ≢ calculate_crc16 (codes "/" ++ b'b' ∷ codes "!")
crc16_detects_example =
    crc16_detects (codes "/") (codes "!") b'a' b'b' (omega arith) (omega arith) (omega arith)

to_crc-print_crc_example : to_crc (print_crc true 16856) ≡ some 16856
to_crc-print_crc_example = to_crc-print_crc true 16856 (omega arith)

-- The usual check text of checksums; its value is 0xBB3D.
calculate_crc16-remainder_example :
    calculate_crc16 (codes "123456789") ≡ number_of (remainder (message_bits (codes "123456789")))
calculate_crc16-remainder_example = calculate_crc16-remainder (codes "123456789")

check_value : number_of (remainder (message_bits (codes "123456789"))) ≡ 0xbb3d
check_value = refl
