-- ===== src/Tests/Packets.antt =====
-- DLMS packets and keys.
use arduino_dsmr.Base.{
  ltb, ◌&&◌, Bool, true, false, [], ◌∷◌, none, some, ◌≡◌, ◌↔◌, refl, arith, Bytes, codes, length,
  ◌+◌, ◌≤◌, if◌then◌else◌,
}
use arduino_dsmr.ParseObis.Bounds.{AllBytes}
use arduino_dsmr.Telegram
use arduino_dsmr.Dlms.{DlmsPacket, telegram_length, decrypt_inplace, Aes128GcmDecryptor}
use arduino_dsmr.Dlms.Layout.{dlms_packet, Fits, IsPacketOf, from_bytes-dlms_packet}
use arduino_dsmr.Dlms.Decrypt.{from_bytes-bounds, decrypt_inplace-dlms_packet}
use arduino_dsmr.Key.{from_hex}
use arduino_dsmr.Key.RoundTrip.{hex_text, from_hex-hex_text}
use arduino_dsmr.Key.Accepts.{IsKeyOf, from_hex_iff}

unfoldable are_bytes : Bytes → Bool
are_bytes [] = true
are_bytes (b ∷ bs) = ltb b 256 && are_bytes bs

all_bytes : (bs : Bytes) → are_bytes bs ≡ true → AllBytes bs
unfolding are_bytes
all_bytes [] h = tt
all_bytes (b ∷ bs) h = (ground arith, all_bytes bs (ground arith))

abbrev title : Bytes
title = codes "SYSTEMID"

abbrev counter : Bytes
counter = 16 ∷ 0 ∷ 0 ∷ 1 ∷ []

abbrev ciphertext : Bytes
ciphertext = codes "abcdefghijkl"

abbrev tag : Bytes
tag = codes "0123456789ab"

a_packet-Fits : Fits title counter ciphertext tag
a_packet-Fits = record {
  title_size = refl;
  counter_size = refl;
  tag_size = refl;
  least = omega arith;
  most = omega arith;
}

from_bytes-dlms_packet_example : IsPacketOf title counter ciphertext tag
from_bytes-dlms_packet_example = from_bytes-dlms_packet title counter ciphertext tag a_packet-Fits

-- A decryptor that says yes to everything.
abbrev decryptor : Aes128GcmDecryptor
decryptor n c t = (true, codes "/abc!zz1234x")

decrypt_inplace-dlms_packet_example :
    decrypt_inplace decryptor false (dlms_packet title counter ciphertext tag) ≡ (
      if true then Telegram.from_bytes (codes "/abc!zz1234x") false else none,
      dlms_packet title counter (codes "/abc!zz1234x") tag,
    )
decrypt_inplace-dlms_packet_example =
    decrypt_inplace-dlms_packet decryptor false title counter ciphertext tag true
      (codes "/abc!zz1234x") a_packet-Fits refl refl

abbrev a_packet : DlmsPacket
a_packet = record { bytes = dlms_packet title counter ciphertext tag }

a_packet-AllBytes : AllBytes (dlms_packet title counter ciphertext tag)
unfolding are_bytes
a_packet-AllBytes = all_bytes (dlms_packet title counter ciphertext tag) refl

from_bytes-bounds_example :
    (a_packet.bytes ≡ dlms_packet title counter ciphertext tag)
    × (length (dlms_packet title counter ciphertext tag) ≡ 30 + telegram_length a_packet)
    × (10 ≤ telegram_length a_packet)
    × (telegram_length a_packet ≤ 65518)
from_bytes-bounds_example =
    from_bytes-bounds (dlms_packet title counter ciphertext tag) a_packet a_packet-AllBytes
      ((from_bytes-dlms_packet title counter ciphertext tag a_packet-Fits).accepted)

abbrev key : Bytes
key = codes "0123456789ABCDEF"

key-AllBytes : AllBytes key
unfolding are_bytes
key-AllBytes = all_bytes key refl

from_hex-hex_text_example : from_hex (hex_text true key) ≡ some key
from_hex-hex_text_example = from_hex-hex_text true key refl key-AllBytes

from_hex_iff_example :
    (from_hex (hex_text true key) ≡ some key)
    ↔ ((length (hex_text true key) ≡ 32) × IsKeyOf (hex_text true key) key)
from_hex_iff_example = from_hex_iff (hex_text true key) key
