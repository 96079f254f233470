-- ===== src/Dlms.antt =====
-- `DlmsPacketDecryptor` of src/dsmr_parser/dlms_packet_decryptor.h, and the key of
-- src/dsmr_parser/decryption/aes128gcm.h. The AES-GCM decryptor is a parameter: with a nonce, a
-- ciphertext and a tag it says whether they fit, and what it leaves in the ciphertext's place.
pub mod Layout
pub mod Decrypt
use arduino_dsmr.Base.{
  ℕ, ◌+◌, ◌*◌, ◌%◌, ◌^◌, Bool, true, false, not, ◌&&◌, [], ◌∷◌, ◌++◌, Option, none, some, ◌==◌, ltb,
  if◌then◌else◌, Bytes, length, get_elem?, take, drop, sub_size, size_mod,
}
use arduino_dsmr.Telegram.{DsmrUnencryptedTelegram}
use arduino_dsmr.Telegram

-- A pointer to a packet: the bytes that it points to.
pub record DlmsPacket : Type 0 where
  pub bytes : Bytes

-- A byte of the header; `from_bytes` has compared the size with that of the header first.
abbrev pub byte_at : Bytes → ℕ → ℕ
byte_at bytes i = elim (get_elem? bytes i) [ none ↦ 0 | some b ↦ b ]

abbrev pub header_size : ℕ
header_size = 18

abbrev pub tag_size : ℕ
tag_size = 12

-- Two bytes, high one first, `(a << 8) | b`. The int is negative for a total length below 17, and wraps in the cast to `size_t`.
unfoldable pub telegram_length : DlmsPacket → ℕ
telegram_length p =
    let total_length = byte_at p.bytes 11 * 2 ^ 8 + byte_at p.bytes 12 in sub_size total_length 17

unfoldable pub header_bytes_consistent : DlmsPacket → Bool
header_bytes_consistent p =
    byte_at p.bytes 0 == 219
    && byte_at p.bytes 1 == 8
    && byte_at p.bytes 10 == 130
    && byte_at p.bytes 13 == 48

unfoldable pub from_bytes : Bytes → Option DlmsPacket
from_bytes bytes =
    let packet : DlmsPacket = record { bytes = bytes } in
    if ltb (length bytes) (header_size + tag_size)
    then none
    else if not ((header_size + tag_size + telegram_length packet) % size_mod == length bytes)
    then none
    else if ltb (telegram_length packet) 10
    then none
    else if not (header_bytes_consistent packet)
    then none
    else some packet

unfoldable pub nonce : DlmsPacket → Bytes
nonce p = take 8 (drop 2 p.bytes) ++ take 4 (drop 14 p.bytes)

unfoldable pub encrypted_telegram : DlmsPacket → Bytes
encrypted_telegram p = take (telegram_length p) (drop header_size p.bytes)

unfoldable pub gcm_tag : DlmsPacket → Bytes
gcm_tag p = take tag_size (drop (header_size + telegram_length p) p.bytes)

-- The memory once the encrypted telegram is overwritten.
unfoldable pub overwrite : DlmsPacket → Bytes → DlmsPacket
overwrite p text = record {
  bytes = take header_size p.bytes ++ text ++ drop (header_size + telegram_length p) p.bytes;
}

-- `Aes128GcmDecryptor::decrypt_inplace`, with its keys set.
abbrev pub Aes128GcmDecryptor : Type 0
Aes128GcmDecryptor = Bytes → Bytes → Bytes → Bool × Bytes

-- What is returned once the decryptor has run, and the caller's bytes.
abbrev pub decrypted : Bool → DlmsPacket → Bool × Bytes → Option DsmrUnencryptedTelegram × Bytes
decrypted check_crc dlms_packet (res, text) =
    let after = overwrite dlms_packet text in
    if not res
    then (none, after.bytes)
    else (Telegram.from_bytes (encrypted_telegram after) check_crc, after.bytes)

-- The telegram, and the caller's bytes afterwards.
unfoldable pub decrypt_inplace :
    Aes128GcmDecryptor → Bool → Bytes → Option DsmrUnencryptedTelegram × Bytes
decrypt_inplace decryptor check_crc dlms_packet_bytes = elim (from_bytes dlms_packet_bytes) [
  | none ↦ (none, dlms_packet_bytes)
  | some dlms_packet ↦
      decrypted check_crc dlms_packet
        (decryptor (nonce dlms_packet) (encrypted_telegram dlms_packet) (gcm_tag dlms_packet))
]
