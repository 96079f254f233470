-- ===== src/Dlms/Decrypt.antt =====
-- What `from_bytes` accepts, and what `decrypt_inplace` returns.
use mathlib.Core.Path.{subst}
use arduino_dsmr.Base.{
  some_inj, ℕ, zero, suc, ◌+◌, ◌%◌, ◌^◌, ◌≤◌, ◌<◌, Bool, true, false, [], ◌∷◌, ◌++◌, none, some,
  ◌≡◌, refl, ap, ◌∙◌, arith, if◌then◌else◌, Bytes, length,
}
use arduino_dsmr.ParseObis.Bounds.{AllBytes}
use arduino_dsmr.Telegram
use arduino_dsmr.Telegram.{DsmrUnencryptedTelegram}
use arduino_dsmr.Dlms.{
  DlmsPacket, byte_at, telegram_length, from_bytes, nonce, encrypted_telegram, gcm_tag, decrypted,
  decrypt_inplace, Aes128GcmDecryptor,
}
use arduino_dsmr.Dlms.Layout.{dlms_packet, Fits, from_bytes-dlms_packet}

byte_at-lt : (bytes : Bytes) (i : ℕ) → AllBytes bytes → byte_at bytes i < 256
byte_at-lt [] i h = omega arith
byte_at-lt (b ∷ bytes) zero (h, hs) = h
byte_at-lt (b ∷ bytes) (suc i) (h, hs) = byte_at-lt bytes i hs

-- The length that the header gives has not wrapped, if a whole packet has that size.
telegram_length-fits :
    (bytes : Bytes)
    → AllBytes bytes
    → 30 ≤ length bytes
    → (30 + telegram_length (record { bytes = bytes })) % 2 ^ 64 ≡ length bytes
    → (length bytes ≡ 30 + telegram_length (record { bytes = bytes }))
      × (telegram_length (record { bytes = bytes }) ≤ 65518)
unfolding telegram_length
telegram_length-fits bytes all lo e =
    let hi = byte_at-lt bytes 11 all in
    let low = byte_at-lt bytes 12 all in (ground arith, ground arith)

-- Of bytes, `from_bytes` accepts only a packet whose size is that of its header, its tag and its
-- telegram, so that these parts lie within it, and the length of the telegram has not wrapped.
pub from_bytes-bounds :
    (bytes : Bytes) (p : DlmsPacket)
    → AllBytes bytes
    → from_bytes bytes ≡ some p
    → (p.bytes ≡ bytes)
      × (length bytes ≡ 30 + telegram_length p)
      × (10 ≤ telegram_length p)
      × (telegram_length p ≤ 65518)
unfolding from_bytes
from_bytes-bounds bytes p all h =
    let q : DlmsPacket = record { bytes = bytes } in
    let same : q ≡ p = some_inj (ground arith) in
    let ten : 10 ≤ telegram_length q = ground arith in
    let (size, most) = telegram_length-fits bytes all (ground arith) (ground arith) in
    subst
      (λ x.
        (x.bytes ≡ bytes)
        × (length bytes ≡ 30 + telegram_length x)
        × (10 ≤ telegram_length x)
        × (telegram_length x ≤ 65518))
      same (refl, size, ten, most)

Fits-text :
    (title counter ciphertext tag text : Bytes)
    → Fits title counter ciphertext tag
    → length text ≡ length ciphertext
    → Fits title counter text tag
Fits-text title counter ciphertext tag text f n = record {
  title_size = f.title_size;
  counter_size = f.counter_size;
  tag_size = f.tag_size;
  least = omega arith;
  most = omega arith;
}

decrypted-text :
    (check_crc res : Bool) (title counter ciphertext tag text : Bytes)
    → Fits title counter ciphertext tag
    → length text ≡ length ciphertext
    → decrypted check_crc (record { bytes = dlms_packet title counter ciphertext tag }) (res, text)
      ≡ (
        if res then Telegram.from_bytes text check_crc else none,
        dlms_packet title counter text tag,
      )
decrypted-text check_crc res title counter ciphertext tag text fits n =
    let after = (from_bytes-dlms_packet title counter ciphertext tag fits).overwritten text n in
    let read =
      (from_bytes-dlms_packet title counter text tag
        (Fits-text title counter ciphertext tag text fits n)).its_text in
    elim res
      as (λ r.
        decrypted check_crc (record { bytes = dlms_packet title counter ciphertext tag }) (r, text)
        ≡ (
          if r then Telegram.from_bytes text check_crc else none,
          dlms_packet title counter text tag,
        )) [
          | false ↦ ap (λ b. (none, b)) after
          | true ↦
              ap
                (λ b.
                  (Telegram.from_bytes (encrypted_telegram (record { bytes = b })) check_crc, b))
                after
              ∙ ap (λ s. (Telegram.from_bytes s check_crc, dlms_packet title counter text tag)) read
        ]

-- Let a decryptor say of a packet's nonce, text and tag whether they fit, and leave a text of the
-- same size. Then `decrypt_inplace` leaves the packet of that text, and returns the telegram in
-- it, as `DsmrUnencryptedTelegram::from_bytes` reads it, if they fit, and nothing if they do not.
pub decrypt_inplace-dlms_packet :
    (decryptor : Aes128GcmDecryptor) (check_crc : Bool) (title counter ciphertext tag : Bytes)
    (res : Bool) (text : Bytes)
    → Fits title counter ciphertext tag
    → decryptor (title ++ counter) ciphertext tag ≡ (res, text)
    → length text ≡ length ciphertext
    → decrypt_inplace decryptor check_crc (dlms_packet title counter ciphertext tag) ≡ (
      if res then Telegram.from_bytes text check_crc else none,
      dlms_packet title counter text tag,
    )
unfolding decrypt_inplace
decrypt_inplace-dlms_packet decryptor check_crc title counter ciphertext tag res text fits h n =
    let p = from_bytes-dlms_packet title counter ciphertext tag fits in
    let q : DlmsPacket = record { bytes = dlms_packet title counter ciphertext tag } in
    let run : decryptor (nonce q) (encrypted_telegram q) (gcm_tag q) ≡ (res, text) =
      ap (λ x. decryptor x (encrypted_telegram q) (gcm_tag q)) p.its_nonce
      ∙ ap (λ x. decryptor (title ++ counter) x (gcm_tag q)) p.its_text
      ∙ ap (decryptor (title ++ counter) ciphertext) p.its_tag
      ∙ h in
    rw (p.accepted, decrypt_inplace)
      (ap (decrypted check_crc q) run
        ∙ decrypted-text check_crc res title counter ciphertext tag text fits n)
