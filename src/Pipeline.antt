-- ===== src/Pipeline.antt =====
-- The parts together, as the README of the repository connects them: bytes of the port through
-- `PacketAccumulator` (src/dsmr_parser/packet_accumulator.h) to `DsmrParser::parse`
-- (src/dsmr_parser/parser.h), and packets through `DlmsPacketDecryptor`
-- (src/dsmr_parser/dlms_packet_decryptor.h) to it.
use arduino_dsmr.Base.{
  ℕ, ◌+◌, ◌≤◌, Bool, true, List, ◌∷◌, ◌++◌, some, sym, arith, take-append, length-append, ◌≡◌, refl,
  ap, ◌∙◌, Bytes, length, Lacks,
}
use arduino_dsmr.Telegram.{from_bytes}
use arduino_dsmr.Telegram.Content.{framed, with_suffix, from_bytes-framed}
use arduino_dsmr.Telegram.Integrity.{IsChecksumOf, content-with_suffix}
use arduino_dsmr.Accumulator.{PacketAccumulator}
use arduino_dsmr.Accumulator.Inv.{Inv, Plain}
use arduino_dsmr.Accumulator.Complete.{Delivers, Delivers-checked}
use arduino_dsmr.Dlms.{Aes128GcmDecryptor, decrypt_inplace}
use arduino_dsmr.Dlms.Layout.{dlms_packet, Fits}
use arduino_dsmr.Dlms.Decrypt.{decrypt_inplace-dlms_packet}
use arduino_dsmr.ParsedData.{ParsedData}
use arduino_dsmr.Parser.{parse}
use arduino_dsmr.Parser.Whole.{AllLines, lines_text, OneLine, read_telegram, parse-lines_text}

-- The body of a telegram: an ID line and data lines.
abbrev pub body_text : Bytes → List Bytes → Bytes
body_text id ls = id ++ b'\r' ∷ b'\n' ∷ lines_text ls

parse-with_suffix :
    (u : Bool) (id : Bytes) (ls : List Bytes) (d : ParsedData) (crc : Bytes)
    → length crc ≡ 4
    → OneLine id
    → AllLines ls
    → parse d (with_suffix (body_text id ls) crc) u ≡ read_telegram u id ls d
parse-with_suffix u id ls d crc four one h =
    parse-lines_text u id ls d (with_suffix (body_text id ls) crc)
      (content-with_suffix (body_text id ls) crc four) one h

-- Let an accumulator hold the invariant of `process_byte-IsRight` with `limit` bytes of memory,
-- and check the checksum. The bytes of a telegram of an ID line and well-formed data lines with
-- its checksum, which fit in the memory and hold no further '/' or '!', make it return that
-- telegram, whatever it was doing before; and the parser reads the telegram as `read_telegram`
-- says: the ID line into its field, then line by line.
pub Delivers-parse :
    (limit : ℕ) (seen : Bytes) (a : PacketAccumulator) (u : Bool) (id : Bytes) (ls : List Bytes)
    (crc : Bytes) (d : ParsedData)
    → Inv limit true seen a
    → Plain (body_text id ls)
    → Lacks b'/' crc
    → IsChecksumOf (body_text id ls) crc
    → length (framed (body_text id ls)) + 4 ≤ limit
    → OneLine id
    → AllLines ls
    → Delivers (framed (body_text id ls) ++ crc) a (with_suffix (body_text id ls) crc)
      × (parse d (with_suffix (body_text id ls) crc) u ≡ read_telegram u id ls d)
Delivers-parse limit seen a u id ls crc d v plain ns sum fits one h = (
  Delivers-checked limit true seen a v (body_text id ls) plain crc refl ns sum fits,
  parse-with_suffix u id ls d crc sum.0 one h,
)

from_bytes-tail :
    (body crc tail : Bytes)
    → Lacks b'!' body
    → IsChecksumOf body crc
    → from_bytes (framed body ++ (crc ++ tail)) true ≡ some (with_suffix body crc)
from_bytes-tail body crc tail h (four, sum) =
    from_bytes-framed body (crc ++ tail) true h
    ∙ ground (arith, take-append 4 crc tail (sym four), length-append crc tail)

-- Let a decryptor take a packet's nonce, text and tag, and leave in the text's place as many
-- bytes: a telegram of an ID line and well-formed data lines with its checksum and with no further
-- '!' in it, and then any bytes, such as CR LF. Then `decrypt_inplace`, with the check on, returns
-- the telegram without the bytes behind it, and leaves the packet of the decrypted text; and the
-- parser reads the telegram as `read_telegram` says: the ID line into its field, then line by line.
pub decrypt_inplace-parse :
    (decryptor : Aes128GcmDecryptor) (title counter ciphertext tag : Bytes) (u : Bool) (id : Bytes)
    (ls : List Bytes) (crc tail : Bytes) (d : ParsedData)
    → Fits title counter ciphertext tag
    → decryptor (title ++ counter) ciphertext tag
      ≡ (true, framed (body_text id ls) ++ (crc ++ tail))
    → length (framed (body_text id ls) ++ (crc ++ tail)) ≡ length ciphertext
    → Lacks b'!' (body_text id ls)
    → IsChecksumOf (body_text id ls) crc
    → OneLine id
    → AllLines ls
    → (decrypt_inplace decryptor true (dlms_packet title counter ciphertext tag) ≡ (
      some (with_suffix (body_text id ls) crc),
      dlms_packet title counter (framed (body_text id ls) ++ (crc ++ tail)) tag,
    ))
      × (parse d (with_suffix (body_text id ls) crc) u ≡ read_telegram u id ls d)
decrypt_inplace-parse decryptor title counter ciphertext tag u id ls crc tail d fits run size no_end
      sum one h =
    (
      decrypt_inplace-dlms_packet decryptor true title counter ciphertext tag true _ fits run size
          ∙ ap (λ t. (t, dlms_packet title counter (framed (body_text id ls) ++ (crc ++ tail)) tag))
              (from_bytes-tail (body_text id ls) crc tail no_end sum),
      parse-with_suffix u id ls d crc sum.0 one h,
    )
