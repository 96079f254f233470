-- ===== src/Tests/Whole.antt =====
-- A whole telegram through the parts.
use arduino_dsmr.Base.{
  true, false, [], ◌∷◌, ◌++◌, some, ◌≡◌, refl, arith, Bytes, codes, Lacks, Lacks-find-none, find,
}
use arduino_dsmr.Base.Int.{pos}
use arduino_dsmr.Base.Outcome.{ok}
use arduino_dsmr.Crc.{calculate_crc16, to_crc}
use arduino_dsmr.ParseObis.{obis_id, same_parts}
use arduino_dsmr.ParseNum.Literal.{Literal, IsLiteral}
use arduino_dsmr.Fields.{raw_field}
use arduino_dsmr.ParsedData.{ParsedData}
use arduino_dsmr.Telegram.Content.{framed, with_suffix}
use arduino_dsmr.Telegram.Integrity.{IsChecksumOf}
use arduino_dsmr.Accumulator.{accumulator}
use arduino_dsmr.Accumulator.Inv.{Plain}
use arduino_dsmr.Accumulator.Stream.{accumulator-Inv}
use arduino_dsmr.Accumulator.Complete.{Delivers}
use arduino_dsmr.Dlms.{Aes128GcmDecryptor, decrypt_inplace}
use arduino_dsmr.Dlms.Layout.{dlms_packet, Fits}
use arduino_dsmr.Parser.{parse, parse_line}
use arduino_dsmr.Parser.Whole.{AllLines, read_telegram}
use arduino_dsmr.Parser.Reading.{unread, holding, parse_line-literal}
use arduino_dsmr.Pipeline.{body_text, Delivers-parse, decrypt_inplace-parse}
use arduino_dsmr.Table.Declare.{define_field}
use arduino_dsmr.Table.Units
use arduino_dsmr.Tests.Averages.{no_value}
use arduino_dsmr.Tests.Lines.{a_data, a_line, a_line-IsLine, id_line}

abbrev a_body : Bytes
a_body = body_text (codes "K") (a_line ∷ [])

abbrev a_checksum : Bytes
a_checksum = codes "4A83"

a_body-IsChecksumOf : IsChecksumOf a_body a_checksum
unfolding to_crc calculate_crc16
a_body-IsChecksumOf = (refl, refl)

a_body-Plain : Plain a_body
unfolding find
a_body-Plain = (Lacks-find-none b'/' a_body refl, Lacks-find-none b'!' a_body refl)

a_checksum-Lacks : Lacks b'/' a_checksum
unfolding find
a_checksum-Lacks = Lacks-find-none b'/' a_checksum refl

lines : AllLines (a_line ∷ [])
lines = (a_line-IsLine, (omega arith, omega arith), tt)

abbrev memory : Bytes
memory = codes "................................"

Delivers-parse_example :
    Delivers (framed a_body ++ a_checksum) (accumulator memory true) (with_suffix a_body a_checksum)
    × (parse a_data (with_suffix a_body a_checksum) true
        ≡ read_telegram true (codes "K") (a_line ∷ []) a_data)
Delivers-parse_example =
    Delivers-parse 32 [] (accumulator memory true) true (codes "K") (a_line ∷ []) a_checksum a_data
      (accumulator-Inv memory true) a_body-Plain a_checksum-Lacks a_body-IsChecksumOf (omega arith)
      id_line lines

-- The telegram as a meter encrypts it, with a line end behind the checksum.
abbrev sent : Bytes
sent = framed a_body ++ (a_checksum ++ codes "\r\n")

-- A decryptor that leaves it.
abbrev leaves_telegram : Aes128GcmDecryptor
leaves_telegram n c t = (true, sent)

a_packet-Fits : Fits (codes "SYSTEMID") (codes "0001") sent (codes "0123456789ab")
a_packet-Fits = record {
  title_size = refl;
  counter_size = refl;
  tag_size = refl;
  least = omega arith;
  most = omega arith;
}

decrypt_inplace-parse_example :
    (decrypt_inplace leaves_telegram true
        (dlms_packet (codes "SYSTEMID") (codes "0001") sent (codes "0123456789ab"))
      ≡ (
        some (with_suffix a_body a_checksum),
        dlms_packet (codes "SYSTEMID") (codes "0001") sent (codes "0123456789ab"),
      ))
    × (parse a_data (with_suffix a_body a_checksum) false
        ≡ read_telegram false (codes "K") (a_line ∷ []) a_data)
decrypt_inplace-parse_example =
    decrypt_inplace-parse leaves_telegram (codes "SYSTEMID") (codes "0001") sent
      (codes "0123456789ab") false (codes "K") (a_line ∷ []) a_checksum (codes "\r\n") a_data
      a_packet-Fits refl refl a_body-Plain.1 a_body-IsChecksumOf id_line lines

-- "7" kWh.
abbrev seven : Literal
seven = record {
  negative = false;
  integer = codes "7";
  point = false;
  decimals = [];
  shown = codes "kWh";
}

seven-IsLiteral : IsLiteral 3 Units.kwh seven
seven-IsLiteral = record {
  integer_digits = (refl, tt);
  fraction_digits = refl;
  few_decimals = omega arith;
  unit_shown = (omega arith, refl, (omega arith, refl, (omega arith, refl, tt)));
}

abbrev identification : ParsedData
identification = define_field "identification" (obis_id 255 255 255 255 255 255) raw_field ∷ []

parse_line-literal_example :
    parse_line
      (identification
        ++ unread "energy_delivered_lux" (obis_id 1 0 1 8 0 255) Units.kwh Units.wh no_value ∷ [])
      (codes "1-0:1.8.0(7*kWh)")
      true
    ≡ (
      ok tt,
      identification
          ++ holding "energy_delivered_lux"
              (obis_id 1 0 1 8 0 255)
              Units.kwh
              Units.wh
              no_value
              (pos 7000)
            ∷ [],
    )
unfolding same_parts
parse_line-literal_example =
    parse_line-literal (codes "1") (codes "0") (codes "1") (codes "8") (codes "0")
      "energy_delivered_lux" Units.kwh Units.wh no_value seven identification [] true
      (
        ((refl, tt), omega arith),
        ((refl, tt), omega arith),
        ((refl, tt), omega arith),
        ((refl, tt), omega arith),
        ((refl, tt), omega arith),
      )
      seven-IsLiteral (omega arith) (refl, tt)
