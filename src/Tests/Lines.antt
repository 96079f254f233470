-- ===== src/Tests/Lines.antt =====
-- Lines, fields and whole telegrams.
use arduino_dsmr.Base.{
  ℕ, ◌≤◌, length, not, ◌&&◌, ◌==◌, Bool, true, false, [], ◌∷◌, ◌++◌, none, ◌≡◌, refl, ◌⊎◌, arith,
  Bytes, codes, Lacks-find-none, find,
}
use arduino_dsmr.Base.Outcome.{ok, failed}
use arduino_dsmr.Base.Int.{pos}
use arduino_dsmr.ParseObis.{obis_id, same_parts}
use arduino_dsmr.Fields.{raw_field, fixed_field, tail_view, hex_or_regular, parse_last, parse_fixed}
use arduino_dsmr.Fields.Hex.{hex_or_regular-hex_text}
use arduino_dsmr.Fields.Groups.{IsGroup, groups_text, group_text, parse_last-groups_text}
use arduino_dsmr.Key.RoundTrip.{hex_text}
use arduino_dsmr.ParsedData.{Field, ParsedData, try_field, dispatch}
use arduino_dsmr.ParsedData.Dispatch.{Unknown, IsFirst, dispatch_once}
use arduino_dsmr.Telegram.{DsmrUnencryptedTelegram, content_without_crc}
use arduino_dsmr.Telegram.Content.{framed}
use arduino_dsmr.Parser.{parse, is_newline}
use arduino_dsmr.Parser.Lines.{IsLine, done, plain, opening, closing}
use arduino_dsmr.Parser.Whole.{OneLine, read_telegram, parse-lines_text}
use arduino_dsmr.Parser.Keeps.{Keeps, parse-Keeps}
use arduino_dsmr.Table.{all_fields}
use arduino_dsmr.Table.Declare.{define_field, default_ids}
use arduino_dsmr.Table.Ids.{is_gj, dispatch-all_fields}
use arduino_dsmr.Table.Units

abbrev pub a_data : ParsedData
a_data =
    define_field "identification" (obis_id 255 255 255 255 255 255) raw_field
    ∷ define_field "energy_delivered_lux" (obis_id 1 0 1 8 0 255) (fixed_field Units.kwh Units.wh)
    ∷ []

abbrev pub a_line : Bytes
a_line = codes "1-0:1.8.0(7*kWh)"

abbrev a_telegram : DsmrUnencryptedTelegram
a_telegram = record { view = framed (codes "K\r\n1-0:1.8.0(7*kWh)\r\n"); has_crc_suffix = false }

abbrev is_plain : ℕ → Bool
is_plain c = not (c == b'(') && not (c == b')') && not (is_newline c)

plain_at : {o : Bool} {c : ℕ} {s : Bytes} → is_plain c ≡ true → IsLine o s → IsLine o (c ∷ s)
plain_at h k = plain (ground arith) (ground arith) (λ e. absurd (ground arith)) k

pub a_line-IsLine : IsLine false a_line
a_line-IsLine = plain_at refl (
    plain_at refl (
      plain_at refl (
        plain_at refl (
          plain_at refl (
            plain_at refl (
              plain_at refl (
                plain_at refl (
                  plain_at refl (
                    opening refl (omega arith) (
                      plain_at refl (
                        plain_at refl (
                          plain_at refl
                            (plain_at refl (plain_at refl (closing refl tt done)))))))))))))))

pub id_line : OneLine (codes "K")
id_line = (refl, tt)

parse-lines_text_example :
    parse a_data a_telegram false ≡ read_telegram false (codes "K") (a_line ∷ []) a_data
unfolding content_without_crc
parse-lines_text_example =
    parse-lines_text false (codes "K") (a_line ∷ []) a_data a_telegram refl id_line
      (a_line-IsLine, (omega arith, omega arith), tt)

parse-Keeps_example : Keeps a_data (parse a_data a_telegram false).1
parse-Keeps_example = parse-Keeps a_data a_telegram false

dispatch_once_example :
    (Unknown (obis_id 1 0 1 8 0 255) a_data
      × (dispatch a_data (obis_id 1 0 1 8 0 255) (codes "(7*kWh)")
          ≡ (ok (tail_view (codes "(7*kWh)")), a_data)))
    ⊎ ((front : ParsedData) × (f : Field) × (back : ParsedData) × IsFirst
          (obis_id 1 0 1 8 0 255)
          a_data
          front
          f
          back
        × (dispatch a_data (obis_id 1 0 1 8 0 255) (codes "(7*kWh)") ≡ (
          (try_field f (codes "(7*kWh)")).0,
          front ++ (try_field f (codes "(7*kWh)")).1 ∷ back,
        ))
        × ((input' : Bytes)
            → dispatch
                (dispatch a_data (obis_id 1 0 1 8 0 255) (codes "(7*kWh)")).1
                (obis_id 1 0 1 8 0 255)
                input'
              ≡ (failed, (dispatch a_data (obis_id 1 0 1 8 0 255) (codes "(7*kWh)")).1)))
dispatch_once_example = dispatch_once (obis_id 1 0 1 8 0 255) (codes "(7*kWh)") a_data

-- The table without its first field.
abbrev others : ParsedData
others = elim (all_fields default_ids) [ [] ↦ [] | f ∷ fs ↦ fs ]

not_gj : is_gj (define_field "identification" (obis_id 255 255 255 255 255 255) raw_field) ≡ false
unfolding is_gj same_parts
not_gj = refl

dispatch-all_fields_example :
    dispatch (all_fields default_ids) (obis_id 255 255 255 255 255 255) (codes "K") ≡ (
      (try_field
          (define_field "identification" (obis_id 255 255 255 255 255 255) raw_field)
          (codes "K")).0,
      (try_field
            (define_field "identification" (obis_id 255 255 255 255 255 255) raw_field)
            (codes "K")).1
          ∷ others,
    )
dispatch-all_fields_example =
    dispatch-all_fields []
      (define_field "identification" (obis_id 255 255 255 255 255 255) raw_field) others (codes "K")
      refl not_gj

hex_or_regular-hex_text_example : hex_or_regular (hex_text true (codes "E0")) ≡ codes "E0"
hex_or_regular-hex_text_example = hex_or_regular-hex_text (codes "E0") (refl, (refl, tt))

IsGroup-short : (s : Bytes) → find b')' s ≡ none → 1 ≤ length s → length s ≤ 20 → IsGroup s
IsGroup-short s h lo hi = record {
  no_close = Lacks-find-none b')' s h;
  at_least = lo;
  at_most = hi;
}

parse_last-groups_text_example :
    parse_last Units.m3 Units.dm3
      (groups_text (codes "121129" ∷ []) (codes "1.5*m3"))
      (record { text = []; number = pos 0 })
    ≡ parse_fixed Units.m3 Units.dm3
        (group_text (codes "1.5*m3") [])
        (record { text = []; number = pos 0 })
unfolding find
parse_last-groups_text_example =
    parse_last-groups_text Units.m3 Units.dm3 (codes "121129" ∷ []) (codes "1.5*m3")
      (record { text = []; number = pos 0 })
      (IsGroup-short (codes "121129") refl (omega arith) (omega arith), tt)
      (IsGroup-short (codes "1.5*m3") refl (omega arith) (omega arith))
