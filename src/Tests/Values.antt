-- ===== src/Tests/Values.antt =====
-- OBIS ids, strings and numbers of a line.
use arduino_dsmr.Base.{
  ◌^◌, ◌*◌, ◌+◌, true, false, [], ◌∷◌, ◌++◌, none, some, ◌≡◌, refl, arith, codes, Lacks,
  Lacks-find-none, find, if◌then◌else◌, length,
}
use arduino_dsmr.Base.Int.{pos}
use arduino_dsmr.Base.Outcome.{ok, undefined}
use arduino_dsmr.ParseString.{parse_string}
use arduino_dsmr.ParseString.RoundTrip.{fits, parse_string-plain, parse_string_nested}
use arduino_dsmr.ParseString.Sound.{IsQuoted, parse_string_sound}
use arduino_dsmr.ParseNum.{match_unit, parse_num, parse_float_or_int}
use arduino_dsmr.ParseNum.Value.{spell, bounded}
use arduino_dsmr.ParseNum.Literal.{
  Literal, IsLiteral, SameUnit, literal_text, magnitude, with_sign, parse_num_literal,
}
use arduino_dsmr.ParseNum.Fallback.{OtherUnit, parse_float_or_int_whole}
use arduino_dsmr.ParseObis.{obis_id, no_id, parse_obis}
use arduino_dsmr.ParseObis.RoundTrip.{IsPart, parse_obis-five}
use arduino_dsmr.ParseObis.Bounds.{IsId, IsParsed, parse_obis-IsParsed}

-- "(12.5*kWh)", for three decimals.
abbrev reading : Literal
reading = record {
  negative = false;
  integer = codes "12";
  point = true;
  decimals = codes "5";
  shown = codes "KWH";
}

kwh : SameUnit (codes "kWh") (codes "KWH")
kwh = (omega arith, refl, (omega arith, refl, (omega arith, refl, tt)))

reading-IsLiteral : IsLiteral 3 (codes "kWh") reading
reading-IsLiteral = record {
  integer_digits = (refl, (refl, tt));
  fraction_digits = (omega arith, (refl, tt));
  few_decimals = omega arith;
  unit_shown = kwh;
}

parse_num_literal_example :
    parse_num 3 (codes "kWh") (literal_text (codes "kWh") reading (codes "\r\n"))
    ≡ bounded (magnitude 3 reading) (with_sign false (magnitude 3 reading), codes "\r\n")
parse_num_literal_example =
    parse_num_literal 3 (codes "kWh") (codes "\r\n") reading reading-IsLiteral

reading_value : parse_num 3 (codes "kWh") (codes "(12.5*KWH)!") ≡ ok (pos 12500, codes "!")
reading_value = parse_num_literal 3 (codes "kWh") (codes "!") reading reading-IsLiteral

not_kwh : OtherUnit (codes "kWh") (codes "Wh") []
unfolding match_unit
not_kwh = refl

parse_float_or_int_whole_example :
    parse_float_or_int 3 (codes "kWh") (codes "Wh") (codes "(250*Wh)")
    ≡ bounded (spell 0 (codes "250") * 10 ^ 3) (pos (spell 0 (codes "250")), [])
parse_float_or_int_whole_example =
    parse_float_or_int_whole 3 b'k' b'W' (codes "Wh") (codes "h") (codes "250") (codes "Wh") []
      (refl, (refl, (refl, tt))) (omega arith, refl, (omega arith, refl, tt)) not_kwh

-- 2147.484 kWh as whole Wh: the number fits 32 bits, and the first attempt overflows.
overflowing : parse_float_or_int 3 (codes "kWh") (codes "Wh") (codes "(2147484*Wh)") ≡ undefined
overflowing =
    parse_float_or_int_whole 3 b'k' b'W' (codes "Wh") (codes "h") (codes "2147484") (codes "Wh") []
      (refl, (refl, (refl, (refl, (refl, (refl, (refl, tt)))))))
      (omega arith, refl, (omega arith, refl, tt)) not_kwh

no_close : Lacks b')' (codes "0002")
unfolding find
no_close = Lacks-find-none b')' (codes "0002") refl

parse_string-plain_example :
    parse_string 4 32 (codes "(0002)!")
    ≡ (if fits 4 32 (length (codes "0002")) then some (codes "0002", codes "!") else none)
parse_string-plain_example =
    parse_string-plain 4 32 (codes "0002") (codes "!") no_close (omega arith)

parse_string_nested_example : parse_string 4 32 (codes "(0002))!") ≡ (
    if fits 4 32 (length (codes "0002") + 1)
    then some (codes "0002" ++ b')' ∷ [], codes "!")
    else none)
parse_string_nested_example = parse_string_nested 4 32 (codes "0002") (codes "!") no_close

read_0002 : parse_string 4 32 (codes "(0002)!") ≡ some (codes "0002", codes "!")
read_0002 = parse_string-plain 4 32 (codes "0002") (codes "!") no_close (omega arith)

parse_string_sound_example : IsQuoted 4 32 (codes "(0002)!") (codes "0002") (codes "!")
parse_string_sound_example = parse_string_sound 4 32 (codes "(0002)!") read_0002

IsPart-one : IsPart (codes "1")
IsPart-one = ((refl, tt), omega arith)

IsPart-zero : IsPart (codes "0")
IsPart-zero = ((refl, tt), omega arith)

IsPart-eight : IsPart (codes "8")
IsPart-eight = ((refl, tt), omega arith)

parse_obis-five_example :
    parse_obis no_id (codes "1-0:1.8.1(") ≡ some (obis_id 1 0 1 8 1 255, codes "(")
parse_obis-five_example =
    parse_obis-five (codes "1") (codes "0") (codes "1") (codes "8") (codes "1") IsPart-one
      IsPart-zero IsPart-one IsPart-eight IsPart-one (codes "(") (refl, refl)

IsId-zeros : IsId no_id.v
IsId-zeros = record {
  six = refl;
  bytes =
      (omega arith, (omega arith, (omega arith, (omega arith, (omega arith, (omega arith, tt))))));
}

read_id : parse_obis no_id (codes "1-0:1.8.1(") ≡ some (obis_id 1 0 1 8 1 255, codes "(")
read_id =
    parse_obis-five (codes "1") (codes "0") (codes "1") (codes "8") (codes "1") IsPart-one
      IsPart-zero IsPart-one IsPart-eight IsPart-one (codes "(") (refl, refl)

parse_obis-IsParsed_example : IsParsed (codes "1-0:1.8.1(") (obis_id 1 0 1 8 1 255) (codes "(")
parse_obis-IsParsed_example = parse_obis-IsParsed no_id (codes "1-0:1.8.1(") IsId-zeros read_id

-- The value 0 before decimals beyond the third: the rest of the text is not looked at.
zero_skips : parse_num 3 (codes "m3") (codes "(0.0009*xx)") ≡ ok (pos 0, [])
unfolding parse_num match_unit
zero_skips = refl
