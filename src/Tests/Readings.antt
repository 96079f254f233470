-- ===== src/Tests/Readings.antt =====
-- A gas reading with its timestamp, and an integer.
use arduino_dsmr.Base.{
  true, false, [], ◌≡◌, refl, inl, inr, arith, Bytes, codes, find, Lacks-find-none, Lacks,
}
use arduino_dsmr.Base.Int.{pos}
use arduino_dsmr.Base.Outcome.{ok}
use arduino_dsmr.ParseNum.Literal.{Literal, IsLiteral}
use arduino_dsmr.Fields.{tail_view, parse_timestamped, parse_int}
use arduino_dsmr.Fields.Readings.{parse_timestamped-literal, parse_int-literal}
use arduino_dsmr.Table.Units
use arduino_dsmr.Tests.Averages.{no_value}

abbrev a_time : Bytes
a_time = codes "101209112500W"

a_time-Lacks : Lacks b')' a_time
unfolding find
a_time-Lacks = Lacks-find-none b')' a_time refl

abbrev a_volume : Literal
a_volume = record {
  negative = false;
  integer = codes "12";
  point = true;
  decimals = codes "5";
  shown = codes "m3";
}

a_volume-IsLiteral : IsLiteral 3 Units.m3 a_volume
a_volume-IsLiteral = record {
  integer_digits = (refl, (refl, tt));
  fraction_digits = (omega arith, (refl, tt));
  few_decimals = omega arith;
  unit_shown = (omega arith, refl, (omega arith, refl, tt));
}

parse_timestamped-literal_example :
    parse_timestamped Units.m3 Units.dm3 (codes "(101209112500W)(12.5*m3)") no_value
    ≡ (ok (tail_view []), record { text = a_time; number = pos 12500 })
parse_timestamped-literal_example =
    parse_timestamped-literal Units.m3 Units.dm3 a_time [] a_volume no_value a_time-Lacks
      a_volume-IsLiteral

abbrev minus_two : Literal
minus_two = record {
  negative = true;
  integer = codes "2";
  point = false;
  decimals = [];
  shown = [];
}

minus_two-IsLiteral : IsLiteral 0 Units.unitless minus_two
minus_two-IsLiteral = record {
  integer_digits = (refl, tt);
  fraction_digits = refl;
  few_decimals = omega arith;
  unit_shown = tt;
}

parse_int-literal_example :
    parse_int 16 Units.unitless (codes "(-2)") no_value
    ≡ (ok (tail_view []), record { text = []; number = pos 65534 })
parse_int-literal_example =
    parse_int-literal 16 Units.unitless [] minus_two no_value (inr (inl refl)) minus_two-IsLiteral
