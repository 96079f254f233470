-- ===== src/Tests/Averages.antt =====
-- A line of two peaks, whose average is 4.429 kW.
use arduino_dsmr.Base.{
  ◌∷◌, ◌≤◌, [], none, ◌≡◌, refl, arith, Bytes, codes, find, length, Lacks-find-none, true, false,
  ◌++◌,
}
use arduino_dsmr.Base.Outcome.{ok}
use arduino_dsmr.Base.Int.{ℤ, pos}
use arduino_dsmr.ParseNum.{parse_num, parse_float_or_int}
use arduino_dsmr.ParseNum.Literal.{Literal, IsLiteral, parse_num_literal}
use arduino_dsmr.Fields.{Value, tail_view, parse_averaged}
use arduino_dsmr.Fields.Groups.{IsGroup, group_text}
use arduino_dsmr.Fields.Average.{
  Entry, IsEntry, entries_text, sums_of, averaged, parse_averaged-entries_text,
}
use arduino_dsmr.Table.Units

abbrev peak : Bytes → Literal
peak decimals = record {
  negative = false;
  integer = codes "04";
  point = true;
  decimals = decimals;
  shown = codes "kW";
}

abbrev first_peak : Entry
first_peak = record {
  start = codes "230201000000W";
  stop = codes "230117224500W";
  reading = codes "04.329*kW)";
  negative = false;
  amount = 4329;
}

abbrev second_peak : Entry
second_peak = record {
  start = codes "230202000000W";
  stop = codes "230214224500W";
  reading = codes "04.529*kW)";
  negative = false;
  amount = 4529;
}

IsGroup-short : (s : Bytes) → find b')' s ≡ none → 1 ≤ length s → length s ≤ 20 → IsGroup s
IsGroup-short s h lo hi = record {
  no_close = Lacks-find-none b')' s h;
  at_least = lo;
  at_most = hi;
}

parse_float_or_int-ok :
    (unit int_unit input : Bytes) {r : ℤ × Bytes}
    → parse_num 3 unit input ≡ ok r
    → parse_float_or_int 3 unit int_unit input ≡ ok r
unfolding parse_float_or_int
parse_float_or_int-ok unit int_unit input h = rw (h, parse_float_or_int) refl

peak-IsLiteral : IsLiteral 3 Units.kw (peak (codes "329"))
peak-IsLiteral = record {
  integer_digits = (refl, (refl, tt));
  fraction_digits = (omega arith, (refl, (refl, (refl, tt))));
  few_decimals = omega arith;
  unit_shown = (omega arith, refl, (omega arith, refl, tt));
}

second-IsLiteral : IsLiteral 3 Units.kw (peak (codes "529"))
second-IsLiteral = record {
  integer_digits = (refl, (refl, tt));
  fraction_digits = (omega arith, (refl, (refl, (refl, tt))));
  few_decimals = omega arith;
  unit_shown = (omega arith, refl, (omega arith, refl, tt));
}

first_peak-IsEntry : IsEntry Units.kw Units.w first_peak
unfolding find
first_peak-IsEntry = record {
  start_group = IsGroup-short (codes "230201000000W") refl (omega arith) (omega arith);
  stop_group = IsGroup-short (codes "230117224500W") refl (omega arith) (omega arith);
  reads = λ rest.
      parse_float_or_int-ok Units.kw Units.w (b'(' ∷ (codes "04.329*kW)" ++ rest))
        (parse_num_literal 3 Units.kw rest (peak (codes "329")) peak-IsLiteral);
}

second_peak-IsEntry : IsEntry Units.kw Units.w second_peak
unfolding find
second_peak-IsEntry = record {
  start_group = IsGroup-short (codes "230202000000W") refl (omega arith) (omega arith);
  stop_group = IsGroup-short (codes "230214224500W") refl (omega arith) (omega arith);
  reads = λ rest.
      parse_float_or_int-ok Units.kw Units.w (b'(' ∷ (codes "04.529*kW)" ++ rest))
        (parse_num_literal 3 Units.kw rest (peak (codes "529")) second-IsLiteral);
}

abbrev pub no_value : Value
no_value = record { text = []; number = pos 0 }

IsGroup-id : IsGroup (codes "1-0:1.6.0")
unfolding find
IsGroup-id = IsGroup-short (codes "1-0:1.6.0") refl (omega arith) (omega arith)

parse_averaged-entries_text_example :
    parse_averaged Units.kw Units.w
      (group_text (codes "2") (
        group_text
          (codes "1-0:1.6.0")
          (group_text (codes "1-0:1.6.0") (entries_text (first_peak ∷ second_peak ∷ [])))))
      no_value
    ≡ averaged no_value 2 (sums_of 0 0 (first_peak ∷ second_peak ∷ []))
parse_averaged-entries_text_example =
    parse_averaged-entries_text Units.kw Units.w (codes "2") (codes "1-0:1.6.0") (codes "1-0:1.6.0")
      first_peak (second_peak ∷ []) no_value (refl, tt) refl (omega arith) IsGroup-id IsGroup-id
      (first_peak-IsEntry, (second_peak-IsEntry, tt))

-- The value is 4429 W.
average_of_peaks :
    averaged no_value 2 (sums_of 0 0 (first_peak ∷ second_peak ∷ []))
    ≡ (ok (tail_view []), record { text = []; number = pos 4429 })
average_of_peaks = refl
