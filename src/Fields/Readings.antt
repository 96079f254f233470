-- ===== src/Fields/Readings.antt =====
-- `TimestampedFixedField` and `IntField` on a number with its unit.
use arduino_dsmr.Base.{
  ℕ, zero, suc, ◌-◌, ◌%◌, ◌^◌, Bool, true, false, if◌then◌else◌, ◌==◌, leb, not, some, none, ◌≡◌,
  refl, ◌∙◌, ◌⊎◌, inl, inr, arith, Bytes, length, Lacks, Bool-cases,
}
use arduino_dsmr.Base.Int.{pos, to_unsigned}
use arduino_dsmr.Base.Outcome.{ok, failed, undefined}
use arduino_dsmr.ParseString.{parse_string}
use arduino_dsmr.ParseString.RoundTrip.{parse_string-plain}
use arduino_dsmr.ParseNum.{parse_float_or_int}
use arduino_dsmr.ParseNum.Literal.{
  Literal, IsLiteral, literal_text, magnitude, with_sign, parse_num_literal,
}
use arduino_dsmr.Fields.{Value, Parsed, tail_view, parse_fixed, parse_timestamped, parse_int}
use arduino_dsmr.Fields.Groups.{group_text}

-- What a `TimestampedFixedField` makes of a timestamp and a number.
abbrev pub timestamped : Bytes → Literal → Bytes → Value → Parsed
timestamped ts l rest val =
    if not (length ts == 13)
    then (failed, val)
    else if leb (magnitude 3 l) 2147483647
    then (ok (tail_view rest), record { text = ts; number = with_sign l.negative (magnitude 3 l) })
    else (undefined, record val { text = ts })

parse_fixed-bounded :
    (unit int_unit rest : Bytes) (l : Literal) (val : Value)
    → IsLiteral 3 unit l
    → parse_fixed unit int_unit (literal_text unit l rest) val ≡ (
        if leb (magnitude 3 l) 2147483647
        then (ok (tail_view rest), record val { number = with_sign l.negative (magnitude 3 l) })
        else (undefined, val))
unfolding parse_fixed parse_float_or_int
parse_fixed-bounded unit int_unit rest l val h = ground (arith, parse_num_literal 3 unit rest l h)

-- `TimestampedFixedField` on a timestamp with no ')' in parentheses, and a number of at most three
-- decimals with the unit: if the timestamp does not have 13 characters, it fails and keeps the
-- value; else it stores the timestamp, and the number in thousandths if its absolute value is at
-- most 2147483647, leaving the text behind it; if it is above that, the arithmetic overflows.
pub parse_timestamped-literal :
    (unit int_unit ts rest : Bytes) (l : Literal) (val : Value)
    → Lacks b')' ts
    → IsLiteral 3 unit l
    → parse_timestamped unit int_unit (group_text ts (literal_text unit l rest)) val
      ≡ timestamped ts l rest val
unfolding parse_timestamped
parse_timestamped-literal unit int_unit ts rest l val h i = elim (Bool-cases (length ts == 13)) [
  | inl e ↦
      let read : parse_string 13 13 (group_text ts (literal_text unit l rest))
          ≡ some (ts, literal_text unit l rest) =
        parse_string-plain 13 13 ts (literal_text unit l rest) h (omega arith) ∙ ground arith in
      rw (read, parse_timestamped, e)
        (parse_fixed-bounded unit int_unit rest l (record val { text = ts }) i)
  | inr e ↦
      let read : parse_string 13 13 (group_text ts (literal_text unit l rest)) ≡ none =
        parse_string-plain 13 13 ts (literal_text unit l rest) h (omega arith) ∙ ground arith in
      rw (read, parse_timestamped, e) refl
]

-- An integer on `width` bits, negative ones in two's complement.
abbrev pub wrapped : ℕ → Bool → ℕ → ℕ
wrapped width false n = n % 2 ^ width
wrapped width true n = (2 ^ width - n % 2 ^ width) % 2 ^ width

abbrev pub IsWidth : ℕ → Type 0
IsWidth width = (width ≡ 8) ⊎ ((width ≡ 16) ⊎ (width ≡ 32))

to_unsigned-with_sign :
    (width : ℕ) (negative : Bool) (n : ℕ)
    → IsWidth width
    → to_unsigned width (with_sign negative n) ≡ wrapped width negative n
unfolding to_unsigned
to_unsigned-with_sign width false n w = refl
to_unsigned-with_sign width true zero w = elim w [
  | inl e ↦ rw e refl
  | inr (inl e) ↦ rw e refl
  | inr (inr e) ↦ rw e refl
]
to_unsigned-with_sign width true (suc n) (inl e) = rw e (omega arith)
to_unsigned-with_sign width true (suc n) (inr (inl e)) = rw e (omega arith)
to_unsigned-with_sign width true (suc n) (inr (inr e)) = rw e (omega arith)

-- `IntField` on a value type of 8, 16 or 32 bits and an integer with the unit: it stores the
-- integer modulo the size of the type, a negative one in two's complement, and leaves the text
-- behind it; if the absolute value is above 2147483647, the arithmetic overflows.
pub parse_int-literal :
    (width : ℕ) (unit rest : Bytes) (l : Literal) (val : Value)
    → IsWidth width
    → IsLiteral 0 unit l
    → parse_int width unit (literal_text unit l rest) val ≡ (
        if leb (magnitude 0 l) 2147483647
        then (
          ok (tail_view rest),
          record val { number = pos (wrapped width l.negative (magnitude 0 l)) },
        )
        else (undefined, val))
unfolding parse_int
parse_int-literal width unit rest l val w h = ground (
  arith,
  parse_num_literal 0 unit rest l h,
  to_unsigned-with_sign width l.negative (magnitude 0 l) w,
)
