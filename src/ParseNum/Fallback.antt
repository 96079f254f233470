-- ===== src/ParseNum/Fallback.antt =====
-- `parse_float_or_int` on a whole number in the smaller unit: "(000441879*Wh)".
use mathlib.Core.Path.{subst}
use arduino_dsmr.Base.{
  ℕ, ◌*◌, ◌^◌, Bool, false, [], ◌∷◌, ◌++◌, none, ◌≡◌, refl, ap, ◌∙◌, arith, Bytes, leb,
  if◌then◌else◌, append-nil,
}
use arduino_dsmr.Base.Outcome.{failed, undefined}
use arduino_dsmr.Base.Int.{pos, int_max}
use arduino_dsmr.ParseNum.{match_unit, skip_unit, finish_num, number, parse_num, parse_float_or_int}
use arduino_dsmr.ParseNum.Value.{
  AllDigits, spell, bounded, scan_int-append, le-mul-pow_ten, scale_lem, fraction-append,
}
use arduino_dsmr.ParseNum.Literal.{
  SameUnit, Literal, IsLiteral, parse_num_literal, magnitude, parse_num-signed, signed-NoMinus,
  NoMinus-append,
}

-- A unit that is not the one shown.
abbrev pub OtherUnit : Bytes → Bytes → Bytes → Type 0
OtherUnit unit shown rest = match_unit unit (shown ++ b')' ∷ rest) ≡ none

module _ (u : ℕ) (us shown rest : Bytes) (other : OtherUnit (u ∷ us) shown rest) where
  abbrev star_text : Bytes
  star_text = b'*' ∷ (shown ++ b')' ∷ rest)

  finish_other : (negative : Bool) (v : ℕ) → finish_num (u ∷ us) negative v star_text ≡ failed
  unfolding finish_num skip_unit
  finish_other negative v = ground arith

  -- The attempt with the larger unit: it fails, or overflows first.
  number_other :
      (max_decimals : ℕ) (s : Bytes) (negative : Bool)
      → AllDigits s
      → number max_decimals (u ∷ us) negative (s ++ star_text)
        ≡ (if leb (spell 0 s * 10 ^ max_decimals) int_max then failed else undefined)
  unfolding number
  number_other max_decimals s negative d = ground (
    arith,
    scan_int-append s star_text 0 d refl,
    fraction-append false [] star_text max_decimals max_decimals (spell 0 s) refl refl,
    scale_lem max_decimals (spell 0 s),
    le-mul-pow_ten (spell 0 s) max_decimals,
    finish_other negative (spell 0 s * 10 ^ max_decimals),
  )

  parse_num_other :
      (max_decimals : ℕ) (s : Bytes)
      → AllDigits s
      → parse_num max_decimals (u ∷ us) (b'(' ∷ (s ++ star_text))
        ≡ (if leb (spell 0 s * 10 ^ max_decimals) int_max then failed else undefined)
  parse_num_other max_decimals s d =
      parse_num-signed max_decimals (u ∷ us) (s ++ star_text)
      ∙ signed-NoMinus max_decimals (u ∷ us) (s ++ star_text)
          (NoMinus-append s star_text d (omega arith))
      ∙ number_other max_decimals s false d

abbrev whole_number : Bytes → Bytes → Literal
whole_number s shown = record {
  negative = false;
  integer = s;
  point = false;
  decimals = [];
  shown = shown;
}

whole_number-IsLiteral :
    (s shown unit : Bytes)
    → AllDigits s
    → SameUnit unit shown
    → IsLiteral 0 unit (whole_number s shown)
whole_number-IsLiteral s shown unit d same = record {
  integer_digits = d;
  fraction_digits = refl;
  few_decimals = omega arith;
  unit_shown = same;
}

parse_num_whole :
    (v : ℕ) (vs s shown rest : Bytes)
    → AllDigits s
    → SameUnit (v ∷ vs) shown
    → parse_num 0 (v ∷ vs) (b'(' ∷ (s ++ (b'*' ∷ (shown ++ b')' ∷ rest))))
      ≡ bounded (spell 0 s) (pos (spell 0 s), rest)
parse_num_whole v vs s shown rest d same =
    subst
      (λ t.
        parse_num 0 (v ∷ vs) (b'(' ∷ (s ++ (b'*' ∷ (shown ++ b')' ∷ rest))))
        ≡ bounded t (pos t, rest))
      same_value
      (parse_num_literal 0 (v ∷ vs) rest (whole_number s shown)
        (whole_number-IsLiteral s shown (v ∷ vs) d same))
  where
    same_value : magnitude 0 (whole_number s shown) ≡ spell 0 s
    same_value = ap (λ t. spell 0 t * 10 ^ 0) (append-nil s) ∙ omega arith

-- A whole number in the smaller unit, in any mix of cases, where the larger unit does not fit the
-- text: the result is the number itself, and what follows the ')', if the number times
-- 10 ^ `max_decimals` is at most 2147483647; above that, the first attempt overflows.
pub parse_float_or_int_whole :
    (max_decimals u v : ℕ) (us vs s shown rest : Bytes)
    → AllDigits s
    → SameUnit (v ∷ vs) shown
    → OtherUnit (u ∷ us) shown rest
    → parse_float_or_int max_decimals
        (u ∷ us)
        (v ∷ vs)
        (b'(' ∷ (s ++ (b'*' ∷ (shown ++ b')' ∷ rest))))
      ≡ bounded (spell 0 s * 10 ^ max_decimals) (pos (spell 0 s), rest)
unfolding parse_float_or_int
parse_float_or_int_whole max_decimals u v us vs s shown rest d same other = ground (
  arith,
  parse_num_other u us shown rest other max_decimals s d,
  parse_num_whole v vs s shown rest d same,
  le-mul-pow_ten (spell 0 s) max_decimals,
)
