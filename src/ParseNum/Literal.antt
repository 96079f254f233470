-- ===== src/ParseNum/Literal.antt =====
-- `parse_num` on every number as a meter writes it: "(-0012.34*kWh)".
use arduino_dsmr.Base.{
  ℕ, zero, suc, ◌-◌, ◌*◌, ◌^◌, ◌≤◌, ◌≢◌, Bool, true, false, [], ◌∷◌, ◌++◌, some, ◌≡◌, refl, sym, ap,
  ◌∙◌, arith, Bytes, length, if◌then◌else◌,
}
use arduino_dsmr.Base.Outcome.{ok}
use arduino_dsmr.Base.Int.{ℤ, pos, negsuc, neg, int_max}
use arduino_dsmr.ParseNum.{
  scan_int, fraction, to_lower, match_unit, skip_unit, close_num, finish_num, number, signed,
  parse_num,
}
use arduino_dsmr.ParseNum.Value.{
  AllDigits, spell, le-spell, spell-append, bounded, EndsInt, EndsFrac, scan_int-append,
  le-mul-pow_ten, scale_lem, frac_text, IsFraction, fraction-append,
}

-- The unit as it is shown: any mix of cases, and no ')'.
abbrev pub SameUnit : Bytes → Bytes → Type 0
SameUnit [] [] = Unit {0}
SameUnit (u ∷ us) (c ∷ cs) = (c ≢ b')') × (to_lower c ≡ to_lower u) × SameUnit us cs
SameUnit _ _ = ⊥

-- A field with no unit shows none.
abbrev pub unit_text : Bytes → Bytes → Bytes
unit_text [] shown = []
unit_text (u ∷ us) shown = b'*' ∷ shown

pub match_unit-append :
    (unit shown rest : Bytes) → SameUnit unit shown → match_unit unit (shown ++ rest) ≡ some rest
unfolding match_unit
match_unit-append [] [] rest h = refl
match_unit-append [] (c ∷ cs) rest h = absurd h
match_unit-append (u ∷ us) [] rest h = absurd h
match_unit-append (u ∷ us) (c ∷ cs) rest (n, e, h) = ground (arith, match_unit-append us cs rest h)

-- The number of a sign and an absolute value.
abbrev pub with_sign : Bool → ℕ → ℤ
with_sign false v = pos v
with_sign true zero = pos 0
with_sign true (suc v) = negsuc v

pub neg-with_sign :
    (negative : Bool) (v : ℕ) → (if negative then neg v else pos v) ≡ with_sign negative v
neg-with_sign false v = refl
neg-with_sign true zero = refl
neg-with_sign true (suc v) = refl

pub finish_num-append :
    (unit shown rest : Bytes) (negative : Bool) (v : ℕ)
    → SameUnit unit shown
    → finish_num unit negative v (unit_text unit shown ++ b')' ∷ rest)
      ≡ ok (with_sign negative v, rest)
unfolding finish_num skip_unit close_num
finish_num-append [] [] rest negative v h = ap (λ n. ok (n, rest)) (neg-with_sign negative v)
finish_num-append [] (c ∷ cs) rest negative v h = absurd h
finish_num-append (u ∷ us) shown rest negative v h =
    ground (arith, match_unit-append (u ∷ us) shown (b')' ∷ rest) h, neg-with_sign negative v)

EndsFrac-unit_text : (unit shown rest : Bytes) → EndsFrac (unit_text unit shown ++ b')' ∷ rest)
EndsFrac-unit_text [] shown rest = refl
EndsFrac-unit_text (u ∷ us) shown rest = refl

EndsInt-frac_text :
    (point : Bool) (decimals rest : Bytes)
    → EndsFrac rest
    → EndsInt (frac_text point decimals ++ rest)
EndsInt-frac_text true decimals rest h = refl
EndsInt-frac_text false decimals [] h = tt
EndsInt-frac_text false decimals (c ∷ rest) h = ground (arith, h)

-- A number as it is written, for a field of `max_decimals` decimals and the unit `unit`.
pub record Literal : Type 0 where
  pub negative : Bool
  pub integer : Bytes
  pub point : Bool
  pub decimals : Bytes
  pub shown : Bytes

pub record IsLiteral (max_decimals : ℕ) (unit : Bytes) (l : Literal) : Type 0 where
  pub integer_digits : AllDigits l.integer
  pub fraction_digits : IsFraction max_decimals l.point l.decimals
  pub few_decimals : length l.decimals ≤ max_decimals
  pub unit_shown : SameUnit unit l.shown

abbrev pub digits_text : Bytes → Literal → Bytes → Bytes
digits_text unit l rest =
    l.integer ++ (frac_text l.point l.decimals ++ (unit_text unit l.shown ++ b')' ∷ rest))

abbrev pub literal_text : Bytes → Literal → Bytes → Bytes
literal_text unit l rest =
    b'(' ∷ (if l.negative then b'-' ∷ digits_text unit l rest else digits_text unit l rest)

-- The value in units of the last decimal, with no bound.
abbrev pub magnitude : ℕ → Literal → ℕ
magnitude max_decimals l =
    spell 0 (l.integer ++ l.decimals) * 10 ^ (max_decimals - length l.decimals)

module _ (max_decimals : ℕ) (unit rest : Bytes) (l : Literal)
    (h : IsLiteral max_decimals unit l) where
  abbrev from_unit : Bytes
  from_unit = unit_text unit l.shown ++ b')' ∷ rest

  abbrev left : ℕ
  left = max_decimals - length l.decimals

  abbrev whole : ℕ
  whole = spell 0 l.integer

  abbrev all : ℕ
  all = spell whole l.decimals

  read_int :
      scan_int 0 (digits_text unit l rest)
      ≡ bounded whole (whole, frac_text l.point l.decimals ++ from_unit)
  read_int =
      scan_int-append l.integer (frac_text l.point l.decimals ++ from_unit) 0 h.integer_digits
        (EndsInt-frac_text l.point l.decimals from_unit (EndsFrac-unit_text unit l.shown rest))
        (omega arith)

  read_frac :
      whole ≤ int_max
      → fraction max_decimals whole (frac_text l.point l.decimals ++ from_unit)
        ≡ bounded all (left, all, from_unit)
  read_frac =
      fraction-append l.point l.decimals from_unit max_decimals left whole h.fraction_digits
        (EndsFrac-unit_text unit l.shown rest) (omega (arith, h.few_decimals))

  magnitude-all : magnitude max_decimals l ≡ all * 10 ^ left
  magnitude-all = ap (λ t. t * 10 ^ left) (spell-append 0 l.integer l.decimals)

  number-digits_text :
      (negative : Bool)
      → number max_decimals unit negative (digits_text unit l rest)
        ≡ bounded (all * 10 ^ left) (with_sign negative (all * 10 ^ left), rest)
  unfolding number
  number-digits_text negative = ground (
    arith,
    read_int,
    read_frac,
    scale_lem left all,
    le-spell whole l.decimals,
    le-mul-pow_ten all left,
    finish_num-append unit l.shown rest negative (all * 10 ^ left) h.unit_shown,
  )

-- The text does not begin with a minus sign.
abbrev pub NoMinus : Bytes → Type 0
NoMinus [] = Unit {0}
NoMinus (c ∷ s) = c ≢ b'-'

NoMinus-unit_text : (unit shown rest : Bytes) → NoMinus (unit_text unit shown ++ b')' ∷ rest)
NoMinus-unit_text [] shown rest = omega arith
NoMinus-unit_text (u ∷ us) shown rest = omega arith

NoMinus-frac_text :
    (point : Bool) (decimals rest : Bytes)
    → NoMinus rest
    → NoMinus (frac_text point decimals ++ rest)
NoMinus-frac_text true decimals rest h = omega arith
NoMinus-frac_text false decimals rest h = h

pub NoMinus-append : (s rest : Bytes) → AllDigits s → NoMinus rest → NoMinus (s ++ rest)
NoMinus-append [] rest d h = h
NoMinus-append (c ∷ s) rest (dc, d) h = λ e. ground arith

pub signed-NoMinus :
    (max_decimals : ℕ) (unit s : Bytes)
    → NoMinus s
    → signed max_decimals unit s ≡ number max_decimals unit false s
unfolding signed
signed-NoMinus max_decimals unit [] h = refl
signed-NoMinus max_decimals unit (c ∷ s) h = ground arith

signed-minus :
    (max_decimals : ℕ) (unit s : Bytes)
    → signed max_decimals unit (b'-' ∷ s) ≡ number max_decimals unit true s
unfolding signed
signed-minus max_decimals unit s = refl

pub parse_num-signed :
    (max_decimals : ℕ) (unit s : Bytes)
    → parse_num max_decimals unit (b'(' ∷ s) ≡ signed max_decimals unit s
unfolding parse_num
parse_num-signed max_decimals unit s = refl

signed-literal :
    (max_decimals : ℕ) (unit rest : Bytes) (l : Literal)
    → (negative : Bool) → IsLiteral max_decimals unit l
    → signed max_decimals unit
        (if negative then b'-' ∷ digits_text unit l rest else digits_text unit l rest)
      ≡ number max_decimals unit negative (digits_text unit l rest)
signed-literal max_decimals unit rest l true h =
    signed-minus max_decimals unit (digits_text unit l rest)
signed-literal max_decimals unit rest l false h =
    signed-NoMinus max_decimals unit (digits_text unit l rest) (
      NoMinus-append l.integer _ h.integer_digits
        (NoMinus-frac_text l.point l.decimals _ (NoMinus-unit_text unit l.shown rest)))

-- `parse_num` on a number in parentheses, with at most `max_decimals` decimals, a sign or none,
-- and the unit in any mix of cases (no unit, if `unit` is empty): the result is its exact value,
-- in units of the last decimal allowed, and what follows the ')'. If the absolute value is
-- above 2147483647, and only then, the arithmetic overflows.
pub parse_num_literal :
    (max_decimals : ℕ) (unit rest : Bytes) (l : Literal)
    → IsLiteral max_decimals unit l
    → parse_num max_decimals unit (literal_text unit l rest)
      ≡ bounded (magnitude max_decimals l) (with_sign l.negative (magnitude max_decimals l), rest)
parse_num_literal max_decimals unit rest l h =
    parse_num-signed max_decimals unit _
    ∙ signed-literal max_decimals unit rest l l.negative h
    ∙ number-digits_text max_decimals unit rest l h l.negative
    ∙ ap (λ v. bounded v (with_sign l.negative v, rest))
        (sym (magnitude-all max_decimals unit rest l h))
