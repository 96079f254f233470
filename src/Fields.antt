-- ===== src/Fields.antt =====
-- The field classes of src/dsmr_parser/fields.h. A field's `val` is a `text` (a string, or the
-- timestamp of a number) and a `number` (a scaled or an integer value); a field uses the parts
-- that its value type has. Only the log is left out.
pub mod Hex
pub mod Groups
pub mod Signed
pub mod Average
pub mod Readings
use arduino_dsmr.Base.{
  ℕ, zero, suc, ◌+◌, ◌-◌, ◌*◌, ◌%◌, ◌^◌, Bool, true, false, not, ◌&&◌, ◌||◌, [], ◌∷◌, Option, none,
  some, ◌==◌, leb, if◌then◌else◌, within, Bytes, length,
}
use arduino_dsmr.Base.Outcome.{Outcome, ok, failed, undefined, ◌>>=◌}
use arduino_dsmr.Base.Int.{ℤ, pos, negsuc, ◌+ℤ◌, int32_of, div_ℕ, to_unsigned}
use arduino_dsmr.ParseString.{parse_string}
use arduino_dsmr.ParseNum.{parse_num, parse_float_or_int}

-- The template that a field derives from, with its arguments; `TimestampField` is
-- `string_field 13 13`. The width is that of the unsigned type of an `IntField`.
pub data Kind : Type 0 where
  string_field : ℕ → ℕ → Kind
  hex_string_or_regular_string_field : ℕ → ℕ → Kind
  fixed_field timestamped_fixed_field last_fixed_field averaged_fixed_field : Bytes → Bytes → Kind
  int_field : ℕ → Bytes → Kind
  raw_field : Kind

abbrev pub timestamp_field : Kind
timestamp_field = string_field 13 13

pub record Value : Type 0 where
  pub text : Bytes
  pub number : ℤ

-- A `std::string_view` that a field returns: the default one, whose `data()` is null, or a tail
-- of the line.
pub data Remainder : Type 0 where
  null_view : Remainder
  tail_view : Bytes → Remainder

-- What `parse` returns, and the value that it leaves.
abbrev pub Parsed : Type 0
Parsed = Outcome Remainder × Value

-- `StringField`
unfoldable pub parse_text : ℕ → ℕ → Bytes → Value → Parsed
parse_text min max input val = elim (parse_string min max input) [
  | none ↦ (failed, val)
  | some (sv, rest) ↦ (ok (tail_view rest), record val { text = sv })
]

abbrev pub is_hex_digit : ℕ → Bool
is_hex_digit c = within b'0' b'9' c || within b'A' b'F' c

abbrev pub is_alnum : ℕ → Bool
is_alnum c = within b'0' b'9' c || within b'A' b'Z' c

unfoldable pub all_hex : Bytes → Bool
all_hex [] = true
all_hex (c ∷ s) = is_hex_digit c && all_hex s

-- The lambda `value`, on a hexadecimal digit.
abbrev pub hex_value : ℕ → ℕ
hex_value c = if leb c b'9' then c - b'0' else c - b'A' + 10

-- The loop over the pairs; `none` if a decoded byte is not a digit or a capital letter.
unfoldable pub decode_pairs : Bytes → Option Bytes
decode_pairs [] = some []
decode_pairs (a ∷ []) = some []
decode_pairs (a ∷ b ∷ s) =
    let ch = (hex_value a * 16 + hex_value b) % 2 ^ 8 in
    let rest = decode_pairs s in
    if not (is_alnum ch) then none else elim rest [ none ↦ none | some t ↦ some (ch ∷ t) ]

-- The text that `HexStringOrRegularStringField` stores for `sv`.
unfoldable pub hex_or_regular : Bytes → Bytes
unfolding all_hex decode_pairs
hex_or_regular sv =
    if length sv % 2 == 1 || not (all_hex sv)
    then sv
    else elim (decode_pairs sv) [ none ↦ sv | some t ↦ t ]

unfoldable pub parse_hex_text : ℕ → ℕ → Bytes → Value → Parsed
parse_hex_text min max input val = elim (parse_string min max input) [
  | none ↦ (failed, val)
  | some (sv, rest) ↦ (ok (tail_view rest), record val { text = hex_or_regular sv })
]

-- `FixedField`
unfoldable pub parse_fixed : Bytes → Bytes → Bytes → Value → Parsed
parse_fixed unit int_unit input val = elim (parse_float_or_int 3 unit int_unit input) [
  | ok (v, rest) ↦ (ok (tail_view rest), record val { number = v })
  | failed ↦ (failed, val)
  | undefined ↦ (undefined, val)
]

-- `TimestampedFixedField`
unfoldable pub parse_timestamped : Bytes → Bytes → Bytes → Value → Parsed
parse_timestamped unit int_unit input val = elim (parse_string 13 13 input) [
  | none ↦ (failed, val)
  | some (ts, rest) ↦ parse_fixed unit int_unit rest (record val { text = ts })
]

-- The loop of `LastFixedField`, on fuel: each round reads at least two bytes, so the length of
-- the input is fuel enough.
unfoldable pub last_group : ℕ → Bytes → Bytes → Option Bytes
last_group fuel last [] = some last
last_group zero last (c ∷ s) = none
last_group (suc fuel) last (c ∷ s) = elim (parse_string 1 20 (c ∷ s)) [
  | none ↦ none
  | some (_, rest) ↦ last_group fuel (c ∷ s) rest
]

unfoldable pub parse_last : Bytes → Bytes → Bytes → Value → Parsed
parse_last unit int_unit input val = elim (last_group (length input) input input) [
  | none ↦ (failed, val)
  | some last ↦ parse_fixed unit int_unit last val
]

-- `IntField`, with the cast to its value type.
unfoldable pub parse_int : ℕ → Bytes → Bytes → Value → Parsed
parse_int width unit input val = elim (parse_num 0 unit input) [
  | ok (v, rest) ↦ (ok (tail_view rest), record val { number = pos (to_unsigned width v) })
  | failed ↦ (failed, val)
  | undefined ↦ (undefined, val)
]

-- `parse_string(sv, 1, 20, …)`, for the text behind it.
abbrev pub skip_group : Bytes → Outcome Bytes
skip_group input = elim (parse_string 1 20 input) [ none ↦ failed | some (_, rest) ↦ ok rest ]

-- The loop of `AveragedFixedField`, by the rounds left.
unfoldable pub sum_groups : Bytes → Bytes → ℕ → ℤ → Bytes → Outcome (ℤ × Bytes)
sum_groups unit int_unit zero total input = ok (total, input)
sum_groups unit int_unit (suc rounds) total input = do
  s₁ ← skip_group input
  s₂ ← skip_group s₁
  (v, s₃) ← parse_float_or_int 3 unit int_unit s₂
  total' ← int32_of (total +ℤ v)
  sum_groups unit int_unit rounds total' s₃

-- `total / count`; for a negative count the loop makes no round and `total` is 0.
abbrev pub rounds_of : ℤ → ℕ
rounds_of (pos n) = n
rounds_of (negsuc n) = 0

abbrev pub quotient : ℤ → ℤ → ℤ
quotient total (pos n) = div_ℕ total n
quotient total (negsuc n) = pos 0

unfoldable pub average : Bytes → Bytes → ℤ → Bytes → Outcome (ℤ × Bytes)
average unit int_unit count input = do
  s₁ ← skip_group input
  s₂ ← skip_group s₁
  (total, rest) ← sum_groups unit int_unit (rounds_of count) (pos 0) s₂
  ok (quotient total count, rest)

abbrev pub is_zero : ℤ → Bool
is_zero (pos n) = n == 0
is_zero (negsuc n) = false

unfoldable pub parse_averaged : Bytes → Bytes → Bytes → Value → Parsed
parse_averaged unit int_unit input val = elim (parse_num 0 [] input) [
  | failed ↦ (failed, val)
  | undefined ↦ (undefined, val)
  | ok (count, s) ↦
      if is_zero count
      then (ok null_view, record val { number = pos 0 })
      else elim (average unit int_unit count s) [
        | ok (v, rest) ↦ (ok (tail_view rest), record val { number = v })
        | failed ↦ (failed, val)
        | undefined ↦ (undefined, val)
      ]
]

-- `field.parse(input)`
unfoldable pub parse_field : Kind → Bytes → Value → Parsed
parse_field (string_field min max) input val = parse_text min max input val
parse_field (hex_string_or_regular_string_field min max) input val =
    parse_hex_text min max input val
parse_field (fixed_field unit int_unit) input val = parse_fixed unit int_unit input val
parse_field (timestamped_fixed_field unit int_unit) input val =
    parse_timestamped unit int_unit input val
parse_field (last_fixed_field unit int_unit) input val = parse_last unit int_unit input val
parse_field (averaged_fixed_field unit int_unit) input val = parse_averaged unit int_unit input val
parse_field (int_field width unit) input val = parse_int width unit input val
parse_field raw_field input val = (ok null_view, record val { text = input })
