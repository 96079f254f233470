-- ===== src/ParseNum.antt =====
-- `parse_num` and `parse_float_or_int` of src/dsmr_parser/parser.h. The position `p` is the
-- text from `p` on; the reference parameter `out` is the first part of the result. `int32_t`
-- arithmetic that leaves its range is `undefined`. Only the log depends on `log_errors`.
pub mod Value
pub mod Literal
pub mod Fallback
use arduino_dsmr.Base.{
  ℕ, zero, suc, ◌+◌, ◌-◌, ◌*◌, Bool, true, false, not, ◌&&◌, ◌||◌, [], ◌∷◌, Option, none, some,
  ◌==◌, leb, if◌then◌else◌, within, Bytes,
}
use arduino_dsmr.Base.Outcome.{Outcome, ok, failed, undefined, ◌>>=◌}
use arduino_dsmr.Base.Int.{ℤ, pos, neg, int_max}

-- A result of `int` arithmetic on values that are not negative.
unfoldable pub int32 : ℕ → Outcome ℕ
int32 v = if leb v int_max then ok v else undefined

-- `value * 10 + (input[p] - '0')`
abbrev pub push_digit : ℕ → ℕ → Outcome ℕ
push_digit value c = int32 (value * 10 + (c - b'0'))

-- The characters that end the digits.
abbrev pub ends_int : ℕ → Bool
ends_int c = c == b'.' || c == b'*' || c == b')'

abbrev pub ends_frac : ℕ → Bool
ends_frac c = c == b'*' || c == b')'

-- The loop over the digits before the point.
unfoldable pub scan_int : ℕ → Bytes → Outcome (ℕ × Bytes)
scan_int value [] = ok (value, [])
scan_int value (c ∷ s) =
    let rest = push_digit value c >>= (λ v. scan_int v s) in
    if ends_int c then ok (value, c ∷ s) else if not (within b'0' b'9' c) then failed else rest

-- The loop over the digits behind the point, with `remaining` of them allowed.
unfoldable pub scan_frac : ℕ → ℕ → Bytes → Outcome (ℕ × ℕ × Bytes)
scan_frac zero value s = ok (0, value, s)
scan_frac (suc remaining) value [] = ok (suc remaining, value, [])
scan_frac (suc remaining) value (c ∷ s) =
    let rest = push_digit value c >>= (λ v. scan_frac remaining v s) in
    if ends_frac c
    then ok (suc remaining, value, c ∷ s)
    else if not (within b'0' b'9' c)
    then failed
    else rest

-- `if (remaining && p < input.size() && input[p] == '.')`
unfoldable pub fraction : ℕ → ℕ → Bytes → Outcome (ℕ × ℕ × Bytes)
fraction zero value s = ok (0, value, s)
fraction (suc remaining) value [] = ok (suc remaining, value, [])
fraction (suc remaining) value (c ∷ s) =
    if c == b'.' then scan_frac (suc remaining) value s else ok (suc remaining, value, c ∷ s)

-- `while (remaining--) value *= 10;`
unfoldable pub scale : ℕ → ℕ → Outcome ℕ
scale zero value = ok value
scale (suc remaining) value = int32 (value * 10) >>= scale remaining

-- `std::tolower` in the "C" locale.
abbrev pub to_lower : ℕ → ℕ
to_lower c = if within b'A' b'Z' c then c + 32 else c

-- The loop over the characters of the unit, and the check that it was read whole.
unfoldable pub match_unit : Bytes → Bytes → Option Bytes
match_unit [] s = some s
match_unit (u ∷ us) [] = none
match_unit (u ∷ us) (c ∷ s) =
    if c == b')' then none else if to_lower c == to_lower u then match_unit us s else none

-- `p >= input.size() || (input[p] != '*' && input[p] != '.')`
abbrev pub no_unit : Bytes → Bool
no_unit [] = true
no_unit (c ∷ s) = not (c == b'*') && not (c == b'.')

-- The text from the first ')' on; at the end of the input if there is none.
unfoldable pub from_close : Bytes → Bytes
from_close [] = []
from_close (c ∷ s) = if c == b')' then c ∷ s else from_close s

star_unit : Bytes → Bytes → Option Bytes
star_unit unit [] = none
star_unit unit (c ∷ s) = if not (c == b'*') then none else match_unit unit s

-- `if (unit && *unit)`
unfoldable pub skip_unit : Bytes → ℕ → Bytes → Option Bytes
unfolding star_unit
skip_unit [] value s = some s
skip_unit (u ∷ us) value s =
    if value == 0 && no_unit s then some (from_close s) else star_unit (u ∷ us) s

-- The closing ')', and the sign.
unfoldable pub close_num : Bool → ℕ → Bytes → Outcome (ℤ × Bytes)
close_num negative value [] = failed
close_num negative value (c ∷ s) =
    if not (c == b')') then failed else ok (if negative then neg value else pos value, s)

-- From the unit on.
unfoldable pub finish_num : Bytes → Bool → ℕ → Bytes → Outcome (ℤ × Bytes)
finish_num unit negative value s = elim (skip_unit unit value s) [
  | none ↦ failed
  | some s' ↦ close_num negative value s'
]

-- From the digits on.
unfoldable pub number : ℕ → Bytes → Bool → Bytes → Outcome (ℤ × Bytes)
number max_decimals unit negative s = do
  (v, s₁) ← scan_int 0 s
  (remaining, w, s₂) ← fraction max_decimals v s₁
  x ← scale remaining w
  finish_num unit negative x s₂

-- Behind the '('.
unfoldable pub signed : ℕ → Bytes → Bytes → Outcome (ℤ × Bytes)
signed max_decimals unit [] = number max_decimals unit false []
signed max_decimals unit (c ∷ s) =
    if c == b'-' then number max_decimals unit true s else number max_decimals unit false (c ∷ s)

unfoldable pub parse_num : ℕ → Bytes → Bytes → Outcome (ℤ × Bytes)
unfolding signed number finish_num close_num skip_unit match_unit from_close scale fraction
    scan_frac scan_int int32
parse_num max_decimals unit [] = failed
parse_num max_decimals unit (c ∷ s) = if not (c == b'(') then failed else signed max_decimals unit s

-- `out` is written by the call that succeeds, and only by that.
unfoldable pub parse_float_or_int : ℕ → Bytes → Bytes → Bytes → Outcome (ℤ × Bytes)
parse_float_or_int max_decimals float_unit int_unit input =
    elim (parse_num max_decimals float_unit input) [
      | ok r ↦ ok r
      | failed ↦ parse_num 0 int_unit input
      | undefined ↦ undefined
    ]
