-- ===== src/ParseString.antt =====
-- `parse_string` of src/dsmr_parser/parser.h: a value in parentheses, which may end in "))".
-- The reference parameter `out` is the first part of the result.
pub mod RoundTrip
pub mod Sound
use arduino_dsmr.Base.{
  ℕ, ◌+◌, ◌-◌, Bool, true, false, not, ◌&&◌, ◌||◌, [], ◌∷◌, Option, none, some, ◌==◌, ltb,
  if◌then◌else◌, Bytes, length, get_elem?, take, drop,
}

-- `input[i] == c`, for an index in range.
abbrev pub is_at : Bytes → ℕ → ℕ → Bool
is_at input i c = elim (get_elem? input i) [ none ↦ false | some d ↦ d == c ]

-- `while (pos < input.size() && input[pos] != ')') ++pos;` on the text from `pos` on: the
-- number of rounds.
unfoldable pub count_to_close : Bytes → ℕ
count_to_close [] = 0
count_to_close (c ∷ cs) = if not (c == b')') then count_to_close cs + 1 else 0

-- From the position at which that loop stops.
unfoldable pub close_at : ℕ → ℕ → Bytes → ℕ → Option (Bytes × Bytes)
close_at min max input stop =
    let pos =
      if ltb (stop + 1) (length input) && is_at input (stop + 1) b')' then stop + 1 else stop in
    if pos == length input
    then none
    else if ltb (pos - 1) min || ltb max (pos - 1)
    then none
    else some (take (pos - 1) (drop 1 input), drop (pos + 1) input)

unfoldable pub parse_string : ℕ → ℕ → Bytes → Option (Bytes × Bytes)
unfolding count_to_close close_at
parse_string min max [] = none
parse_string min max (c ∷ cs) =
    if not (c == b'(') then none else close_at min max (c ∷ cs) (count_to_close cs + 1)
