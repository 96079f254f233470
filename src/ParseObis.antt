-- ===== src/ParseObis.antt =====
-- `ObisId` of src/dsmr_parser/util.h and `parse_obis` of src/dsmr_parser/parser.h. The
-- reference parameter `id` is the first part of the result.
pub mod Bounds
pub mod RoundTrip
use arduino_dsmr.Base.{
  ◌≡◌, refl, ==_refl, ℕ, zero, suc, ◌+◌, ◌-◌, ◌*◌, ◌%◌, ◌^◌, Bool, true, false, ◌&&◌, ◌||◌, [], ◌∷◌,
  Option, none, some, ◌==◌, ltb, if◌then◌else◌, within, Bytes, get_elem?, set, drop,
}

-- `std::array<uint8_t, 6>`
pub record ObisId : Type 0 where
  pub v : Bytes

-- The constructor with parts, and the one without.
abbrev pub obis_id : ℕ → ℕ → ℕ → ℕ → ℕ → ℕ → ObisId
obis_id a b c d e f = record { v = a ∷ b ∷ c ∷ d ∷ e ∷ f ∷ [] }

abbrev pub no_id : ObisId
no_id = obis_id 0 0 0 0 0 0

-- `operator==`
unfoldable pub same_parts : Bytes → Bytes → Bool
same_parts [] [] = true
same_parts (a ∷ as') (b ∷ bs) = a == b && same_parts as' bs
same_parts _ _ = false

abbrev pub same_id : ObisId → ObisId → Bool
same_id i j = same_parts i.v j.v

same_parts_refl : (xs : Bytes) → same_parts xs xs ≡ true
unfolding same_parts
same_parts_refl [] = refl
same_parts_refl (x ∷ xs) = rw (==_refl x) (same_parts_refl xs)

pub same_id_refl : (id : ObisId) → same_id id id ≡ true
same_id_refl id = same_parts_refl id.v

-- `id.v[part]`; `part` stays below 6.
abbrev pub part_at : Bytes → ℕ → ℕ
part_at v part = elim (get_elem? v part) [ none ↦ 0 | some n ↦ n ]

-- Where the loop stands: the parts, the current part and the position.
pub record Scan : Type 0 where
  pub v : Bytes
  pub part : ℕ
  pub pos : ℕ

-- The separator that ends the part.
abbrev pub is_separator : ℕ → ℕ → Bool
is_separator part c =
    part == 0 && c == b'-' || part == 1 && c == b':' || ltb 1 part && ltb part 5 && c == b'.'

-- A digit would make the part larger than 255.
abbrev pub too_large : ℕ → ℕ → Bool
too_large n digit = ltb 25 n || n == 25 && ltb 5 digit

abbrev pub digit_added : Scan → ℕ → Scan
digit_added s digit = record s {
  v = set s.v s.part ((part_at s.v s.part * 10 + digit) % 2 ^ 8);
  pos = s.pos + 1;
}

-- The loop, on the text from `pos` on.
unfoldable pub scan_obis : Scan → Bytes → Option Scan
scan_obis s [] = some s
scan_obis s (c ∷ cs) =
    let more = scan_obis (digit_added s (c - b'0')) cs in
    let next = scan_obis (record s { part = s.part + 1; pos = s.pos + 1 }) cs in
    if within b'0' b'9' c
    then if too_large (part_at s.v s.part) (c - b'0') then none else more
    else if is_separator s.part c
    then next
    else some s

-- `for (++part; part < 6; ++part) id.v[part] = 255;`, by the rounds left.
unfoldable pub fill_parts : ℕ → ℕ → Bytes → Bytes
fill_parts zero part v = v
fill_parts (suc rounds) part v = fill_parts rounds (part + 1) (set v part 255)

-- From the end of the loop on.
unfoldable pub finish_obis : Bytes → Scan → Option (ObisId × Bytes)
finish_obis input s =
    if s.pos == 0
    then none
    else some (record { v = fill_parts (6 - (s.part + 1)) (s.part + 1) s.v }, drop s.pos input)

unfoldable pub parse_obis : ObisId → Bytes → Option (ObisId × Bytes)
unfolding finish_obis fill_parts scan_obis
parse_obis id input = elim (scan_obis (record { v = id.v; part = 0; pos = 0 }) input) [
  | none ↦ none
  | some s ↦ finish_obis input s
]
