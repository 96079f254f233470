-- ===== src/ParseObis/Bounds.antt =====
-- What every run of `parse_obis` keeps: six parts of a byte each, and the input's tail.
use mathlib.Core.Path.{subst}
use arduino_dsmr.Base.{
  ℕ, zero, suc, ◌+◌, ◌-◌, ◌≤◌, ◌<◌, true, false, [], ◌∷◌, ◌++◌, none, some, ◌≡◌, refl, sym, ◌∙◌,
  arith, Bytes, length, set, drop, take, take-append-drop, length-drop, ==_ne, length-set, ◌==◌,
  within, Bool-cases, inl, inr, Option-cases, some_inj,
}
use arduino_dsmr.ParseObis.{
  ObisId, part_at, Scan, is_separator, too_large, digit_added, scan_obis, fill_parts, finish_obis,
  parse_obis,
}
use arduino_dsmr.ParseObis.RoundTrip.{scan}

abbrev pub AllBytes : Bytes → Type 0
AllBytes [] = Unit {0}
AllBytes (x ∷ xs) = (x < 256) × AllBytes xs

AllBytes-set : (v : Bytes) (i x : ℕ) → x < 256 → AllBytes v → AllBytes (set v i x)
AllBytes-set [] i x h a = tt
AllBytes-set (y ∷ v) zero x h (hy, a) = (h, a)
AllBytes-set (y ∷ v) (suc i) x h (hy, a) = (hy, AllBytes-set v i x h a)

-- Six bytes.
pub record IsId (v : Bytes) : Type 0 where
  pub six : length v ≡ 6
  pub bytes : AllBytes v

set-IsId : {v : Bytes} (i x : ℕ) → x < 256 → IsId v → IsId (set v i x)
set-IsId {v} i x h k = record {
  six = length-set v i x ∙ k.six;
  bytes = AllBytes-set v i x h k.bytes;
}

-- The loop's invariant: `id.v[part]` is in range.
pub record IsScan (s : Scan) : Type 0 where
  pub id : IsId s.v
  pub in_range : s.part < 6

-- The ways in which a character is taken.
module _ (c : ℕ) (cs : Bytes) (s : Scan) where
  abbrev digit : ℕ
  digit = c - b'0'

  abbrev next_part : Scan
  next_part = record s { part = s.part + 1; pos = s.pos + 1 }

  scan_digit :
      within b'0' b'9' c ≡ true
      → too_large (part_at s.v s.part) digit ≡ false
      → scan_obis s (c ∷ cs) ≡ scan_obis (digit_added s digit) cs
  unfolding scan_obis
  scan_digit d t = ground arith

  scan_over :
      within b'0' b'9' c ≡ true
      → too_large (part_at s.v s.part) digit ≡ true
      → scan_obis s (c ∷ cs) ≡ none
  unfolding scan_obis
  scan_over d t = ground arith

  scan_separator :
      within b'0' b'9' c ≡ false
      → is_separator s.part c ≡ true
      → scan_obis s (c ∷ cs) ≡ scan_obis next_part cs
  unfolding scan_obis
  scan_separator d t = ground arith

  scan_stop :
      within b'0' b'9' c ≡ false → is_separator s.part c ≡ false → scan_obis s (c ∷ cs) ≡ some s
  unfolding scan_obis
  scan_stop d t = ground arith

scan_obis-nil : (s : Scan) → scan_obis s [] ≡ some s
unfolding scan_obis
scan_obis-nil s = refl

digit_added-IsScan : (s : Scan) (d : ℕ) → IsScan s → IsScan (digit_added s d)
digit_added-IsScan s d k = record {
  id = set-IsId s.part _ (omega arith) k.id;
  in_range = k.in_range;
}

-- What a run of the loop keeps.
abbrev Kept : Scan → Scan → Type 0
Kept s s' = IsScan s' × (s.pos ≤ s'.pos)

same-Kept : (s s' : Scan) → IsScan s → some s ≡ some s' → Kept s s'
same-Kept s s' k h = subst (Kept s) (some_inj h) (k, omega arith)

scan_obis-Kept : (cs : Bytes) (s s' : Scan) → IsScan s → scan_obis s cs ≡ some s' → Kept s s'
scan_obis-Kept [] s s' k h = same-Kept s s' k (sym (scan_obis-nil s) ∙ h)
scan_obis-Kept (c ∷ cs) s s' k h = elim (Bool-cases (within b'0' b'9' c)) [
  | inl d ↦ elim (Bool-cases (too_large (part_at s.v s.part) (c - b'0'))) [
    | inl t ↦ absurd (ground (arith, scan_over c cs s d t))
    | inr t ↦
        let (k', le) =
          scan_obis-Kept cs (digit_added s (c - b'0')) s' (digit_added-IsScan s (c - b'0') k)
            (sym (scan_digit c cs s d t) ∙ h) in
        (k', omega arith)
  ]
  | inr d ↦ elim (Bool-cases (is_separator s.part c)) [
    | inl t ↦
        let (k', le) =
          scan_obis-Kept cs (record s { part = s.part + 1; pos = s.pos + 1 }) s'
            (record { id = k.id; in_range = ground arith }) (sym (scan_separator c cs s d t) ∙ h) in
        (k', omega arith)
    | inr t ↦ same-Kept s s' k (sym (scan_stop c cs s d t) ∙ h)
  ]
]

fill_parts-IsId : (rounds part : ℕ) (v : Bytes) → IsId v → IsId (fill_parts rounds part v)
unfolding fill_parts
fill_parts-IsId zero part v k = k
fill_parts-IsId (suc rounds) part v k =
    fill_parts-IsId rounds (part + 1) (set v part 255) (set-IsId part 255 (omega arith) k)

-- What a result of `parse_obis` is.
pub record IsParsed (input : Bytes) (id : ObisId) (rest : Bytes) : Type 0 where
  pub read : Bytes
  pub splits : input ≡ read ++ rest
  pub shorter : length rest < length input
  pub valid : IsId id.v

module _ (input : Bytes) (s : Scan) {id : ObisId} {rest : Bytes} where
  finish_obis-IsParsed :
      IsScan s → 0 < length input → finish_obis input s ≡ some (id, rest) → IsParsed input id rest
  unfolding finish_obis
  finish_obis-IsParsed k some_input h = elim (Bool-cases (s.pos == 0)) [
    | inl z ↦ absurd (ground arith)
    | inr z ↦
        let filled = fill_parts (6 - (s.part + 1)) (s.part + 1) s.v in
        let e : (record { v = filled }, drop s.pos input) ≡ (id, rest) = some_inj (rw z at h) in
        subst (λ (r : ObisId × Bytes). IsParsed input r.0 r.1) e
          (record {
            read = take s.pos input;
            splits = sym (take-append-drop s.pos input);
            shorter = omega (arith, length-drop s.pos input, ==_ne s.pos 0 z);
            valid = fill_parts-IsId (6 - (s.part + 1)) (s.part + 1) s.v k.id;
          })
  ]

pub parse_obis-nil : (id : ObisId) → parse_obis id [] ≡ none
unfolding parse_obis
parse_obis-nil id = refl

parse_obis-scan :
    (id₀ : ObisId) (input : Bytes) (s : Scan)
    → scan_obis (scan id₀.v 0 0) input ≡ some s
    → parse_obis id₀ input ≡ finish_obis input s
unfolding parse_obis
parse_obis-scan id₀ input s h = rw (h, parse_obis)

parse_obis-fails :
    (id₀ : ObisId) (input : Bytes)
    → scan_obis (scan id₀.v 0 0) input ≡ none
    → parse_obis id₀ input ≡ none
unfolding parse_obis
parse_obis-fails id₀ input h = rw (h, parse_obis)

-- Starting from six bytes, a result of `parse_obis` is six bytes, and the input without some
-- first bytes, at least one.
pub parse_obis-IsParsed :
    (id₀ : ObisId) (input : Bytes) {id : ObisId} {rest : Bytes}
    → IsId id₀.v
    → parse_obis id₀ input ≡ some (id, rest)
    → IsParsed input id rest
parse_obis-IsParsed id₀ [] k h = absurd (ground (arith, parse_obis-nil id₀))
parse_obis-IsParsed id₀ (c ∷ cs) k h = elim (Option-cases (scan_obis (scan id₀.v 0 0) (c ∷ cs))) [
  | inl e ↦ absurd (ground (arith, parse_obis-fails id₀ (c ∷ cs) e))
  | inr (s, e) ↦
      finish_obis-IsParsed (c ∷ cs) s
        (scan_obis-Kept (c ∷ cs) (scan id₀.v 0 0) s (record { id = k; in_range = omega arith }) e).0
        (omega arith) (sym (parse_obis-scan id₀ (c ∷ cs) s e) ∙ h)
]
