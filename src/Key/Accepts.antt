-- ===== src/Key/Accepts.antt =====
-- Which texts `from_hex` takes for a key, and for which key.
use mathlib.Core.Path.{subst}
use arduino_dsmr.Base.{
  ℕ, zero, suc, ◌+◌, ◌-◌, ◌*◌, ◌≤◌, [], ◌∷◌, none, some, some_inj, ◌≡◌, ◌↔◌, ◌⊎◌, refl, sym, ap,
  ◌∙◌, inl, inr, arith, Bytes, length, Option-cases, if◌then◌else◌, leb,
}
use arduino_dsmr.Key.{digit_of, from_chars, read_pairs, from_hex}

-- '0' to '9', 'A' to 'F' or 'a' to 'f'.
abbrev pub IsHexDigit : ℕ → Type 0
IsHexDigit c = ((48 ≤ c) × (c ≤ 57)) ⊎ (((65 ≤ c) × (c ≤ 70)) ⊎ ((97 ≤ c) × (c ≤ 102)))

-- The value of a digit.
abbrev pub hex_digit_value : ℕ → ℕ
hex_digit_value c = if leb c 57 then c - 48 else if leb c 70 then c - 55 else c - 87

-- The byte of a pair whose first character is a digit. If the second is none, it does not count.
abbrev pub IsPairOf : ℕ → ℕ → ℕ → Type 0
IsPairOf a b x =
    IsHexDigit a
    × ((IsHexDigit b × (x ≡ hex_digit_value a * 16 + hex_digit_value b))
        ⊎ ((IsHexDigit b → ⊥) × (x ≡ hex_digit_value a)))

-- A byte for each pair.
abbrev pub IsKeyOf : Bytes → Bytes → Type 0
IsKeyOf [] [] = Unit {0}
IsKeyOf (a ∷ b ∷ s) (x ∷ xs) = IsPairOf a b x × IsKeyOf s xs
IsKeyOf _ _ = ⊥

digit_of-IsHexDigit : (c : ℕ) → IsHexDigit c → digit_of c ≡ some (hex_digit_value c)
unfolding digit_of
digit_of-IsHexDigit c h = ground arith

digit_of-none : (c : ℕ) → (IsHexDigit c → ⊥) → digit_of c ≡ none
unfolding digit_of
digit_of-none c h = ground arith

digit_of-some : (c n : ℕ) → digit_of c ≡ some n → IsHexDigit c × (n ≡ hex_digit_value c)
unfolding digit_of
digit_of-some c n h = (ground arith, ground arith)

none-digit_of : (c : ℕ) → digit_of c ≡ none → IsHexDigit c → ⊥
unfolding digit_of
none-digit_of c h k = ground arith

from_chars-IsPairOf : (a b x : ℕ) → IsPairOf a b x → from_chars a b ≡ some x
unfolding from_chars
from_chars-IsPairOf a b x (h, inl (k, e)) =
    rw (digit_of-IsHexDigit a h, digit_of-IsHexDigit b k, from_chars) (ap some (sym e))
from_chars-IsPairOf a b x (h, inr (k, e)) =
    rw (digit_of-IsHexDigit a h, digit_of-none b k, from_chars) (ap some (sym e))

IsPairOf-from_chars : (a b x : ℕ) → from_chars a b ≡ some x → IsPairOf a b x
unfolding from_chars
IsPairOf-from_chars a b x h = elim (Option-cases (digit_of a)) [
  | inl e ↦ absurd (ground arith)
  | inr (hi, e) ↦
      let (first, is_hi) = digit_of-some a hi e in
      elim (Option-cases (digit_of b)) [
        | inl e' ↦
            let same : x ≡ hi = ground arith in (first, inr (none-digit_of b e', same ∙ is_hi))
        | inr (low, e') ↦
            let (second, is_low) = digit_of-some b low e' in
            let same : x ≡ hi * 16 + low = ground arith in
            (first, inl (second, omega (arith, same, is_hi, is_low)))
      ]
]

read_pairs-IsKeyOf :
    (n : ℕ) (s xs : Bytes) → length s ≡ n * 2 → IsKeyOf s xs → read_pairs n s ≡ some xs
unfolding read_pairs
read_pairs-IsKeyOf zero [] [] e h = refl
read_pairs-IsKeyOf zero [] (x ∷ xs) e h = absurd h
read_pairs-IsKeyOf zero (a ∷ s) xs e h = absurd (omega arith)
read_pairs-IsKeyOf (suc n) [] xs e h = absurd (omega arith)
read_pairs-IsKeyOf (suc n) (a ∷ []) xs e h = absurd (omega arith)
read_pairs-IsKeyOf (suc n) (a ∷ b ∷ s) [] e h = absurd h
read_pairs-IsKeyOf (suc n) (a ∷ b ∷ s) (x ∷ xs) e (h, hs) =
    rw (from_chars-IsPairOf a b x h, read_pairs-IsKeyOf n s xs (omega arith) hs, read_pairs) refl

IsKeyOf-read_pairs :
    (n : ℕ) (s xs : Bytes) → length s ≡ n * 2 → read_pairs n s ≡ some xs → IsKeyOf s xs
unfolding read_pairs
IsKeyOf-read_pairs zero [] xs e h = subst (IsKeyOf []) (some_inj h) tt
IsKeyOf-read_pairs zero (a ∷ s) xs e h = absurd (omega arith)
IsKeyOf-read_pairs (suc n) [] xs e h = absurd (omega arith)
IsKeyOf-read_pairs (suc n) (a ∷ []) xs e h = absurd (omega arith)
IsKeyOf-read_pairs (suc n) (a ∷ b ∷ s) xs e h = elim (Option-cases (from_chars a b)) [
  | inl f ↦ absurd (ground arith)
  | inr (y, f) ↦ elim (Option-cases (read_pairs n s)) [
    | inl g ↦ absurd (ground arith)
    | inr (ys, g) ↦
        let same : y ∷ ys ≡ xs = ground arith in
        subst (IsKeyOf (a ∷ b ∷ s)) same
          (IsPairOf-from_chars a b y f, IsKeyOf-read_pairs n s ys (omega arith) g)
  ]
]

-- `from_hex` returns a key exactly for a text of 32 characters in which the first of each pair is
-- a hexadecimal digit of either case. The key's bytes are the values of the pairs, the first digit
-- counting 16 times; where the second of a pair is no digit, the byte is the value of the first.
pub from_hex_iff :
    (hex key : Bytes) → (from_hex hex ≡ some key) ↔ ((length hex ≡ 32) × IsKeyOf hex key)
unfolding from_hex
from_hex_iff hex key = (there, back)
  where
    there : from_hex hex ≡ some key → (length hex ≡ 32) × IsKeyOf hex key
    there h =
        let size : length hex ≡ 32 = ground arith in
        (size, IsKeyOf-read_pairs 16 hex key size (ground arith))

    back : (length hex ≡ 32) × IsKeyOf hex key → from_hex hex ≡ some key
    back (size, k) = ground (arith, read_pairs-IsKeyOf 16 hex key size k)
