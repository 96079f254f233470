-- ===== src/ParseString/Sound.antt =====
-- Whatever `parse_string` returns stood between parentheses.
use mathlib.Core.Path.{subst}
use arduino_dsmr.Base.{
  ℕ, ◌+◌, ◌≤◌, ◌≢◌, [], ◌∷◌, ◌++◌, none, some, ◌≡◌, refl, sym, ap, ◌∙◌, ◌⊎◌, inl, inr, arith, Bytes,
  length, Lacks, length-append, append_assoc, ◌==◌, if◌then◌else◌, Bool-cases, ==_iff, ==_ne,
}
use arduino_dsmr.ParseString.{count_to_close, parse_string}
use arduino_dsmr.ParseString.RoundTrip.{NoClose, fits, parse_string-plain, parse_string_nested}

-- `out` is what `input` holds up to its closing ')', and `rest` what follows.
pub record IsQuoted (min max : ℕ) (input out rest : Bytes) : Type 0 where
  pub splits : input ≡ b'(' ∷ (out ++ b')' ∷ rest)
  pub lower : min ≤ length out
  pub upper : length out ≤ max
  pub first_close : Lacks b')' out ⊎ ((body : Bytes) × (out ≡ body ++ b')' ∷ []) × Lacks b')' body)

abbrev Closes : Bytes → Type 0
Closes cs = (s : Bytes) × (rest : Bytes) × (cs ≡ s ++ b')' ∷ rest) × Lacks b')' s

closes : (cs : Bytes) → Lacks b')' cs ⊎ Closes cs
closes [] = inl tt
closes (c ∷ cs) = elim (Bool-cases (c == b')')) [
  | inl e ↦ inr ([], cs, ap (λ x. x ∷ cs) ((==_iff c b')').0 e), tt)
  | inr e ↦ elim (closes cs) [
    | inl l ↦ inl (==_ne c b')' e, l)
    | inr (s, rest, eq, l) ↦ inr (c ∷ s, rest, ap (◌∷◌ c) eq, (==_ne c b')' e, l))
  ]
]

count_to_close-Lacks : (cs : Bytes) → Lacks b')' cs → count_to_close cs ≡ length cs
unfolding count_to_close
count_to_close-Lacks [] l = refl
count_to_close-Lacks (c ∷ cs) (n, l) = ground (arith, count_to_close-Lacks cs l)

parse_string_unclosed :
    (min max : ℕ) (cs : Bytes) → Lacks b')' cs → parse_string min max (b'(' ∷ cs) ≡ none
unfolding parse_string
parse_string_unclosed min max cs l = ground (arith, count_to_close-Lacks cs l)

-- A result of a length test.
fits-inv :
    (min max n : ℕ) (x y : Bytes × Bytes)
    → (if fits min max n then some x else none) ≡ some y
    → (x ≡ y) × (min ≤ n) × (n ≤ max)
fits-inv min max n x y h = (ground arith, ground arith, ground arith)

module _ (min max : ℕ) {out rest : Bytes} where
  plain-IsQuoted :
      (s r : Bytes)
      → Lacks b')' s
      → NoClose r
      → parse_string min max (b'(' ∷ (s ++ b')' ∷ r)) ≡ some (out, rest)
      → IsQuoted min max (b'(' ∷ (s ++ b')' ∷ r)) out rest
  plain-IsQuoted s r l n h =
      let (e, lo, hi) =
        fits-inv min max (length s) (s, r) (out, rest)
          (sym (parse_string-plain min max s r l n) ∙ h) in
      subst (λ x. IsQuoted min max (b'(' ∷ (s ++ b')' ∷ r)) x.0 x.1) e
        (record { splits = refl; lower = lo; upper = hi; first_close = inl l })

  nested-IsQuoted :
      (s r : Bytes)
      → Lacks b')' s
      → parse_string min max (b'(' ∷ (s ++ b')' ∷ b')' ∷ r)) ≡ some (out, rest)
      → IsQuoted min max (b'(' ∷ (s ++ b')' ∷ b')' ∷ r)) out rest
  nested-IsQuoted s r l h =
      let (e, lo, hi) =
        fits-inv min max (length s + 1) (s ++ b')' ∷ [], r) (out, rest)
          (sym (parse_string_nested min max s r l) ∙ h) in
      subst (λ x. IsQuoted min max (b'(' ∷ (s ++ b')' ∷ b')' ∷ r)) x.0 x.1) e
        (record {
          splits = ap (◌∷◌ b'(') (sym (append_assoc s (b')' ∷ []) (b')' ∷ r)));
          lower = omega (arith, length-append s (b')' ∷ []));
          upper = omega (arith, length-append s (b')' ∷ []));
          first_close = inr (s, refl, l);
        })

  open-IsQuoted :
      (s r : Bytes)
      → Lacks b')' s
      → parse_string min max (b'(' ∷ (s ++ b')' ∷ r)) ≡ some (out, rest)
      → IsQuoted min max (b'(' ∷ (s ++ b')' ∷ r)) out rest
  open-IsQuoted s [] l h = plain-IsQuoted s [] l tt h
  open-IsQuoted s (c ∷ r) l h = elim (Bool-cases (c == b')')) [
    | inr e ↦ plain-IsQuoted s (c ∷ r) l (==_ne c b')' e) h
    | inl e ↦
        let c_is : c ≡ b')' = (==_iff c b')').0 e in
        subst (λ x. IsQuoted min max (b'(' ∷ (s ++ b')' ∷ x ∷ r)) out rest) (sym c_is)
          (nested-IsQuoted s r l
            (ap (λ x. parse_string min max (b'(' ∷ (s ++ b')' ∷ x ∷ r))) (sym c_is) ∙ h))
  ]

  paren-IsQuoted :
      (cs : Bytes)
      → parse_string min max (b'(' ∷ cs) ≡ some (out, rest)
      → IsQuoted min max (b'(' ∷ cs) out rest
  paren-IsQuoted cs h = elim (closes cs) [
    | inl l ↦ absurd (ground (arith, parse_string_unclosed min max cs l))
    | inr (s, r, e, l) ↦
        subst (λ x. IsQuoted min max (b'(' ∷ x) out rest) (sym e)
          (open-IsQuoted s r l (ap (λ x. parse_string min max (b'(' ∷ x)) (sym e) ∙ h))
  ]

parse_string_open : (min max c : ℕ) (cs : Bytes) → c ≢ b'(' → parse_string min max (c ∷ cs) ≡ none
unfolding parse_string
parse_string_open min max c cs h = ground arith

parse_string-nil : (min max : ℕ) → parse_string min max [] ≡ none
unfolding parse_string
parse_string-nil min max = refl

-- A result of `parse_string` stood behind '(' and up to a ')' behind which `rest` begins; its
-- length is within the bounds, and it holds no ')' but perhaps as its last byte.
pub parse_string_sound :
    (min max : ℕ) (input : Bytes) {out rest : Bytes}
    → parse_string min max input ≡ some (out, rest)
    → IsQuoted min max input out rest
parse_string_sound min max [] h = absurd (ground (arith, parse_string-nil min max))
parse_string_sound min max (c ∷ cs) {out} {rest} h = elim (Bool-cases (c == b'(')) [
  | inr e ↦ absurd (ground (arith, parse_string_open min max c cs (==_ne c b'(' e)))
  | inl e ↦
      let c_is : c ≡ b'(' = (==_iff c b'(').0 e in
      subst (λ x. IsQuoted min max (x ∷ cs) out rest) (sym c_is)
        (paren-IsQuoted min max cs (ap (λ x. parse_string min max (x ∷ cs)) (sym c_is) ∙ h))
]
