-- ===== src/ParseString/RoundTrip.antt =====
-- `parse_string` reads back what stands between the parentheses.
use arduino_dsmr.Base.{
  ℕ, zero, suc, ◌+◌, ◌-◌, ◌≢◌, Bool, ◌&&◌, [], ◌∷◌, ◌++◌, none, some, ◌≡◌, refl, sym, ap, ◌∙◌, ◌⊎◌,
  inl, inr, arith, Bytes, length, get_elem?, take, drop, Lacks, length-append, append_assoc, leb,
  take-append, take-append_add, drop-append, if◌then◌else◌,
}
use arduino_dsmr.ParseString.{count_to_close, close_at, parse_string}

pub count_to_close-append :
    (s rest : Bytes) → Lacks b')' s → count_to_close (s ++ b')' ∷ rest) ≡ length s
unfolding count_to_close
count_to_close-append [] rest h = ground arith
count_to_close-append (c ∷ s) rest h = ground (arith, count_to_close-append s rest h.1)

-- The text does not go on with ')'.
abbrev pub NoClose : Bytes → Type 0
NoClose [] = Unit {0}
NoClose (c ∷ cs) = c ≢ b')'

NoClose-get :
    (s : Bytes)
    → NoClose s
    → (get_elem? s 0 ≡ none) ⊎ ((c : ℕ) × (get_elem? s 0 ≡ some c) × (c ≢ b')'))
NoClose-get [] n = inl refl
NoClose-get (c ∷ s) n = inr (c, refl, n)

get_elem?-append : (xs ys : Bytes) (i : ℕ) → i ≡ length xs → get_elem? (xs ++ ys) i ≡ get_elem? ys 0
get_elem?-append [] ys i e = ap (get_elem? ys) e
get_elem?-append (x ∷ xs) ys zero e = absurd (omega arith)
get_elem?-append (x ∷ xs) ys (suc i) e = get_elem?-append xs ys i (omega arith)

-- A length that is allowed.
abbrev pub fits : ℕ → ℕ → ℕ → Bool
fits min max n = leb min n && leb n max

module _ (s rest : Bytes) (min max : ℕ) where
  abbrev text : Bytes
  text = b'(' ∷ (s ++ b')' ∷ rest)

  -- The text up to its first ')'.
  regrouped : text ≡ (b'(' ∷ (s ++ b')' ∷ [])) ++ rest
  regrouped = sym (append_assoc (b'(' ∷ s) (b')' ∷ []) rest)

  length_front : length (b'(' ∷ (s ++ b')' ∷ [])) ≡ length s + 2
  length_front = omega (arith, length-append s (b')' ∷ []))

  length_text : length text ≡ length s + 2 + length rest
  length_text = omega (arith, length-append s (b')' ∷ rest))

  elem_after : get_elem? text (length s + 1 + 1) ≡ get_elem? rest 0
  elem_after =
      ap (λ t. get_elem? t (length s + 1 + 1)) regrouped
      ∙ get_elem?-append (b'(' ∷ (s ++ b')' ∷ [])) rest (length s + 1 + 1)
          (omega (arith, length_front))

  take_inner : take (length s + 1 - 1) (s ++ b')' ∷ rest) ≡ s
  take_inner = take-append (length s + 1 - 1) s (b')' ∷ rest) (omega arith)

  drop_after : drop (length s + 1 + 1) text ≡ rest
  drop_after =
      ap (drop (length s + 1 + 1)) regrouped
      ∙ drop-append (length s + 1 + 1) (b'(' ∷ (s ++ b')' ∷ [])) rest (omega (arith, length_front))

  close_at-plain :
      NoClose rest
      → close_at min max text (length s + 1)
        ≡ (if fits min max (length s) then some (s, rest) else none)
  unfolding close_at
  close_at-plain n =
      ground (arith, elem_after, length_text, take_inner, drop_after, NoClose-get rest n)

module _ (s rest : Bytes) (min max : ℕ) where
  take_nested : take (length s + 1 + 1 - 1) (s ++ b')' ∷ b')' ∷ rest) ≡ s ++ b')' ∷ []
  take_nested = take-append_add s (b')' ∷ b')' ∷ rest) (length s + 1 + 1 - 1) 1 (omega arith)

  drop_nested : drop (length s + 1 + 1 + 1) (b'(' ∷ (s ++ b')' ∷ b')' ∷ rest)) ≡ rest
  drop_nested =
      ap (drop (length s + 1 + 1 + 1)) (sym (append_assoc (b'(' ∷ s) (b')' ∷ b')' ∷ []) rest))
      ∙ drop-append (length s + 1 + 1 + 1) (b'(' ∷ (s ++ b')' ∷ b')' ∷ [])) rest
          (omega (arith, length-append s (b')' ∷ b')' ∷ [])))

  close_at_nested :
      close_at min max (b'(' ∷ (s ++ b')' ∷ b')' ∷ rest)) (length s + 1)
      ≡ (if fits min max (length s + 1) then some (s ++ b')' ∷ [], rest) else none)
  unfolding close_at
  close_at_nested = ground (
    arith,
    elem_after s (b')' ∷ rest) min max,
    length_text s (b')' ∷ rest) min max,
    take_nested,
    drop_nested,
  )

module _ (min max : ℕ) (s rest : Bytes) (h : Lacks b')' s) where
  -- Let `s` have no ')'. "(s)" with no second ')' behind it gives `s` and the text behind, if the
  -- length of `s` is allowed, and nothing if it is not.
  pub parse_string-plain :
      NoClose rest
      → parse_string min max (b'(' ∷ (s ++ b')' ∷ rest))
        ≡ (if fits min max (length s) then some (s, rest) else none)
  unfolding parse_string
  parse_string-plain n = rw (count_to_close-append s rest h) (close_at-plain s rest min max n)

  -- Let `s` have no ')'. "(s))" gives "s)" and the text behind, if the length of "s)" is allowed,
  -- and nothing if it is not.
  pub parse_string_nested :
      parse_string min max (b'(' ∷ (s ++ b')' ∷ b')' ∷ rest))
      ≡ (if fits min max (length s + 1) then some (s ++ b')' ∷ [], rest) else none)
  unfolding parse_string
  parse_string_nested =
      rw (count_to_close-append s (b')' ∷ rest) h) (close_at_nested s rest min max)
