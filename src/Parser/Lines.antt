-- ===== src/Parser/Lines.antt =====
-- A telegram of well-formed lines is read line by line.
use arduino_dsmr.Base.{
  ℕ, ◌≢◌, Bool, true, false, [], ◌∷◌, ◌++◌, ◌≡◌, refl, sym, ap, ◌∙◌, ◌⊎◌, inl, inr, arith, Bytes,
  Bool-cases, append_assoc, append-nil,
}
use arduino_dsmr.ParsedData.{ParsedData}
use arduino_dsmr.Parser.{Result, is_newline, next_is, go, move, scan_lines}

-- The text does not begin with `c`.
abbrev pub NotNext : ℕ → Bytes → Type 0
NotNext c [] = Unit {0}
NotNext c (x ∷ s) = x ≢ c

-- A line: its brackets match, single or as "((" and "))", and it holds a CR or LF only inside
-- brackets. The flag says whether a bracket is open.
pub data IsLine : Bool → Bytes → Type 0 where
  done : IsLine false []
  plain :
      {open_bracket : Bool} {c : ℕ} {s : Bytes}
      → c ≢ b'('
      → c ≢ b')'
      → (is_newline c ≡ true → open_bracket ≡ true)
      → IsLine open_bracket s
      → IsLine open_bracket (c ∷ s)
  opening : {c : ℕ} {s : Bytes} → c ≡ b'(' → NotNext b'(' s → IsLine true s → IsLine false (c ∷ s)
  opening_pair :
      {c c' : ℕ} {s : Bytes} → c ≡ b'(' → c' ≡ b'(' → IsLine true s → IsLine false (c ∷ c' ∷ s)
  closing : {c : ℕ} {s : Bytes} → c ≡ b')' → NotNext b')' s → IsLine false s → IsLine true (c ∷ s)
  closing_pair :
      {c c' : ℕ} {s : Bytes} → c ≡ b')' → c' ≡ b')' → IsLine false s → IsLine true (c ∷ c' ∷ s)

-- How the loop takes one character.
module _ (u o t : Bool) (line : Bytes) (d : ParsedData) (c : ℕ) (s : Bytes) where
  scan_go :
      {o' t' : Bool}
      → move o t c s ≡ go o' t'
      → scan_lines u o t line d (c ∷ s) ≡ scan_lines u o' t' (line ++ c ∷ []) d s
  unfolding scan_lines
  scan_go h = rw (h, scan_lines)

next_is-NotNext : (c : ℕ) (s : Bytes) → NotNext c s → next_is c s ≡ false
next_is-NotNext c [] n = refl
next_is-NotNext c (x ∷ s) n = ground arith

-- The moves on a bracket, and on another character, before `rest`.
module _ (c : ℕ) (rest : Bytes) where
  move_plain :
      (o : Bool)
      → c ≢ b'('
      → c ≢ b')'
      → (is_newline c ≡ true → o ≡ true)
      → move o false c rest ≡ go o false
  unfolding move
  move_plain o n m k = elim (Bool-cases (is_newline c)) [
    | inl e ↦ ground (arith, k e)
    | inr e ↦ ground arith
  ]

  move_open : c ≡ b'(' → NotNext b'(' rest → move false false c rest ≡ go true false
  unfolding move
  move_open e n = ground (arith, next_is-NotNext b'(' rest n)

  move_close : c ≡ b')' → NotNext b')' rest → move true false c rest ≡ go false false
  unfolding move
  move_close e n = ground (arith, next_is-NotNext b')' rest n)

  move_second_open : c ≡ b'(' → move false true c rest ≡ go true false
  unfolding move
  move_second_open e = ground arith

  move_second_close : c ≡ b')' → move true true c rest ≡ go false false
  unfolding move
  move_second_close e = ground arith

move_pair :
    (o : Bool) (c c' : ℕ) (rest : Bytes)
    → ((c ≡ b'(') × (c' ≡ b'(')) ⊎ ((c ≡ b')') × (c' ≡ b')'))
    → move o false c (c' ∷ rest) ≡ go o true
unfolding move
move_pair o c c' rest h = ground arith

NotNext-append : (c : ℕ) (s rest : Bytes) → b'\r' ≢ c → NotNext c s → NotNext c (s ++ b'\r' ∷ rest)
NotNext-append c [] rest h n = h
NotNext-append c (x ∷ s) rest h n = n

-- Through a line, up to its end.
module _ (u : Bool) (d : ParsedData) (rest : Bytes) where
  abbrev pub ended : Bytes → Bytes
  ended s = s ++ b'\r' ∷ rest

  abbrev pub at_end : Bytes → Result
  at_end line = scan_lines u false false line d (b'\r' ∷ rest)

  one_more :
      (line s : Bytes) (c : ℕ) {r : Result}
      → r ≡ at_end ((line ++ c ∷ []) ++ s)
      → r ≡ at_end (line ++ c ∷ s)
  one_more line s c e = e ∙ ap at_end (append_assoc line (c ∷ []) s)

  pub scan_lines-IsLine :
      {o : Bool} {s : Bytes} (line : Bytes)
      → IsLine o s
      → scan_lines u o false line d (ended s) ≡ at_end (line ++ s)
  scan_lines-IsLine line done = ap at_end (sym (append-nil line))
  scan_lines-IsLine line (plain {open_bracket = o} {c = c} {s = s} n m k h) = one_more line s c (
      scan_go u o false line d c (ended s) (move_plain c (ended s) o n m k)
      ∙ scan_lines-IsLine (line ++ c ∷ []) h)
  scan_lines-IsLine line (opening {c = c} {s = s} e n h) = one_more line s c (
      scan_go u false false line d c (ended s)
        (move_open c (ended s) e (NotNext-append b'(' s rest (omega arith) n))
      ∙ scan_lines-IsLine (line ++ c ∷ []) h)
  scan_lines-IsLine line (closing {c = c} {s = s} e n h) = one_more line s c (
      scan_go u true false line d c (ended s)
        (move_close c (ended s) e (NotNext-append b')' s rest (omega arith) n))
      ∙ scan_lines-IsLine (line ++ c ∷ []) h)
  scan_lines-IsLine line (opening_pair {c = c} {c' = c'} {s = s} e e' h) =
      one_more line (c' ∷ s) c (
        scan_go u false false line d c (c' ∷ ended s) (move_pair false c c' (ended s) (inl (e, e')))
        ∙ one_more (line ++ c ∷ []) s c' (
            scan_go u false true (line ++ c ∷ []) d c' (ended s) (move_second_open c' (ended s) e')
            ∙ scan_lines-IsLine ((line ++ c ∷ []) ++ c' ∷ []) h))
  scan_lines-IsLine line (closing_pair {c = c} {c' = c'} {s = s} e e' h) =
      one_more line (c' ∷ s) c (
        scan_go u true false line d c (c' ∷ ended s) (move_pair true c c' (ended s) (inr (e, e')))
        ∙ one_more (line ++ c ∷ []) s c' (
            scan_go u true true (line ++ c ∷ []) d c' (ended s) (move_second_close c' (ended s) e')
            ∙ scan_lines-IsLine ((line ++ c ∷ []) ++ c' ∷ []) h))
