-- ===== src/Parser/Whole.antt =====
-- A telegram whose text is an ID line and well-formed data lines.
use arduino_dsmr.Base.{
  ℕ, ◌≢◌, Bool, false, List, [], ◌∷◌, ◌++◌, some, ◌≡◌, refl, ap, ◌∙◌, ◌⊎◌, inl, inr, arith, Bytes,
  length, take, drop, sub_size, take-append,
}
use arduino_dsmr.Base.Outcome.{Outcome, ok, failed, undefined}
use arduino_dsmr.Fields.{Remainder}
use arduino_dsmr.ParsedData.{ParsedData, dispatch}
use arduino_dsmr.Telegram.{DsmrUnencryptedTelegram, content_without_crc}
use arduino_dsmr.Telegram.Content.{framed, length-framed}
use arduino_dsmr.Parser.{
  Result, parse_line, is_newline, opens_next, end_line, move, scan_lines, split_id_line,
  after_id_line, identification_id, then_lines, parse_input, parse,
}
use arduino_dsmr.Parser.Lines.{IsLine, scan_lines-IsLine}

-- Neither of the first two bytes is '('.
abbrev pub StartsPlain : Bytes → Type 0
StartsPlain [] = Unit {0}
StartsPlain (a ∷ []) = a ≢ b'('
StartsPlain (a ∷ b ∷ s) = (a ≢ b'(') × (b ≢ b'(')

abbrev pub AllLines : List Bytes → Type 0
AllLines [] = Unit {0}
AllLines (l ∷ ls) = IsLine false l × StartsPlain l × AllLines ls

-- Each line with its CR LF.
abbrev pub lines_text : List Bytes → Bytes
lines_text [] = []
lines_text (l ∷ ls) = l ++ b'\r' ∷ b'\n' ∷ lines_text ls

-- The lines in order, up to the first that fails.
unfoldable pub read_lines : Bool → List Bytes → ParsedData → Result
read_lines u [] d = (ok tt, d)
read_lines u (l ∷ ls) d = then_lines (read_lines u ls) (parse_line d l u)

module _ (u : Bool) (line : Bytes) (d : ParsedData) (c : ℕ) (s : Bytes) where
  scan_end :
      move false false c s ≡ end_line
      → scan_lines u false false line d (c ∷ s)
        ≡ then_lines (λ d'. scan_lines u false false [] d' s) (parse_line d line u)
  unfolding scan_lines
  scan_end h = rw (h, scan_lines)

  move_end : (c ≡ b'\r') ⊎ (c ≡ b'\n') → opens_next s ≡ false → move false false c s ≡ end_line
  unfolding move
  move_end e h = ground arith

opens_next-StartsPlain : (s : Bytes) → StartsPlain s → opens_next s ≡ false
opens_next-StartsPlain [] h = refl
opens_next-StartsPlain (a ∷ []) h = refl
opens_next-StartsPlain (a ∷ b ∷ s) h = ground arith

opens_next-newline : (s : Bytes) → StartsPlain s → opens_next (b'\n' ∷ s) ≡ false
opens_next-newline [] h = refl
opens_next-newline (a ∷ []) h = ground arith
opens_next-newline (a ∷ b ∷ s) h = ground arith

StartsPlain-append : (l rest : Bytes) → StartsPlain l → StartsPlain (l ++ b'\r' ∷ b'\n' ∷ rest)
StartsPlain-append [] rest h = (omega arith, omega arith)
StartsPlain-append (a ∷ []) rest h = (h, omega arith)
StartsPlain-append (a ∷ b ∷ l) rest h = h

StartsPlain-lines_text : (ls : List Bytes) → AllLines ls → StartsPlain (lines_text ls)
StartsPlain-lines_text [] h = tt
StartsPlain-lines_text (l ∷ ls) (h, p, hs) = StartsPlain-append l (lines_text ls) p

then_lines_eq :
    (k k' : ParsedData → Result)
    → ((d : ParsedData) → k d ≡ k' d)
    → (r : Result) → then_lines k r ≡ then_lines k' r
then_lines_eq k k' h (ok _, d) = h d
then_lines_eq k k' h (failed, d) = refl
then_lines_eq k k' h (undefined, d) = refl

-- The LF behind a CR ends an empty line.
scan_newline :
    (u : Bool) (d : ParsedData) (s : Bytes)
    → StartsPlain s
    → scan_lines u false false [] d (b'\n' ∷ s) ≡ scan_lines u false false [] d s
unfolding parse_line
scan_newline u d s h =
    scan_end u [] d b'\n' s (move_end u [] d b'\n' s (inr refl) (opens_next-StartsPlain s h))

-- The loop over the data lines reads the lines in order.
scan_lines-lines_text :
    (u : Bool) (ls : List Bytes) (d : ParsedData)
    → AllLines ls
    → scan_lines u false false [] d (lines_text ls) ≡ read_lines u ls d
unfolding scan_lines read_lines
scan_lines-lines_text u [] d h = refl
scan_lines-lines_text u (l ∷ ls) d (h, p, hs) =
    let rest = lines_text ls in
    let starts = StartsPlain-lines_text ls hs in
    scan_lines-IsLine u d (b'\n' ∷ rest) [] h
    ∙ scan_end u l d b'\r' (b'\n' ∷ rest)
        (move_end u l d b'\r' (b'\n' ∷ rest) (inl refl) (opens_next-newline rest starts))
    ∙ then_lines_eq _ _ (λ d'. scan_newline u d' rest starts ∙ scan_lines-lines_text u ls d' hs)
        (parse_line d l u)

-- A line with no line end in it.
abbrev pub OneLine : Bytes → Type 0
OneLine [] = Unit {0}
OneLine (c ∷ s) = (is_newline c ≡ false) × OneLine s

split_id_line-OneLine :
    (id rest : Bytes) → OneLine id → split_id_line (id ++ b'\r' ∷ rest) ≡ some (id, rest)
unfolding split_id_line
split_id_line-OneLine [] rest h = refl
split_id_line-OneLine (c ∷ id) rest (h, hs) = rw (split_id_line-OneLine id rest hs) (ground arith)

-- What an ID line and data lines mean: the ID line goes to the field of the identification,
-- then each line in turn.
abbrev then_data : (ParsedData → Result) → Outcome Remainder × ParsedData → Result
then_data k (ok _, d) = k d
then_data k (failed, d) = (failed, d)
then_data k (undefined, d) = (undefined, d)

unfoldable pub read_telegram : Bool → Bytes → List Bytes → ParsedData → Result
read_telegram u id ls d = then_data (read_lines u ls) (dispatch d identification_id id)

after_id_line-lines_text :
    (u : Bool) (ls : List Bytes) (r : Outcome Remainder × ParsedData)
    → AllLines ls
    → after_id_line u r (b'\n' ∷ lines_text ls) ≡ then_data (read_lines u ls) r
after_id_line-lines_text u ls (ok _, d) h =
    scan_newline u d (lines_text ls) (StartsPlain-lines_text ls h) ∙ scan_lines-lines_text u ls d h
after_id_line-lines_text u ls (failed, d) h = refl
after_id_line-lines_text u ls (undefined, d) h = refl

parse_input-lines_text :
    (u : Bool) (id : Bytes) (ls : List Bytes) (d : ParsedData)
    → OneLine id
    → AllLines ls
    → parse_input u d (id ++ b'\r' ∷ b'\n' ∷ lines_text ls) ≡ read_telegram u id ls d
unfolding parse_input read_telegram
parse_input-lines_text u id ls d one h =
    rw (split_id_line-OneLine id (b'\n' ∷ lines_text ls) one, parse_input)
      (after_id_line-lines_text u ls (dispatch d identification_id id) h)

inside-framed :
    (body : Bytes) → take (sub_size (length (framed body)) 2) (drop 1 (framed body)) ≡ body
inside-framed body =
    let size : sub_size (length (framed body)) 2 ≡ length body =
      ground (arith, length-framed body) in
    ap (λ n. take n (body ++ b'!' ∷ [])) size ∙ take-append (length body) body (b'!' ∷ []) refl

-- A telegram whose text without the checksum is '/', an ID line, CR LF, data lines that each end
-- in CR LF, and '!', is read as `read_telegram` says: the ID line goes to the field of the
-- identification, and the data lines are parsed one by one, in order, until one fails. The ID
-- line holds no CR or LF. A data line's brackets match, it holds a CR or LF only inside brackets,
-- and neither of its first two bytes is '('.
pub parse-lines_text :
    (u : Bool) (id : Bytes) (ls : List Bytes) (d : ParsedData) (t : DsmrUnencryptedTelegram)
    → content_without_crc t ≡ framed (id ++ b'\r' ∷ b'\n' ∷ lines_text ls)
    → OneLine id
    → AllLines ls
    → parse d t u ≡ read_telegram u id ls d
unfolding parse
parse-lines_text u id ls d t text one h =
    ap (λ s. parse_input u d (take (sub_size (length s) 2) (drop 1 s))) text
    ∙ ap (parse_input u d) (inside-framed (id ++ b'\r' ∷ b'\n' ∷ lines_text ls))
    ∙ parse_input-lines_text u id ls d one h
