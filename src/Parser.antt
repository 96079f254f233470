-- ===== src/Parser.antt =====
-- `DsmrParser` of src/dsmr_parser/parser.h: the lines of a telegram. A result `ok` is the
-- return value true, `failed` is false. The fields that a failing telegram has filled stay so.
pub mod Lines
pub mod Whole
pub mod Keeps
pub mod Reading
use arduino_dsmr.Base.{
  ℕ, Bool, true, false, not, ◌&&◌, ◌||◌, [], ◌∷◌, ◌++◌, Option, none, some, ◌==◌, if◌then◌else◌,
  Bytes, length, drop, take, sub_size,
}
use arduino_dsmr.Base.Outcome.{Outcome, ok, failed, undefined}
use arduino_dsmr.ParseObis.{ObisId, obis_id, no_id, parse_obis}
use arduino_dsmr.Fields.{Remainder, null_view, tail_view}
use arduino_dsmr.ParsedData.{ParsedData, dispatch}
use arduino_dsmr.Telegram.{DsmrUnencryptedTelegram, content_without_crc}

abbrev pub Result : Type 0
Result = Outcome (Unit {0}) × ParsedData

-- `(*datares).data() == (*idres).data()`: both are tails of one line, so they begin at one
-- place exactly when they are equally long; `idres` is never null.
abbrev pub same_start : Remainder → Bytes → Bool
same_start null_view idres = false
same_start (tail_view s) idres = length s == length idres

abbrev pub is_empty_view : Remainder → Bool
is_empty_view null_view = true
is_empty_view (tail_view []) = true
is_empty_view (tail_view (c ∷ s)) = false

-- The checks behind `data.parse_line`.
abbrev pub check_rest : Bool → Bytes → Remainder → Outcome (Unit {0})
check_rest unknown_error idres r =
    if not (same_start r idres) && not (is_empty_view r)
    then failed
    else if same_start r idres && unknown_error
    then failed
    else ok tt

abbrev pub checked : Bool → Bytes → Outcome Remainder × ParsedData → Result
checked unknown_error idres (ok r, d) = (check_rest unknown_error idres r, d)
checked unknown_error idres (failed, d) = (failed, d)
checked unknown_error idres (undefined, d) = (undefined, d)

unfoldable pub parse_line : ParsedData → Bytes → Bool → Result
parse_line d [] unknown_error = (ok tt, d)
parse_line d (c ∷ cs) unknown_error = elim (parse_obis no_id (c ∷ cs)) [
  | none ↦ (failed, d)
  | some (id, idres) ↦ checked unknown_error idres (dispatch d id idres)
]

abbrev pub is_newline : ℕ → Bool
is_newline c = c == b'\r' || c == b'\n'

-- The loop over the ID line: the line, and the text behind its end.
unfoldable pub split_id_line : Bytes → Option (Bytes × Bytes)
split_id_line [] = none
split_id_line (c ∷ s) =
    let rest = split_id_line s in
    if is_newline c
    then some ([], s)
    else elim rest [ none ↦ none | some (line, after) ↦ some (c ∷ line, after) ]

-- `nc` is this character, with another behind it.
abbrev pub next_is : ℕ → Bytes → Bool
next_is c [] = false
next_is c (x ∷ s) = x == c

-- `input.size() - pos > 2 && (input[pos + 1] == '(' || input[pos + 2] == '(')`
abbrev pub opens_next : Bytes → Bool
opens_next [] = false
opens_next (a ∷ []) = false
opens_next (a ∷ b ∷ s) = a == b'(' || b == b'('

-- What the loop over the data lines does with one character: it goes on, with `open_bracket`
-- and the note that the next character is the second of a pair; it fails; or the line ends.
pub data Move : Type 0 where
  go : Bool → Bool → Move
  stop : Move
  end_line : Move

-- `second` says that `pos` was moved on to the second of two equal brackets.
unfoldable pub move : Bool → Bool → ℕ → Bytes → Move
move open_bracket second c s =
    if not second && (c == b'(' && next_is b'(' s || c == b')' && next_is b')' s)
    then go open_bracket true
    else if c == b'('
    then if open_bracket then stop else go true false
    else if c == b')'
    then if not open_bracket then stop else go false false
    else if is_newline c
    then if open_bracket || opens_next s then go open_bracket false else end_line
    else go open_bracket false

-- On with the next line unless this one failed: `if (!parse_line(…)) return false;`
abbrev pub then_lines : (ParsedData → Result) → Result → Result
then_lines k (ok _, d) = k d
then_lines k (failed, d) = (failed, d)
then_lines k (undefined, d) = (undefined, d)

-- The loop over the data lines; `line` is the text from `line_start` to `pos`.
unfoldable pub scan_lines : Bool → Bool → Bool → Bytes → ParsedData → Bytes → Result
scan_lines unknown_error open_bracket second [] d [] = (ok tt, d)
scan_lines unknown_error open_bracket second (l ∷ line) d [] = (failed, d)
scan_lines unknown_error open_bracket second line d (c ∷ s) = elim (move open_bracket second c s) [
  | go open' second' ↦ scan_lines unknown_error open' second' (line ++ c ∷ []) d s
  | stop ↦ (failed, d)
  | end_line ↦
      then_lines (λ d'. scan_lines unknown_error false false [] d' s)
        (parse_line d line unknown_error)
]

abbrev pub identification_id : ObisId
identification_id = obis_id 255 255 255 255 255 255

-- From the ID line on.
abbrev pub after_id_line : Bool → Outcome Remainder × ParsedData → Bytes → Result
after_id_line unknown_error (ok _, d) rest = scan_lines unknown_error false false [] d rest
after_id_line unknown_error (failed, d) rest = (failed, d)
after_id_line unknown_error (undefined, d) rest = (undefined, d)

-- The telegram without '/' and '!'. With no ID line, nothing is read, and the text is not
-- terminated unless it is empty.
unfoldable pub parse_input : Bool → ParsedData → Bytes → Result
parse_input unknown_error d input = elim (split_id_line input) [
  | none ↦ scan_lines unknown_error false false input d []
  | some (line, rest) ↦ after_id_line unknown_error (dispatch d identification_id line) rest
]

unfoldable pub parse : ParsedData → DsmrUnencryptedTelegram → Bool → Result
parse d telegram unknown_error =
    let content = content_without_crc telegram in
    parse_input unknown_error d (take (sub_size (length content) 2) (drop 1 content))
