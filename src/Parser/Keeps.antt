-- ===== src/Parser/Keeps.antt =====
-- What parsing a telegram does to the fields that it does not fill.
use mathlib.Core.Path.{subst}
use arduino_dsmr.Base.{
  Bool, true, false, [], ◌∷◌, ◌++◌, none, some, ◌≡◌, refl, sym, ap, ◌∙◌, inl, inr, arith, Bytes,
  Bool-cases,
}
use arduino_dsmr.Base.Outcome.{Outcome, ok, failed, undefined}
use arduino_dsmr.Telegram.{DsmrUnencryptedTelegram}
use arduino_dsmr.Fields.{Remainder}
use arduino_dsmr.ParseObis.{ObisId, same_id, parse_obis, no_id}
use arduino_dsmr.ParsedData.{Field, ParsedData, try_field, dispatch}
use arduino_dsmr.Parser.{
  Result, checked, parse_line, go, stop, end_line, move, then_lines, scan_lines, split_id_line,
  after_id_line, identification_id, parse_input, parse,
}

-- One field after some lines: its declaration is the same, and if it had been read before,
-- its value is the same; only a read field can have changed.
pub record KeepsField (f f' : Field) : Type 0 where
  pub same_name : f'.name ≡ f.name
  pub same_obis : f'.id ≡ f.id
  pub same_kind : f'.kind ≡ f.kind
  pub if_read : f.present ≡ true → f' ≡ f
  pub if_unread : f'.present ≡ false → f' ≡ f

abbrev pub Keeps : ParsedData → ParsedData → Type 0
Keeps [] [] = Unit {0}
Keeps [] (f' ∷ fs') = ⊥
Keeps (f ∷ fs) [] = ⊥
Keeps (f ∷ fs) (f' ∷ fs') = KeepsField f f' × Keeps fs fs'

KeepsField-refl : (f : Field) → KeepsField f f
KeepsField-refl f = record {
  same_name = refl;
  same_obis = refl;
  same_kind = refl;
  if_read = λ _. refl;
  if_unread = λ _. refl;
}

Keeps-refl : (d : ParsedData) → Keeps d d
Keeps-refl [] = tt
Keeps-refl (f ∷ fs) = (KeepsField-refl f, Keeps-refl fs)

KeepsField-trans : (f g h : Field) → KeepsField f g → KeepsField g h → KeepsField f h
KeepsField-trans f g h p q = record {
  same_name = q.same_name ∙ p.same_name;
  same_obis = q.same_obis ∙ p.same_obis;
  same_kind = q.same_kind ∙ p.same_kind;
  if_read = λ e. q.if_read (ap (λ x. x.present) (p.if_read e) ∙ e) ∙ p.if_read e;
  if_unread =
      λ e. let same = q.if_unread e in same ∙ p.if_unread (sym (ap (λ x. x.present) same) ∙ e);
}

Keeps-trans : (c d e : ParsedData) → Keeps c d → Keeps d e → Keeps c e
Keeps-trans [] [] [] p q = tt
Keeps-trans [] [] (h ∷ e) p q = elim q [ ]
Keeps-trans [] (g ∷ d) e p q = elim p [ ]
Keeps-trans (f ∷ c) [] e p q = elim p [ ]
Keeps-trans (f ∷ c) (g ∷ d) [] p q = elim q [ ]
Keeps-trans (f ∷ c) (g ∷ d) (h ∷ e) (p, ps) (q, qs) =
    (KeepsField-trans f g h p q, Keeps-trans c d e ps qs)

try_field-KeepsField : (f : Field) (input : Bytes) → KeepsField f (try_field f input).1
unfolding try_field
try_field-KeepsField f input = elim (Bool-cases f.present) [
  | inl e ↦ subst (λ x. KeepsField f x) (ground arith) (KeepsField-refl f)
  | inr e ↦ record {
    same_name = ground arith;
    same_obis = ground arith;
    same_kind = ground arith;
    if_read = λ e'. absurd (cc);
    if_unread = λ e'. absurd (ground arith);
  }
]

dispatch-Keeps : (d : ParsedData) (id : ObisId) (input : Bytes) → Keeps d (dispatch d id input).1
unfolding dispatch
dispatch-Keeps [] id input = tt
dispatch-Keeps (f ∷ d) id input = elim (Bool-cases (same_id f.id id)) [
  | inl e ↦ rw e (try_field-KeepsField f input, Keeps-refl d)
  | inr e ↦ rw e (KeepsField-refl f, dispatch-Keeps d id input)
]

checked-data : (u : Bool) (s : Bytes) (r : Outcome Remainder × ParsedData) → (checked u s r).1 ≡ r.1
checked-data u s (ok r, d) = refl
checked-data u s (failed, d) = refl
checked-data u s (undefined, d) = refl

parse_line-Keeps : (d : ParsedData) (line : Bytes) (u : Bool) → Keeps d (parse_line d line u).1
unfolding parse_line
parse_line-Keeps d [] u = Keeps-refl d
parse_line-Keeps d (c ∷ cs) u =
    elim (parse_obis no_id (c ∷ cs))
      as (λ o.
        Keeps d
          (elim o as (λ x. Result) [
            | none ↦ (failed, d)
            | some (id, idres) ↦ checked u idres (dispatch d id idres)
          ]).1) [
            | none ↦ Keeps-refl d
            | some (id, idres) ↦
                subst (Keeps d) (sym (checked-data u idres (dispatch d id idres)))
                  (dispatch-Keeps d id idres)
          ]

then_lines-Keeps :
    (c : ParsedData) (k : ParsedData → Result) (r : Result)
    → Keeps c r.1
    → ((d : ParsedData) → Keeps d (k d).1)
    → Keeps c (then_lines k r).1
then_lines-Keeps c k (ok _, d) h hk = Keeps-trans c d (k d).1 h (hk d)
then_lines-Keeps c k (failed, d) h hk = h
then_lines-Keeps c k (undefined, d) h hk = h

scan_lines-Keeps :
    (u o t : Bool) (line : Bytes) (d : ParsedData) (s : Bytes)
    → Keeps d (scan_lines u o t line d s).1
unfolding scan_lines
scan_lines-Keeps u o t [] d [] = Keeps-refl d
scan_lines-Keeps u o t (l ∷ line) d [] = Keeps-refl d
scan_lines-Keeps u o t line d (c ∷ s) =
    elim (move o t c s)
      as (λ m.
        Keeps d
          (elim m as (λ x. Result) [
            | go o' t' ↦ scan_lines u o' t' (line ++ c ∷ []) d s
            | stop ↦ (failed, d)
            | end_line ↦ then_lines (λ d'. scan_lines u false false [] d' s) (parse_line d line u)
          ]).1) [
            | go o' t' ↦ scan_lines-Keeps u o' t' (line ++ c ∷ []) d s
            | stop ↦ Keeps-refl d
            | end_line ↦
                then_lines-Keeps d (λ d'. scan_lines u false false [] d' s) (parse_line d line u)
                  (parse_line-Keeps d line u) (λ d'. scan_lines-Keeps u false false [] d' s)
          ]

after_id_line-Keeps :
    (u : Bool) (c : ParsedData) (r : Outcome Remainder × ParsedData) (rest : Bytes)
    → Keeps c r.1
    → Keeps c (after_id_line u r rest).1
after_id_line-Keeps u c (ok _, d) rest h =
    Keeps-trans c d _ h (scan_lines-Keeps u false false [] d rest)
after_id_line-Keeps u c (failed, d) rest h = h
after_id_line-Keeps u c (undefined, d) rest h = h

parse_input-Keeps : (u : Bool) (d : ParsedData) (input : Bytes) → Keeps d (parse_input u d input).1
unfolding parse_input
parse_input-Keeps u d input =
    elim (split_id_line input)
      as (λ o.
        Keeps d
          (elim o as (λ x. Result) [
            | none ↦ scan_lines u false false input d []
            | some (line, rest) ↦ after_id_line u (dispatch d identification_id line) rest
          ]).1) [
            | none ↦ scan_lines-Keeps u false false input d []
            | some (line, rest) ↦
                after_id_line-Keeps u d (dispatch d identification_id line) rest
                  (dispatch-Keeps d identification_id line)
          ]

-- Whatever the telegram and the result: `parse` keeps the fields' declarations and their order,
-- a field that was read before keeps its value, and a field that is still unread is unchanged.
pub parse-Keeps :
    (d : ParsedData) (t : DsmrUnencryptedTelegram) (u : Bool) → Keeps d (parse d t u).1
unfolding parse
parse-Keeps d t u = parse_input-Keeps u d _
