-- ===== src/Parser/Reading.antt =====
-- A data line with one number, from its text to the field.
use Prim.Native.String.{String}
use arduino_dsmr.Base.{
  ◌≤◌, Bool, true, false, [], ◌∷◌, ◌++◌, some, ◌≡◌, refl, ap, ◌∙◌, arith, Bytes,
}
use arduino_dsmr.Base.Int.{ℤ}
use arduino_dsmr.Base.Outcome.{ok}
use arduino_dsmr.ParseObis.{ObisId, obis_id, no_id, same_id_refl, parse_obis}
use arduino_dsmr.ParseObis.Bounds.{parse_obis-nil}
use arduino_dsmr.ParseObis.RoundTrip.{IsPart, front_text, parse_obis-five}
use arduino_dsmr.ParseNum.{parse_num, parse_float_or_int}
use arduino_dsmr.ParseNum.Value.{spell}
use arduino_dsmr.ParseNum.Literal.{
  Literal, IsLiteral, literal_text, magnitude, with_sign, parse_num_literal,
}
use arduino_dsmr.Fields.{Value, tail_view, fixed_field, parse_field, parse_fixed}
use arduino_dsmr.ParsedData.{Field, ParsedData, try_field, dispatch}
use arduino_dsmr.ParsedData.Dispatch.{Unknown, dispatch_known}
use arduino_dsmr.Parser.{check_rest, checked, parse_line}

-- A line that begins with an id goes to the dispatch.
parse_line-obis :
    (d : ParsedData) (u : Bool) (s rest : Bytes) (id : ObisId)
    → parse_obis no_id s ≡ some (id, rest)
    → parse_line d s u ≡ checked u rest (dispatch d id rest)
unfolding parse_line
parse_line-obis d u [] rest id h = absurd (ground (arith, parse_obis-nil no_id))
parse_line-obis d u (c ∷ s) rest id h = rw (h, parse_line) refl

-- A number with its unit, in a field of three decimals.
parse_fixed-literal :
    (unit int_unit : Bytes) (l : Literal) (val : Value)
    → IsLiteral 3 unit l
    → magnitude 3 l ≤ 2147483647
    → parse_fixed unit int_unit (literal_text unit l []) val
      ≡ (ok (tail_view []), record val { number = with_sign l.negative (magnitude 3 l) })
unfolding parse_fixed parse_float_or_int
parse_fixed-literal unit int_unit l val h small =
    let read : parse_num 3 unit (literal_text unit l [])
        ≡ ok (with_sign l.negative (magnitude 3 l), []) =
      parse_num_literal 3 unit [] l h ∙ ground arith in
    rw (read, parse_fixed, parse_float_or_int) refl

module _ (n : String) (id : ObisId) (unit int_unit : Bytes) (val : Value) where
  -- The field before, and after a number.
  abbrev pub unread : Field
  unread = record {
    name = n;
    id = id;
    kind = fixed_field unit int_unit;
    value = val;
    present = false;
  }

  abbrev pub holding : ℤ → Field
  holding number = record {
    name = n;
    id = id;
    kind = fixed_field unit int_unit;
    value = record val { number = number };
    present = true;
  }

  try_field-literal :
      (l : Literal)
      → IsLiteral 3 unit l
      → magnitude 3 l ≤ 2147483647
      → try_field unread (literal_text unit l [])
        ≡ (ok (tail_view []), holding (with_sign l.negative (magnitude 3 l)))
  unfolding try_field parse_field
  try_field-literal l h small = rw (parse_fixed-literal unit int_unit l val h small, try_field) refl

-- Nothing is left of the line.
check_rest-read :
    (u : Bool) (unit : Bytes) (l : Literal)
    → check_rest u (literal_text unit l []) (tail_view []) ≡ ok tt
check_rest-read u unit l = ground arith

-- A line "a-b:c.d.e(number*unit)", whose id is that of an unread fixed-point field and of no field
-- before it, is parsed: the field then holds the exact value in thousandths, and is marked as
-- read, and no other field changes. Each part of the id is digits that spell a number below 256,
-- the number has at most three decimals, and its absolute value in thousandths is at most
-- 2147483647.
pub parse_line-literal :
    (a b c d e : Bytes) (n : String) (unit int_unit : Bytes) (val : Value) (l : Literal)
    (front back : ParsedData) (u : Bool)
    → IsPart a × IsPart b × IsPart c × IsPart d × IsPart e
    → IsLiteral 3 unit l
    → magnitude 3 l ≤ 2147483647
    → Unknown (obis_id (spell 0 a) (spell 0 b) (spell 0 c) (spell 0 d) (spell 0 e) 255) front
    → parse_line
        (front
          ++ unread n
              (obis_id (spell 0 a) (spell 0 b) (spell 0 c) (spell 0 d) (spell 0 e) 255)
              unit
              int_unit
              val
            ∷ back)
        (front_text a b c d (e ++ literal_text unit l []))
        u
      ≡ (
        ok tt,
        front
            ++ holding n
                (obis_id (spell 0 a) (spell 0 b) (spell 0 c) (spell 0 d) (spell 0 e) 255)
                unit
                int_unit
                val
                (with_sign l.negative (magnitude 3 l))
              ∷ back,
      )
parse_line-literal a b c d e n unit int_unit val l front back u (pa, pb, pc, pd, pe) h small new =
    let id = obis_id (spell 0 a) (spell 0 b) (spell 0 c) (spell 0 d) (spell 0 e) 255 in
    let text = literal_text unit l [] in
    parse_line-obis _ u _ text id (parse_obis-five a b c d e pa pb pc pd pe text (refl, refl))
    ∙ ap (checked u text)
        (dispatch_known id text front (unread n id unit int_unit val) back new (same_id_refl id))
    ∙ ap (λ r. checked u text (r.0, front ++ r.1 ∷ back))
        (try_field-literal n id unit int_unit val l h small)
    ∙ ap
        (λ r. (
          r,
          front ++ holding n id unit int_unit val (with_sign l.negative (magnitude 3 l)) ∷ back,
        ))
        (check_rest-read u unit l)
