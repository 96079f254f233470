-- ===== src/ParsedData.antt =====
-- `ParsedData` of src/dsmr_parser/parser.h: the fields of one telegram, and the dispatch of a
-- line to the field of its OBIS id.
pub mod Dispatch
use Prim.Native.String.{String}
use arduino_dsmr.Base.{ℕ, Bool, true, false, ◌&&◌, List, [], ◌∷◌, if◌then◌else◌, Bytes}
use arduino_dsmr.Base.Outcome.{Outcome, ok, failed}
use arduino_dsmr.ParseObis.{ObisId, same_id}
use arduino_dsmr.Fields.{Kind, Value, Remainder, tail_view, parse_field}

-- What DEFINE_FIELD declares: the name, the id and the base of a field, with its value and the
-- flag that it has been read.
pub record Field : Type 0 where
  pub name : String
  pub id : ObisId
  pub kind : Kind
  pub value : Value
  pub present : Bool

-- `ParsedData<Ts...>`: the base classes, in order.
abbrev pub ParsedData : Type 0
ParsedData = List Field

-- The branch of the lambda `try_field` behind the comparison of the ids.
unfoldable pub try_field : Field → Bytes → Outcome Remainder × Field
try_field f input =
    if f.present
    then (failed, f)
    else (let (res, v) = parse_field f.kind input f.value in
        (res, record f { present = true; value = v }))

-- The fold over the fields: the first one with the id takes the line.
unfoldable pub dispatch : ParsedData → ObisId → Bytes → Outcome Remainder × ParsedData
dispatch [] id input = (ok (tail_view input), [])
dispatch (f ∷ fs) id input =
    if same_id f.id id
    then (let (res, f') = try_field f input in (res, f' ∷ fs))
    else (let (res, fs') = dispatch fs id input in (res, f ∷ fs'))

unfoldable pub all_present : ParsedData → Bool
all_present [] = true
all_present (f ∷ fs) = f.present && all_present fs
