-- ===== src/ParsedData/Dispatch.antt =====
-- The dispatch of a line to the field of its OBIS id.
use mathlib.Core.Path.{subst}
use arduino_dsmr.Base.{
  true, false, [], ◌∷◌, ◌++◌, ◌≡◌, refl, sym, ap, ◌∙◌, ◌⊎◌, inl, inr, arith, Bytes, Bool-cases,
}
use arduino_dsmr.Base.Outcome.{ok, failed}
use arduino_dsmr.ParseObis.{ObisId, same_id}
use arduino_dsmr.Fields.{tail_view}
use arduino_dsmr.ParsedData.{Field, ParsedData, try_field, dispatch}

-- No field has the id.
abbrev pub Unknown : ObisId → ParsedData → Type 0
Unknown id [] = Unit {0}
Unknown id (f ∷ fs) = (same_id f.id id ≡ false) × Unknown id fs

-- The fields up to the first with the id, that one, and those behind it.
pub record IsFirst (id : ObisId) (d front : ParsedData) (f : Field) (back : ParsedData)
    : Type 0 where
  pub splits : d ≡ front ++ f ∷ back
  pub others : Unknown id front
  pub matches : same_id f.id id ≡ true

pub known_cases :
    (id : ObisId) (d : ParsedData)
    → Unknown id d
      ⊎ ((front : ParsedData) × (f : Field) × (back : ParsedData) × IsFirst id d front f back)
known_cases id [] = inl tt
known_cases id (g ∷ d) = elim (Bool-cases (same_id g.id id)) [
  | inl e ↦ inr ([], g, d, record { splits = refl; others = tt; matches = e })
  | inr e ↦ elim (known_cases id d) [
    | inl u ↦ inl (e, u)
    | inr (front, f, back, h) ↦ inr (
      g ∷ front,
      f,
      back,
      record { splits = ap (λ z. g ∷ z) h.splits; others = (e, h.others); matches = h.matches },
    )
  ]
]

pub dispatch_unknown :
    (id : ObisId) (input : Bytes) (d : ParsedData)
    → Unknown id d
    → dispatch d id input ≡ (ok (tail_view input), d)
unfolding dispatch
dispatch_unknown id input [] h = refl
dispatch_unknown id input (f ∷ d) (e, h) = ground (arith, dispatch_unknown id input d h)

pub dispatch_known :
    (id : ObisId) (input : Bytes) (front : ParsedData) (f : Field) (back : ParsedData)
    → Unknown id front
    → same_id f.id id ≡ true
    → dispatch (front ++ f ∷ back) id input
      ≡ ((try_field f input).0, front ++ (try_field f input).1 ∷ back)
unfolding dispatch
dispatch_known id input [] f back u m = ground arith
dispatch_known id input (g ∷ front) f back (e, u) m =
    ground (arith, dispatch_known id input front f back u m)

-- A field that a line has reached: marked as read, even if the line did not parse.
try_field-present : (f : Field) (input : Bytes) → ((try_field f input).1).present ≡ true
unfolding try_field
try_field-present f input = elim (Bool-cases f.present) [
  | inl e ↦ ground arith
  | inr e ↦ ground arith
]

try_field-id : (f : Field) (input : Bytes) → ((try_field f input).1).id ≡ f.id
unfolding try_field
try_field-id f input = elim (Bool-cases f.present) [ inl e ↦ ground arith | inr e ↦ ground arith ]

try_field_again : (f : Field) (input : Bytes) → f.present ≡ true → try_field f input ≡ (failed, f)
unfolding try_field
try_field_again f input h = ground arith

-- What a line with an OBIS id does to the fields. Either no field has the id: nothing changes,
-- and the text behind the id is left over. Or the first field with the id, and it alone, is given
-- the text: it is read, and a second line for the id then fails and changes nothing.
pub dispatch_once :
    (id : ObisId) (input : Bytes) (d : ParsedData)
    → (Unknown id d × (dispatch d id input ≡ (ok (tail_view input), d)))
      ⊎ ((front : ParsedData) × (f : Field) × (back : ParsedData) × IsFirst id d front f back
          × (dispatch d id input ≡ ((try_field f input).0, front ++ (try_field f input).1 ∷ back))
          × ((input' : Bytes)
              → dispatch (dispatch d id input).1 id input' ≡ (failed, (dispatch d id input).1)))
dispatch_once id input d = elim (known_cases id d) [
  | inl u ↦ inl (u, dispatch_unknown id input d u)
  | inr (front, f, back, h) ↦
      let e =
        ap (λ x. dispatch x id input) h.splits
        ∙ dispatch_known id input front f back h.others h.matches in
      inr (
        front,
        f,
        back,
        h,
        e,
        λ input'. again front f back h.others h.matches input' (ap (λ p. p.1) e),
      )
]
  where
    again :
        (front : ParsedData) (f : Field) (back : ParsedData)
        → Unknown id front
        → same_id f.id id ≡ true
        → (input' : Bytes) → (dispatch d id input).1 ≡ front ++ (try_field f input).1 ∷ back
        → dispatch (dispatch d id input).1 id input' ≡ (failed, (dispatch d id input).1)
    again front f back u m input' e =
        let f' = (try_field f input).1 in
        let stop : try_field f' input' ≡ (failed, f') =
          try_field_again f' input' (try_field-present f input) in
        let twice : dispatch (front ++ f' ∷ back) id input' ≡ (failed, front ++ f' ∷ back) =
          dispatch_known id input' front f' back u
            (ap (λ i. same_id i id) (try_field-id f input) ∙ m)
          ∙ ap (λ p. (p.0, front ++ p.1 ∷ back)) stop in
        subst (λ x. dispatch x id input' ≡ (failed, x)) (sym e) twice
