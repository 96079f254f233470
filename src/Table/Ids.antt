-- ===== src/Table/Ids.antt =====
-- The OBIS ids of the fields.
use arduino_dsmr.Base.{
  Bool, true, false, not, ◌&&◌, ◌||◌, [], ◌∷◌, ◌++◌, ◌≡◌, refl, sym, ap, ◌∙◌, arith, Bytes, codes,
  append-nil, append_assoc,
}
use arduino_dsmr.ParseObis.{ObisId, same_id, same_parts, same_id_refl}
use arduino_dsmr.ParsedData.{Field, ParsedData, try_field, dispatch}
use arduino_dsmr.ParsedData.Dispatch.{Unknown, dispatch_known}
use arduino_dsmr.Table.{all_fields}
use arduino_dsmr.Table.Declare.{default_ids}

-- A field whose id none of `seen` has.
unfoldable pub is_new : ParsedData → ObisId → Bool
is_new [] id = true
is_new (g ∷ seen) id = not (same_id g.id id) && is_new seen id

-- The second field on the id of gas_delivered.
unfoldable pub is_gj : Field → Bool
is_gj f = same_parts (codes f.name) (codes "gas_delivered_gj")

-- Each field behind `seen`, but for the one above, has an id that none before it has.
unfoldable pub is_distinct : ParsedData → ParsedData → Bool
is_distinct seen [] = true
is_distinct seen (f ∷ fs) = (is_gj f || is_new seen f.id) && is_distinct (seen ++ f ∷ []) fs

all_fields_distinct : is_distinct [] (all_fields default_ids) ≡ true
unfolding is_distinct is_new is_gj same_parts
all_fields_distinct = refl

is_new-Unknown : (seen : ParsedData) (id : ObisId) → is_new seen id ≡ true → Unknown id seen
unfolding is_new
is_new-Unknown [] id h = tt
is_new-Unknown (g ∷ seen) id h = (ground arith, is_new-Unknown seen id (ground arith))

is_distinct-is_new :
    (seen front : ParsedData) (f : Field) (back : ParsedData)
    → is_distinct seen (front ++ f ∷ back) ≡ true
    → is_gj f ≡ false
    → is_new (seen ++ front) f.id ≡ true
unfolding is_distinct
is_distinct-is_new seen [] f back h n = ap (λ s. is_new s f.id) (append-nil seen) ∙ ground arith
is_distinct-is_new seen (g ∷ front) f back h n =
    ap (λ s. is_new s f.id) (sym (append_assoc seen (g ∷ []) front))
    ∙ is_distinct-is_new (seen ++ g ∷ []) front f back (ground arith) n

-- Of all fields that the header defines, with the bus numbers that it sets, every one but
-- gas_delivered_gj takes the lines of its own id, whether it parses them or not.
pub dispatch-all_fields :
    (front : ParsedData) (f : Field) (back : ParsedData) (input : Bytes)
    → all_fields default_ids ≡ front ++ f ∷ back
    → is_gj f ≡ false
    → dispatch (all_fields default_ids) f.id input
      ≡ ((try_field f input).0, front ++ (try_field f input).1 ∷ back)
dispatch-all_fields front f back input splits n =
    let new =
      is_distinct-is_new [] front f back (ap (is_distinct []) (sym splits) ∙ all_fields_distinct)
        n in
    ap (λ d. dispatch d f.id input) splits
    ∙ dispatch_known f.id input front f back (is_new-Unknown front f.id new) (same_id_refl f.id)
