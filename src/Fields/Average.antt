-- ===== src/Fields/Average.antt =====
-- `AveragedFixedField` on a line of timestamped readings.
use arduino_dsmr.Base.{
  ℕ, suc, ◌+◌, ◌≤◌, Bool, true, false, if◌then◌else◌, List, [], ◌∷◌, ◌++◌, ◌≡◌, refl, sym, ap, ◌∙◌,
  arith, Bytes, append-nil, ◌==◌, ◌*◌, ◌^◌,
}
use arduino_dsmr.Base.Outcome.{Outcome, ok, failed, undefined, ◌>>=◌}
use arduino_dsmr.Base.Int.{ℤ, pos, ◌+ℤ◌, int32_of, int_max}
use arduino_dsmr.ParseNum.{parse_num, parse_float_or_int}
use arduino_dsmr.ParseNum.Value.{AllDigits, spell, bounded}
use arduino_dsmr.ParseNum.Literal.{Literal, parse_num_literal, with_sign}
use arduino_dsmr.ParseString.RoundTrip.{NoClose}
use arduino_dsmr.Fields.{
  Value, Parsed, tail_view, skip_group, sum_groups, quotient, average, parse_averaged,
}
use arduino_dsmr.Fields.Signed.{
  difference, in_range, more, less, +ℤ-with_sign, int32_of-difference, quotient_of,
  div_ℕ-difference,
}
use arduino_dsmr.Fields.Groups.{IsGroup, group_text, parse_group}

-- Two timestamps, and a reading in parentheses, without its '('; its amount by a sign and an
-- absolute value.
pub record Entry : Type 0 where
  pub start : Bytes
  pub stop : Bytes
  pub reading : Bytes
  pub negative : Bool
  pub amount : ℕ

-- Whatever comes next, the reading is read as its amount.
pub record IsEntry (unit int_unit : Bytes) (e : Entry) : Type 0 where
  pub start_group : IsGroup e.start
  pub stop_group : IsGroup e.stop
  pub reads :
      (rest : Bytes)
      → parse_float_or_int 3 unit int_unit (b'(' ∷ (e.reading ++ rest))
        ≡ ok (with_sign e.negative e.amount, rest)

abbrev pub AllEntries : Bytes → Bytes → List Entry → Type 0
AllEntries unit int_unit [] = Unit {0}
AllEntries unit int_unit (e ∷ es) = IsEntry unit int_unit e × AllEntries unit int_unit es

abbrev pub count_of : List Entry → ℕ
count_of [] = 0
count_of (e ∷ es) = suc (count_of es)

abbrev pub entries_text : List Entry → Bytes
entries_text [] = []
entries_text (e ∷ es) =
    group_text e.start (group_text e.stop (b'(' ∷ (e.reading ++ entries_text es)))

-- The sum of the amounts that are not negative, and that of the absolute values of the others,
-- on top of `plus` and `minus`; it overflows as soon as their difference is no `int32_t`.
abbrev pub sums_of : ℕ → ℕ → List Entry → Outcome (ℕ × ℕ)
sums_of plus minus [] = ok (plus, minus)
sums_of plus minus (e ∷ es) =
    let rest = sums_of (plus + more e.negative e.amount) (minus + less e.negative e.amount) es in
    if in_range (plus + more e.negative e.amount) (minus + less e.negative e.amount)
    then rest
    else undefined

-- The sum as the loop makes it.
abbrev sum_of : ℤ → List Entry → Outcome ℤ
sum_of total [] = ok total
sum_of total (e ∷ es) = int32_of (total +ℤ with_sign e.negative e.amount) >>= (λ t. sum_of t es)

if->>= {ℓ κ} :
    {R : Type ℓ} {S : Type κ} (b : Bool) (r : R) (next : R → Outcome S) (o : Outcome S)
    → next r ≡ o
    → ((if b then ok r else undefined) >>= next) ≡ (if b then o else undefined)
if->>= true r next o h = h
if->>= false r next o h = refl

if->>=-undefined {ℓ κ} :
    {R : Type ℓ} {S : Type κ} (b : Bool) (o : Outcome R) (next : R → Outcome S)
    → (if b then (o >>= next) else undefined) ≡ ((if b then o else undefined) >>= next)
if->>=-undefined true o next = refl
if->>=-undefined false o next = refl

sum_of-sums_of :
    (plus minus : ℕ) (es : List Entry)
    → sum_of (difference plus minus) es ≡ (sums_of plus minus es >>= (λ s. ok (difference s.0 s.1)))
sum_of-sums_of plus minus [] = refl
sum_of-sums_of plus minus (e ∷ es) =
    let p = plus + more e.negative e.amount in
    let m = minus + less e.negative e.amount in
    ap (λ t. int32_of t >>= (λ t. sum_of t es)) (+ℤ-with_sign plus minus e.negative e.amount)
    ∙ ap (λ o. o >>= (λ t. sum_of t es)) (int32_of-difference p m)
    ∙ if->>= (in_range p m) (difference p m) (λ t. sum_of t es) _ (sum_of-sums_of p m es)
    ∙ if->>=-undefined (in_range p m) (sums_of p m es) (λ s. ok (difference s.0 s.1))

entries_text-NoClose : (es : List Entry) → NoClose (entries_text es)
entries_text-NoClose [] = tt
entries_text-NoClose (e ∷ es) = omega arith

skip_group-group_text :
    (s rest : Bytes) → IsGroup s → NoClose rest → skip_group (group_text s rest) ≡ ok rest
skip_group-group_text s rest g n = rw (parse_group s rest g n, skip_group) refl

-- A first part that ends well.
>>=-ok {ℓ κ} :
    {R : Type ℓ} {S : Type κ} {first : Outcome R} {r : R} (next : R → Outcome S)
    → first ≡ ok r
    → (first >>= next) ≡ next r
>>=-ok next e = ap (λ o. o >>= next) e

-- Two chains with one first part, the second of them bracketed to the left.
>>=->>= {ℓ κ μ} :
    {R : Type ℓ} {S : Type κ} {T : Type μ} (o : Outcome R) (k : R → Outcome T) (f : R → Outcome S)
    (g : S → Outcome T)
    → ((r : R) → k r ≡ (f r >>= g))
    → (o >>= k) ≡ ((o >>= f) >>= g)
>>=->>= (ok r) k f g h = h r
>>=->>= failed k f g h = refl
>>=->>= undefined k f g h = refl

sum_groups-entries_text :
    (unit int_unit : Bytes) (total : ℤ) (es : List Entry)
    → AllEntries unit int_unit es
    → sum_groups unit int_unit (count_of es) total (entries_text es)
      ≡ (sum_of total es >>= (λ t. ok (t, [])))
unfolding sum_groups
sum_groups-entries_text unit int_unit total [] h = refl
sum_groups-entries_text unit int_unit total (e ∷ es) (h, hs) =
    let reading = b'(' ∷ (e.reading ++ entries_text es) in
    >>=-ok _ (skip_group-group_text e.start (group_text e.stop reading) h.start_group (omega arith))
    ∙ >>=-ok _ (skip_group-group_text e.stop reading h.stop_group (omega arith))
    ∙ >>=-ok _ (h.reads (entries_text es))
    ∙ >>=->>= (int32_of (total +ℤ with_sign e.negative e.amount)) _ (λ t. sum_of t es)
        (λ t. ok (t, [])) (λ t. sum_groups-entries_text unit int_unit t es hs)

average-entries_text :
    (unit int_unit a b : Bytes) (es : List Entry)
    → IsGroup a
    → IsGroup b
    → AllEntries unit int_unit es
    → average unit int_unit (pos (count_of es)) (group_text a (group_text b (entries_text es)))
      ≡ (sum_of (pos 0) es >>= (λ t. ok (quotient t (pos (count_of es)), [])))
unfolding average
average-entries_text unit int_unit a b es ga gb h =
    >>=-ok _ (skip_group-group_text a (group_text b (entries_text es)) ga (omega arith))
    ∙ >>=-ok _ (skip_group-group_text b (entries_text es) gb (entries_text-NoClose es))
    ∙ ap (λ o. o >>= (λ x. ok (quotient x.0 (pos (count_of es)), x.1)))
        (sum_groups-entries_text unit int_unit (pos 0) es h)
    ∙ sym (
        >>=->>= (sum_of (pos 0) es) (λ t. ok (quotient t (pos (count_of es)), [])) (λ t. ok (t, []))
          (λ x. ok (quotient x.0 (pos (count_of es)), x.1)) (λ t. refl))

-- The count of the readings.
abbrev count_literal : Bytes → Literal
count_literal digits = record {
  negative = false;
  integer = digits;
  point = false;
  decimals = [];
  shown = [];
}

parse_num_count :
    (digits rest : Bytes)
    → AllDigits digits
    → spell 0 digits ≤ int_max
    → parse_num 0 [] (group_text digits rest) ≡ ok (pos (spell 0 digits), rest)
parse_num_count digits rest d small =
    let same : spell 0 (digits ++ []) * 10 ^ 0 ≡ spell 0 digits =
      ap (λ s. spell 0 s * 10 ^ 0) (append-nil digits) ∙ omega arith in
    parse_num_literal 0 [] rest (count_literal digits) (record {
      integer_digits = d;
      fraction_digits = refl;
      few_decimals = omega arith;
      unit_shown = tt;
    })
    ∙ ap (λ v. bounded v (pos v, rest)) same
    ∙ ground arith

-- What the field keeps: the difference of the two sums over the count, rounded towards 0.
abbrev pub averaged : Value → ℕ → Outcome (ℕ × ℕ) → Parsed
averaged val count (ok (plus, minus)) =
    (ok (tail_view []), record val { number = quotient_of plus minus count })
averaged val count failed = (failed, val)
averaged val count undefined = (undefined, val)

abbrev kept_of : Value → Outcome (ℤ × Bytes) → Parsed
kept_of val o = elim o [
  | ok (v, rest) ↦ (ok (tail_view rest), record val { number = v })
  | failed ↦ (failed, val)
  | undefined ↦ (undefined, val)
]

kept :
    (val : Value) (count : ℕ) (sums : Outcome (ℕ × ℕ))
    → kept_of val
        ((sums >>= (λ s. ok (difference s.0 s.1))) >>= (λ t. ok (quotient t (pos count), [])))
      ≡ averaged val count sums
kept val count (ok (plus, minus)) =
    ap (λ (n : ℤ). (ok (tail_view []), record val { number = n }))
      (div_ℕ-difference plus minus count)
kept val count failed = refl
kept val count undefined = refl

-- `AveragedFixedField` on a line of a count in digits, two groups, and as many entries as the
-- count says, at least one and at most 2147483647, each of two groups and a reading (a group has 1 to 20 bytes and no
-- ')'; a reading is read as its amount whatever comes next). The value is the sum of the amounts
-- over the count, rounded towards 0, and nothing is left of the line. If the sum of some first
-- amounts is below -2147483648 or above 2147483647, and only then, the arithmetic overflows. Sums
-- are those of natural numbers: of the amounts that are not negative, less that of the others.
pub parse_averaged-entries_text :
    (unit int_unit digits a b : Bytes) (e : Entry) (es : List Entry) (val : Value)
    → AllDigits digits
    → spell 0 digits ≡ count_of (e ∷ es)
    → count_of (e ∷ es) ≤ 2147483647
    → IsGroup a
    → IsGroup b
    → AllEntries unit int_unit (e ∷ es)
    → parse_averaged unit int_unit
        (group_text digits (group_text a (group_text b (entries_text (e ∷ es)))))
        val
      ≡ averaged val (count_of (e ∷ es)) (sums_of 0 0 (e ∷ es))
unfolding parse_averaged
parse_averaged-entries_text unit int_unit digits a b e es val d n small ga gb h =
    let rest = group_text a (group_text b (entries_text (e ∷ es))) in
    let counted : parse_num 0 [] (group_text digits rest) ≡ ok (pos (count_of (e ∷ es)), rest) =
      parse_num_count digits rest d (omega arith) ∙ ap (λ k. ok (pos k, rest)) n in
    let sum = sum_of-sums_of 0 0 (e ∷ es) in
    let whole =
      average-entries_text unit int_unit a b (e ∷ es) ga gb h
      ∙ ap (λ o. o >>= (λ t. ok (quotient t (pos (count_of (e ∷ es))), []))) sum in
    let nonzero : (count_of (e ∷ es) == 0) ≡ false = ground arith in
    rw (counted, parse_averaged)
      (rw (nonzero, whole) (kept val (count_of (e ∷ es)) (sums_of 0 0 (e ∷ es))))
