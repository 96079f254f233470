-- ===== src/ParseObis/RoundTrip.antt =====
-- `parse_obis` reads the parts that a text spells.
use arduino_dsmr.Base.{
  ℕ, zero, suc, ◌+◌, ◌-◌, ◌*◌, ◌%◌, ◌^◌, ◌≤◌, ◌<◌, true, false, [], ◌∷◌, ◌++◌, none, some, ◌≡◌,
  refl, sym, ap, ap₂, some_inj, ◌∙◌, arith, Bytes, length, get_elem?, set, drop, drop-append,
  append_assoc, within, length-append,
}
use native.Mathlib.Nat.{add-zero}
use arduino_dsmr.ParseNum.Value.{AllDigits, spell, le-spell}
use arduino_dsmr.ParseObis.{
  obis_id, no_id, Scan, is_separator, scan_obis, fill_parts, finish_obis, parse_obis,
}

set_same : (v : Bytes) (i n : ℕ) → get_elem? v i ≡ some n → set v i n ≡ v
set_same [] i n e = refl
set_same (x ∷ v) zero n e = ap (λ y. y ∷ v) (sym (some_inj e))
set_same (x ∷ v) (suc i) n e = ap (◌∷◌ x) (set_same v i n e)

set-set : (v : Bytes) (i a b : ℕ) → set (set v i a) i b ≡ set v i b
set-set [] i a b = refl
set-set (x ∷ v) zero a b = refl
set-set (x ∷ v) (suc i) a b = ap (◌∷◌ x) (set-set v i a b)

pub get_elem?-set_self :
    (v : Bytes) (i n m : ℕ) → get_elem? v i ≡ some n → get_elem? (set v i m) i ≡ some m
get_elem?-set_self [] i n m e = absurd (cc)
get_elem?-set_self (x ∷ v) zero n m e = refl
get_elem?-set_self (x ∷ v) (suc i) n m e = get_elem?-set_self v i n m e

abbrev pub scan : Bytes → ℕ → ℕ → Scan
scan v part pos = record { v = v; part = part; pos = pos }

-- The text does not go on with a digit, or the separator that ends the part.
abbrev pub Stops : ℕ → Bytes → Type 0
Stops part [] = Unit {0}
Stops part (c ∷ cs) = (within b'0' b'9' c ≡ false) × (is_separator part c ≡ false)

module _ (c : ℕ) (cs v : Bytes) (part pos : ℕ) where
  pub digit_step :
      (n : ℕ)
      → within b'0' b'9' c ≡ true
      → get_elem? v part ≡ some n
      → n * 10 + (c - b'0') < 256
      → scan_obis (scan v part pos) (c ∷ cs)
        ≡ scan_obis (scan (set v part (n * 10 + (c - b'0'))) part (pos + 1)) cs
  unfolding scan_obis
  digit_step n d e h = ground (arith, small)
    where
      small : (n * 10 + (c - b'0')) % 2 ^ 8 ≡ n * 10 + (c - b'0')
      small = omega arith

  pub digit_over :
      (n : ℕ)
      → within b'0' b'9' c ≡ true
      → get_elem? v part ≡ some n
      → 256 ≤ n * 10 + (c - b'0')
      → scan_obis (scan v part pos) (c ∷ cs) ≡ none
  unfolding scan_obis
  digit_over n d e h = ground arith

  separator_step :
      is_separator part c ≡ true
      → scan_obis (scan v part pos) (c ∷ cs) ≡ scan_obis (scan v (part + 1) (pos + 1)) cs
  unfolding scan_obis
  separator_step h = ground arith

  stop_step :
      within b'0' b'9' c ≡ false
      → is_separator part c ≡ false
      → scan_obis (scan v part pos) (c ∷ cs) ≡ some (scan v part pos)
  unfolding scan_obis
  stop_step d h = ground arith

-- Digits at the part `part`, which held `n`.
scan_obis-digits :
    (s rest v : Bytes) (part pos n : ℕ)
    → AllDigits s
    → get_elem? v part ≡ some n
    → spell n s < 256
    → scan_obis (scan v part pos) (s ++ rest)
      ≡ scan_obis (scan (set v part (spell n s)) part (pos + length s)) rest
scan_obis-digits [] rest v part pos n d e h =
    ap₂ (λ w p. scan_obis (scan w part p) rest) (sym (set_same v part n e)) (sym (add-zero pos))
scan_obis-digits (c ∷ s) rest v part pos n (dc, d) e h =
    digit_step c (s ++ rest) v part pos n dc e (omega (arith, le-spell (n * 10 + (c - b'0')) s))
    ∙ scan_obis-digits s rest _ part (pos + 1) (n * 10 + (c - b'0')) d
        (get_elem?-set_self v part n _ e) h
    ∙ ap₂ (λ w p. scan_obis (scan w part p) rest) (set-set v part _ _) (plus_one pos (length s))
  where
    plus_one : (a b : ℕ) → a + 1 + b ≡ a + suc b
    plus_one a b = omega arith

scan_obis-nil : (s : Scan) → scan_obis s [] ≡ some s
unfolding scan_obis
scan_obis-nil s = refl

scan_obis-stop :
    (rest v : Bytes) (part pos : ℕ)
    → Stops part rest
    → scan_obis (scan v part pos) rest ≡ some (scan v part pos)
scan_obis-stop [] v part pos h = scan_obis-nil (scan v part pos)
scan_obis-stop (c ∷ cs) v part pos (d, h) = stop_step c cs v part pos d h

-- The first four parts, and their separators.
abbrev pub front_text : Bytes → Bytes → Bytes → Bytes → Bytes → Bytes
front_text a b c d rest = a ++ (b'-' ∷ (b ++ (b':' ∷ (c ++ (b'.' ∷ (d ++ (b'.' ∷ rest)))))))

-- Digits that spell a number below 256.
abbrev pub IsPart : Bytes → Type 0
IsPart s = AllDigits s × (spell 0 s < 256)

module _ (a b c d : Bytes) (pa : IsPart a) (pb : IsPart b) (pc : IsPart c) (pd : IsPart d) where
  abbrev front_pos : ℕ
  front_pos = 0 + length a + 1 + length b + 1 + length c + 1 + length d + 1

  scan_obis-front :
      (rest : Bytes)
      → scan_obis (scan no_id.v 0 0) (front_text a b c d rest)
        ≡ scan_obis
            (scan (spell 0 a ∷ spell 0 b ∷ spell 0 c ∷ spell 0 d ∷ 0 ∷ 0 ∷ []) 4 front_pos)
            rest
  scan_obis-front rest =
      scan_obis-digits a _ no_id.v 0 0 0 pa.0 refl pa.1
      ∙ separator_step b'-' _ _ 0 _ refl
      ∙ scan_obis-digits b _ _ 1 _ 0 pb.0 refl pb.1
      ∙ separator_step b':' _ _ 1 _ refl
      ∙ scan_obis-digits c _ _ 2 _ 0 pc.0 refl pc.1
      ∙ separator_step b'.' _ _ 2 _ refl
      ∙ scan_obis-digits d _ _ 3 _ 0 pd.0 refl pd.1
      ∙ separator_step b'.' _ _ 3 _ refl

  length-front_text : (rest : Bytes) → length (front_text a b c d rest) ≡ front_pos + length rest
  length-front_text rest = omega (
    arith,
    length-append a (b'-' ∷ (b ++ (b':' ∷ (c ++ (b'.' ∷ (d ++ (b'.' ∷ rest))))))),
    length-append b (b':' ∷ (c ++ (b'.' ∷ (d ++ (b'.' ∷ rest))))),
    length-append c (b'.' ∷ (d ++ (b'.' ∷ rest))),
    length-append d (b'.' ∷ rest),
  )

  front_text-append : (s t : Bytes) → front_text a b c d (s ++ t) ≡ front_text a b c d s ++ t
  front_text-append s t = simp append_assoc

  -- Digits at the fifth part.
  scan_obis-five :
      (e rest : Bytes)
      → IsPart e
      → scan_obis (scan no_id.v 0 0) (front_text a b c d (e ++ rest))
        ≡ scan_obis
            (scan
              (spell 0 a ∷ spell 0 b ∷ spell 0 c ∷ spell 0 d ∷ spell 0 e ∷ 0 ∷ [])
              4
              (front_pos + length e))
            rest
  scan_obis-five e rest pe =
      scan_obis-front (e ++ rest) ∙ scan_obis-digits e rest _ 4 front_pos 0 pe.0 refl pe.1

  drop-five : (e rest : Bytes) → drop (front_pos + length e) (front_text a b c d (e ++ rest)) ≡ rest
  drop-five e rest =
      ap (drop (front_pos + length e)) (front_text-append e rest)
      ∙ drop-append (front_pos + length e) (front_text a b c d e) rest (sym (length-front_text e))

parse_obis-finish :
    (input : Bytes) (s : Scan)
    → scan_obis (scan no_id.v 0 0) input ≡ some s
    → parse_obis no_id input ≡ finish_obis input s
unfolding parse_obis
parse_obis-finish input s h = rw (h, parse_obis)

module _ (a b c d e : Bytes) (pa : IsPart a) (pb : IsPart b) (pc : IsPart c) (pd : IsPart d)
    (pe : IsPart e) where
  -- Let each part be digits that spell a number below 256. "a-b:c.d.e", with no digit and no '.'
  -- behind it, gives the five numbers, with 255 for the sixth, and the text behind it.
  pub parse_obis-five :
      (rest : Bytes)
      → Stops 4 rest
      → parse_obis no_id (front_text a b c d (e ++ rest))
        ≡ some (obis_id (spell 0 a) (spell 0 b) (spell 0 c) (spell 0 d) (spell 0 e) 255, rest)
  unfolding finish_obis fill_parts
  parse_obis-five rest h =
      parse_obis-finish _ _
        (scan_obis-five a b c d pa pb pc pd e rest pe ∙ scan_obis-stop rest _ 4 _ h)
      ∙ ground (arith, drop-five a b c d pa pb pc pd e rest)
