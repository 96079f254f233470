-- ===== src/ParseNum/Value.antt =====
-- The loops of `parse_num` on digits, against the decimal number that they spell.
use arduino_dsmr.Base.{
  ℕ, zero, suc, ◌+◌, ◌-◌, ◌*◌, ◌^◌, ◌≤◌, Bool, true, false, [], ◌∷◌, ◌++◌, ◌≡◌, refl, ap, arith,
  Bytes, length, leb, if◌then◌else◌, within,
}
use native.Mathlib.Nat.{pow-suc}
use arduino_dsmr.Base.Outcome.{Outcome, ok, undefined}
use arduino_dsmr.Base.Int.{int_max}
use arduino_dsmr.ParseNum.{int32, ends_int, ends_frac, scan_int, scan_frac, fraction, scale}

abbrev pub AllDigits : Bytes → Type 0
AllDigits [] = Unit {0}
AllDigits (c ∷ s) = (within b'0' b'9' c ≡ true) × AllDigits s

-- The number that digits spell behind `v`, with no bound.
abbrev pub spell : ℕ → Bytes → ℕ
spell v [] = v
spell v (c ∷ s) = spell (v * 10 + (c - b'0')) s

pub le-spell : (v : ℕ) (s : Bytes) → v ≤ spell v s
le-spell v [] = omega arith
le-spell v (c ∷ s) = omega (arith, le-spell (v * 10 + (c - b'0')) s)

pub spell-append : (v : ℕ) (s t : Bytes) → spell v (s ++ t) ≡ spell (spell v s) t
spell-append v [] t = refl
spell-append v (c ∷ s) t = spell-append (v * 10 + (c - b'0')) s t

-- The result `x` if the number `n` is an `int32_t`, at most 2147483647.
abbrev pub bounded {ℓ} : {A : Type ℓ} → ℕ → A → Outcome A
bounded n x = if leb n 2147483647 then ok x else undefined

-- The text ends, or goes on with a character that ends the digits.
abbrev pub EndsInt : Bytes → Type 0
EndsInt [] = Unit {0}
EndsInt (c ∷ s) = ends_int c ≡ true

abbrev pub EndsFrac : Bytes → Type 0
EndsFrac [] = Unit {0}
EndsFrac (c ∷ s) = ends_frac c ≡ true

pub scan_int-append :
    (s rest : Bytes) (v : ℕ)
    → AllDigits s
    → EndsInt rest
    → v ≤ int_max
    → scan_int v (s ++ rest) ≡ bounded (spell v s) (spell v s, rest)
unfolding scan_int int32
scan_int-append [] [] v d e h = ground arith
scan_int-append [] (c ∷ rest) v d e h = ground arith
scan_int-append (c ∷ s) rest v (dc, d) e h =
    ground
      (arith, le-spell (v * 10 + (c - b'0')) s, scan_int-append s rest (v * 10 + (c - b'0')) d e)

pub scan_frac-append :
    (s rest : Bytes) (r k v : ℕ)
    → AllDigits s
    → EndsFrac rest
    → r ≡ length s + k
    → v ≤ int_max
    → scan_frac r v (s ++ rest) ≡ bounded (spell v s) (k, spell v s, rest)
unfolding scan_frac int32
scan_frac-append [] rest zero zero v d e q h = ground arith
scan_frac-append [] rest zero (suc k) v d e q h = absurd (omega arith)
scan_frac-append [] [] (suc r) k v d e q h = ground arith
scan_frac-append [] (c ∷ rest) (suc r) k v d e q h = ground arith
scan_frac-append (c ∷ s) rest zero k v d e q h = absurd (omega arith)
scan_frac-append (c ∷ s) rest (suc r) k v (dc, d) e q h =
    ground (
      arith,
      le-spell (v * 10 + (c - b'0')) s,
      scan_frac-append s rest r k (v * 10 + (c - b'0')) d e,
    )

pub pow-ten_suc : (v r : ℕ) → v * 10 ^ suc r ≡ v * 10 * 10 ^ r
pow-ten_suc v r = omega (arith, ap (λ (t : ℕ). v * t) (pow-suc 10 r))

pub le-mul-pow_ten : (v r : ℕ) → v ≤ v * 10 ^ r
le-mul-pow_ten v zero = omega arith
le-mul-pow_ten v (suc r) = omega (arith, pow-ten_suc v r, le-mul-pow_ten (v * 10) r)

pub scale_lem : (r v : ℕ) → v ≤ int_max → scale r v ≡ bounded (v * 10 ^ r) (v * 10 ^ r)
unfolding scale int32
scale_lem zero v h = ground arith
scale_lem (suc r) v h =
    ground (arith, pow-ten_suc v r, le-mul-pow_ten (v * 10) r, scale_lem r (v * 10))

-- What may stand between the digits and the unit: nothing, or a point and decimals.
abbrev pub frac_text : Bool → Bytes → Bytes
frac_text true decimals = b'.' ∷ decimals
frac_text false decimals = []

abbrev pub IsFraction : ℕ → Bool → Bytes → Type 0
IsFraction max_decimals true decimals = (1 ≤ max_decimals) × AllDigits decimals
IsFraction max_decimals false decimals = decimals ≡ []

pub fraction-append :
    (point : Bool) (decimals rest : Bytes) (max_decimals k v : ℕ)
    → IsFraction max_decimals point decimals
    → EndsFrac rest
    → max_decimals ≡ length decimals + k
    → v ≤ int_max
    → fraction max_decimals v (frac_text point decimals ++ rest)
      ≡ bounded (spell v decimals) (k, spell v decimals, rest)
unfolding fraction
fraction-append true decimals rest zero k v (one, d) e q h = absurd (omega arith)
fraction-append true decimals rest (suc m) k v (one, d) e q h =
    ground (arith, scan_frac-append decimals rest (suc m) k v d e q h)
fraction-append false [] rest zero k v d e q h = ground arith
fraction-append false [] [] (suc m) k v d e q h = ground arith
fraction-append false [] (c ∷ rest) (suc m) k v d e q h = ground arith
fraction-append false (x ∷ s) rest m k v d e q h = absurd (cc)
