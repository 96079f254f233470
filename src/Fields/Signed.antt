-- ===== src/Fields/Signed.antt =====
-- The `int32_t` sum and division of `AveragedFixedField`, against natural numbers: a signed number
-- is the difference of two of them.
use arduino_dsmr.Base.{
  ℕ, zero, suc, ◌+◌, ◌-◌, ◌/◌, ◌≤◌, ◌<◌, Bool, true, false, ◌&&◌, ◌≡◌, sym, ap, ◌∙◌, arith, leb,
  if◌then◌else◌, inl, inr, Bool-cases,
}
use arduino_dsmr.Base.Outcome.{ok, undefined}
use arduino_dsmr.Base.Int.{ℤ, pos, negsuc, neg, sub_ℕ, ◌+ℤ◌, int32_of, div_ℕ}
use arduino_dsmr.ParseNum.Literal.{with_sign, neg-with_sign}

-- plus - minus
abbrev pub difference : ℕ → ℕ → ℤ
difference plus minus =
    if leb minus plus then with_sign false (plus - minus) else with_sign true (minus - plus)

-- The difference is at least -2147483648 and at most 2147483647.
abbrev pub in_range : ℕ → ℕ → Bool
in_range plus minus = leb plus (minus + 2147483647) && leb minus (plus + 2147483648)

-- What a number of a sign adds to either side.
abbrev pub more : Bool → ℕ → ℕ
more true amount = 0
more false amount = amount

abbrev pub less : Bool → ℕ → ℕ
less true amount = amount
less false amount = 0

with_sign-suc : (k n : ℕ) → n ≡ suc k → with_sign true n ≡ negsuc k
with_sign-suc k n h = ap (with_sign true) h

difference-pos : (p m : ℕ) → m ≤ p → difference p m ≡ pos (p - m)
difference-pos p m h = ground arith

difference-negsuc : (p m : ℕ) → p < m → difference p m ≡ negsuc (m - p - 1)
difference-negsuc p m h = ground (arith, with_sign-suc (m - p - 1) (m - p) (omega arith))

-- So `difference` is the model's own subtraction.
difference-sub_ℕ : (p m : ℕ) → difference p m ≡ sub_ℕ p m
difference-sub_ℕ p m = elim (Bool-cases (leb m p)) [
  | inl e ↦ ground (arith, difference-pos p m (ground arith))
  | inr e ↦ ground (arith, difference-negsuc p m (ground arith))
]

with_sign-sub_ℕ :
    (negative : Bool) (a : ℕ) → with_sign negative a ≡ sub_ℕ (more negative a) (less negative a)
with_sign-sub_ℕ false a = ground arith
with_sign-sub_ℕ true zero = ground arith
with_sign-sub_ℕ true (suc a) = ground arith

+ℤ-sub_ℕ : (p m q n : ℕ) → sub_ℕ p m +ℤ sub_ℕ q n ≡ sub_ℕ (p + q) (m + n)
unfolding ◌+ℤ◌
+ℤ-sub_ℕ p m q n = ground arith

pub +ℤ-with_sign :
    (p m : ℕ) (negative : Bool) (a : ℕ)
    → difference p m +ℤ with_sign negative a
      ≡ difference (p + more negative a) (m + less negative a)
+ℤ-with_sign p m negative a =
    ap (λ x. x +ℤ with_sign negative a) (difference-sub_ℕ p m)
    ∙ ap (λ y. sub_ℕ p m +ℤ y) (with_sign-sub_ℕ negative a)
    ∙ +ℤ-sub_ℕ p m (more negative a) (less negative a)
    ∙ sym (difference-sub_ℕ (p + more negative a) (m + less negative a))

int32_of-sub_ℕ :
    (p m : ℕ) → int32_of (sub_ℕ p m) ≡ (if in_range p m then ok (sub_ℕ p m) else undefined)
unfolding int32_of
int32_of-sub_ℕ p m = ground arith

pub int32_of-difference :
    (p m : ℕ)
    → int32_of (difference p m) ≡ (if in_range p m then ok (difference p m) else undefined)
int32_of-difference p m =
    ap int32_of (difference-sub_ℕ p m)
    ∙ int32_of-sub_ℕ p m
    ∙ ap (λ x. if in_range p m then ok x else undefined) (sym (difference-sub_ℕ p m))

-- The quotient by `n`, rounded towards 0.
abbrev pub quotient_of : ℕ → ℕ → ℕ → ℤ
quotient_of plus minus n =
    if leb minus plus
    then with_sign false ((plus - minus) / n)
    else with_sign true ((minus - plus) / n)

pub div_ℕ-difference : (p m n : ℕ) → div_ℕ (difference p m) n ≡ quotient_of p m n
unfolding div_ℕ
div_ℕ-difference p m n = elim (Bool-cases (leb m p)) [
  | inl e ↦ ap (λ x. div_ℕ x n) (difference-pos p m (ground arith)) ∙ ground arith
  | inr e ↦
      let less : p < m = ground arith in
      let whole : m - p - 1 + 1 ≡ m - p = omega arith in
      ap (λ x. div_ℕ x n) (difference-negsuc p m less)
      ∙ ap (λ k. neg (k / n)) whole
      ∙ neg-with_sign true ((m - p) / n)
      ∙ ground arith
]
