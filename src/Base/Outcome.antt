-- ===== src/Base/Outcome.antt =====
-- How a parsing function of src/dsmr_parser ends: with a result, with `std::nullopt`, or with a
-- signed overflow, which C++ leaves undefined.

pub data Outcome {ℓ} (A : Type ℓ) : Type ℓ where
  ok : A → Outcome A
  failed : Outcome A
  undefined : Outcome A

infixl 5 ◌>>=◌
abbrev pub ◌>>=◌ {ℓ κ} : {R : Type ℓ} {S : Type κ} → Outcome R → (R → Outcome S) → Outcome S
failed >>= next = failed
undefined >>= next = undefined
ok result >>= next = next result
