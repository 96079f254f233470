-- ===== src/TfPsa/Keys.antt =====
-- The keys that `Aes128GcmTfPsa` keeps in the library.
use arduino_dsmr.Base.{
  ℕ, zero, suc, Bool, true, false, not, List, [], ◌∷◌, ◌≡◌, ◌≢◌, refl, ap, ◌∙◌, arith, ◌==◌,
  if◌then◌else◌, Bytes, inl, inr, Bool-cases,
}
use arduino_dsmr.TfPsa.{Psa, Aes128GcmTfPsa, constructed, destroy_old, set_encryption_key}

-- The object's key, if it has one, in front of the others.
abbrev pub owned : ℕ → List ℕ → List ℕ
owned key_id others = if key_id == 0 then others else key_id ∷ others

-- The keys after an import, by its status and the id that it gives.
import-owned :
    (status : Bool) (id : ℕ) (others ks : List ℕ)
    → (status ≡ true → (id ≢ 0) × (ks ≡ id ∷ others))
    → (status ≡ false → ks ≡ others)
    → ks ≡ owned (if status then id else 0) others
import-owned true zero others ks h k = absurd ((h refl).0 refl)
import-owned true (suc id) others ks h k = (h refl).1 ∙ ground arith
import-owned false id others ks h k = k refl

-- One key after the other, as the user of the class may set them, and then the destructor.
abbrev pub set_all {ℓ} : {S : Type ℓ} → Psa S → List Bytes → Aes128GcmTfPsa → S → Aes128GcmTfPsa × S
set_all psa [] o s = (o, s)
set_all psa (key ∷ more) o s = let r = set_encryption_key psa key o s in set_all psa more r.0 r.1

abbrev pub after_destructor {ℓ} : {S : Type ℓ} → Psa S → Aes128GcmTfPsa × S → S
after_destructor psa r = destroy_old psa r.0.key_id r.1

module _ {ℓ} {S : Type ℓ} (psa : Psa S) (keys : S → List ℕ)
    (destroy_removes : (id : ℕ) (others : List ℕ) (s : S)
      → keys s ≡ id ∷ others
      → keys (psa.destroy_key id s) ≡ others)
    (import_adds : (key : Bytes) (s : S)
      → (psa.import_key key s).0.0 ≡ true
      → ((psa.import_key key s).0.1 ≢ 0)
        × (keys (psa.import_key key s).1 ≡ (psa.import_key key s).0.1 ∷ keys s))
    (import_fails : (key : Bytes) (s : S)
      → (psa.import_key key s).0.0 ≡ false
      → keys (psa.import_key key s).1 ≡ keys s) where
  destroy_old-owned :
      (key_id : ℕ) (others : List ℕ) (s : S)
      → keys s ≡ owned key_id others
      → keys (destroy_old psa key_id s) ≡ others
  unfolding destroy_old
  destroy_old-owned key_id others s h = elim (Bool-cases (key_id == 0)) [
    | inl e ↦ rw e (h ∙ rw e refl)
    | inr e ↦ rw e (destroy_removes key_id others s (h ∙ rw e refl))
  ]

  set_encryption_key-owned :
      (key : Bytes) (o : Aes128GcmTfPsa) (others : List ℕ) (s : S)
      → keys s ≡ owned o.key_id others
      → keys (set_encryption_key psa key o s).1
        ≡ owned (set_encryption_key psa key o s).0.key_id others
  unfolding set_encryption_key
  set_encryption_key-owned key o others s h = elim (Bool-cases (not o.initialized)) [
    | inl e ↦ rw e h
    | inr e ↦ rw e (
        import-owned (psa.import_key key s').0.0 (psa.import_key key s').0.1 others _
          (λ ok.
            let (new, adds) = import_adds key s' ok in
            (new, adds ∙ ap (◌∷◌ (psa.import_key key s').0.1) gone))
          (λ bad. import_fails key s' bad ∙ gone))
  ]
    where
      s' : S
      s' = destroy_old psa o.key_id s

      gone : keys s' ≡ others
      gone = destroy_old-owned o.key_id others s h

  set_all-owned :
      (new_keys : List Bytes) (o : Aes128GcmTfPsa) (others : List ℕ) (s : S)
      → keys s ≡ owned o.key_id others
      → keys (set_all psa new_keys o s).1 ≡ owned (set_all psa new_keys o s).0.key_id others
  set_all-owned [] o others s h = h
  set_all-owned (key ∷ more) o others s h =
      set_all-owned more _ others _ (set_encryption_key-owned key o others s h)

  -- Let `keys` be the ids of the keys in the library: an import that succeeds puts an id other than
  -- 0 in front of them, one that fails changes nothing, and destroying the key in front removes it.
  -- Then however many keys are set in a new object, whatever imports fail, the library holds at
  -- most one key more than before, the one that the object then uses; and after the destructor it
  -- holds the same keys as before.
  pub set_all-keys :
      (init_succeeds : Bool) (new_keys : List Bytes) (s : S)
      → (keys (set_all psa new_keys (constructed init_succeeds) s).1
          ≡ owned (set_all psa new_keys (constructed init_succeeds) s).0.key_id (keys s))
        × (keys (after_destructor psa (set_all psa new_keys (constructed init_succeeds) s))
            ≡ keys s)
  set_all-keys init_succeeds new_keys s =
      let held = set_all-owned new_keys (constructed init_succeeds) (keys s) s refl in
      (held, destroy_old-owned _ (keys s) _ held)
