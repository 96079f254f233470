-- ===== src/TfPsa/Verified.antt =====
-- When `decrypt_inplace` says that a ciphertext and its tag fit.
use arduino_dsmr.Base.{
  ℕ, Bool, true, false, not, ◌||◌, some, ◌≡◌, refl, arith, ◌==◌, if◌then◌else◌, Bytes, length,
}
use arduino_dsmr.TfPsa.{
  Psa, Answer, abort_and_fail, verify, finish, decrypt_text, add_data, with_nonce, decrypt_inplace,
}

module _ {ℓ} {S : Type ℓ} (psa : Psa S) (tag : Bytes) where
  -- The library has verified the tag, with nothing left, and the class stops in the state that
  -- this leaves.
  pub record IsVerified (s : S) : Type ℓ where
    pub before : S
    pub verified : (psa.aead_verify tag before).0.0 ≡ true
    pub no_rest : (psa.aead_verify tag before).0.1 ≡ 0
    pub last : s ≡ (psa.aead_verify tag before).1

  abbrev Honest : Answer psa → Type ℓ
  Honest r = r.0.0 ≡ true → IsVerified r.1

  if-Honest :
      (b : Bool) (x y : Answer psa)
      → (b ≡ true → Honest x)
      → (b ≡ false → Honest y)
      → Honest (if b then x else y)
  if-Honest true x y h k = h refl
  if-Honest false x y h k = k refl

  abort-Honest : (text : Bytes) (s : S) → Honest (abort_and_fail psa text s)
  unfolding abort_and_fail
  abort-Honest text s e = absurd (cc)

  verify-Honest : (text : Bytes) (s : S) → Honest (verify psa tag text s)
  unfolding verify
  verify-Honest text s =
      if-Honest (not (psa.aead_verify tag s).0.0) _ _ (λ _. abort-Honest text _)
        (λ ok.
          if-Honest (not ((psa.aead_verify tag s).0.1 == 0)) _ _ (λ _. abort-Honest text _)
            (λ empty _. record {
              before = s;
              verified = ground arith;
              no_rest = ground arith;
              last = refl;
            }))

  decrypt_text-Honest :
      (aad ciphertext : Bytes) (s : S) → Honest (decrypt_text psa (some aad) ciphertext tag s)
  unfolding decrypt_text finish
  decrypt_text-Honest aad ciphertext s =
      if-Honest (not (psa.aead_update ciphertext s).0.0) _ _ (λ _. abort-Honest _ _)
        (λ _.
          if-Honest (not ((psa.aead_update ciphertext s).0.1 == length ciphertext)) _ _
            (λ _. abort-Honest _ _) (λ _. verify-Honest _ _))

  add_data-Honest :
      (aad ciphertext : Bytes) (s : S) → Honest (add_data psa (some aad) ciphertext tag s)
  unfolding add_data
  add_data-Honest aad ciphertext s =
      if-Honest (not (psa.aead_update_ad aad s).0) _ _ (λ _. abort-Honest ciphertext _)
        (λ _. decrypt_text-Honest aad ciphertext _)

  with_nonce-Honest :
      (nonce aad ciphertext : Bytes) (s : S)
      → Honest (with_nonce psa nonce (some aad) ciphertext tag s)
  unfolding with_nonce
  with_nonce-Honest nonce aad ciphertext s =
      if-Honest (not (psa.aead_set_nonce nonce s).0) _ _ (λ _. abort-Honest ciphertext _)
        (λ _. add_data-Honest aad ciphertext _)

  refused-Honest : (ciphertext : Bytes) (s : S) → Honest ((false, ciphertext), s)
  refused-Honest ciphertext s e = absurd (cc)

  -- With an authentication key, `decrypt_inplace` returns true only if the library has verified
  -- the tag as its last step, with nothing left over.
  pub decrypt_inplace-IsVerified :
      (key_id : ℕ) (initialized : Bool) (aad nonce ciphertext : Bytes) (s : S)
      → (decrypt_inplace psa
          (record { key_id = key_id; initialized = initialized; aad = some aad })
          nonce
          ciphertext
          tag
          s).0.0
        ≡ true
      → IsVerified
          (decrypt_inplace psa
            (record { key_id = key_id; initialized = initialized; aad = some aad })
            nonce
            ciphertext
            tag
            s).1
  unfolding decrypt_inplace
  decrypt_inplace-IsVerified key_id initialized aad nonce ciphertext s =
      if-Honest (not initialized || key_id == 0) _ _ (λ _. refused-Honest ciphertext s)
        (λ _.
          if-Honest (not (psa.aead_decrypt_setup key_id s).0) _ _ (λ _. abort-Honest ciphertext _)
            (λ _. with_nonce-Honest nonce aad ciphertext _))
