-- ===== src/TfPsa/Closed.antt =====
-- How `decrypt_inplace` leaves the library.
use arduino_dsmr.Base.{
  Bool, true, false, not, ◌||◌, Option, none, some, ◌≡◌, refl, arith, ◌==◌, if◌then◌else◌, Bytes,
  length,
}
use arduino_dsmr.TfPsa.{
  Psa, Aes128GcmTfPsa, Answer, abort_and_fail, verify, finish, decrypt_text, add_data, with_nonce,
  decrypt_inplace,
}

module _ {ℓ} {S : Type ℓ} (psa : Psa S) (is_closed : S → Bool)
    (abort_closes : (s : S) → is_closed (psa.aead_abort s) ≡ true)
    (verify_closes : (tag : Bytes) (s : S)
      → (psa.aead_verify tag s).0.0 ≡ true
      → is_closed (psa.aead_verify tag s).1 ≡ true) where
  abort-closed : (text : Bytes) (s : S) → is_closed (abort_and_fail psa text s).1 ≡ true
  unfolding abort_and_fail
  abort-closed text s = abort_closes s

  -- Both branches of a test.
  if-closed :
      (b : Bool) (x y : Answer psa)
      → (b ≡ true → is_closed x.1 ≡ true)
      → (b ≡ false → is_closed y.1 ≡ true)
      → is_closed (if b then x else y).1 ≡ true
  if-closed true x y h k = h refl
  if-closed false x y h k = k refl

  verify-closed : (tag text : Bytes) (s : S) → is_closed (verify psa tag text s).1 ≡ true
  unfolding verify
  verify-closed tag text s =
      if-closed (not (psa.aead_verify tag s).0.0) _ _ (λ _. abort-closed text _)
        (λ e.
          if-closed (not ((psa.aead_verify tag s).0.1 == 0)) _ _ (λ _. abort-closed text _)
            (λ _. verify_closes tag s (ground arith)))

  finish-closed :
      (aad : Option Bytes) (tag text : Bytes) (s : S)
      → is_closed (finish psa aad tag text s).1 ≡ true
  unfolding finish
  finish-closed none tag text s = abort_closes s
  finish-closed (some aad) tag text s = verify-closed tag text s

  decrypt_text-closed :
      (aad : Option Bytes) (ciphertext tag : Bytes) (s : S)
      → is_closed (decrypt_text psa aad ciphertext tag s).1 ≡ true
  unfolding decrypt_text
  decrypt_text-closed aad ciphertext tag s =
      if-closed (not (psa.aead_update ciphertext s).0.0) _ _ (λ _. abort-closed _ _)
        (λ _.
          if-closed (not ((psa.aead_update ciphertext s).0.1 == length ciphertext)) _ _
            (λ _. abort-closed _ _) (λ _. finish-closed aad tag _ _))

  add_data-closed :
      (aad : Option Bytes) (ciphertext tag : Bytes) (s : S)
      → is_closed (add_data psa aad ciphertext tag s).1 ≡ true
  unfolding add_data
  add_data-closed none ciphertext tag s = decrypt_text-closed none ciphertext tag s
  add_data-closed (some aad) ciphertext tag s =
      if-closed (not (psa.aead_update_ad aad s).0) _ _ (λ _. abort-closed ciphertext _)
        (λ _. decrypt_text-closed (some aad) ciphertext tag _)

  with_nonce-closed :
      (nonce : Bytes) (aad : Option Bytes) (ciphertext tag : Bytes) (s : S)
      → is_closed (with_nonce psa nonce aad ciphertext tag s).1 ≡ true
  unfolding with_nonce
  with_nonce-closed nonce aad ciphertext tag s =
      if-closed (not (psa.aead_set_nonce nonce s).0) _ _ (λ _. abort-closed ciphertext _)
        (λ _. add_data-closed aad ciphertext tag _)

  -- Let `is_closed` say of the library's state that no operation is open; `psa_aead_abort` closes
  -- it, and so does a `psa_aead_verify` that succeeds. From a state with no open operation,
  -- `decrypt_inplace` ends in such a state, whatever fails on the way.
  pub decrypt_inplace-closed :
      (o : Aes128GcmTfPsa) (nonce ciphertext tag : Bytes) (s : S)
      → is_closed s ≡ true
      → is_closed (decrypt_inplace psa o nonce ciphertext tag s).1 ≡ true
  unfolding decrypt_inplace
  decrypt_inplace-closed o nonce ciphertext tag s h =
      if-closed (not o.initialized || o.key_id == 0) _ _ (λ _. h)
        (λ _.
          if-closed (not (psa.aead_decrypt_setup o.key_id s).0) _ _ (λ _. abort-closed ciphertext _)
            (λ _. with_nonce-closed nonce o.aad ciphertext tag _))
