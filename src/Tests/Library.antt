-- ===== src/Tests/Library.antt =====
-- Libraries for the PSA backend.
use arduino_dsmr.Base.{
  ℕ, ◌+◌, Bool, true, false, not, List, [], ◌∷◌, some, ◌≡◌, ◌≢◌, refl, ap, ◌∙◌, arith, ◌==◌,
  if◌then◌else◌, Bytes, codes, length,
}
use arduino_dsmr.TfPsa.{
  Psa, constructed, Aes128GcmTfPsa, decrypt_inplace, with_nonce, add_data, decrypt_text, finish,
  verify,
}
use arduino_dsmr.TfPsa.Closed.{decrypt_inplace-closed}
use arduino_dsmr.TfPsa.Keys.{owned, set_all, after_destructor, set_all-keys}
use arduino_dsmr.TfPsa.Verified.{IsVerified, decrypt_inplace-IsVerified}

-- A library whose state says whether an operation is open, and which accepts everything.
abbrev open_or_not : Psa Bool
open_or_not = record {
  destroy_key = λ id s. s;
  import_key = λ key s. ((true, 1), s);
  aead_decrypt_setup = λ id s. (true, true);
  aead_set_nonce = λ nonce s. (true, s);
  aead_update_ad = λ aad s. (true, s);
  aead_update = λ text s. ((true, length text, text), s);
  aead_verify = λ tag s. ((true, 0), false);
  aead_abort = λ s. false;
}

abbrev a_decryptor : Aes128GcmTfPsa
a_decryptor = record { key_id = 1; initialized = true; aad = some (48 ∷ []) }

decrypt_inplace-closed_example :
    not
      (decrypt_inplace open_or_not a_decryptor (codes "nonce") (codes "text") (codes "tag") false).1
    ≡ true
decrypt_inplace-closed_example =
    decrypt_inplace-closed open_or_not not (λ s. refl) (λ tag s h. refl) a_decryptor (codes "nonce")
      (codes "text") (codes "tag") false refl

a_text-accepted :
    (decrypt_inplace open_or_not a_decryptor (codes "nonce") (codes "text") (codes "tag") false).0.0
    ≡ true
unfolding decrypt_inplace with_nonce add_data decrypt_text finish verify
a_text-accepted = refl

decrypt_inplace-IsVerified_example :
    IsVerified open_or_not
      (codes "tag")
      (decrypt_inplace open_or_not a_decryptor (codes "nonce") (codes "text") (codes "tag") false).1
decrypt_inplace-IsVerified_example =
    decrypt_inplace-IsVerified open_or_not (codes "tag") 1 true (48 ∷ []) (codes "nonce")
      (codes "text") false a_text-accepted

-- A library whose state is the ids of its keys, and which refuses an empty key.
unfoldable without : ℕ → List ℕ → List ℕ
without id [] = []
without id (k ∷ ks) = if k == id then ks else k ∷ without id ks

abbrev imported : Bytes → List ℕ → (Bool × ℕ) × List ℕ
imported [] ks = ((false, 9), ks)
imported (c ∷ cs) ks = ((true, length ks + 1), (length ks + 1) ∷ ks)

abbrev key_store : Psa (List ℕ)
key_store = record {
  destroy_key = without;
  import_key = imported;
  aead_decrypt_setup = λ id s. (true, s);
  aead_set_nonce = λ nonce s. (true, s);
  aead_update_ad = λ aad s. (true, s);
  aead_update = λ text s. ((true, length text, text), s);
  aead_verify = λ tag s. ((true, 0), s);
  aead_abort = λ s. s;
}

without-first : (id : ℕ) (others s : List ℕ) → s ≡ id ∷ others → without id s ≡ others
unfolding without
without-first id others s h = ap (without id) h ∙ ground arith

imported-adds :
    (key : Bytes) (s : List ℕ)
    → (imported key s).0.0 ≡ true
    → ((imported key s).0.1 ≢ 0) × ((imported key s).1 ≡ (imported key s).0.1 ∷ s)
imported-adds [] s h = absurd (cc)
imported-adds (c ∷ cs) s h = ((λ e. absurd (omega arith)), refl)

imported-fails : (key : Bytes) (s : List ℕ) → (imported key s).0.0 ≡ false → (imported key s).1 ≡ s
imported-fails [] s h = refl
imported-fails (c ∷ cs) s h = absurd (cc)

abbrev some_keys : List Bytes
some_keys = codes "first" ∷ codes "second" ∷ [] ∷ codes "third" ∷ []

abbrev all_set : Aes128GcmTfPsa × List ℕ
all_set = set_all key_store some_keys (constructed true) (5 ∷ [])

set_all-keys_example :
    (all_set.1 ≡ owned all_set.0.key_id (5 ∷ [])) × (after_destructor key_store all_set ≡ 5 ∷ [])
set_all-keys_example =
    set_all-keys key_store (λ s. s) without-first imported-adds imported-fails true some_keys
      (5 ∷ [])
