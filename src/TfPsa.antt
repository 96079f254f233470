-- ===== src/TfPsa.antt =====
-- `Aes128GcmTfPsa` of src/dsmr_parser/decryption/aes128gcm_tfpsa.h. The PSA library is a
-- parameter: a state, and for each function that the class calls what it returns in a state. A
-- status is true for PSA_SUCCESS. The attributes of a key are constants, and left out; the
-- destructor is `destroy_old` on the object's key.
pub mod Closed
pub mod Verified
pub mod Keys
use arduino_dsmr.Base.{
  ℕ, Bool, true, false, not, ◌||◌, Option, none, some, ◌==◌, if◌then◌else◌, Bytes, length,
}

-- The functions, by their names without `psa_`. `aead_update` gives the status, the length that
-- it reports and what it leaves in the ciphertext's place; `aead_verify` the status and the
-- length of the rest.
pub record Psa {ℓ} (S : Type ℓ) : Type ℓ where
  pub destroy_key : ℕ → S → S
  pub import_key : Bytes → S → (Bool × ℕ) × S
  pub aead_decrypt_setup : ℕ → S → Bool × S
  pub aead_set_nonce : Bytes → S → Bool × S
  pub aead_update_ad : Bytes → S → Bool × S
  pub aead_update : Bytes → S → (Bool × ℕ × Bytes) × S
  pub aead_verify : Bytes → S → (Bool × ℕ) × S
  pub aead_abort : S → S

pub record Aes128GcmTfPsa : Type 0 where
  pub key_id : ℕ
  pub initialized : Bool
  pub aad : Option Bytes

-- The constructor, by whether `psa_crypto_init` succeeds.
abbrev pub constructed : Bool → Aes128GcmTfPsa
constructed init_succeeds = record { key_id = 0; initialized = init_succeeds; aad = none }

module _ {ℓ} {S : Type ℓ} (psa : Psa S) where
  -- `if (key_id != 0) psa_destroy_key(key_id);`
  unfoldable pub destroy_old : ℕ → S → S
  destroy_old key_id s = if key_id == 0 then s else psa.destroy_key key_id s

  unfoldable pub set_encryption_key : Bytes → Aes128GcmTfPsa → S → Aes128GcmTfPsa × S
  set_encryption_key key o s =
      let ((status, id), s') = psa.import_key key (destroy_old o.key_id s) in
      if not o.initialized then (o, s) else (record o { key_id = if status then id else 0 }, s')

  -- What `decrypt_inplace` returns, the ciphertext's memory, and the library's state.
  abbrev pub Answer : Type ℓ
  Answer = (Bool × Bytes) × S

  unfoldable pub abort_and_fail : Bytes → S → Answer
  abort_and_fail text s = ((false, text), psa.aead_abort s)

  -- From `psa_aead_verify` on.
  unfoldable pub verify : Bytes → Bytes → S → Answer
  verify tag text s =
      let ((status, tail_len), s') = psa.aead_verify tag s in
      if not status
      then abort_and_fail text s'
      else if not (tail_len == 0)
      then abort_and_fail text s'
      else ((true, text), s')

  -- Once the text is decrypted.
  unfoldable pub finish : Option Bytes → Bytes → Bytes → S → Answer
  finish none tag text s = ((true, text), psa.aead_abort s)
  finish (some aad) tag text s = verify tag text s

  -- From `psa_aead_update` on.
  unfoldable pub decrypt_text : Option Bytes → Bytes → Bytes → S → Answer
  decrypt_text aad ciphertext tag s =
      let ((status, produced, text), s') = psa.aead_update ciphertext s in
      if not status
      then abort_and_fail text s'
      else if not (produced == length ciphertext)
      then abort_and_fail text s'
      else finish aad tag text s'

  -- `if (aad.has_value())`
  unfoldable pub add_data : Option Bytes → Bytes → Bytes → S → Answer
  add_data none ciphertext tag s = decrypt_text none ciphertext tag s
  add_data (some aad) ciphertext tag s =
      let (status, s') = psa.aead_update_ad aad s in
      if not status then abort_and_fail ciphertext s' else decrypt_text (some aad) ciphertext tag s'

  unfoldable pub with_nonce : Bytes → Option Bytes → Bytes → Bytes → S → Answer
  with_nonce nonce aad ciphertext tag s =
      let (status, s') = psa.aead_set_nonce nonce s in
      if not status then abort_and_fail ciphertext s' else add_data aad ciphertext tag s'

  unfoldable pub decrypt_inplace : Aes128GcmTfPsa → Bytes → Bytes → Bytes → S → Answer
  decrypt_inplace o nonce ciphertext tag s =
      let (status, s') = psa.aead_decrypt_setup o.key_id s in
      if not o.initialized || o.key_id == 0
      then ((false, ciphertext), s)
      else if not status
      then abort_and_fail ciphertext s'
      else with_nonce nonce o.aad ciphertext tag s'
