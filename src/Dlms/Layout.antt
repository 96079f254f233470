-- ===== src/Dlms/Layout.antt =====
-- The layout of a DLMS packet, from the sender's side.
use mathlib.Core.Path.{subst₂}
use arduino_dsmr.Base.{
  ℕ, ◌+◌, ◌/◌, ◌%◌, ◌≤◌, [], ◌∷◌, ◌++◌, some, ◌≡◌, refl, sym, ap, ◌∙◌, arith, Bytes, length, take,
  drop, length-append, append-nil, take-append, drop-append,
}
use arduino_dsmr.Dlms.{
  DlmsPacket, telegram_length, header_bytes_consistent, from_bytes, nonce, encrypted_telegram,
  gcm_tag, overwrite,
}

-- The packet of a system title, an invocation counter, a ciphertext and its tag.
abbrev pub dlms_packet : Bytes → Bytes → Bytes → Bytes → Bytes
dlms_packet title counter ciphertext tag =
    let total = length ciphertext + 17 in
    219 ∷ 8 ∷ (title ++ 130 ∷ total / 256 ∷ total % 256 ∷ 48 ∷ (counter ++ (ciphertext ++ tag)))

-- The sizes that the header can hold.
pub record Fits (title counter ciphertext tag : Bytes) : Type 0 where
  pub title_size : length title ≡ 8
  pub counter_size : length counter ≡ 4
  pub tag_size : length tag ≡ 12
  pub least : 10 ≤ length ciphertext
  pub most : length ciphertext ≤ 65518

four :
    (xs : Bytes) → length xs ≡ 4 → (a : ℕ) × (b : ℕ) × (c : ℕ) × (d : ℕ) × (xs ≡ a ∷ b ∷ c ∷ d ∷ [])
four (a ∷ b ∷ c ∷ d ∷ []) h = (a, b, c, d, refl)
four [] h = absurd (omega arith)
four (a ∷ []) h = absurd (omega arith)
four (a ∷ b ∷ []) h = absurd (omega arith)
four (a ∷ b ∷ c ∷ []) h = absurd (omega arith)
four (a ∷ b ∷ c ∷ d ∷ e ∷ f) h = absurd (omega arith)

first_four :
    (xs : Bytes)
    → length xs ≡ 8
    → (a : ℕ) × (b : ℕ) × (c : ℕ) × (d : ℕ) × (ys : Bytes) × (xs ≡ a ∷ b ∷ c ∷ d ∷ ys)
      × (length ys ≡ 4)
first_four (a ∷ b ∷ c ∷ d ∷ ys) h = (a, b, c, d, ys, refl, omega arith)
first_four [] h = absurd (omega arith)
first_four (a ∷ []) h = absurd (omega arith)
first_four (a ∷ b ∷ []) h = absurd (omega arith)
first_four (a ∷ b ∷ c ∷ []) h = absurd (omega arith)

module _ (a b c d e f g h : ℕ) (i j k l : ℕ) (ciphertext tag : Bytes) where
  -- The packet with its header written out.
  abbrev title : Bytes
  title = a ∷ b ∷ c ∷ d ∷ e ∷ f ∷ g ∷ h ∷ []

  abbrev counter : Bytes
  counter = i ∷ j ∷ k ∷ l ∷ []

  abbrev bytes : Bytes
  bytes = dlms_packet title counter ciphertext tag

  abbrev packet : DlmsPacket
  packet = record { bytes = bytes }

  telegram_length_explicit : telegram_length packet ≡ length ciphertext
  unfolding telegram_length
  telegram_length_explicit = ground arith

  from_bytes_explicit :
      length tag ≡ 12
      → 10 ≤ length ciphertext
      → length ciphertext ≤ 65518
      → from_bytes bytes ≡ some packet
  unfolding from_bytes header_bytes_consistent
  from_bytes_explicit t lo hi =
      ground (arith, telegram_length_explicit, length-append ciphertext tag)

  nonce_explicit : nonce packet ≡ title ++ counter
  unfolding nonce
  nonce_explicit = refl

  encrypted_telegram_explicit : encrypted_telegram packet ≡ ciphertext
  unfolding encrypted_telegram
  encrypted_telegram_explicit =
      take-append (telegram_length packet) ciphertext tag telegram_length_explicit

  behind_explicit : drop (18 + telegram_length packet) bytes ≡ tag
  behind_explicit =
      ap (λ n. drop (18 + n) bytes) telegram_length_explicit
      ∙ drop-append (18 + length ciphertext)
          (219
            ∷ 8
            ∷ (title
                ++ 130
                  ∷ (length ciphertext + 17) / 256
                  ∷ (length ciphertext + 17) % 256
                  ∷ 48
                  ∷ (counter ++ ciphertext)))
          tag (omega arith)

  gcm_tag_explicit : length tag ≡ 12 → gcm_tag packet ≡ tag
  unfolding gcm_tag
  gcm_tag_explicit t =
      ap (take 12) (behind_explicit ∙ sym (append-nil tag)) ∙ take-append 12 tag [] (sym t)

  overwrite_explicit :
      (text : Bytes)
      → length text ≡ length ciphertext
      → (overwrite packet text).bytes ≡ dlms_packet title counter text tag
  unfolding overwrite
  overwrite_explicit text n =
      let header = λ (m : ℕ) (rest : Bytes).
        219
        ∷ 8
        ∷ (title ++ 130 ∷ (m + 17) / 256 ∷ (m + 17) % 256 ∷ 48 ∷ (counter ++ (text ++ rest))) in
      ap (header (length ciphertext)) behind_explicit ∙ ap (λ m. header m tag) (sym n)

-- What a packet that was built from these parts is, and what becomes of it once its text is
-- overwritten by as many bytes.
pub record IsPacketOf (title counter ciphertext tag : Bytes) : Type 0 where
  pub accepted :
      from_bytes (dlms_packet title counter ciphertext tag)
      ≡ some (record { bytes = dlms_packet title counter ciphertext tag })
  pub its_nonce :
      nonce (record { bytes = dlms_packet title counter ciphertext tag }) ≡ title ++ counter
  pub its_text :
      encrypted_telegram (record { bytes = dlms_packet title counter ciphertext tag }) ≡ ciphertext
  pub its_tag : gcm_tag (record { bytes = dlms_packet title counter ciphertext tag }) ≡ tag
  pub overwritten :
      (text : Bytes)
      → length text ≡ length ciphertext
      → (overwrite (record { bytes = dlms_packet title counter ciphertext tag }) text).bytes
        ≡ dlms_packet title counter text tag

-- A packet of a title of 8 bytes, a counter of 4, a text of 10 to 65518 and a tag of 12 is
-- accepted, and its nonce, its encrypted telegram and its tag are those parts: the nonce is the
-- title and the counter. Overwriting the text with as many bytes gives the packet of that text.
pub from_bytes-dlms_packet :
    (title counter ciphertext tag : Bytes)
    → Fits title counter ciphertext tag
    → IsPacketOf title counter ciphertext tag
from_bytes-dlms_packet t n ciphertext tag fits =
    let (a, b, c, d, t', e₁, s₁) = first_four t fits.title_size in
    let (e, f, g, h, e₂) = four t' s₁ in
    let (i, j, k, l, e₃) = four n fits.counter_size in
    subst₂ (λ x y. IsPacketOf x y ciphertext tag) (sym (e₁ ∙ ap (λ z. a ∷ b ∷ c ∷ d ∷ z) e₂))
      (sym e₃)
      (record {
        accepted =
            from_bytes_explicit a b c d e f g h i j k l ciphertext tag fits.tag_size fits.least
              fits.most;
        its_nonce = nonce_explicit a b c d e f g h i j k l ciphertext tag;
        its_text = encrypted_telegram_explicit a b c d e f g h i j k l ciphertext tag;
        its_tag = gcm_tag_explicit a b c d e f g h i j k l ciphertext tag fits.tag_size;
        overwritten = overwrite_explicit a b c d e f g h i j k l ciphertext tag;
      })
