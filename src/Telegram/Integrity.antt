-- ===== src/Telegram/Integrity.antt =====
-- What holds of every telegram that `from_bytes` returns.
use arduino_dsmr.Base.{
  ℕ, ◌+◌, ◌≤◌, ◌<◌, ◌≢◌, Bool, true, false, [], ◌∷◌, ◌++◌, none, some, ◌≡◌, refl, sym, ap, ◌∙◌, ◌⊎◌,
  inl, inr, arith, Bytes, length, take, drop, Lacks, length-append, take-append, take-append-drop,
  length-take, some_inj, append_assoc, append-nil,
}
use arduino_dsmr.Crc.{calculate_crc16, to_crc}
use arduino_dsmr.Crc.Detect.{crc16_detects}
use arduino_dsmr.Telegram.{DsmrUnencryptedTelegram, full_content, content_without_crc, from_bytes}
use arduino_dsmr.Telegram.Content.{
  framed, with_suffix, without_suffix, accepted, from_bytes-framed, from_bytes_iff, length-framed,
}

-- The four bytes behind '!' are the checksum of what stands before them.
abbrev pub IsChecksumOf : Bytes → Bytes → Type 0
IsChecksumOf body crc = (length crc ≡ 4) × (to_crc crc ≡ some (calculate_crc16 (framed body)))

abbrev pub WithSuffix : Bytes → Bytes → Bool → DsmrUnencryptedTelegram → Type 0
WithSuffix body tail chk t =
    (4 ≤ length tail)
    × (t ≡ with_suffix body (take 4 tail))
    × (chk ≡ true → to_crc (take 4 tail) ≡ some (calculate_crc16 (framed body)))

abbrev pub WithoutSuffix : Bytes → Bytes → Bool → DsmrUnencryptedTelegram → Type 0
WithoutSuffix body tail chk t = (length tail < 4) × (t ≡ without_suffix body) × (chk ≡ false)

pub accepted_cases :
    (body tail : Bytes) (chk : Bool) (t : DsmrUnencryptedTelegram)
    → accepted body tail chk ≡ some t
    → WithSuffix body tail chk t ⊎ WithoutSuffix body tail chk t
accepted_cases body tail true t h = ground (arith, length-take 4 tail)
accepted_cases body tail false t h = ground arith

pub content-with_suffix :
    (body crc : Bytes) → length crc ≡ 4 → content_without_crc (with_suffix body crc) ≡ framed body
unfolding content_without_crc
content-with_suffix body crc h = ground (
  arith,
  length-append (framed body) crc,
  length-framed body,
  take-append (length body + 2) (framed body) crc,
)

-- What is known of an accepted telegram `t` of the input `xs`.
pub record IsAccepted (xs : Bytes) (chk : Bool) (t : DsmrUnencryptedTelegram) : Type 0 where
  pub body : Bytes
  pub crc : Bytes
  pub rest : Bytes
  pub no_end : Lacks b'!' body
  pub content : content_without_crc t ≡ framed body
  pub full : full_content t ≡ framed body ++ crc
  pub reads : xs ≡ full_content t ++ rest
  pub checked : chk ≡ true → IsChecksumOf body crc

module _ (xs body tail : Bytes) (chk : Bool) (t : DsmrUnencryptedTelegram)
    (splits : xs ≡ framed body ++ tail) (no_end : Lacks b'!' body) where
  WithSuffix-IsAccepted : WithSuffix body tail chk t → IsAccepted xs chk t
  WithSuffix-IsAccepted (long, e, sum) = record {
    body = body;
    crc = take 4 tail;
    rest = drop 4 tail;
    no_end = no_end;
    content =
        ap content_without_crc e ∙ content-with_suffix body (take 4 tail) (length-take 4 tail long);
    full = ap full_content e;
    reads =
        splits
        ∙ ap (λ s. framed body ++ s) (sym (take-append-drop 4 tail))
        ∙ sym (append_assoc (framed body) (take 4 tail) (drop 4 tail))
        ∙ ap (λ u. full_content u ++ drop 4 tail) (sym e);
    checked = λ c. (length-take 4 tail long, sum c);
  }

  WithoutSuffix-IsAccepted : WithoutSuffix body tail chk t → IsAccepted xs chk t
  unfolding content_without_crc
  WithoutSuffix-IsAccepted (short, e, off) = record {
    body = body;
    crc = [];
    rest = tail;
    no_end = no_end;
    content = ap content_without_crc e;
    full = ap full_content e ∙ sym (append-nil (framed body));
    reads = splits ∙ ap (λ u. full_content u ++ tail) (sym e);
    checked = λ c. absurd (cc);
  }

-- An accepted telegram's content is '/', a body with no '!', and '!'; its full content is that
-- and its suffix, which is how the input begins; with the check on, the suffix is the
-- checksum of the content in four characters.
pub from_bytes-IsAccepted :
    (xs : Bytes) (chk : Bool) {t : DsmrUnencryptedTelegram}
    → from_bytes xs chk ≡ some t
    → IsAccepted xs chk t
from_bytes-IsAccepted xs chk {t} h =
    let (body, tail, f, e) = (from_bytes_iff xs chk t).0 h in
    elim (accepted_cases body tail chk t e) [
      | inl w ↦ WithSuffix-IsAccepted xs body tail chk t f.splits f.no_end w
      | inr w ↦ WithoutSuffix-IsAccepted xs body tail chk t f.splits f.no_end w
    ]

framed-append :
    (pre post : Bytes) (a : ℕ) → framed (pre ++ a ∷ post) ≡ (b'/' ∷ pre) ++ a ∷ (post ++ b'!' ∷ [])
framed-append pre post a = append_assoc (b'/' ∷ pre) (a ∷ post) (b'!' ∷ [])

Lacks-replace :
    (c : ℕ) (pre post : Bytes) (a b : ℕ)
    → b ≢ c
    → Lacks c (pre ++ a ∷ post)
    → Lacks c (pre ++ b ∷ post)
Lacks-replace c [] post a b ne (h, l) = (ne, l)
Lacks-replace c (x ∷ pre) post a b ne (h, l) = (h, Lacks-replace c pre post a b ne l)

accepted-none :
    (body tail : Bytes)
    → to_crc (take 4 tail) ≢ some (calculate_crc16 (framed body))
    → accepted body tail true ≡ none
accepted-none body tail h = ground (arith, h)

-- The checksum that an accepted telegram carries, read off its tail.
accepted-to_crc :
    (body tail : Bytes) {t : DsmrUnencryptedTelegram}
    → accepted body tail true ≡ some t
    → to_crc (take 4 tail) ≡ some (calculate_crc16 (framed body))
accepted-to_crc body tail {t} h = elim (accepted_cases body tail true t h) [
  | inl (_, _, sum) ↦ sum refl
  | inr (_, _, off) ↦ absurd (cc)
]

framed_detects :
    (pre post : Bytes) (a b : ℕ)
    → a < 256
    → b < 256
    → a ≢ b
    → calculate_crc16 (framed (pre ++ a ∷ post)) ≢ calculate_crc16 (framed (pre ++ b ∷ post))
framed_detects pre post a b ha hb ne e =
    crc16_detects (b'/' ∷ pre) (post ++ b'!' ∷ []) a b ha hb ne (
      ap calculate_crc16 (sym (framed-append pre post a))
      ∙ e
      ∙ ap calculate_crc16 (framed-append pre post b))

-- With the check on, a telegram that was accepted is rejected once any one byte of its body
-- has become another byte, which is not '!'.
pub from_bytes_detects :
    (pre post tail : Bytes) (a b : ℕ) {t : DsmrUnencryptedTelegram}
    → a < 256
    → b < 256
    → a ≢ b
    → b ≢ b'!'
    → Lacks b'!' (pre ++ a ∷ post)
    → from_bytes (framed (pre ++ a ∷ post) ++ tail) true ≡ some t
    → from_bytes (framed (pre ++ b ∷ post) ++ tail) true ≡ none
from_bytes_detects pre post tail a b ha hb ne end l h =
    from_bytes-framed (pre ++ b ∷ post) tail true (Lacks-replace b'!' pre post a b end l)
    ∙ accepted-none (pre ++ b ∷ post) tail (λ e. framed_detects pre post a b ha hb ne (
        some_inj (
          sym (
            accepted-to_crc (pre ++ a ∷ post) tail
              (sym (from_bytes-framed (pre ++ a ∷ post) tail true l) ∙ h))
          ∙ e)))
