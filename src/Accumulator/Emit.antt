-- ===== src/Accumulator/Emit.antt =====
-- The telegrams that the two last steps of a packet return.
use mathlib.Core.Path.{subst}
use arduino_dsmr.Base.{
  ℕ, ◌≤◌, true, false, [], ◌++◌, some, ◌≡◌, refl, sym, ap, ◌∙◌, arith, Bytes, length, append-nil,
  inl, inr, take, take-append,
}
use arduino_dsmr.Crc.{to_crc, calculate_crc16}
use arduino_dsmr.Telegram.{DsmrUnencryptedTelegram, full_content, from_bytes}
use arduino_dsmr.Telegram.Content.{framed, from_bytes-framed, without_suffix}
use arduino_dsmr.Telegram.Integrity.{accepted_cases}
use arduino_dsmr.Accumulator.Inv.{IsEmitted, EndsIn, Plain}

-- At the '!' with the check off, the packet is a telegram without a suffix.
pub from_bytes-ended :
    (q body : Bytes)
    → q ≡ framed body
    → Plain body
    → from_bytes q false ≡ some (without_suffix body)
from_bytes-ended q body e plain =
    ap (λ x. from_bytes x false) (e ∙ sym (append-nil (framed body)))
    ∙ from_bytes-framed body [] false plain.1

pub ended-IsEmitted :
    (limit : ℕ) (seen q body : Bytes)
    → q ≡ framed body
    → Plain body
    → EndsIn seen q
    → length q ≤ limit
    → IsEmitted limit false seen (without_suffix body)
ended-IsEmitted limit seen q body e plain last fits = record {
  body = body;
  crc = [];
  plain = plain;
  full = sym (append-nil (framed body));
  fits = subst (λ x. length x ≤ limit) e fits;
  seen_last = subst (EndsIn seen) e last;
  checked = λ c. absurd (cc);
  unchecked = λ _. refl;
}

pub take-all : (s : Bytes) → length s ≡ 4 → take 4 s ≡ s
take-all s h = ap (take 4) (sym (append-nil s)) ∙ take-append 4 s [] (sym h)

-- At the last character of the checksum.
pub checked-IsEmitted :
    (limit : ℕ) (seen q body crc : Bytes) (t : DsmrUnencryptedTelegram)
    → q ≡ framed body ++ crc
    → Plain body
    → length crc ≡ 4
    → EndsIn seen q
    → length q ≤ limit
    → from_bytes q true ≡ some t
    → IsEmitted limit true seen t
checked-IsEmitted limit seen q body crc t e plain four last fits h =
    elim (accepted_cases body crc true t
      (sym (from_bytes-framed body crc true plain.1) ∙ ap (λ x. from_bytes x true) (sym e) ∙ h)) [
        | inl (_, is, sum) ↦
            let full : full_content t ≡ framed body ++ crc =
              ap full_content is ∙ ap (λ s. framed body ++ s) (take-all crc four) in
            record {
              body = body;
              crc = crc;
              plain = plain;
              full = full;
              fits = subst (λ x. length x ≤ limit) (e ∙ sym full) fits;
              seen_last = subst (EndsIn seen) (e ∙ sym full) last;
              checked = λ _. (
                four,
                subst (λ s. to_crc s ≡ some (calculate_crc16 (framed body))) (take-all crc four)
                    (sum refl),
              );
              unchecked = λ c. absurd (cc);
            }
        | inr (short, _, _) ↦ absurd (omega arith)
      ]
