-- ===== src/Crc/Hex.antt =====
-- `to_crc` against a hexadecimal printer, the `%04X` and `%04x` of `printf`.
use arduino_dsmr.Base.{
  ℕ, ◌+◌, ◌-◌, ◌*◌, ◌/◌, ◌%◌, ◌^◌, ◌<◌, bit_or, Bool, [], ◌∷◌, some, ◌≡◌, refl, ap, ◌∙◌, inl, inr,
  arith, Bytes, ltb, if◌then◌else◌, Option-cases,
}
use arduino_dsmr.Base.Bits.{bit_or-add}
use arduino_dsmr.Crc.{u16, crc_nibble, to_crc_from, to_crc}

-- A digit below 16, with capital letters if `upper`.
unfoldable pub hex_char : Bool → ℕ → ℕ
hex_char upper n = if ltb n 10 then b'0' + n else (if upper then b'A' else b'a') + n - 10

pub crc_nibble-hex_char : (upper : Bool) (n : ℕ) → n < 16 → crc_nibble (hex_char upper n) ≡ some n
unfolding crc_nibble hex_char
crc_nibble-hex_char upper n h = ground arith

crc_nibble-lt : (c : ℕ) {n : ℕ} → crc_nibble c ≡ some n → n < 16
unfolding crc_nibble
crc_nibble-lt c h = ground arith

-- `crc << 4 | n` on 16 bits.
push_nibble : (crc n : ℕ) → n < 16 → u16 (bit_or (u16 (crc * 16)) n) ≡ (crc * 16 + n) % 2 ^ 16
push_nibble crc n h = omega (arith, bit_or-add 4 (crc % 2 ^ 12) n h, ap (λ t. bit_or t n) aligned)
  where
    aligned : u16 (crc * 16) ≡ crc % 2 ^ 12 * 2 ^ 4
    aligned = omega arith

to_crc_from-hex_char :
    (upper : Bool) (crc n : ℕ) (rest : Bytes)
    → n < 16
    → to_crc_from crc (hex_char upper n ∷ rest) ≡ to_crc_from ((crc * 16 + n) % 2 ^ 16) rest
unfolding to_crc_from
to_crc_from-hex_char upper crc n rest h =
    rw (crc_nibble-hex_char upper n h, to_crc_from) (rw (push_nibble crc n h))

-- The four digits that the meter sends.
pub print_crc : Bool → ℕ → Bytes
print_crc upper v =
    hex_char upper (v / 4096)
    ∷ hex_char upper (v / 256 % 16)
    ∷ hex_char upper (v / 16 % 16)
    ∷ hex_char upper (v % 16)
    ∷ []

nibbles_of :
    (v : ℕ)
    → v < 2 ^ 16
    → ((((0 * 16 + v / 4096) % 2 ^ 16 * 16 + v / 256 % 16) % 2 ^ 16 * 16 + v / 16 % 16)
            % 2 ^ 16
            * 16
          + v % 16)
        % 2 ^ 16
      ≡ v
nibbles_of v h = omega arith

to_crc_from-nil : (crc : ℕ) → to_crc_from crc [] ≡ some crc
unfolding to_crc_from
to_crc_from-nil crc = refl

to_crc_from-print_crc :
    (upper : Bool) (v : ℕ) → v < 2 ^ 16 → to_crc_from 0 (print_crc upper v) ≡ some v
unfolding print_crc
to_crc_from-print_crc upper v h =
    to_crc_from-hex_char upper 0 (v / 4096) _ (omega arith)
    ∙ to_crc_from-hex_char upper _ (v / 256 % 16) _ (omega arith)
    ∙ to_crc_from-hex_char upper _ (v / 16 % 16) _ (omega arith)
    ∙ to_crc_from-hex_char upper _ (v % 16) _ (omega arith)
    ∙ to_crc_from-nil _
    ∙ ap some (nibbles_of v h)

-- Every 16-bit checksum is read back from its four hexadecimal digits, in either case.
pub to_crc-print_crc : (upper : Bool) (v : ℕ) → v < 2 ^ 16 → to_crc (print_crc upper v) ≡ some v
unfolding to_crc
to_crc-print_crc upper v h = to_crc_from-print_crc upper v h

-- Every character is a hexadecimal digit.
abbrev pub AllHex : Bytes → Type 0
AllHex [] = Unit {0}
AllHex (c ∷ s) = ((n : ℕ) × (crc_nibble c ≡ some n)) × AllHex s

to_crc_from-AllHex : (s : Bytes) (crc : ℕ) {v : ℕ} → to_crc_from crc s ≡ some v → AllHex s
unfolding to_crc_from
to_crc_from-AllHex [] crc e = tt
to_crc_from-AllHex (c ∷ s) crc e = elim (Option-cases (crc_nibble c)) [
  | inl bad ↦ absurd (ground arith)
  | inr (n, good) ↦ ((n, good), to_crc_from-AllHex s _ (rw (good, to_crc_from) at e))
]

pub to_crc-AllHex : (s : Bytes) {v : ℕ} → to_crc s ≡ some v → AllHex s
unfolding to_crc
to_crc-AllHex s = to_crc_from-AllHex s 0
