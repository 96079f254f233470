-- ===== src/Accumulator/Complete.antt =====
-- A well-formed packet is returned, from whatever state the accumulator is in.
use mathlib.Core.Path.{subst}
use arduino_dsmr.Base.{
  ℕ, ◌+◌, ◌≤◌, ◌<◌, Bool, true, false, [], ◌∷◌, ◌++◌, some, ◌≡◌, refl, sym, ap, ◌∙◌, arith, Bytes,
  length, append_assoc, length-append, Lacks,
}
use arduino_dsmr.Telegram.{DsmrUnencryptedTelegram, from_bytes}
use arduino_dsmr.Telegram.Content.{
  framed, with_suffix, without_suffix, from_bytes-framed, length-framed,
}
use arduino_dsmr.Telegram.Integrity.{IsChecksumOf}
use arduino_dsmr.Accumulator.{
  waiting_for_packet_start_symbol, waiting_for_packet_end_symbol, waiting_for_crc,
  PacketAccumulator, process_byte, receive,
}
use arduino_dsmr.Accumulator.Buffer.{with_byte}
use arduino_dsmr.Accumulator.Emit.{take-all, from_bytes-ended}
use arduino_dsmr.Accumulator.Inv.{Inv, Plain}
use arduino_dsmr.Accumulator.Stream.{receive_telegram, consed}
use arduino_dsmr.Accumulator.Progress.{At, grown-At, end_checked, end_unchecked, crc_last}
use arduino_dsmr.Accumulator.Reads.{
  Quietly, Quietly-cons, Quietly-nil, Quietly-append, starts, reads_body, reads_crc,
}

-- The last four characters, by the first three and the fourth.
split_last :
    (crc : Bytes) → length crc ≡ 4 → (s : Bytes) × (c : ℕ) × (crc ≡ s ++ c ∷ []) × (length s ≡ 3)
split_last (x ∷ y ∷ z ∷ c ∷ []) h = (x ∷ y ∷ z ∷ [], c, refl, refl)
split_last [] h = absurd (omega arith)
split_last (x ∷ []) h = absurd (omega arith)
split_last (x ∷ y ∷ []) h = absurd (omega arith)
split_last (x ∷ y ∷ z ∷ []) h = absurd (omega arith)
split_last (x ∷ y ∷ z ∷ c ∷ d ∷ e) h = absurd (omega arith)

Lacks-split : (c : ℕ) (xs ys : Bytes) → Lacks c (xs ++ ys) → Lacks c xs × Lacks c ys
Lacks-split c [] ys h = (tt, h)
Lacks-split c (x ∷ xs) ys (n, h) = let (l, r) = Lacks-split c xs ys h in ((n, l), r)

-- What a packet with its checksum gives: the telegram, once, and the accumulator waits again.
pub record Delivers (bytes : Bytes) (a : PacketAccumulator) (t : DsmrUnencryptedTelegram)
    : Type 0 where
  pub after : PacketAccumulator
  pub delivers : (rest : Bytes) → receive (bytes ++ rest) a ≡ consed t (receive rest after)
  pub waits : after.state ≡ waiting_for_packet_start_symbol

-- With the fourth character, behind a quiet stretch.
Delivers-last :
    (bytes : Bytes) (c : ℕ) (a b b' : PacketAccumulator) (t : DsmrUnencryptedTelegram)
    → Quietly bytes a b
    → process_byte c b ≡ some (some t, b')
    → b'.state ≡ waiting_for_packet_start_symbol
    → Delivers (bytes ++ c ∷ []) a t
Delivers-last bytes c a b b' t q e w = record {
  after = b';
  delivers = λ rest.
      ap (λ s. receive s a) (append_assoc bytes (c ∷ []) rest)
      ∙ q.quiet (c ∷ rest)
      ∙ receive_telegram c rest b t b' e;
  waits = w;
}

pub from_bytes-checksum :
    (body crc : Bytes)
    → Lacks b'!' body
    → IsChecksumOf body crc
    → from_bytes (framed body ++ crc) true ≡ some (with_suffix body crc)
from_bytes-checksum body crc h (four, sum) =
    from_bytes-framed body crc true h ∙ ground (arith, take-all crc four)

module _ (limit : ℕ) (chk : Bool) (seen : Bytes) (a : PacketAccumulator) (v : Inv limit chk seen a)
    (body : Bytes) (plain : Plain body) where
  -- Up to the body's end.
  reads_start :
      length body + 1 ≤ limit
      → (b : PacketAccumulator) × (n : ℕ) × Quietly (b'/' ∷ body) a b
        × At limit chk waiting_for_packet_end_symbol (b'/' ∷ body) n b
  reads_start fits =
      let (a₁, q₁, h₁) = starts limit chk seen a (omega arith) v in
      let (a₂, q₂, h₂) =
        reads_body limit chk body (b'/' ∷ []) a₁.amount_of_crc_nibbles a₁ plain (omega arith) h₁ in
      (a₂, a₁.amount_of_crc_nibbles, Quietly-append (b'/' ∷ []) body a a₁ a₂ q₁ q₂, h₂)

  -- Let an accumulator hold the invariant of `process_byte-IsRight` with `limit` bytes of memory,
  -- and not check the checksum. A packet '/', body, '!' that fits in the memory, with no '/' or '!'
  -- in its body, makes it return that packet as a telegram, and nothing else, while it receives it,
  -- whatever it was doing before and whatever comes next; then it waits for a '/'.
  pub Delivers-unchecked :
      chk ≡ false → length (framed body) ≤ limit → Delivers (framed body) a (without_suffix body)
  Delivers-unchecked off fits =
      let (b, n, q, h) = reads_start (omega (arith, length-framed body)) in
      let room : length (b'/' ∷ body) < limit = omega (arith, length-framed body) in
      let held =
        (grown-At limit chk b'!' (b'/' ∷ body) b waiting_for_packet_end_symbol
          waiting_for_packet_start_symbol n 0 h room).holds in
      Delivers-last (b'/' ∷ body) b'!' a b
        (record b { buf = with_byte b'!' b.buf; state = waiting_for_packet_start_symbol })
        (without_suffix body) q
        (end_unchecked limit chk b'!' (b'/' ∷ body) b n room (omega arith) h refl off
          ∙ ap
              (λ o. some (
                o,
                record b { buf = with_byte b'!' b.buf; state = waiting_for_packet_start_symbol },
              ))
              (from_bytes-ended _ body held plain))
        refl

  -- With the check, up to the last character of the checksum.
  reads_checksum :
      chk ≡ true
      → (s : Bytes) → length s ≡ 3
      → Lacks b'/' s
      → length (framed body) + 4 ≤ limit
      → (b : PacketAccumulator) × Quietly (framed body ++ s) a b
        × At limit chk waiting_for_crc (framed body ++ s) 3 b
  reads_checksum on s three ns fits =
      let (b, n, q, h) = reads_start (omega (arith, length-framed body)) in
      let room : length (b'/' ∷ body) < limit = omega (arith, length-framed body) in
      let e = record b {
        buf = with_byte b'!' b.buf;
        state = waiting_for_crc;
        amount_of_crc_nibbles = 0;
      } in
      let h₁ =
        grown-At limit chk b'!' (b'/' ∷ body) b waiting_for_packet_end_symbol waiting_for_crc n 0 h
          room in
      let q₁ = Quietly-append (b'/' ∷ body) (b'!' ∷ []) a b e q (
        Quietly-cons b'!' [] b e e
          (end_checked limit chk b'!' (b'/' ∷ body) b n room (omega arith) h refl on)
          (Quietly-nil e)) in
      let (c, q₂, h₂) = reads_crc limit chk s (framed body) 0 e ns (omega arith) (omega arith) h₁ in
      (
        c,
        Quietly-append (framed body) s a e c q₁ q₂,
        subst (λ k. At limit chk waiting_for_crc (framed body ++ s) k c) (omega arith) h₂,
      )

  -- Let an accumulator hold the invariant of `process_byte-IsRight` with `limit` bytes of memory,
  -- and check the checksum. A packet '/', body, '!' with the four characters of its checksum that
  -- fits in the memory, with no '/' or '!' in its body and no '/' in the four characters, makes it
  -- return the packet and its checksum as a telegram, and nothing else, while it receives them,
  -- whatever it was doing before and whatever comes next; then it waits for a '/'.
  pub Delivers-checked :
      (crc : Bytes)
      → chk ≡ true
      → Lacks b'/' crc
      → IsChecksumOf body crc
      → length (framed body) + 4 ≤ limit
      → Delivers (framed body ++ crc) a (with_suffix body crc)
  Delivers-checked crc on ns sum fits =
      let (s, c, is, three) = split_last crc sum.0 in
      let (ns_s, ns_c) = Lacks-split b'/' s (c ∷ []) (subst (Lacks b'/') is ns) in
      let (b, q, h) = reads_checksum on s three ns_s fits in
      let room : length (framed body ++ s) < limit = omega (arith, length-append (framed body) s) in
      let held =
        (grown-At limit chk c (framed body ++ s) b waiting_for_crc waiting_for_packet_start_symbol 3
          0 h room).holds in
      let whole : (framed body ++ s) ++ c ∷ [] ≡ framed body ++ crc =
        append_assoc (framed body) s (c ∷ []) ∙ ap (λ x. framed body ++ x) (sym is) in
      let b' = record b {
        buf = with_byte c b.buf;
        state = waiting_for_packet_start_symbol;
        amount_of_crc_nibbles = b.amount_of_crc_nibbles + 1;
      } in
      subst (λ x. Delivers x a (with_suffix body crc)) whole
        (Delivers-last (framed body ++ s) c a b b' (with_suffix body crc) q
          (crc_last limit chk c (framed body ++ s) b 3 room ns_c.0 h refl
            ∙ ap (λ o. some (o, b'))
                (ap (λ x. from_bytes x true) (held ∙ whole)
                  ∙ from_bytes-checksum body crc plain.1 sum))
          refl)
