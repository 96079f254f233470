-- ===== src/Accumulator/Reads.antt =====
-- The bytes of a packet, read with no telegram returned.
use mathlib.Core.Path.{subst, subst₂}
use native.Mathlib.Nat.{add-zero}
use arduino_dsmr.Base.{
  ℕ, ◌+◌, ◌≤◌, ◌<◌, Bool, [], ◌∷◌, ◌++◌, none, some, ◌≡◌, refl, sym, ap, ◌∙◌, arith, Bytes, length,
  append_assoc, append-nil, length-append, Lacks,
}
use arduino_dsmr.Accumulator.{
  waiting_for_packet_end_symbol, waiting_for_crc, PacketAccumulator, drop_full, fresh, process_byte,
  receive,
}
use arduino_dsmr.Accumulator.Branches.{process_start, start_packet_eq}
use arduino_dsmr.Accumulator.Buffer.{packet-fresh, add-Added, with_byte}
use arduino_dsmr.Accumulator.Inv.{Inv, Plain, drop_full-Inv}
use arduino_dsmr.Accumulator.Stream.{receive_quiet}
use arduino_dsmr.Accumulator.Progress.{At, grown-At, body_step, crc_step}

-- `a'` is reached after `bytes`, with no telegram returned.
pub record Quietly (bytes : Bytes) (a a' : PacketAccumulator) : Type 0 where
  pub quiet : (rest : Bytes) → receive (bytes ++ rest) a ≡ receive rest a'

pub Quietly-cons :
    (byte : ℕ) (bytes : Bytes) (a b c : PacketAccumulator)
    → process_byte byte a ≡ some (none, b)
    → Quietly bytes b c
    → Quietly (byte ∷ bytes) a c
Quietly-cons byte bytes a b c e q = record {
  quiet = λ rest. receive_quiet byte (bytes ++ rest) a b e ∙ q.quiet rest;
}

pub Quietly-nil : (a : PacketAccumulator) → Quietly [] a a
Quietly-nil a = record { quiet = λ rest. refl }

pub Quietly-append :
    (s t : Bytes) (a b c : PacketAccumulator) → Quietly s a b → Quietly t b c → Quietly (s ++ t) a c
Quietly-append s t a b c p q = record {
  quiet =
      λ rest. ap (λ x. receive x a) (append_assoc s t rest) ∙ p.quiet (t ++ rest) ∙ q.quiet rest;
}

module _ (limit : ℕ) (chk : Bool) where
  -- After '/', from any state.
  pub starts :
      (seen : Bytes) (a : PacketAccumulator)
      → 0 < limit
      → Inv limit chk seen a
      → (a' : PacketAccumulator) × Quietly (b'/' ∷ []) a a'
        × At limit chk waiting_for_packet_end_symbol (b'/' ∷ []) a'.amount_of_crc_nibbles a'
  unfolding fresh
  starts seen a pos v =
      let (v', room) = drop_full-Inv pos v in
      let w = add-Added b'/' (fresh (drop_full a).buf) (omega (arith, v'.size)) in
      let a' = record (drop_full a) {
        buf = with_byte b'/' (fresh (drop_full a).buf);
        state = waiting_for_packet_end_symbol;
      } in
      (
        a',
        Quietly-cons b'/' [] a a' a'
            (process_start b'/' a refl ∙ start_packet_eq b'/' (drop_full a) _ w.added)
            (Quietly-nil a'),
        record {
          size = w.same_memory ∙ v'.size;
          filled = refl;
          holds = w.grown ∙ ap (λ q. q ++ b'/' ∷ []) (packet-fresh (drop_full a).buf);
          state_is = refl;
          flag = v'.flag;
          nibbles = refl;
        },
      )

  -- Through the body.
  pub reads_body :
      (body p : Bytes) (n : ℕ) (a : PacketAccumulator)
      → Plain body
      → length p + length body ≤ limit
      → At limit chk waiting_for_packet_end_symbol p n a
      → (a' : PacketAccumulator) × Quietly body a a'
        × At limit chk waiting_for_packet_end_symbol (p ++ body) n a'
  reads_body [] p n a plain fits h = (
    a,
    Quietly-nil a,
    subst (λ q. At limit chk waiting_for_packet_end_symbol q n a) (sym (append-nil p)) h,
  )
  reads_body (c ∷ body) p n a ((ns, plain), (ne, plain')) fits h =
      let room : length p < limit = omega arith in
      let b = record a { buf = with_byte c a.buf; state = waiting_for_packet_end_symbol } in
      let h₁ =
        grown-At limit chk c p a waiting_for_packet_end_symbol waiting_for_packet_end_symbol n
          a.amount_of_crc_nibbles h room in
      let (a', q, h') =
        reads_body body (p ++ c ∷ []) n b (plain, plain') (omega (arith, length-append p (c ∷ [])))
          (subst (λ k. At limit chk waiting_for_packet_end_symbol (p ++ c ∷ []) k b) h.nibbles
            h₁) in
      (
        a',
        Quietly-cons c body a b a' (body_step limit chk c p a n room ns h ne) q,
        subst (λ s. At limit chk waiting_for_packet_end_symbol s n a')
            (append_assoc p (c ∷ []) body) h',
      )

  -- Through the first characters of the checksum, all but the last.
  pub reads_crc :
      (crc p : Bytes) (n : ℕ) (a : PacketAccumulator)
      → Lacks b'/' crc
      → n + length crc ≤ 3
      → length p + length crc ≤ limit
      → At limit chk waiting_for_crc p n a
      → (a' : PacketAccumulator) × Quietly crc a a'
        × At limit chk waiting_for_crc (p ++ crc) (n + length crc) a'
  reads_crc [] p n a plain few fits h = (
    a,
    Quietly-nil a,
    subst₂ (λ q k. At limit chk waiting_for_crc q k a) (sym (append-nil p)) (sym (add-zero n)) h,
  )
  reads_crc (c ∷ crc) p n a (ns, plain) few fits h =
      let room : length p < limit = omega arith in
      let b = record a {
        buf = with_byte c a.buf;
        state = waiting_for_crc;
        amount_of_crc_nibbles = a.amount_of_crc_nibbles + 1;
      } in
      let h₁ =
        grown-At limit chk c p a waiting_for_crc waiting_for_crc n (a.amount_of_crc_nibbles + 1) h
          room in
      let (a', q, h') =
        reads_crc crc (p ++ c ∷ []) (n + 1) b plain (omega arith)
          (omega (arith, length-append p (c ∷ [])))
          (subst (λ k. At limit chk waiting_for_crc (p ++ c ∷ []) (k + 1) b) h.nibbles h₁) in
      (
        a',
        Quietly-cons c crc a b a' (crc_step limit chk c p a n room ns h (omega arith)) q,
        subst₂ (λ s k. At limit chk waiting_for_crc s k a') (append_assoc p (c ∷ []) crc)
            (omega arith) h',
      )
