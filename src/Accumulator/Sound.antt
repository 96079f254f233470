-- ===== src/Accumulator/Sound.antt =====
-- Every byte keeps the invariant, and a call returns only what `IsEmitted` describes.
use mathlib.Core.Path.{subst}
use native.Mathlib.Decide.{dec_lt}
use arduino_dsmr.Base.{
  ℕ, ◌+◌, ◌≤◌, ◌<◌, Bool, true, false, [], ◌∷◌, ◌++◌, Option, none, some, ◌≡◌, ◌≢◌, ◌⊎◌, refl, sym,
  ap, ◌∙◌, arith, Bytes, length, Bool-cases, ◌==◌, ==_iff, ==_ne, inl, inr, length-take, append-nil,
  nil_of_length,
}
use arduino_dsmr.Telegram.{DsmrUnencryptedTelegram, from_bytes}
use arduino_dsmr.Telegram.Content.{framed, without_suffix}
use arduino_dsmr.Accumulator.{
  DsmrPacketBuffer, packet, State, waiting_for_packet_start_symbol, waiting_for_packet_end_symbol,
  waiting_for_crc, PacketAccumulator, drop_full, fresh, start_packet, in_packet, in_crc, dispatch,
  process_byte, add,
}
use arduino_dsmr.Accumulator.Branches.{
  process_start, process_other, start_packet_eq, in_packet_body, in_packet_unchecked,
  in_packet_checked, in_crc_more, in_crc_last,
}
use arduino_dsmr.Accumulator.Buffer.{packet-fresh, add-Added, with_byte}
use arduino_dsmr.Accumulator.Inv.{Inv, IsRight, IsEmitted, Holds, InPacket, InCrc, drop_full-Inv}
use arduino_dsmr.Accumulator.Step.{started, grows, ends, counts, moved, moved-Inv}
use arduino_dsmr.Accumulator.Emit.{from_bytes-ended, ended-IsEmitted, checked-IsEmitted}

length-packet :
    (b : DsmrPacketBuffer) → b.packet_size ≤ length b.buffer → length (packet b) ≡ b.packet_size
unfolding packet
length-packet b h = length-take b.packet_size b.buffer h

module _ (limit : ℕ) (chk : Bool) (seen : Bytes) (byte : ℕ) (a : PacketAccumulator)
    (v : Inv limit chk seen a) (room : a.buf.packet_size < limit) where
  abbrev later : Bytes
  later = seen ++ byte ∷ []

  abbrev grown_buf : DsmrPacketBuffer
  grown_buf = with_byte byte a.buf

  grown : packet grown_buf ≡ packet a.buf ++ byte ∷ []
  grown = (add-Added byte a.buf (omega (arith, v.size))).grown

  added : add byte a.buf ≡ some grown_buf
  added = (add-Added byte a.buf (omega (arith, v.size))).added

  length_grown : length (packet grown_buf) ≤ limit
  length_grown =
      let w = add-Added byte a.buf (omega (arith, v.size)) in
      omega (arith, length-packet grown_buf (omega (arith, w.same_memory, v.size)))

  start_packet-IsRight : byte ≡ b'/' → IsRight limit chk later (start_packet byte a)
  unfolding fresh
  start_packet-IsRight s =
      let w = add-Added byte (fresh a.buf) (omega (arith, v.size)) in
      subst (IsRight limit chk later) (sym (start_packet_eq byte a _ w.added)) (record {
        size = w.same_memory ∙ v.size;
        in_bounds = omega arith;
        flag = v.flag;
        crc_state = λ e. absurd (cc);
        holds =
            started limit chk seen byte _ (w.grown ∙ ap (λ p. p ++ byte ∷ []) (packet-fresh a.buf))
              s;
      })

  abbrev idle : ℕ → PacketAccumulator
  idle n = moved limit chk seen byte a waiting_for_packet_start_symbol n

  idle-Inv : (n : ℕ) → Inv limit chk later (idle n)
  idle-Inv n =
      moved-Inv limit chk seen byte a waiting_for_packet_start_symbol n v room (λ x. absurd (cc)) tt

  in_packet-IsRight :
      byte ≢ b'/'
      → a.state ≡ waiting_for_packet_end_symbol
      → InPacket seen (packet a.buf)
      → IsRight limit chk later (in_packet byte a)
  in_packet-IsRight ns st h = elim (Bool-cases (byte == b'!')) [
    | inr e ↦
        let ne : byte ≢ b'!' = ==_ne byte b'!' e in
        subst (IsRight limit chk later) (sym (in_packet_body byte a grown_buf added ne st)) (
          moved-Inv limit chk seen byte a waiting_for_packet_end_symbol a.amount_of_crc_nibbles v
            room (λ x. absurd (cc)) (grows limit chk seen byte _ _ grown ns ne h))
    | inl e ↦ at_end ((==_iff byte b'!').0 e) (Bool-cases chk)
  ]
    where
      at_end :
          byte ≡ b'!' → (chk ≡ true) ⊎ (chk ≡ false) → IsRight limit chk later (in_packet byte a)
      at_end e (inl on) =
          subst (IsRight limit chk later)
            (sym (in_packet_checked byte a grown_buf added e (v.flag ∙ on)))
            (moved-Inv limit chk seen byte a waiting_for_crc 0 v room (λ _. on)
              (ends limit chk seen byte _ _ grown e h))
      at_end e (inr off) =
          let r = ends limit chk seen byte _ _ grown e h in
          let is : packet grown_buf ≡ framed r.body =
            r.holds
            ∙ ap (λ s. framed r.body ++ s) (nil_of_length r.crc r.counted)
            ∙ append-nil (framed r.body) in
          subst (IsRight limit chk later)
            (sym (
              in_packet_unchecked byte a grown_buf added e (v.flag ∙ off)
              ∙ ap (λ o. some (o, idle a.amount_of_crc_nibbles))
                  (from_bytes-ended _ r.body is r.plain)))
            (
              idle-Inv a.amount_of_crc_nibbles,
              subst (λ c. IsEmitted limit c later (without_suffix r.body)) (sym off)
                  (ended-IsEmitted limit later _ r.body is r.plain r.seen_last length_grown),
            )

  in_crc-IsRight :
      byte ≢ b'/'
      → a.state ≡ waiting_for_crc
      → InCrc seen (packet a.buf) a.amount_of_crc_nibbles
      → IsRight limit chk later (in_crc byte a)
  in_crc-IsRight ns st h =
      let (body, crc, is, plain, no_start, counted, last) =
        counts limit chk seen byte _ _ _ grown ns h in
      elim (dec_lt (a.amount_of_crc_nibbles + 1) 4) [
        | yes few ↦
            subst (IsRight limit chk later) (sym (in_crc_more byte a grown_buf added few st)) (
              moved-Inv limit chk seen byte a waiting_for_crc (a.amount_of_crc_nibbles + 1) v room
                (λ _. v.crc_state st)
                (record {
                  body = body;
                  crc = crc;
                  holds = is;
                  plain = plain;
                  no_start = no_start;
                  counted = counted;
                  few = few;
                  seen_last = last;
                }))
        | no many ↦
            subst (IsRight limit chk later) (sym (in_crc_last byte a grown_buf added (omega arith)))
              (last_reply (from_bytes (packet grown_buf) true) (λ t got.
                subst (λ c. IsEmitted limit c later t) (sym (v.crc_state st))
                  (checked-IsEmitted limit later _ body crc t is plain (omega (arith, h.few)) last
                    length_grown got)))
      ]
    where
      last_reply :
          (o : Option DsmrUnencryptedTelegram)
          → ((t : DsmrUnencryptedTelegram) → o ≡ some t → IsEmitted limit chk later t)
          → IsRight limit chk later (some (o, idle (a.amount_of_crc_nibbles + 1)))
      last_reply none f = idle-Inv (a.amount_of_crc_nibbles + 1)
      last_reply (some t) f = (idle-Inv (a.amount_of_crc_nibbles + 1), f t refl)

  dispatch-IsRight :
      (s : State) → byte ≢ b'/' → a.state ≡ s → IsRight limit chk later (dispatch s byte a)
  unfolding dispatch
  dispatch-IsRight waiting_for_packet_start_symbol ns st = record {
    size = v.size;
    in_bounds = v.in_bounds;
    flag = v.flag;
    crc_state = λ e. absurd (cc);
    holds = subst (λ s. Holds s later (packet a.buf) a.amount_of_crc_nibbles) (sym st) tt;
  }
  dispatch-IsRight waiting_for_packet_end_symbol ns st =
      in_packet-IsRight ns st
        (subst (λ s. Holds s seen (packet a.buf) a.amount_of_crc_nibbles) st v.holds)
  dispatch-IsRight waiting_for_crc ns st =
      in_crc-IsRight ns st
        (subst (λ s. Holds s seen (packet a.buf) a.amount_of_crc_nibbles) st v.holds)

-- With a buffer that is not empty, from a state in the invariant: any byte is processed without a
-- write out of bounds, the invariant holds again with that byte received, and a telegram that is
-- returned is what was received last: framed, no longer than the buffer, and with its checksum
-- right if that is checked.
pub process_byte-IsRight :
    (limit : ℕ) (chk : Bool) (seen : Bytes) (byte : ℕ) (a : PacketAccumulator)
    → 0 < limit
    → Inv limit chk seen a
    → IsRight limit chk (seen ++ byte ∷ []) (process_byte byte a)
process_byte-IsRight limit chk seen byte a pos v = elim (Bool-cases (byte == b'/')) [
  | inl e ↦
      subst (IsRight limit chk (seen ++ byte ∷ [])) (sym (process_start byte a e))
        (start_packet-IsRight limit chk seen byte (drop_full a) w.0 w.1 ((==_iff byte b'/').0 e))
  | inr e ↦ subst (IsRight limit chk (seen ++ byte ∷ [])) (sym (process_other byte a e)) (
      dispatch-IsRight limit chk seen byte (drop_full a) w.0 w.1 (drop_full a).state
        (==_ne byte b'/' e) refl)
]
  where
    w : Inv limit chk seen (drop_full a) × ((drop_full a).buf.packet_size < limit)
    w = drop_full-Inv pos v
