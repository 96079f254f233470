-- ===== src/Accumulator/Progress.antt =====
-- What each byte of a well-formed packet does, from a known state.
use arduino_dsmr.Base.{
  ℕ, ◌+◌, ◌<◌, ◌≢◌, Bool, true, false, [], ◌∷◌, ◌++◌, none, some, ◌≡◌, refl, ap, ◌∙◌, arith, Bytes,
  length, length-append,
}
use arduino_dsmr.Telegram.{from_bytes}
use arduino_dsmr.Accumulator.{
  packet, State, waiting_for_packet_start_symbol, waiting_for_packet_end_symbol, waiting_for_crc,
  PacketAccumulator, process_byte, dispatch, add,
}
use arduino_dsmr.Accumulator.Branches.{
  process_other, in_packet_body, in_packet_unchecked, in_packet_checked, in_crc_more, in_crc_last,
}
use arduino_dsmr.Accumulator.Buffer.{add-Added, with_byte}
use arduino_dsmr.Accumulator.Inv.{drop_full-room}

-- The accumulator is in the state `st`, with the packet `p` and `n` characters counted.
pub record At (limit : ℕ) (chk : Bool) (st : State) (p : Bytes) (n : ℕ) (a : PacketAccumulator)
    : Type 0 where
  pub size : length a.buf.buffer ≡ limit
  pub filled : a.buf.packet_size ≡ length p
  pub holds : packet a.buf ≡ p
  pub state_is : a.state ≡ st
  pub flag : a.check_crc ≡ chk
  pub nibbles : a.amount_of_crc_nibbles ≡ n

module _ (limit : ℕ) (chk : Bool) (byte : ℕ) (p : Bytes) where
  -- One more byte, with the state and the counter that follow.
  pub grown-At :
      (a : PacketAccumulator) (st st' : State) (n n' : ℕ)
      → At limit chk st p n a
      → length p < limit
      → At limit chk st'
          (p ++ byte ∷ [])
          n'
          (record a { buf = with_byte byte a.buf; state = st'; amount_of_crc_nibbles = n' })
  grown-At a st st' n n' h room =
      let w = add-Added byte a.buf (omega (arith, h.size, h.filled)) in
      record {
        size = w.same_memory ∙ h.size;
        filled = omega (arith, length-append p (byte ∷ []), h.filled);
        holds = w.grown ∙ ap (λ q. q ++ byte ∷ []) h.holds;
        state_is = refl;
        flag = h.flag;
        nibbles = refl;
      }

  -- With room, a byte that is not '/' goes to the switch.
  process_in :
      (a : PacketAccumulator) (st : State) (n : ℕ)
      → At limit chk st p n a
      → length p < limit
      → byte ≢ b'/'
      → process_byte byte a ≡ dispatch st byte a
  process_in a st n h room ns =
      process_other byte a (ground arith)
      ∙ ap (λ x. dispatch x.state byte x) (drop_full-room a (omega (arith, h.size, h.filled)))
      ∙ ap (λ s. dispatch s byte a) h.state_is

  added_to :
      (a : PacketAccumulator) (st : State) (n : ℕ)
      → At limit chk st p n a
      → length p < limit
      → add byte a.buf ≡ some (with_byte byte a.buf)
  added_to a st n h room = (add-Added byte a.buf (omega (arith, h.size, h.filled))).added

  module _ (a : PacketAccumulator) (n : ℕ) (room : length p < limit) (ns : byte ≢ b'/') where
    abbrev pub next : State → ℕ → PacketAccumulator
    next st k = record a { buf = with_byte byte a.buf; state = st; amount_of_crc_nibbles = k }

    -- A byte of the body.
    pub body_step :
        (h : At limit chk waiting_for_packet_end_symbol p n a)
        → byte ≢ b'!'
        → process_byte byte a
          ≡ some (none, next waiting_for_packet_end_symbol a.amount_of_crc_nibbles)
    unfolding dispatch
    body_step h ne =
        process_in a _ n h room ns ∙ in_packet_body byte a _ (added_to a _ n h room) ne h.state_is

    -- The '!'.
    pub end_checked :
        (h : At limit chk waiting_for_packet_end_symbol p n a)
        → byte ≡ b'!'
        → chk ≡ true
        → process_byte byte a ≡ some (none, next waiting_for_crc 0)
    unfolding dispatch
    end_checked h e on =
        process_in a _ n h room ns
        ∙ in_packet_checked byte a _ (added_to a _ n h room) e (h.flag ∙ on)

    pub end_unchecked :
        (h : At limit chk waiting_for_packet_end_symbol p n a)
        → byte ≡ b'!'
        → chk ≡ false
        → process_byte byte a
          ≡ some (
            from_bytes (packet (with_byte byte a.buf)) false,
            next waiting_for_packet_start_symbol a.amount_of_crc_nibbles,
          )
    unfolding dispatch
    end_unchecked h e off =
        process_in a _ n h room ns
        ∙ in_packet_unchecked byte a _ (added_to a _ n h room) e (h.flag ∙ off)

    -- A character of the checksum, and the fourth.
    pub crc_step :
        (h : At limit chk waiting_for_crc p n a)
        → n < 3
        → process_byte byte a ≡ some (none, next waiting_for_crc (a.amount_of_crc_nibbles + 1))
    unfolding dispatch
    crc_step h few =
        process_in a _ n h room ns
        ∙ in_crc_more byte a _ (added_to a _ n h room) (omega (arith, h.nibbles)) h.state_is

    pub crc_last :
        (h : At limit chk waiting_for_crc p n a)
        → n ≡ 3
        → process_byte byte a
          ≡ some (
            from_bytes (packet (with_byte byte a.buf)) true,
            next waiting_for_packet_start_symbol (a.amount_of_crc_nibbles + 1),
          )
    unfolding dispatch
    crc_last h e =
        process_in a _ n h room ns
        ∙ in_crc_last byte a _ (added_to a _ n h room) (omega (arith, h.nibbles))
