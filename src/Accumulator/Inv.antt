-- ===== src/Accumulator/Inv.antt =====
-- The invariant of `PacketAccumulator`, with the bytes received so far.
use mathlib.Core.Path.{subst}
use native.Mathlib.Decide.{dec_lt}
use arduino_dsmr.Base.{
  ℕ, ◌≤◌, ◌<◌, Bool, true, false, [], ◌∷◌, ◌++◌, none, some, ◌≡◌, sym, ap, ◌∙◌, arith, Bytes,
  length, Lacks, append_assoc,
}
use arduino_dsmr.Telegram.{DsmrUnencryptedTelegram, full_content}
use arduino_dsmr.Telegram.Content.{framed}
use arduino_dsmr.Telegram.Integrity.{IsChecksumOf}
use arduino_dsmr.Accumulator.{
  packet, State, waiting_for_packet_start_symbol, waiting_for_packet_end_symbol, waiting_for_crc,
  PacketAccumulator, Reply, drop_full, fresh, has_space,
}

-- Neither frame symbol occurs.
abbrev pub Plain : Bytes → Type 0
Plain s = Lacks b'/' s × Lacks b'!' s

-- The text `seen` ends in `packet`.
pub record EndsIn (seen packet : Bytes) : Type 0 where
  pub before : Bytes
  pub splits : seen ≡ before ++ packet

-- The packet up to its body, and up to its checksum.
pub record InPacket (seen packet : Bytes) : Type 0 where
  pub body : Bytes
  pub holds : packet ≡ b'/' ∷ body
  pub plain : Plain body
  pub seen_last : EndsIn seen packet

pub record InCrc (seen packet : Bytes) (nibbles : ℕ) : Type 0 where
  pub body : Bytes
  pub crc : Bytes
  pub holds : packet ≡ framed body ++ crc
  pub plain : Plain body
  pub no_start : Lacks b'/' crc
  pub counted : length crc ≡ nibbles
  pub few : nibbles < 4
  pub seen_last : EndsIn seen packet

-- What each state knows of the packet in the buffer.
abbrev pub Holds : State → Bytes → Bytes → ℕ → Type 0
Holds waiting_for_packet_start_symbol seen packet nibbles = Unit {0}
Holds waiting_for_packet_end_symbol seen packet nibbles = InPacket seen packet
Holds waiting_for_crc seen packet nibbles = InCrc seen packet nibbles

-- `limit` is the size of the caller's buffer, `chk` the flag of the constructor.
pub record Inv (limit : ℕ) (chk : Bool) (seen : Bytes) (a : PacketAccumulator) : Type 0 where
  pub size : length a.buf.buffer ≡ limit
  pub in_bounds : a.buf.packet_size ≤ limit
  pub flag : a.check_crc ≡ chk
  pub crc_state : a.state ≡ waiting_for_crc → chk ≡ true
  pub holds : Holds a.state seen (packet a.buf) a.amount_of_crc_nibbles

-- A telegram that the accumulator may return once it has received `seen`: its full content is
-- what was received last, framed, within the buffer's size, and checked if `chk`.
pub record IsEmitted (limit : ℕ) (chk : Bool) (seen : Bytes) (t : DsmrUnencryptedTelegram)
    : Type 0 where
  pub body : Bytes
  pub crc : Bytes
  pub plain : Plain body
  pub full : full_content t ≡ framed body ++ crc
  pub fits : length (full_content t) ≤ limit
  pub seen_last : EndsIn seen (full_content t)
  pub checked : chk ≡ true → IsChecksumOf body crc
  pub unchecked : chk ≡ false → crc ≡ []

-- The reply to a byte is right: no fault, the invariant, and a telegram only as described.
abbrev pub IsRight : ℕ → Bool → Bytes → Reply → Type 0
IsRight limit chk seen none = ⊥
IsRight limit chk seen (some (none, a)) = Inv limit chk seen a
IsRight limit chk seen (some (some t, a)) = Inv limit chk seen a × IsEmitted limit chk seen t

pub EndsIn-snoc :
    (seen p q : Bytes) (byte : ℕ)
    → q ≡ p ++ byte ∷ []
    → EndsIn seen p
    → EndsIn (seen ++ byte ∷ []) q
EndsIn-snoc seen p q byte e h = record {
  before = h.before;
  splits =
      ap (λ s. s ++ byte ∷ []) h.splits
      ∙ append_assoc h.before p (byte ∷ [])
      ∙ ap (λ s. h.before ++ s) (sym e);
}

-- A buffer without room is emptied, and the packet in it forgotten.
pub drop_full-room :
    (a : PacketAccumulator) → a.buf.packet_size < length a.buf.buffer → drop_full a ≡ a
unfolding drop_full has_space
drop_full-room a h = ground arith

abbrev emptied : PacketAccumulator → PacketAccumulator
emptied a = record a { buf = fresh a.buf; state = waiting_for_packet_start_symbol }

drop_full-emptied :
    (a : PacketAccumulator) → length a.buf.buffer ≤ a.buf.packet_size → drop_full a ≡ emptied a
unfolding drop_full has_space fresh
drop_full-emptied a h = ground arith

module _ {limit : ℕ} {chk : Bool} {seen : Bytes} {a : PacketAccumulator} (pos : 0 < limit)
    (v : Inv limit chk seen a) where
  emptied-Inv : Inv limit chk seen (emptied a) × ((emptied a).buf.packet_size < limit)
  unfolding fresh
  emptied-Inv = (
    record {
      size = v.size;
      in_bounds = omega arith;
      flag = v.flag;
      crc_state = λ e. absurd (cc);
      holds = tt;
    },
    pos,
  )

  -- The check at the top of `process_byte` keeps the invariant and makes room.
  pub drop_full-Inv : Inv limit chk seen (drop_full a) × ((drop_full a).buf.packet_size < limit)
  drop_full-Inv = elim (dec_lt a.buf.packet_size (length a.buf.buffer)) [
    | yes h ↦
        subst (λ x. Inv limit chk seen x × (x.buf.packet_size < limit)) (sym (drop_full-room a h))
          (v, omega (arith, v.size))
    | no h ↦
        subst (λ x. Inv limit chk seen x × (x.buf.packet_size < limit))
          (sym (drop_full-emptied a (omega arith))) emptied-Inv
  ]
