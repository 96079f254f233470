-- ===== src/Accumulator/Branches.antt =====
-- The branches of `process_byte`, each as one equation.
use arduino_dsmr.Base.{ℕ, ◌+◌, ◌≤◌, ◌<◌, true, false, none, some, ◌≡◌, ◌≢◌, arith, ◌==◌}
use arduino_dsmr.Telegram.{from_bytes}
use arduino_dsmr.Accumulator.{
  DsmrPacketBuffer, packet, waiting_for_packet_start_symbol, waiting_for_packet_end_symbol,
  waiting_for_crc, PacketAccumulator, add, fresh, drop_full, start_packet, in_packet, in_crc,
  dispatch, process_byte,
}

module _ (byte : ℕ) (a : PacketAccumulator) (b : DsmrPacketBuffer) where
  pub start_packet_eq :
      add byte (fresh a.buf) ≡ some b
      → start_packet byte a
        ≡ some (none, record a { buf = b; state = waiting_for_packet_end_symbol })
  unfolding start_packet
  start_packet_eq h = ground arith

  module _ (added : add byte a.buf ≡ some b) where
    pub in_packet_body :
        byte ≢ b'!'
        → a.state ≡ waiting_for_packet_end_symbol
        → in_packet byte a
          ≡ some (none, record a { buf = b; state = waiting_for_packet_end_symbol })
    unfolding in_packet
    in_packet_body h k = ground arith

    pub in_packet_unchecked :
        byte ≡ b'!'
        → a.check_crc ≡ false
        → in_packet byte a
          ≡ some (
            from_bytes (packet b) false,
            record a { buf = b; state = waiting_for_packet_start_symbol },
          )
    unfolding in_packet
    in_packet_unchecked h k = ground arith

    pub in_packet_checked :
        byte ≡ b'!'
        → a.check_crc ≡ true
        → in_packet byte a
          ≡ some (none, record a { buf = b; state = waiting_for_crc; amount_of_crc_nibbles = 0 })
    unfolding in_packet
    in_packet_checked h k = ground arith

    pub in_crc_more :
        a.amount_of_crc_nibbles + 1 < 4
        → a.state ≡ waiting_for_crc
        → in_crc byte a
          ≡ some (
            none,
            record a {
              buf = b;
              state = waiting_for_crc;
              amount_of_crc_nibbles = a.amount_of_crc_nibbles + 1;
            },
          )
    unfolding in_crc
    in_crc_more h k = ground arith

    pub in_crc_last :
        4 ≤ a.amount_of_crc_nibbles + 1
        → in_crc byte a
          ≡ some (
            from_bytes (packet b) true,
            record a {
              buf = b;
              state = waiting_for_packet_start_symbol;
              amount_of_crc_nibbles = a.amount_of_crc_nibbles + 1;
            },
          )
    unfolding in_crc
    in_crc_last h = ground arith

module _ (byte : ℕ) (a : PacketAccumulator) where
  pub process_start : (byte == b'/') ≡ true → process_byte byte a ≡ start_packet byte (drop_full a)
  unfolding process_byte
  process_start h = rw h

  pub process_other :
      (byte == b'/') ≡ false → process_byte byte a ≡ dispatch (drop_full a).state byte (drop_full a)
  unfolding process_byte
  process_other h = rw h
