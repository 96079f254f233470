-- ===== src/Accumulator.antt =====
-- `PacketAccumulator` of src/dsmr_parser/packet_accumulator.h. Its members `_raw_buffer` and
-- `_buf._buffer` are one span, the caller's memory; that memory is the field `buffer` here.
-- A write outside it is a fault, `none`.
pub mod Buffer
pub mod Inv
pub mod Progress
pub mod Reads
pub mod Complete
pub mod Stream
pub mod Sound
pub mod Emit
pub mod Branches
pub mod Step
use arduino_dsmr.Base.{
  ℕ, ◌+◌, Bool, true, false, not, Option, none, some, ltb, ◌==◌, if◌then◌else◌, Bytes, length, set,
  take, [], ◌∷◌, List,
}
use arduino_dsmr.Telegram.{DsmrUnencryptedTelegram, from_bytes}

pub record DsmrPacketBuffer : Type 0 where
  pub buffer : Bytes
  pub packet_size : ℕ

unfoldable pub packet : DsmrPacketBuffer → Bytes
packet b = take b.packet_size b.buffer

unfoldable pub has_space : DsmrPacketBuffer → Bool
has_space b = ltb b.packet_size (length b.buffer)

-- `_buf = DsmrPacketBuffer(_raw_buffer)`: the same memory, with no packet in it.
unfoldable pub fresh : DsmrPacketBuffer → DsmrPacketBuffer
fresh b = record b { packet_size = 0 }

unfoldable pub add : ℕ → DsmrPacketBuffer → Option DsmrPacketBuffer
add byte b =
    if ltb b.packet_size (length b.buffer)
    then some (record { buffer = set b.buffer b.packet_size byte; packet_size = b.packet_size + 1 })
    else none

pub data State : Type 0 where
  waiting_for_packet_start_symbol waiting_for_packet_end_symbol waiting_for_crc : State

pub record PacketAccumulator : Type 0 where
  pub state : State
  pub buf : DsmrPacketBuffer
  pub amount_of_crc_nibbles : ℕ
  pub check_crc : Bool

-- The constructor.
abbrev pub accumulator : Bytes → Bool → PacketAccumulator
accumulator buffer check_crc = record {
  state = waiting_for_packet_start_symbol;
  buf = record { buffer = buffer; packet_size = 0 };
  amount_of_crc_nibbles = 0;
  check_crc = check_crc;
}

-- What a call returns, and the state that it leaves; `none` is a write out of bounds.
abbrev pub Reply : Type 0
Reply = Option (Option DsmrUnencryptedTelegram × PacketAccumulator)

-- `_buf.add(byte)`, then the rest of the case.
abbrev adding : ℕ → PacketAccumulator → (DsmrPacketBuffer → Reply) → Reply
adding byte a k = elim (add byte a.buf) [ none ↦ none | some b ↦ k b ]

-- The check at the top of `process_byte`.
unfoldable pub drop_full : PacketAccumulator → PacketAccumulator
drop_full a =
    if not (has_space a.buf)
    then record a { buf = fresh a.buf; state = waiting_for_packet_start_symbol }
    else a

-- `if (byte == '/')`
unfoldable pub start_packet : ℕ → PacketAccumulator → Reply
start_packet byte a =
    adding byte (record a { buf = fresh a.buf })
      (λ b. some (none, record a { buf = b; state = waiting_for_packet_end_symbol }))

-- `case State::WaitingForPacketEndSymbol`
unfoldable pub in_packet : ℕ → PacketAccumulator → Reply
in_packet byte a = adding byte a (λ b.
    if not (byte == b'!')
    then some (none, record a { buf = b })
    else if not a.check_crc
    then some
        (from_bytes (packet b) false, record a { buf = b; state = waiting_for_packet_start_symbol })
    else some (none, record a { buf = b; state = waiting_for_crc; amount_of_crc_nibbles = 0 }))

-- `case State::WaitingForCrc`; the counter stays below 4, so its increment does not wrap.
unfoldable pub in_crc : ℕ → PacketAccumulator → Reply
in_crc byte a =
    let nibbles = a.amount_of_crc_nibbles + 1 in
    adding byte a (λ b.
      if ltb nibbles 4
      then some (none, record a { buf = b; amount_of_crc_nibbles = nibbles })
      else some (
        from_bytes (packet b) true,
        record a {
          buf = b;
          state = waiting_for_packet_start_symbol;
          amount_of_crc_nibbles = nibbles;
        },
      ))

-- The switch on `_state`.
unfoldable pub dispatch : State → ℕ → PacketAccumulator → Reply
dispatch waiting_for_packet_start_symbol byte a = some (none, a)
dispatch waiting_for_packet_end_symbol byte a = in_packet byte a
dispatch waiting_for_crc byte a = in_crc byte a

unfoldable pub process_byte : ℕ → PacketAccumulator → Reply
unfolding drop_full start_packet dispatch in_packet in_crc add fresh has_space
process_byte byte a =
    let a' = drop_full a in if byte == b'/' then start_packet byte a' else dispatch a'.state byte a'

-- A caller's loop over received bytes: the telegrams returned, in order.
unfoldable pub receive :
    Bytes → PacketAccumulator → Option (List DsmrUnencryptedTelegram × PacketAccumulator)
receive [] a = some ([], a)
receive (byte ∷ bytes) a = elim (process_byte byte a) [
  | none ↦ none
  | some (none, a') ↦ receive bytes a'
  | some (some t, a') ↦ elim (receive bytes a') [ none ↦ none | some (ts, b) ↦ some (t ∷ ts, b) ]
]
