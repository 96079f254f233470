-- ===== src/Accumulator/Buffer.antt =====
-- `DsmrPacketBuffer`: a byte that is added stands behind the packet, in the caller's memory.
use native.Mathlib.Numerals.{add-one}
use arduino_dsmr.Base.{
  ℕ, ◌+◌, ◌<◌, [], ◌∷◌, ◌++◌, some, ◌≡◌, refl, ap, ◌∙◌, arith, length, take, set, take-set,
  length-set,
}
use arduino_dsmr.Accumulator.{DsmrPacketBuffer, packet, fresh, add}

-- The buffer `b'` is `b` with one more byte.
pub record Added (byte : ℕ) (b b' : DsmrPacketBuffer) : Type 0 where
  pub added : add byte b ≡ some b'
  pub grown : packet b' ≡ packet b ++ byte ∷ []
  pub same_memory : length b'.buffer ≡ length b.buffer
  pub one_more : b'.packet_size ≡ b.packet_size + 1

abbrev pub with_byte : ℕ → DsmrPacketBuffer → DsmrPacketBuffer
with_byte byte b = record {
  buffer = set b.buffer b.packet_size byte;
  packet_size = b.packet_size + 1;
}

-- Where there is space, `add` succeeds.
pub add-Added :
    (byte : ℕ) (b : DsmrPacketBuffer)
    → b.packet_size < length b.buffer
    → Added byte b (with_byte byte b)
unfolding add packet
add-Added byte b h = record {
  added = ground arith;
  grown =
      ap (λ n. take n (set b.buffer b.packet_size byte)) (add-one b.packet_size)
      ∙ take-set b.buffer b.packet_size byte h;
  same_memory = length-set b.buffer b.packet_size byte;
  one_more = refl;
}

pub packet-fresh : (b : DsmrPacketBuffer) → packet (fresh b) ≡ []
unfolding packet fresh
packet-fresh b = refl
