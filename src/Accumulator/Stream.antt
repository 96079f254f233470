-- ===== src/Accumulator/Stream.antt =====
-- A stream of bytes through `process_byte`: no fault, and no telegram but those received.
use mathlib.Core.Path.{subst}
use arduino_dsmr.Base.{
  ℕ, ◌<◌, Bool, List, [], ◌∷◌, ◌++◌, Option, none, some, ◌≡◌, refl, sym, arith, Bytes, length,
  append_assoc, append-nil,
}
use arduino_dsmr.Telegram.{DsmrUnencryptedTelegram}
use arduino_dsmr.Accumulator.{accumulator, PacketAccumulator, Reply, process_byte, receive}
use arduino_dsmr.Accumulator.Inv.{Inv, IsRight, IsEmitted}
use arduino_dsmr.Accumulator.Sound.{process_byte-IsRight}

-- The telegram `t` may be returned at some point of the stream.
pub record Comes (limit : ℕ) (chk : Bool) (stream : Bytes) (t : DsmrUnencryptedTelegram)
    : Type 0 where
  pub seen : Bytes
  pub unseen : Bytes
  pub point : stream ≡ seen ++ unseen
  pub emitted : IsEmitted limit chk seen t

abbrev pub AllCome : ℕ → Bool → Bytes → List DsmrUnencryptedTelegram → Type 0
AllCome limit chk stream [] = Unit {0}
AllCome limit chk stream (t ∷ ts) = Comes limit chk stream t × AllCome limit chk stream ts

-- The outcome of a whole stream is right.
abbrev pub IsReceived :
    ℕ → Bool → Bytes → Option (List DsmrUnencryptedTelegram × PacketAccumulator) → Type 0
IsReceived limit chk stream none = ⊥
IsReceived limit chk stream (some (ts, a)) = Inv limit chk stream a × AllCome limit chk stream ts

-- A telegram in front of what the rest of the stream gives.
abbrev pub consed :
    DsmrUnencryptedTelegram
    → Option (List DsmrUnencryptedTelegram × PacketAccumulator)
    → Option (List DsmrUnencryptedTelegram × PacketAccumulator)
consed t none = none
consed t (some (ts, b)) = some (t ∷ ts, b)

module _ (byte : ℕ) (bytes : Bytes) (a : PacketAccumulator) where
  pub receive_quiet :
      (a' : PacketAccumulator)
      → process_byte byte a ≡ some (none, a')
      → receive (byte ∷ bytes) a ≡ receive bytes a'
  unfolding receive
  receive_quiet a' h = rw (h, receive)

  pub receive_telegram :
      (t : DsmrUnencryptedTelegram) (a' : PacketAccumulator)
      → process_byte byte a ≡ some (some t, a')
      → receive (byte ∷ bytes) a ≡ consed t (receive bytes a')
  unfolding receive
  receive_telegram t a' h = ground (arith, h)

IsReceived-consed :
    (limit : ℕ) (chk : Bool) (stream : Bytes) (t : DsmrUnencryptedTelegram)
    (r : Option (List DsmrUnencryptedTelegram × PacketAccumulator))
    → Comes limit chk stream t
    → IsReceived limit chk stream r
    → IsReceived limit chk stream (consed t r)
IsReceived-consed limit chk stream t none c h = h
IsReceived-consed limit chk stream t (some (ts, b)) c (v, cs) = (v, (c, cs))

receive_nil :
    (a : PacketAccumulator) (limit : ℕ) (chk : Bool) (seen : Bytes)
    → Inv limit chk seen a
    → IsReceived limit chk seen (receive [] a)
unfolding receive
receive_nil a limit chk seen v = (v, tt)

receive-IsReceived :
    (bytes : Bytes) (limit : ℕ) (chk : Bool) (seen : Bytes) (a : PacketAccumulator)
    → 0 < limit
    → Inv limit chk seen a
    → IsReceived limit chk (seen ++ bytes) (receive bytes a)
receive-IsReceived [] limit chk seen a pos v =
    subst (λ s. IsReceived limit chk s (receive [] a)) (sym (append-nil seen))
      (receive_nil a limit chk seen v)
receive-IsReceived (byte ∷ bytes) limit chk seen a pos v =
    subst (λ s. IsReceived limit chk s (receive (byte ∷ bytes) a))
      (append_assoc seen (byte ∷ []) bytes)
      (go (process_byte byte a) refl (process_byte-IsRight limit chk seen byte a pos v)
        (λ a'. receive-IsReceived bytes limit chk (seen ++ byte ∷ []) a' pos))
  where
    go :
        (r : Reply)
        → process_byte byte a ≡ r
        → IsRight limit chk (seen ++ byte ∷ []) r
        → ((a' : PacketAccumulator)
            → Inv limit chk (seen ++ byte ∷ []) a'
            → IsReceived limit chk ((seen ++ byte ∷ []) ++ bytes) (receive bytes a'))
        → IsReceived limit chk ((seen ++ byte ∷ []) ++ bytes) (receive (byte ∷ bytes) a)
    go none e bad later = absurd bad
    go (some (none, a')) e v' later =
        subst (IsReceived limit chk _) (sym (receive_quiet byte bytes a a' e)) (later a' v')
    go (some (some t, a')) e (v', em) later =
        subst (IsReceived limit chk _) (sym (receive_telegram byte bytes a t a' e)) (
          IsReceived-consed limit chk _ t (receive bytes a')
            (record { seen = seen ++ byte ∷ []; unseen = bytes; point = refl; emitted = em })
            (later a' v'))

pub accumulator-Inv :
    (buffer : Bytes) (chk : Bool) → Inv (length buffer) chk [] (accumulator buffer chk)
accumulator-Inv buffer chk = record {
  size = refl;
  in_bounds = omega arith;
  flag = refl;
  crc_state = λ e. absurd (cc);
  holds = tt;
}

-- A new accumulator with a buffer that is not empty receives any stream without a write out
-- of bounds; each telegram returned is, at some point of the stream, what was received last:
-- '/', a body with neither symbol, '!' and four characters that are its checksum (nothing, if
-- the check is off), and it fits the buffer.
pub receive_sound :
    (buffer : Bytes) (chk : Bool) (stream : Bytes)
    → 0 < length buffer
    → IsReceived (length buffer) chk stream (receive stream (accumulator buffer chk))
receive_sound buffer chk stream pos =
    receive-IsReceived stream (length buffer) chk [] (accumulator buffer chk) pos
      (accumulator-Inv buffer chk)

-- An empty buffer: the first '/' is written out of bounds.
pub receive_empty_buffer :
    (chk : Bool) (rest : Bytes) → receive (b'/' ∷ rest) (accumulator [] chk) ≡ none
unfolding receive process_byte
receive_empty_buffer chk rest = refl
