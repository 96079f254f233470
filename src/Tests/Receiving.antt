-- ===== src/Tests/Receiving.antt =====
-- The accumulator on a packet "/a!" with its checksum.
use mathlib.Core.Option
use arduino_dsmr.Base.{
  true, false, [], ◌∷◌, ◌++◌, some, ◌≡◌, refl, arith, codes, Lacks, Lacks-find-none, find,
}
use arduino_dsmr.Crc.{calculate_crc16, to_crc}
use arduino_dsmr.Telegram.{from_bytes}
use arduino_dsmr.Telegram.Content.{framed, with_suffix, without_suffix}
use arduino_dsmr.Telegram.Integrity.{IsChecksumOf}
use arduino_dsmr.Accumulator.{
  PacketAccumulator, packet, waiting_for_crc, accumulator, process_byte, receive,
}
use arduino_dsmr.Accumulator.Inv.{Inv, IsRight}
use arduino_dsmr.Accumulator.Sound.{process_byte-IsRight}
use arduino_dsmr.Accumulator.Stream.{IsReceived, receive_sound, accumulator-Inv}
use arduino_dsmr.Accumulator.Complete.{Delivers, Delivers-checked, Delivers-unchecked}

-- After "x/a!" and three characters, with the check on.
abbrev in_the_checksum : PacketAccumulator
in_the_checksum = record {
  state = waiting_for_crc;
  buf = record { buffer = codes "/a!41D..."; packet_size = 6 };
  amount_of_crc_nibbles = 3;
  check_crc = true;
}

in_the_checksum-Inv : Inv 9 true (codes "x/a!41D") in_the_checksum
unfolding packet find
in_the_checksum-Inv = record {
  size = refl;
  in_bounds = omega arith;
  flag = refl;
  crc_state = λ _. refl;
  holds = record {
    body = codes "a";
    crc = codes "41D";
    holds = refl;
    plain = ((omega arith, tt), (omega arith, tt));
    no_start = Lacks-find-none b'/' (codes "41D") refl;
    counted = refl;
    few = omega arith;
    seen_last = record { before = codes "x"; splits = refl };
  };
}

no_start_in_crc : Lacks b'/' (codes "41D8")
unfolding find
no_start_in_crc = Lacks-find-none b'/' (codes "41D8") refl

process_byte-IsRight_example :
    IsRight 9 true (codes "x/a!41D" ++ b'8' ∷ []) (process_byte b'8' in_the_checksum)
process_byte-IsRight_example =
    process_byte-IsRight 9 true (codes "x/a!41D") b'8' in_the_checksum (omega arith)
      in_the_checksum-Inv

-- That byte gives the telegram.
the_telegram :
    Option.map (λ r. r.0) (process_byte b'8' in_the_checksum)
    ≡ some (some (with_suffix (codes "a") (codes "41D8")))
unfolding process_byte packet from_bytes to_crc calculate_crc16 find
the_telegram = refl

receive_sound_example :
    IsReceived 9 true
      (codes "/b/a!41D8!")
      (receive (codes "/b/a!41D8!") (accumulator (codes ".........") true))
receive_sound_example = receive_sound (codes ".........") true (codes "/b/a!41D8!") (omega arith)

a-IsChecksumOf : IsChecksumOf (codes "a") (codes "41D8")
unfolding to_crc calculate_crc16
a-IsChecksumOf = (refl, refl)

Delivers-checked_example :
    Delivers
      (framed (codes "a") ++ codes "41D8")
      in_the_checksum
      (with_suffix (codes "a") (codes "41D8"))
Delivers-checked_example =
    Delivers-checked 9 true (codes "x/a!41D") in_the_checksum in_the_checksum-Inv (codes "a")
      ((omega arith, tt), (omega arith, tt)) (codes "41D8") refl no_start_in_crc a-IsChecksumOf
      (omega arith)

Delivers-unchecked_example :
    Delivers (framed (codes "a")) (accumulator (codes "....") false) (without_suffix (codes "a"))
Delivers-unchecked_example =
    Delivers-unchecked 4 false [] (accumulator (codes "....") false)
      (accumulator-Inv (codes "....") false) (codes "a") ((omega arith, tt), (omega arith, tt)) refl
      (omega arith)
