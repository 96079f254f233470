-- ===== src/Accumulator/Step.antt =====
-- Every byte keeps the invariant, and what a call returns is as `IsEmitted` says.
use arduino_dsmr.Base.{
  ℕ, ◌+◌, ◌<◌, Bool, true, [], ◌∷◌, ◌++◌, ◌≡◌, ◌≢◌, refl, sym, ap, ◌∙◌, arith, Bytes, length, Lacks,
  append_assoc, append-nil, length-append, Lacks-append,
}
use arduino_dsmr.Telegram.Content.{framed}
use arduino_dsmr.Accumulator.{packet, State, waiting_for_crc, PacketAccumulator}
use arduino_dsmr.Accumulator.Buffer.{add-Added, with_byte}
use arduino_dsmr.Accumulator.Inv.{Inv, EndsIn, EndsIn-snoc, InPacket, InCrc, Plain, Holds}

module _ (limit : ℕ) (chk : Bool) (seen : Bytes) (byte : ℕ) where
  abbrev pub later : Bytes
  later = seen ++ byte ∷ []

  pub started : (p : Bytes) → p ≡ byte ∷ [] → byte ≡ b'/' → InPacket later p
  started p e s = record {
    body = [];
    holds = e ∙ ap (λ x. x ∷ []) s;
    plain = (tt, tt);
    seen_last = record { before = seen; splits = ap (λ x. seen ++ x) (sym e) };
  }

  -- One more byte of the body.
  pub grows :
      (p q : Bytes)
      → q ≡ p ++ byte ∷ []
      → byte ≢ b'/'
      → byte ≢ b'!'
      → InPacket seen p
      → InPacket later q
  grows p q e ns ne h = record {
    body = h.body ++ byte ∷ [];
    holds = e ∙ ap (λ x. x ++ byte ∷ []) h.holds;
    plain = (
      Lacks-append b'/' h.body (byte ∷ []) h.plain.0 (ns, tt),
      Lacks-append b'!' h.body (byte ∷ []) h.plain.1 (ne, tt),
    );
    seen_last = EndsIn-snoc seen p q byte e h.seen_last;
  }

  -- The '!' that ends the body.
  pub ends : (p q : Bytes) → q ≡ p ++ byte ∷ [] → byte ≡ b'!' → InPacket seen p → InCrc later q 0
  ends p q e s h = record {
    body = h.body;
    crc = [];
    holds =
        e
        ∙ ap (λ x. x ++ byte ∷ []) h.holds
        ∙ ap (λ x. b'/' ∷ (h.body ++ x ∷ [])) s
        ∙ sym (append-nil _);
    plain = h.plain;
    no_start = tt;
    counted = refl;
    few = omega arith;
    seen_last = EndsIn-snoc seen p q byte e h.seen_last;
  }

  -- One more character of the checksum, unless it is the last.
  pub counts :
      (p q : Bytes) (n : ℕ)
      → q ≡ p ++ byte ∷ []
      → byte ≢ b'/'
      → InCrc seen p n
      → (body : Bytes) × (crc : Bytes) × (q ≡ framed body ++ crc)
        × Plain body
        × Lacks b'/' crc
        × (length crc ≡ n + 1)
        × EndsIn later q
  counts p q n e ns h = (
    h.body,
    h.crc ++ byte ∷ [],
    e ∙ ap (λ x. x ++ byte ∷ []) h.holds ∙ append_assoc (framed h.body) h.crc (byte ∷ []),
    h.plain,
    Lacks-append b'/' h.crc (byte ∷ []) h.no_start (ns, tt),
    omega (arith, length-append h.crc (byte ∷ []), h.counted),
    EndsIn-snoc seen p q byte e h.seen_last,
  )

  -- The accumulator after a byte was added, in the state `st`.
  abbrev pub moved : PacketAccumulator → State → ℕ → PacketAccumulator
  moved a st n = record a { buf = with_byte byte a.buf; state = st; amount_of_crc_nibbles = n }

  pub moved-Inv :
      (a : PacketAccumulator) (st : State) (n : ℕ)
      → Inv limit chk seen a
      → a.buf.packet_size < limit
      → (st ≡ waiting_for_crc → chk ≡ true)
      → Holds st later (packet (with_byte byte a.buf)) n
      → Inv limit chk later (moved a st n)
  moved-Inv a st n v room c h = record {
    size = (add-Added byte a.buf (omega (arith, v.size))).same_memory ∙ v.size;
    in_bounds = omega arith;
    flag = v.flag;
    crc_state = c;
    holds = h;
  }
