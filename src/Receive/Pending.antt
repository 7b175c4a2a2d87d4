-- ===== src/Receive/Pending.antt =====
-- A message that the application has not taken is kept, whatever arrives.
use avr_cec.Common.{
  ℕ, ◌<◌, ◌≡◌, ◌≢◌, ◌⊎◌, inl, inr, refl, ◌∙◌, arith, bit_and, Bool, true, false, ◌||◌, not, List,
  [], ◌∷◌, truth, ap, ap₂, below_top, get_or, bit_or-bit, Bool-cases,
}
use avr_cec.Transmit.{Config}
use avr_cec.Receive.State.{
  Rx, no_flags, header, data_bit, eom_bit, ack_bit, finish_byte, judge_byte, apply_nack, shift_in,
}
use avr_cec.Receive.Engine.{Driver, Node, receive_start}
use avr_cec.Receive.Message.{rx_feed-idle}
use avr_cec.Receive.Decode.{
  ack_bit-more, ack_bit-over, rx_bit-data, rx_bit-eom, rx_bit-ack, rx_bit, rx_feed, feed, feed-rx,
}

-- The buffer is as in `r`, with a message in it, and what is being received is either the first
-- byte, of which no bit is decided, or a message that is ignored.
record IsKept (r s : Rx) : Type 0 where
  same_buf : s.buf ≡ r.buf
  same_hdr : s.hdr ≡ r.hdr
  byte_in : s.byte < 256
  stage :
      (s.flags.ignore ≡ true) ⊎ ((s.pos ≡ 0) × (s.flags.bits_eom ≡ true) × (truth s.byte ≡ true))

shift_in_pos :
    (b : ℕ) (bit : Bool)
    → b < 128
    → truth b ≡ true
    → (truth (shift_in b bit) ≡ true) × (shift_in b bit < 256)
unfolding shift_in
shift_in_pos b bit h p = ground (arith, bit_or-bit b bit)

-- What a finished byte leaves alone, and that the message is ignored from there.
record IsDropped (s s' : Rx) : Type 0 where
  buf_kept : s'.buf ≡ s.buf
  hdr_kept : s'.hdr ≡ s.hdr
  byte_done : s'.byte ≡ 0
  ignored : s'.flags.ignore ≡ true

first_byte-IsDropped :
    (own : ℕ → Bool) (b : ℕ) (s : Rx)
    → s.pos ≡ 0
    → truth (header s) ≡ true
    → IsDropped s (finish_byte own s b)
unfolding finish_byte judge_byte apply_nack
first_byte-IsDropped own b s z e = ground arith

ignored_byte-IsDropped :
    (own : ℕ → Bool) (b : ℕ) (s : Rx) → s.flags.ignore ≡ true → IsDropped s (finish_byte own s b)
unfolding finish_byte judge_byte apply_nack
ignored_byte-IsDropped own b s e = ground arith

module _ (own : ℕ → Bool) (r : Rx) (waiting : truth (header r) ≡ true) where
  header_kept : (s : Rx) → IsKept r s → truth (header s) ≡ true
  header_kept s k = ap₂ (λ b h. truth (get_or b h 0)) k.same_buf k.same_hdr ∙ waiting

  shifted-IsKept :
      (b : Bool) (s : Rx)
      → IsKept r s
      → truth s.byte ≡ true
      → truth (bit_and s.byte 128) ≡ false
      → IsKept r (record s { byte = shift_in s.byte b })
  shifted-IsKept b s k p more =
      let q = shift_in_pos s.byte b (below_top s.byte k.byte_in more) p in
      record {
        same_buf = k.same_buf;
        same_hdr = k.same_hdr;
        byte_in = q.1;
        stage = ground (arith, k.stage, q.0);
      }

  data_bit-IsKept :
      (b : Bool) (s : Rx) → IsKept r s → truth s.byte ≡ true → IsKept r (data_bit own b s)
  unfolding data_bit
  data_bit-IsKept b s k p = elim (Bool-cases (truth (bit_and s.byte 128))) [
    | inl full ↦ rw full (finished k.stage)
    | inr more ↦ rw more (shifted-IsKept b s k p more)
  ]
    where
      dropped :
          IsDropped s (finish_byte own s (shift_in s.byte b))
          → IsKept r (finish_byte own s (shift_in s.byte b))
      dropped d = record {
        same_buf = d.buf_kept ∙ k.same_buf;
        same_hdr = d.hdr_kept ∙ k.same_hdr;
        byte_in = rw d.byte_done (omega arith);
        stage = inl d.ignored;
      }

      finished :
          (s.flags.ignore ≡ true)
            ⊎ ((s.pos ≡ 0) × (s.flags.bits_eom ≡ true) × (truth s.byte ≡ true))
          → IsKept r (finish_byte own s (shift_in s.byte b))
      finished (inl i) = dropped (ignored_byte-IsDropped own _ s i)
      finished (inr z) = dropped (first_byte-IsDropped own _ s z.0 (header_kept s k))

  eom_bit-IsKept : (b : Bool) (s : Rx) → IsKept r s → truth s.byte ≡ false → IsKept r (eom_bit b s)
  unfolding eom_bit
  eom_bit-IsKept b s k e = ground arith

  ack_bit-end :
      (b : Bool) (s : Rx)
      → (not b || s.flags.eom) ≡ true
      → s.flags.ignore ≡ true
      → ack_bit b s ≡ record s { flags = no_flags }
  ack_bit-end b s e i = ack_bit-over b s e ∙ (let f = s.flags in rw i)

  -- The message is kept, and it is being kept, or the reception has ended.
  abbrev Held : Rx → Type 0
  Held s = (IsKept r s) ⊎ ((s.buf ≡ r.buf) × (s.flags ≡ no_flags))

  ack_bit-Held : (b : Bool) (s : Rx) → IsKept r s → s.flags.ignore ≡ true → Held (ack_bit b s)
  ack_bit-Held b s k i = elim (Bool-cases (not b || s.flags.eom)) [
    | inl over ↦ rw (ack_bit-end b s over i) (inr (k.same_buf, refl))
    | inr more ↦ rw (ack_bit-more b s more) (
        inl (record {
          same_buf = k.same_buf;
          same_hdr = k.same_hdr;
          byte_in = omega arith;
          stage = inl i;
        }))
  ]

  rx_bit-Held : (b : Bool) (s : Rx) → IsKept r s → Held (rx_bit own b s)
  rx_bit-Held b s k = elim (Bool-cases s.flags.bits_eom) [
    | inl bits ↦ elim (Bool-cases (truth s.byte)) [
      | inl p ↦ rw (rx_bit-data own b s bits p) (inl (data_bit-IsKept b s k p))
      | inr z ↦ rw (rx_bit-eom own b s bits z) (inl (eom_bit-IsKept b s k z))
    ]
    | inr slot ↦ rw (rx_bit-ack own b s slot) (ack_bit-Held _ s k (ground (arith, k.stage)))
  ]

  rx_feed-buf : (bs : List Bool) (s : Rx) → Held s → (rx_feed own bs s).buf ≡ r.buf
  unfolding rx_feed
  rx_feed-buf [] s (inl k) = k.same_buf
  rx_feed-buf [] s (inr e) = e.0
  rx_feed-buf (b ∷ bs) s (inl k) =
      ground (arith, rx_feed-buf bs (rx_bit own b s) (rx_bit-Held b s k), k.same_buf)
  rx_feed-buf (b ∷ bs) s (inr e) = ap (λ t. t.buf) (rx_feed-idle own (b ∷ bs) s e.1) ∙ e.0

module _ {D : Type 0} (c : Config) (v : Driver c D) where
  -- While a message waits for the application, whatever bits follow a start bit leave the whole
  -- receive buffer as it is, header byte included.
  pub waiting_message_kept :
      (own : ℕ → Bool) (bs : List Bool) (n : Node D)
      → header n.rx ≢ 0
      → (feed c v own bs (receive_start c v n)).rx.buf ≡ n.rx.buf
  unfolding receive_start
  waiting_message_kept own bs n h =
      ap (λ r. r.buf) (feed-rx c v own bs _)
      ∙ rx_feed-buf own n.rx (ground (arith, h)) bs _ (
          inl (record {
            same_buf = refl;
            same_hdr = refl;
            byte_in = omega arith;
            stage = inr (refl, refl, refl);
          }))
