-- ===== src/Link/Busy.antt =====
-- A host that has not emptied its receive buffer, and sends a broadcast.
use avr_cec.Common.{
  false, truth, bit_and-nibble, ℕ, suc, ◌+◌, ◌*◌, ◌-◌, ◌%◌, ◌≤◌, ◌<◌, ◌≡◌, refl, ap, ◌∙◌, subst,
  arith, Bool, true, List, [], ◌∷◌, ◌++◌, length, get_or, take, if◌then◌else◌, ◌==◌, u8, IsBytes,
}
use avr_cec.Spec.{xmit_max_retransmit}
use avr_cec.Transmit.{Config, failed, again, start}
use avr_cec.Transmit.Frame.{emit}
use avr_cec.Transmit.Left.{IsLeft}
use avr_cec.Receive.Decode.{rx_bit}
use avr_cec.Receive.State.{Rx, header}
use avr_cec.Receive.Engine.{receive_start, Driver, Node}
use avr_cec.Link.Slots.{before_slot}
use avr_cec.Link.Hears.{Hears, byte_heard, bit_heard, nil_heard, IsAtSlot}
use avr_cec.Link.Own.{run, ahead, talk, begin_message}
use avr_cec.Receive.State.{finish_byte, judge_byte, apply_nack, eom_bit, start_flags}
use avr_cec.Transmit.Layout.{bits_from}
use avr_cec.Link.Begun.{refused_at, emitted, left_at, started_last}
use avr_cec.Link.Acked.{emit-prefix, started, begin_message_lem}

take_first : (l : List ℕ) → 0 < length l → take 1 l ≡ get_or l 0 0 ∷ []
take_first [] h = absurd (omega arith)
take_first (x ∷ l) h = refl

-- The receive side behind the first byte of a broadcast and its end-of-message bit.
abbrev behind_byte : (ℕ → Bool) → ℕ → Rx → Rx
behind_byte own x r = rx_bit own false (finish_byte own r x)

behind_byte-IsAtSlot :
    (own : ℕ → Bool) (x : ℕ) (r : Rx)
    → x < 256
    → x % 16 ≡ 15
    → r.pos ≡ 0
    → r.flags ≡ start_flags
    → truth (header r) ≡ true
    → IsAtSlot true (behind_byte own x r)
      × ((finish_byte own r x).flags.bits_eom ≡ true)
      × ((behind_byte own x r).flags.do_ack ≡ true)
unfolding finish_byte judge_byte apply_nack rx_bit eom_bit
behind_byte-IsAtSlot own x r h e p f w = ground (arith, bit_and-nibble x h, e, p, f, w)

module _ {D : Type 0} (c : Config) (v : Driver c D) where
  talk-nil : (own : ℕ → Bool) (n : Node D) → talk c v own [] n ≡ n
  unfolding talk
  talk-nil own n = refl

  begun_rx_flags :
      (n : Node D)
      → (let r = (begin_message c v n).rx in
          (r.flags ≡ start_flags) × (r.byte ≡ 1) × (r.pos ≡ 0) × (header r ≡ header n.rx))
  unfolding receive_start
  begun_rx_flags n = rw (begin_message_lem c v n) (refl, refl, refl, refl)

  module _ (own : ℕ → Bool) (n : Node D) (fits : n.tx.buf_end < length n.tx.buf)
      (size : length n.tx.buf ≤ 16) (bytes : IsBytes n.tx.buf) (last : n.tx.last_bit < 256)
      (all : get_or n.tx.buf 0 0 % 16 ≡ 15) (busy : truth (header n.rx) ≡ true) where
    abbrev first : ℕ
    first = get_or n.tx.buf 0 0

    abbrev sent_bits : List Bool
    sent_bits = bits_from 8 first ++ (false ∷ [])

    abbrev received : Rx
    received = behind_byte own first (begin_message c v n).rx

    received_lem :
        IsAtSlot true received
        × ((finish_byte own (begin_message c v n).rx first).flags.bits_eom ≡ true)
        × (received.flags.do_ack ≡ true)
    received_lem =
        let (f, b, p, h) = begun_rx_flags n in
        behind_byte-IsAtSlot own first (begin_message c v n).rx (bytes 0) all p f (rw h busy)

    sent_lem : before_slot true false (take 1 n.tx.buf) ≡ sent_bits
    sent_lem = ap (before_slot true false) (take_first n.tx.buf (omega arith))

    heard : Hears own sent_bits sent_bits (begin_message c v n).rx received
    heard =
        let (f, b, p, h) = begun_rx_flags n in
        byte_heard own first (false ∷ []) (false ∷ []) (begin_message c v n).rx received
          (ap (λ g. g.bits_eom) f) b (bytes 0)
          (bit_heard own false [] [] _ received received received_lem.1 refl
            (nil_heard own received))

    -- The host sends the first byte, and its receive side will answer in the ack slot.
    at_first_slot :
        (hs : List Bool)
        → talk c v own (sent_bits ++ hs) (begin_message c v n)
          ≡ talk c v own hs (record (begin_message c v n) {
            rx = received;
            tx = ahead c (emit c 9 (started c v n.tx)).0;
          })
    at_first_slot hs =
        let (rest, p) =
          emitted c v own n fits size bytes last 1 false (omega arith) (omega arith)
            (ground arith) in
        run c v own sent_bits sent_bits hs (10 * suc n.tx.buf_end - 10 * 1) (started c v n.tx)
          (begin_message c v n) received (ap (λ m. m.tx) (begin_message_lem c v n))
          (started_last c v own n fits size bytes last)
          (subst
            (λ l. IsLeft (started c v n.tx) (suc (length l + (10 * suc n.tx.buf_end - 10 * 1))))
            sent_lem (left_at c v own n fits size bytes last 1 false (omega arith) (omega arith)))
          (emit-prefix c (10 * suc n.tx.buf_end) (started c v n.tx) sent_bits (true ∷ rest)
            (p ∙ ap (λ l. l ++ (true ∷ rest)) sent_lem))
          heard

  -- A host in whose receive buffer a message waits refuses its own broadcast: when its receive side
  -- has heard the first byte and the end-of-message bit of a message of 1 to 16 bytes to all, it is to
  -- pull the ack slot that comes, and when this is heard as pulled the transmission is aborted, which
  -- counts a retry, and is queued again, or given up when the count is XMIT_MAX_RETRANSMIT. The
  -- driver takes the bits as in Link/Outcome. The transmit buffer holds bytes, and the memory of the
  -- last bits is a byte.
  pub own_busy :
      (own : ℕ → Bool) (n : Node D)
      → n.tx.buf_end < length n.tx.buf
      → length n.tx.buf ≤ 16
      → IsBytes n.tx.buf
      → n.tx.last_bit < 256
      → get_or n.tx.buf 0 0 % 16 ≡ 15
      → truth (header n.rx) ≡ true
      → (let bits = bits_from 8 (get_or n.tx.buf 0 0) ++ (false ∷ []) in
          let at_slot = talk c v own bits (begin_message c v n) in
          let pulled = talk c v own (bits ++ (false ∷ [])) (begin_message c v n) in
          let retries = u8 ((start c n.tx).retries + 1) in
          (at_slot.rx.flags.do_ack ≡ true)
          × (at_slot.rx.flags.bits_eom ≡ false)
          × (pulled.tx.retries ≡ retries)
          × (pulled.tx.state ≡ (if retries == xmit_max_retransmit then failed else again)))
  own_busy own n fits size bytes last all busy =
      let (s, _, a) = received_lem own n fits size bytes last all busy in
      let e =
        ap (λ m. m.rx) (at_first_slot own n fits size bytes last all busy [] ∙ talk-nil own _) in
      let r = refused_at c v own n fits size bytes last true 9 _ s in
      let q = ap (λ m. m.tx) (at_first_slot own n fits size bytes last all busy (false ∷ [])) in
      (
        ap (λ x. x.flags.do_ack) e ∙ a,
        ap (λ x. x.flags.bits_eom) e ∙ s.slot,
        ap (λ t. t.retries) q ∙ r.0,
        ap (λ t. t.state) q ∙ r.1,
      )
