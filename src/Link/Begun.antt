-- ===== src/Link/Begun.antt =====
-- The message in the transmit buffer, from its start bit to the last ack slot that is heard.
use avr_cec.Common.{
  ℕ, zero, suc, ◌+◌, ◌*◌, ◌-◌, ◌%◌, ◌≤◌, ◌<◌, ◌≡◌, refl, ap, ◌∙◌, subst, sym, arith, Bool, true,
  ◌&&◌, not, List, [], ◌∷◌, ◌++◌, length, get_or, length-take_le, take, ltb, if◌then◌else◌, ◌==◌,
  u8, IsBytes,
}
use avr_cec.Spec.{new_period_wait, nack, xmit_max_retransmit}
use avr_cec.Transmit.{
  Config, Tx, idle, failed, again, code, start, get_bit, count_error, finish_abort,
}
use avr_cec.Transmit.Layout.{frames}
use avr_cec.Transmit.Frame.{emit, emit_add}
use avr_cec.Transmit.Emit.{IsSent, emit-start, start_fields}
use avr_cec.Transmit.Left.{IsLeft, start-IsLeft}
use avr_cec.Receive.State.{Rx, header}
use avr_cec.Receive.Engine.{Driver, Node}
use avr_cec.Receive.Frame.{IsReceiving}
use avr_cec.Receive.Message.{start-IsReceiving}
use avr_cec.Link.Slots.{
  before_slot, wire_to-before_slot, length-before_slot, frames-before_slot, frames-slot,
}
use avr_cec.Link.Hears.{IsAtSlot}
use avr_cec.Link.Own.{ahead, fetch, talk, begin_message}
use avr_cec.Link.Acked.{
  emit_busy, aborted, started, begin_message_lem, heard_to_slot, last_ack, refused_ack, emit-IsLeft,
  fetch_busy,
}
use avr_cec.Link.{wire-acknowledge, get_or-take, take-IsBytes, acknowledge}

take-take : (k j : ℕ) (l : List ℕ) → k ≤ j → take k (take j l) ≡ take k l
take-take zero j l h = refl
take-take (suc k) zero l h = absurd (omega arith)
take-take (suc k) (suc j) [] h = refl
take-take (suc k) (suc j) (x ∷ l) h = ap (λ m. x ∷ m) (take-take k j l (omega arith))

module _ {D : Type 0} (c : Config) (v : Driver c D) where
  -- The bits of the message in the transmit buffer, and its start.
  module _ (own : ℕ → Bool) (n : Node D) (fits : n.tx.buf_end < length n.tx.buf)
      (size : length n.tx.buf ≤ 16) (bytes : IsBytes n.tx.buf) (last : n.tx.last_bit < 256) where
    abbrev message : List ℕ
    message = take (suc n.tx.buf_end) n.tx.buf

    abbrev is_long : Bool
    is_long = ltb 1 (length message)

    abbrev to_all : Bool
    to_all = get_or n.tx.buf 0 0 % 16 == 15

    length-message : length message ≡ suc n.tx.buf_end
    length-message = length-take_le (suc n.tx.buf_end) n.tx.buf fits

    first_byte : to_all ≡ (get_or message 0 0 % 16 == 15)
    first_byte =
        ap (λ a. a % 16 == 15) (sym (get_or-take (suc n.tx.buf_end) 0 n.tx.buf (omega arith)))

    is_sent : (emit c (10 * suc n.tx.buf_end) (start c n.tx)).1 ≡ frames is_long message
    is_sent = (emit-start c n.tx fits (omega arith) bytes).1

    pub started-IsSent :
        IsSent c (started c v n.tx) (emit c (10 * suc n.tx.buf_end) (started c v n.tx)).0
        × ((emit c (10 * suc n.tx.buf_end) (started c v n.tx)).1 ≡ frames is_long message)
    started-IsSent =
        emit-start c (record n.tx { needed_idle = c.idle_wait new_period_wait }) fits (omega arith)
          bytes

    started_left : IsLeft (started c v n.tx) (suc (9 + 10 * n.tx.buf_end))
    started_left =
        start-IsLeft c (record n.tx { needed_idle = c.idle_wait new_period_wait }) (omega arith)

    pub started_last : (started c v n.tx).last_bit < 256
    unfolding start
    started_last = ground (arith, last)

    pub started_retries : (started c v n.tx).retries ≡ (start c n.tx).retries
    unfolding start
    started_retries = ground arith

    pub begun_rx : header n.rx ≡ 0 → (bc : Bool) → IsReceiving bc 0 (begin_message c v n).rx
    begun_rx free bc = rw (begin_message_lem c v n) (start-IsReceiving c v bc n free)

    line :
        acknowledge to_all (emit c (10 * suc n.tx.buf_end) (start c n.tx)).1
        ≡ before_slot to_all is_long message ++ (to_all ∷ [])
    line =
        ap (acknowledge to_all) is_sent
        ∙ sym (wire-acknowledge to_all is_long message)
        ∙ wire_to-before_slot to_all is_long to_all message (omega (arith, length-message))

    abbrev data_bits : ℕ
    data_bits = length (before_slot true is_long message)

    data_bits_lem : 10 * suc n.tx.buf_end ≡ suc data_bits
    data_bits_lem = omega (
      arith,
      length-message,
      length-before_slot true is_long message (omega (arith, length-message)),
    )

    long : 0 < length message
    long = omega (arith, length-message)

    left : IsLeft (started c v n.tx) (suc (data_bits + 0))
    left =
        subst (IsLeft (started c v n.tx))
          (let e : suc (9 + 10 * n.tx.buf_end) ≡ suc (data_bits + 0) =
              omega (arith, data_bits_lem) in
            e)
          started_left

    all_bits :
        (emit c (10 * suc n.tx.buf_end) (started c v n.tx)).0
        ≡ (get_bit c (emit c data_bits (started c v n.tx)).0).0
    unfolding emit
    all_bits =
        ap (λ p. p.0)
          (emit_add c data_bits 1 (10 * suc n.tx.buf_end) (started c v n.tx)
            (omega (arith, data_bits_lem)))

    -- The whole transmission, with every frame acknowledged.
    pub acked :
        header n.rx ≡ 0
        → (talk c v own
            (acknowledge to_all (emit c (10 * suc n.tx.buf_end) (start c n.tx)).1)
            (begin_message c v n)).tx
          ≡ record (emit c (10 * suc n.tx.buf_end) (started c v n.tx)).0 { state = idle }
    acked free =
        let (r', s, e) =
          heard_to_slot c v own to_all is_long message (to_all ∷ []) (true ∷ [])
            (10 * suc n.tx.buf_end) 0 (started c v n.tx) (begin_message c v n)
            (ap (λ m. m.tx) (begin_message_lem c v n)) started_last left
            (started-IsSent.1 ∙ frames-before_slot is_long message long) long
            (omega (arith, length-message)) (take-IsBytes (suc n.tx.buf_end) n.tx.buf bytes)
            first_byte (begun_rx free to_all) in
        rw line (
          ap (λ m. m.tx) e
          ∙ last_ack c v own to_all (emit c data_bits (started c v n.tx)).0 _ refl
              (emit-IsLeft c data_bits 0 (started c v n.tx) left) s
          ∙ ap {A = Tx} (λ t. record t { state = idle }) (sym all_bits))

    started_busy : ltb 3 (code (started c v n.tx).state) ≡ true
    started_busy =
        ap (λ s. ltb 3 (code s))
          (start_fields c (record n.tx { needed_idle = c.idle_wait new_period_wait })).1

    -- What a refused ack slot does after `j` bits.
    pub refused_at :
        (all : Bool) (j : ℕ) (r' : Rx)
        → IsAtSlot all r'
        → (let u =
              (talk c v own (not all ∷ []) (record (begin_message c v n) {
                rx = r';
                tx = ahead c (emit c j (started c v n.tx)).0;
              })).tx in
            let r = u8 ((start c n.tx).retries + 1) in
            (u.retries ≡ r) × (u.state ≡ (if r == xmit_max_retransmit then failed else again)))
    refused_at all j r' at =
        let n' : Node D = record (begin_message c v n) {
          rx = r';
          tx = ahead c (emit c j (started c v n.tx)).0;
        } in
        let (on, same) = emit_busy c v j (started c v n.tx) started_busy in
        let kept : (fetch c v n').tx.retries ≡ (start c n.tx).retries =
          (fetch_busy c v n' on).1 ∙ same ∙ started_retries in
        rw (refused_ack c v own all n' on at) (
          subst
            (λ r.
              let u = finish_abort c (count_error c nack (fetch c v n').tx) in
              (u.retries ≡ u8 (r + 1))
              × (u.state ≡ (if u8 (r + 1) == xmit_max_retransmit then failed else again)))
            kept (aborted c v (fetch c v n').tx))

    -- The bits up to the ack slot of the `k`th byte.
    pub emitted :
        (k : ℕ) (e : Bool)
        → 0 < k
        → k ≤ suc n.tx.buf_end
        → e ≡ (k == suc n.tx.buf_end && ltb 0 n.tx.buf_end)
        → (rest : List Bool) × ((emit c (10 * suc n.tx.buf_end) (started c v n.tx)).1
            ≡ before_slot true e (take k n.tx.buf) ++ (true ∷ rest))
    emitted k e some within ends =
        let (rest, p) =
          frames-slot is_long e k message some (omega (arith, length-message))
            (ends ∙ ground (arith, length-message)) in
        (
          rest,
          started-IsSent.1
              ∙ p
              ∙ ap (λ m. before_slot true e m ++ (true ∷ rest))
                  (take-take k (suc n.tx.buf_end) n.tx.buf within),
        )

    pub left_at :
        (k : ℕ) (e : Bool)
        → 0 < k
        → k ≤ suc n.tx.buf_end
        → IsLeft
            (started c v n.tx)
            (suc (length (before_slot true e (take k n.tx.buf)) + (10 * suc n.tx.buf_end - 10 * k)))
    left_at k e some within =
        subst (IsLeft (started c v n.tx)) (omega (arith, bits_length, part_length)) started_left
      where
        part_length : length (take k n.tx.buf) ≡ k
        part_length = length-take_le k n.tx.buf (omega arith)

        bits_length :
            suc (length (before_slot true e (take k n.tx.buf))) ≡ 10 * length (take k n.tx.buf)
        bits_length = length-before_slot true e (take k n.tx.buf) (omega (arith, part_length))
