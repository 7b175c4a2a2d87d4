-- ===== src/Link/Refused.antt =====
-- Refused frames of a host's own message: by the others, and by the host itself, whose buffer is full.
use avr_cec.Common.{
  ℕ, suc, ◌+◌, ◌*◌, ◌-◌, ◌%◌, ◌≤◌, ◌<◌, ◌≡◌, ap, sym, arith, Bool, true, ◌&&◌, not, List, [], ◌∷◌,
  ◌++◌, length, get_or, length-take_le, take, ltb, if◌then◌else◌, ◌==◌, u8, IsBytes,
}
use avr_cec.Spec.{xmit_max_retransmit}
use avr_cec.Transmit.{Config, failed, again, start}
use avr_cec.Transmit.Frame.{emit}
use avr_cec.Receive.State.{Rx, header}
use avr_cec.Receive.Engine.{Driver, Node}
use avr_cec.Receive.Frame.{wire_to}
use avr_cec.Link.Slots.{before_slot, wire_to-before_slot}
use avr_cec.Link.Hears.{IsAtSlot}
use avr_cec.Link.Own.{ahead, talk, begin_message}
use avr_cec.Link.Begun.{refused_at, emitted, left_at, started_last, begun_rx}
use avr_cec.Link.Acked.{started, begin_message_lem, heard_to_slot}
use avr_cec.Link.{get_or-take, take-IsBytes}

module _ {D : Type 0} (c : Config) (v : Driver c D) where
  module _ (own : ℕ → Bool) (n : Node D) (fits : n.tx.buf_end < length n.tx.buf)
      (size : length n.tx.buf ≤ 16) (bytes : IsBytes n.tx.buf) (last : n.tx.last_bit < 256) where
    -- The transmission is aborted, which counts a retry.
    abbrev pub IsAborted : Node D → Type 0
    IsAborted m =
        let r = u8 ((start c n.tx).retries + 1) in
        (m.tx.retries ≡ r) × (m.tx.state ≡ (if r == xmit_max_retransmit then failed else again))

    -- The first `k` bytes, the last of them refused.
    pub refused :
        (k : ℕ) (e : Bool)
        → header n.rx ≡ 0
        → 0 < k
        → k ≤ suc n.tx.buf_end
        → e ≡ (k == suc n.tx.buf_end && ltb 0 n.tx.buf_end)
        → (let all = get_or n.tx.buf 0 0 % 16 == 15 in
            IsAborted
              (talk c v own (wire_to all e (not all) (take k n.tx.buf)) (begin_message c v n)))
    refused k e free some within ends =
        let (r', at, p) = reached in
        rw (wire_to-before_slot all e (not all) part (omega (arith, part_length))) (
          rw p (
            refused_at c v own n fits size bytes last all (length (before_slot true e part)) r' at))
      where
        all : Bool
        all = get_or n.tx.buf 0 0 % 16 == 15

        part : List ℕ
        part = take k n.tx.buf

        part_length : length part ≡ k
        part_length = length-take_le k n.tx.buf (omega arith)

        sent :
            (rest : List Bool) × ((emit c (10 * suc n.tx.buf_end) (started c v n.tx)).1
              ≡ before_slot true e part ++ (true ∷ rest))
        sent = emitted c v own n fits size bytes last k e some within ends

        reached :
            (r' : Rx) × IsAtSlot all r'
            × (talk c v own (before_slot all e part ++ (not all ∷ [])) (begin_message c v n)
                ≡ talk c v own (not all ∷ []) (record (begin_message c v n) {
                  rx = r';
                  tx = ahead c (emit c (length (before_slot true e part)) (started c v n.tx)).0;
                }))
        reached =
            heard_to_slot c v own all e part (not all ∷ []) (true ∷ sent.0) (10 * suc n.tx.buf_end)
              (10 * suc n.tx.buf_end - 10 * k) (started c v n.tx) (begin_message c v n)
              (ap (λ m. m.tx) (begin_message_lem c v n))
              (started_last c v own n fits size bytes last)
              (left_at c v own n fits size bytes last k e some within) sent.1
              (omega (arith, part_length)) (omega (arith, part_length))
              (take-IsBytes k n.tx.buf bytes)
              (ap (λ a. a % 16 == 15) (sym (get_or-take k 0 n.tx.buf some)))
              (begun_rx c v own n fits size bytes last free all)
