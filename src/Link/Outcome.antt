-- ===== src/Link/Outcome.antt =====
-- What becomes of a transmission that its host hears: it succeeds when every frame is acknowledged,
-- and is aborted when one is refused.
use avr_cec.Common.{
  ℕ, suc, ◌+◌, ◌*◌, ◌%◌, ◌≤◌, ◌<◌, ◌≡◌, refl, ap, ◌∙◌, sym, Bool, not, length, get_or, take, ltb,
  if◌then◌else◌, ◌==◌, ◌&&◌, u8, IsBytes, List,
}
use avr_cec.Spec.{present_period_wait, xmit_max_retransmit}
use avr_cec.Transmit.{Config, idle, failed, again, start}
use avr_cec.Transmit.Frame.{emit}
use avr_cec.Receive.State.{header}
use avr_cec.Receive.Engine.{Driver, Node, receive_start}
use avr_cec.Receive.Decode.{rx_feed, feed, feed-rx}
use avr_cec.Receive.Frame.{wire_to}
use avr_cec.Link.Own.{talk, begin_message}
use avr_cec.Link.Acked.{begin_message_lem, talk-rx}
use avr_cec.Link.Begun.{acked, started-IsSent, started_retries}
use avr_cec.Link.Refused.{refused}
use avr_cec.Link.{acknowledge}

module _ {D : Type 0} (c : Config) (v : Driver c D) where
  -- The receive side does with the bits what it does with those of another host.
  heard_alike :
      (own : ℕ → Bool) (bs : List Bool) (n : Node D)
      → (talk c v own bs (begin_message c v n)).rx ≡ (feed c v own bs (receive_start c v n)).rx
  heard_alike own bs n =
      talk-rx c v own bs (begin_message c v n)
      ∙ ap (λ m. rx_feed own bs m.rx) (begin_message_lem c v n)
      ∙ sym (feed-rx c v own bs (receive_start c v n))

  -- A host that sends a message of 1 to 16 bytes, a poll included, and whose receive side hears every
  -- bit of it as it was sent, but in the ack slots the acknowledgement of its target or, for a
  -- broadcast, nobody's refusal, ends with the transmission reported as successful: the state is
  -- IDLE, no retry is counted, and the wait is that of a present initiator. Its receive side has done
  -- what it does with the same bits of another host. The driver takes a bit to send before each bit
  -- that is heard, and with CHECK_BIT_DELAY it is one bit further ahead. The transmit buffer holds
  -- bytes, the memory of the last bits is a byte, and the host's receive buffer is free.
  pub own_acked :
      (own : ℕ → Bool) (n : Node D)
      → n.tx.buf_end < length n.tx.buf
      → length n.tx.buf ≤ 16
      → IsBytes n.tx.buf
      → n.tx.last_bit < 256
      → header n.rx ≡ 0
      → (let sent = (emit c (10 * suc n.tx.buf_end) (start c n.tx)).1 in
          let heard = acknowledge (get_or n.tx.buf 0 0 % 16 == 15) sent in
          let n' = talk c v own heard (begin_message c v n) in
          (n'.tx.state ≡ idle)
          × (n'.tx.retries ≡ (start c n.tx).retries)
          × (n'.tx.needed_idle ≡ c.idle_wait present_period_wait)
          × (n'.rx ≡ (feed c v own heard (receive_start c v n)).rx))
  own_acked own n fits size bytes last free =
      let e = acked c v own n fits size bytes last free in
      let s = (started-IsSent c v own n fits size bytes last).0 in
      (
        ap (λ t. t.state) e,
        ap (λ t. t.retries) e ∙ s.same_retries ∙ started_retries c v own n fits size bytes last,
        ap (λ t. t.needed_idle) e ∙ s.initiator,
        heard_alike own _ n,
      )

  -- A host that sends a message of 1 to 16 bytes and whose receive side hears the frames up to the
  -- `k`th as they were sent, each acknowledged but the `k`th, which is refused (nobody pulls the slot
  -- of a message to one host, or somebody that of a broadcast), has its transmission aborted and
  -- counts a retry: the message is queued again, or given up when the count is XMIT_MAX_RETRANSMIT.
  -- Its receive side has done what it does with the same bits of another host. The driver takes the
  -- bits as in own_acked. The transmit buffer holds bytes, the memory of the last bits is a byte, and
  -- the host's receive buffer is free.
  pub own_refused :
      (own : ℕ → Bool) (n : Node D) (k : ℕ)
      → n.tx.buf_end < length n.tx.buf
      → length n.tx.buf ≤ 16
      → IsBytes n.tx.buf
      → n.tx.last_bit < 256
      → header n.rx ≡ 0
      → 0 < k
      → k ≤ suc n.tx.buf_end
      → (let all = get_or n.tx.buf 0 0 % 16 == 15 in
          let eom = (k == suc n.tx.buf_end && ltb 0 n.tx.buf_end) in
          let heard = wire_to all eom (not all) (take k n.tx.buf) in
          let n' = talk c v own heard (begin_message c v n) in
          let retries = u8 ((start c n.tx).retries + 1) in
          (n'.tx.retries ≡ retries)
          × (n'.tx.state ≡ (if retries == xmit_max_retransmit then failed else again))
          × (n'.rx ≡ (feed c v own heard (receive_start c v n)).rx))
  own_refused own n k fits size bytes last free some within =
      let (r, s) = refused c v own n fits size bytes last k _ free some within refl in
      (r, s, heard_alike own _ n)
