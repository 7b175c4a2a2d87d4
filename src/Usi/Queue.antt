-- ===== src/Usi/Queue.antt =====
-- `cec_usi_next_bit`: the next byte for the line.
use avr_cec.Common.{ℕ, ◌+◌, ◌-◌, ◌*◌, not, ◌&&◌, if◌then◌else◌, leb, ◌==◌, truth, bit_and}
use avr_cec.Spec.{start_low, one_low, zero_low, max_rise_time}
use avr_cec.Transmit.{Config, code, is, wait_for_ack, get_bit, start}
use avr_cec.Receive.Engine.{Node}
use avr_cec.Usi.{
  Usi, XmitState, usi_xmit_idle, usi_xmit_start, usi_xmit_bits, ticks_up, pat_start0, pat_start1,
  pat_1, pat_0, pat_idle, with_usi,
}

module _ (c : Config) where
  -- USI_XMIT_IDLE: a transmission starts if one is pending and enough frames have been idle.
  unfoldable pub idle_pattern : Node Usi → Node Usi × ℕ
  idle_pattern n =
      if truth (bit_and (code n.tx.state) 2) && leb n.tx.needed_idle n.drv.idle_frames
      then (
        with_usi (λ d. record d { float_ticks_max_next = 8; usi_xmit_state = usi_xmit_start })
            (record n { tx = start c n.tx }),
        pat_start0,
      )
      else (n, pat_idle)

  -- USI_XMIT_START: the second byte of the start bit.
  unfoldable pub start_pattern : Node Usi → Node Usi × ℕ
  start_pattern n = (
    with_usi
        (λ d. record d {
          float_ticks_max_next = ticks_up (start_low + max_rise_time) - 8;
          usi_xmit_state = usi_xmit_bits;
        })
        n,
    pat_start1,
  )

  -- USI_XMIT_BITS.
  unfoldable pub bit_pattern : Node Usi → Node Usi × ℕ
  bit_pattern n =
      let (t, bit) = get_bit c n.tx in
      (
        with_usi
            (λ d. record d {
              usi_xmit_state = if is t.state wait_for_ack then usi_xmit_idle else d.usi_xmit_state;
              float_ticks_max_next =
                  if bit && not (d.recv_frame == 7 * 8)
                  then ticks_up (one_low + max_rise_time)
                  else ticks_up (zero_low + max_rise_time);
            })
            (record n { tx = t }),
        if bit then pat_1 else pat_0,
      )

  unfoldable pub xmit_pattern : XmitState → Node Usi → Node Usi × ℕ
  xmit_pattern usi_xmit_idle n = idle_pattern n
  xmit_pattern usi_xmit_start n = start_pattern n
  xmit_pattern usi_xmit_bits n = bit_pattern n

  unfoldable pub next_bit : Node Usi → Node Usi × ℕ
  next_bit n = xmit_pattern n.drv.usi_xmit_state n
