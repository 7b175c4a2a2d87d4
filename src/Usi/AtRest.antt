-- ===== src/Usi/AtRest.antt =====
-- What the calls of the USI driver do at a host whose transmit side is idle, up to `cec_usi_next_bit`: they
-- leave `usi_xmit_state`, and the transmit side but for the wait.
use avr_cec.Common.{ℕ, zero, suc, ◌*◌, ◌≡◌, refl, ◌∙◌, arith, Bool, not, truth, bit_and, u8}
use avr_cec.Spec.{no_eom, low_drive, arb_lost}
use avr_cec.Transmit.{Config, idle}
use avr_cec.Receive.Engine.{Node, receive_start}
use avr_cec.Receive.AtRest.{
  sending, still_idle, on_error-idle, receive_error-sending, receive_bit-sending,
}
use avr_cec.Usi.{Usi, XmitState, usi_driver, nack_frame, with_usi}
use avr_cec.Usi.Tick.{
  take_bit, no_transition, next_frame, tick_falls, tick_rises, next_tick, process_tick,
  process_bits,
}
use avr_cec.Usi.Periodic.{check_line}

abbrev pub xmit_of : Usi → XmitState
xmit_of d = d.usi_xmit_state

module _ (c : Config) (tcnt0 : ℕ) (own : ℕ → Bool) where
  nack_frame-xmit : (d : Usi) → xmit_of (nack_frame d) ≡ xmit_of d
  unfolding nack_frame
  nack_frame-xmit d = refl

  module _ (b : Bool) where
    take_bit-sending :
        (n : Node Usi)
        → n.tx.state ≡ idle
        → sending xmit_of (take_bit c tcnt0 own b n) ≡ sending xmit_of n
    unfolding take_bit
    take_bit-sending n h =
        ground (arith, receive_bit-sending c (usi_driver c tcnt0) xmit_of nack_frame-xmit own b n h)

    no_transition-sending :
        (n : Node Usi)
        → n.tx.state ≡ idle
        → sending xmit_of (no_transition c tcnt0 own b n) ≡ sending xmit_of n
    unfolding no_transition
    no_transition-sending n h =
        ground
          (arith, receive_error-sending c (usi_driver c tcnt0) xmit_of nack_frame-xmit no_eom n h)

    next_frame-sending :
        (n : Node Usi) → sending xmit_of (next_frame c tcnt0 own b n) ≡ sending xmit_of n
    unfolding next_frame
    next_frame-sending n = ground arith

    tick_falls-sending :
        (n : Node Usi)
        → n.tx.state ≡ idle
        → sending xmit_of (tick_falls c tcnt0 own b n) ≡ sending xmit_of n
    unfolding tick_falls receive_start
    tick_falls-sending n h =
        let m = next_frame c tcnt0 own b n in
        let e = next_frame-sending n in
        ground (
          arith,
          e,
          receive_error-sending c (usi_driver c tcnt0) xmit_of nack_frame-xmit low_drive m
              (still_idle xmit_of n m e h),
        )

    tick_rises-sending :
        (n : Node Usi) → sending xmit_of (tick_rises c tcnt0 own b n) ≡ sending xmit_of n
    unfolding tick_rises
    tick_rises-sending n = ground arith

    process_tick-sending :
        (n : Node Usi)
        → n.tx.state ≡ idle
        → sending xmit_of (process_tick c tcnt0 own b n) ≡ sending xmit_of n
    unfolding process_tick
    process_tick-sending n h =
        let m = with_usi (λ d. record d { recv_frame_tick = next_tick d.recv_frame_tick }) n in
        let n' = take_bit c tcnt0 own b m in
        let e = take_bit-sending m h in
        let h' = still_idle xmit_of m n' e h in
        ground
          (arith, e, no_transition-sending n' h', tick_falls-sending n' h', tick_rises-sending n')

  pub process_bits-sending :
      (j buf : ℕ) (n : Node Usi)
      → n.tx.state ≡ idle
      → sending xmit_of (process_bits c tcnt0 own j buf n) ≡ sending xmit_of n
  unfolding process_bits
  process_bits-sending zero buf n h = refl
  process_bits-sending (suc j) buf n h =
      let b = not (truth (bit_and buf 128)) in
      let m = process_tick c tcnt0 own b n in
      let e = process_tick-sending b n h in
      process_bits-sending j (u8 (buf * 2)) m (still_idle xmit_of n m e h) ∙ e

  pub check_line-sending :
      (hook : Node Usi → Node Usi) (line : Bool) (n : Node Usi)
      → n.tx.state ≡ idle
      → sending xmit_of (check_line c tcnt0 hook own line n) ≡ sending xmit_of n
  unfolding check_line
  check_line-sending hook line n h =
      let m = with_usi (λ d. record d { float_ticks_max = d.float_ticks_max_next }) n in
      ground (
        arith,
        on_error-idle c (usi_driver c tcnt0) xmit_of nack_frame-xmit arb_lost n h,
        on_error-idle c (usi_driver c tcnt0) xmit_of nack_frame-xmit arb_lost m h,
      )
