-- ===== src/Raw/AtRest.antt =====
-- What `cec_receive_periodic` of cec_receive_min.c does at a host whose transmit side is idle: it leaves the
-- variables of the PWM driver, and the transmit side but for the wait.
use avr_cec.Common.{ℕ, ◌≡◌, refl, ◌∙◌, arith, Bool, false}
use avr_cec.Spec.{hw, no_eom, low_drive}
use avr_cec.Macros.Time.{Clock}
use avr_cec.Transmit.{Config, idle}
use avr_cec.Receive.Engine.{Node, receive_start}
use avr_cec.Receive.AtRest.{sending, still_idle, receive_error-sending, receive_bit-sending}
use avr_cec.Raw.{Raw, Sender, raw_driver, nack_frame}
use avr_cec.Common.{List, [], ◌∷◌}
use avr_cec.Raw.Wave.{Poll}
use avr_cec.Raw.Heard.{polls}
use avr_cec.Raw.Receive.{
  with_sampler, advance, take_sample, end_ack, no_edge, rising_edge, begin_bit, falling_edge, edges,
  receive_periodic,
}

abbrev pwm_of : Raw → Sender
pwm_of d = d.pwm

module _ (k : Clock) (c : Config) (own : ℕ → Bool) (b : Bool) where
  nack_frame-pwm : (d : Raw) → pwm_of (nack_frame k d) ≡ pwm_of d
  unfolding nack_frame
  nack_frame-pwm d = refl

  take_sample-sending :
      (n : Node Raw)
      → n.tx.state ≡ idle
      → sending pwm_of (take_sample k c own b n) ≡ sending pwm_of n
  unfolding take_sample
  take_sample-sending n h =
      let m = with_sampler (λ s. record s { sample = false }) n in
      ground (
        arith,
        receive_error-sending c (raw_driver k c) pwm_of nack_frame-pwm hw m h,
        receive_bit-sending c (raw_driver k c) pwm_of nack_frame-pwm own b m h,
      )

  end_ack-sending : (n : Node Raw) → sending pwm_of (end_ack k c own b n) ≡ sending pwm_of n
  unfolding end_ack
  end_ack-sending n = ground arith

  begin_bit-sending :
      (n : Node Raw) → n.tx.state ≡ idle → sending pwm_of (begin_bit k c own b n) ≡ sending pwm_of n
  unfolding begin_bit
  begin_bit-sending n h =
      ground (arith, receive_error-sending c (raw_driver k c) pwm_of nack_frame-pwm low_drive n h)

  edges-sending :
      (n : Node Raw) → n.tx.state ≡ idle → sending pwm_of (edges k c own b n) ≡ sending pwm_of n
  unfolding edges no_edge rising_edge falling_edge receive_start
  edges-sending n h = ground (
    arith,
    begin_bit-sending n h,
    receive_error-sending c (raw_driver k c) pwm_of nack_frame-pwm no_eom n h,
  )

  pub receive_periodic-sending :
      (delta : ℕ) (n : Node Raw)
      → n.tx.state ≡ idle
      → sending (λ d. d.pwm) (receive_periodic k c own b delta n) ≡ sending (λ d. d.pwm) n
  unfolding receive_periodic advance
  receive_periodic-sending delta n h =
      let m = advance k c own b delta n in
      let s = take_sample k c own b m in
      let a = end_ack k c own b s in
      let p = take_sample-sending m h in
      edges-sending a (still_idle pwm_of s a (end_ack-sending s) (still_idle pwm_of m s p h))
      ∙ end_ack-sending s
      ∙ p

module _ (k : Clock) (c : Config) (own : ℕ → Bool) where
  -- While the transmit side is idle, calls of `cec_receive_periodic`, whatever the line does in them, leave
  -- the whole transmit side as it is, but for the wait, and so the variables and registers of the PWM
  -- driver: no bit, ack or error that is reported to it aborts or counts anything.
  pub polls-sending :
      (l : List Poll) (n : Node Raw)
      → n.tx.state ≡ idle
      → sending (λ d. d.pwm) (polls k c own (λ j u. u) l n) ≡ sending (λ d. d.pwm) n
  unfolding polls
  polls-sending [] n h = refl
  polls-sending (q ∷ l) n h =
      let m = receive_periodic k c own q.line q.delta n in
      let e = receive_periodic-sending k c own q.line q.delta n h in
      polls-sending l m (still_idle pwm_of n m e h) ∙ e
