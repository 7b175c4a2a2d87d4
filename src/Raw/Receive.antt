-- ===== src/Raw/Receive.antt =====
-- `cec_receive_periodic` of cec_receive_min.c.
use avr_cec.Common.{ℕ, ◌+◌, ◌-◌, Bool, true, false, not, ◌&&◌, same, if◌then◌else◌, ltb, u16}
use avr_cec.Spec.{
  hw, no_eom, low_drive, t3, t4, t5_early0, t7_early_end, start_low_early, start_low_late,
  start_high_early,
}
use avr_cec.Macros.Time.{Clock, us_to_jiffies, us_to_jiffies_up, us_to_jiffies_rnd}
use avr_cec.Transmit.{Config}
use avr_cec.Receive.State.{any_flag}
use avr_cec.Receive.Engine.{Node, receive_error, receive_start, receive_bit}
use avr_cec.Raw.{Raw, Sampler, add_capped, raw_driver}

-- Writes to the driver's variables.
abbrev pub with_sampler : (Sampler → Sampler) → Node Raw → Node Raw
with_sampler f n = let d = n.drv in record n { drv = record d { sampler = f d.sampler } }

module _ (k : Clock) (c : Config) (own : ℕ → Bool) (state : Bool) where
  -- The timer, before anything else.
  unfoldable pub advance : ℕ → Node Raw → Node Raw
  advance delta = with_sampler λ s. record s { frame_timer = add_capped s.frame_timer delta }

  -- The sample window.
  unfoldable pub take_sample : Node Raw → Node Raw
  take_sample n =
      if n.drv.sampler.sample && ltb (us_to_jiffies k t3) n.drv.sampler.frame_timer
      then (let n' = with_sampler (λ s. record s { sample = false }) n in
          if ltb (us_to_jiffies_up k t4) n.drv.sampler.frame_timer
          then receive_error c (raw_driver k c) hw n'
          else receive_bit c (raw_driver k c) own state n')
      else n

  -- The end of an ack or a nack.
  unfoldable pub end_ack : Node Raw → Node Raw
  end_ack n =
      if ltb n.drv.sampler.ack_done n.drv.sampler.frame_timer
      then with_sampler (λ s. record s { driven = false }) n
      else n

  -- No transition: a frame that takes too long.
  unfoldable pub no_edge : Node Raw → Node Raw
  no_edge n =
      if ltb (u16 (n.drv.sampler.frame_period + u16 (us_to_jiffies_up k 800)))
        n.drv.sampler.frame_timer
      then receive_error c (raw_driver k c) no_eom n
      else n

  -- A rising edge: the low part of a start bit.
  unfoldable pub rising_edge : Node Raw → Node Raw
  rising_edge n =
      if ltb (us_to_jiffies k start_low_early) n.drv.sampler.frame_timer
        && ltb n.drv.sampler.frame_timer (us_to_jiffies_up k start_low_late)
      then receive_start c (raw_driver k c) (
          with_sampler
            (λ s. record s { frame_period = u16 (us_to_jiffies_rnd k (start_high_early - 200)) }) n)
      else n

  -- A falling edge: the frame before it was too short, or a bit begins.
  unfoldable pub begin_bit : Node Raw → Node Raw
  begin_bit n =
      if ltb n.drv.sampler.frame_timer n.drv.sampler.frame_period
      then receive_error c (raw_driver k c) low_drive n
      else (let n' =
            (if n.rx.flags.do_ack && not n.rx.flags.bits_eom
              then with_sampler
                  (λ s. record s { driven = true; ack_done = u16 (us_to_jiffies k t5_early0) }) n
              else n) in
          with_sampler (λ s. record s { sample = true }) n')

  unfoldable pub falling_edge : Node Raw → Node Raw
  falling_edge n =
      let n' = (if any_flag n.rx.flags then begin_bit n else n) in
      with_sampler
        (λ s. record s {
          frame_period = u16 (us_to_jiffies_rnd k (t7_early_end - 50));
          frame_timer = 0;
        })
        n'

  unfoldable pub edges : Node Raw → Node Raw
  edges n =
      if same state n.drv.sampler.last_state
      then no_edge n
      else (if state then rising_edge n else falling_edge n)

  unfoldable pub receive_periodic : ℕ → Node Raw → Node Raw
  receive_periodic delta n =
      with_sampler (λ s. record s { last_state = state })
        (edges (end_ack (take_sample (advance delta n))))
