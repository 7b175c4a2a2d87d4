-- ===== src/Raw/View.antt =====
-- What `cec_receive_periodic` of cec_receive_min.c computes, without the transmit side and the pins: the
-- receive side, and the variables of the driver that its decisions depend on.
use avr_cec.Common.{
  ℕ, ◌+◌, ◌-◌, ◌≡◌, arith, Bool, true, false, not, ◌&&◌, same, if◌then◌else◌, ltb, u16,
}
use avr_cec.Spec.{
  Err, hw, no_eom, low_drive, arb_lost, nack, t3, t4, t7_early_end, start_low_early, start_low_late,
  start_high_early,
}
use avr_cec.Macros.Time.{Clock, us_to_jiffies, us_to_jiffies_up, us_to_jiffies_rnd}
use avr_cec.Transmit.{Config}
use avr_cec.Receive.State.{Rx, any_flag}
use avr_cec.Receive.Engine.{
  Node, on_error, receive_error, receive_start, receive_bit, check_tx_bit, receive_ack,
}
use avr_cec.Receive.Decode.{rx_bit, rx_error, rx_start}
use avr_cec.Raw.{Raw, add_capped, raw_driver, abort, nack_frame}
use avr_cec.Raw.Receive.{
  with_sampler, advance, take_sample, end_ack, no_edge, rising_edge, begin_bit, falling_edge, edges,
  receive_periodic,
}

pub record View : Type 0 where
  pub rx : Rx
  pub period : ℕ
  pub timer : ℕ
  pub last : Bool
  pub sample : Bool

abbrev pub view : Node Raw → View
view n = record {
  rx = n.rx;
  period = n.drv.sampler.frame_period;
  timer = n.drv.sampler.frame_timer;
  last = n.drv.sampler.last_state;
  sample = n.drv.sampler.sample;
}

-- An error; one in a broadcast restarts the timer.
unfoldable pub view_error : View → View
view_error v = record v {
  rx = rx_error v.rx;
  timer = if any_flag v.rx.flags && v.rx.flags.bcast then 0 else v.timer;
}

module _ (k : Clock) (own : ℕ → Bool) (b : Bool) where
  unfoldable pub view_sample : View → View
  view_sample v =
      if v.sample && ltb (us_to_jiffies k t3) v.timer
      then (let v' = record v { sample = false } in
          if ltb (us_to_jiffies_up k t4) v.timer
          then view_error v'
          else record v' { rx = rx_bit own b v.rx })
      else v

  unfoldable pub view_stays : View → View
  view_stays v =
      if ltb (u16 (v.period + u16 (us_to_jiffies_up k 800))) v.timer then view_error v else v

  unfoldable pub view_rises : View → View
  view_rises v =
      if ltb (us_to_jiffies k start_low_early) v.timer
        && ltb v.timer (us_to_jiffies_up k start_low_late)
      then record v {
        rx = rx_start v.rx;
        period = u16 (us_to_jiffies_rnd k (start_high_early - 200));
      }
      else v

  unfoldable pub view_begins : View → View
  view_begins v = if ltb v.timer v.period then view_error v else record v { sample = true }

  unfoldable pub view_falls : View → View
  view_falls v = record (if any_flag v.rx.flags then view_begins v else v) {
    period = u16 (us_to_jiffies_rnd k (t7_early_end - 50));
    timer = 0;
  }

  unfoldable pub view_edges : View → View
  view_edges v =
      record (if same b v.last then view_stays v else (if b then view_rises v else view_falls v)) {
        last = b;
      }

  unfoldable pub view_call : ℕ → View → View
  view_call delta v = view_edges (view_sample (record v { timer = add_capped v.timer delta }))

module _ (k : Clock) (c : Config) where
  on_error-view : (e : Err) (n : Node Raw) → view (on_error c (raw_driver k c) e n) ≡ view n
  unfolding on_error abort
  on_error-view e n = ground arith

  pub receive_error-view :
      (e : Err) (n : Node Raw) → view (receive_error c (raw_driver k c) e n) ≡ view_error (view n)
  unfolding receive_error view_error rx_error nack_frame on_error abort
  receive_error-view e n = ground arith

  module _ (own : ℕ → Bool) (b : Bool) where
    check_tx_bit-view : (n : Node Raw) → view (check_tx_bit c (raw_driver k c) b n) ≡ view n
    unfolding check_tx_bit
    check_tx_bit-view n = ground (arith, on_error-view arb_lost n)

    receive_ack-view :
        (a : Bool) (n : Node Raw) → view (receive_ack c (raw_driver k c) a n) ≡ view n
    unfolding receive_ack
    receive_ack-view a n = ground (arith, on_error-view nack n)

    receive_bit-view :
        (n : Node Raw)
        → view (receive_bit c (raw_driver k c) own b n)
          ≡ (let v = view n in record v { rx = rx_bit own b n.rx })
    unfolding receive_bit rx_bit
    receive_bit-view n =
        ground
          (arith, check_tx_bit-view n, receive_ack-view (if n.rx.flags.bcast then b else not b) n)

    take_sample-view :
        (n : Node Raw) → view (take_sample k c own b n) ≡ view_sample k own b (view n)
    unfolding take_sample view_sample
    take_sample-view n =
        let m = with_sampler (λ s. record s { sample = false }) n in
        ground (arith, receive_bit-view m, receive_error-view hw m)

    end_ack-view : (n : Node Raw) → view (end_ack k c own b n) ≡ view n
    unfolding end_ack
    end_ack-view n = ground arith

    no_edge-view : (n : Node Raw) → view (no_edge k c own b n) ≡ view_stays k own b (view n)
    unfolding no_edge view_stays
    no_edge-view n = ground (arith, receive_error-view no_eom n)

    rising_edge-view : (n : Node Raw) → view (rising_edge k c own b n) ≡ view_rises k own b (view n)
    unfolding rising_edge view_rises receive_start
    rising_edge-view n = ground arith

    begin_bit-view : (n : Node Raw) → view (begin_bit k c own b n) ≡ view_begins k own b (view n)
    unfolding begin_bit view_begins
    begin_bit-view n = ground (arith, receive_error-view low_drive n)

    falling_edge-view :
        (n : Node Raw) → view (falling_edge k c own b n) ≡ view_falls k own b (view n)
    unfolding falling_edge view_falls
    falling_edge-view n = ground (arith, begin_bit-view n)

    -- A whole call.
    pub receive_periodic-view :
        (delta : ℕ) (n : Node Raw)
        → view (receive_periodic k c own b delta n) ≡ view_call k own b delta (view n)
    unfolding receive_periodic view_call view_edges edges advance
    receive_periodic-view delta n =
        let m = take_sample k c own b (advance k c own b delta n) in
        let a = end_ack k c own b m in
        ground (
          arith,
          no_edge-view a,
          rising_edge-view a,
          falling_edge-view a,
          end_ack-view m,
          take_sample-view (advance k c own b delta n),
        )
