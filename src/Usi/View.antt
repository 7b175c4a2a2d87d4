-- ===== src/Usi/View.antt =====
-- What `cec_process_tick` computes, without the transmit side and the interface's registers: the
-- receive side, and the variables of the driver that its decisions depend on.
use avr_cec.Common.{ℕ, ◌≡◌, arith, Bool, not, ◌&&◌, same, if◌then◌else◌, ltb, leb, ◌==◌}
use avr_cec.Spec.{Err, no_eom, low_drive, arb_lost, nack}
use avr_cec.Transmit.{Config}
use avr_cec.Receive.State.{Rx, any_flag, no_flags}
use avr_cec.Receive.Engine.{
  Node, on_error, receive_error, receive_start, receive_bit, check_tx_bit, receive_ack,
}
use avr_cec.Receive.Decode.{rx_bit, rx_error, rx_start}
use avr_cec.Usi.{
  Usi, RecvState, usi_recv_idle, usi_recv_start, usi_recv_bits, usi_driver, with_usi, abort,
  nack_frame,
}
use avr_cec.Usi.Tick.{
  is_bits, is_start, next_tick, take_bit, no_transition, next_frame, tick_falls, tick_rises,
  process_tick,
}

pub record View : Type 0 where
  pub rx : Rx
  pub tick : ℕ
  pub low : ℕ
  pub high : ℕ
  pub state : RecvState
  pub last : Bool

abbrev pub view : Node Usi → View
view n = record {
  rx = n.rx;
  tick = n.drv.recv_frame_tick;
  low = n.drv.min_frame_ticks;
  high = n.drv.max_frame_ticks;
  state = n.drv.usi_recv_state;
  last = n.drv.recv_last_bit;
}

module _ (own : ℕ → Bool) (b : Bool) where
  unfoldable pub view_take : View → View
  view_take v =
      if is_bits v.state && v.tick == 3
      then (let r = rx_bit own b v.rx in
          record v { rx = r; state = if any_flag r.flags then v.state else usi_recv_idle })
      else v

  unfoldable pub view_stays : View → View
  view_stays v =
      if ltb v.high v.tick then record v { rx = rx_error v.rx; state = usi_recv_idle } else v

  unfoldable pub view_falls : View → View
  view_falls v =
      record (if ltb v.tick v.low
        then record v { rx = rx_error v.rx; state = usi_recv_idle }
        else (if is_start v.state
            then record v { rx = rx_start v.rx; state = usi_recv_bits; low = 6; high = 10 }
            else v)) { tick = 0 }

  unfoldable pub view_rises : View → View
  view_rises v =
      if leb 11 v.tick && leb v.tick 14
      then record v { state = usi_recv_start; low = 14; high = 16 }
      else v

  unfoldable pub tick_view : View → View
  tick_view v =
      let v' = view_take (record v { tick = next_tick v.tick }) in
      record (if same b v'.last
        then view_stays v'
        else (if b then view_rises v' else view_falls v')) { last = b }

module _ (c : Config) (tcnt0 : ℕ) where
  -- An error on the transmit side is not seen.
  pub on_error-view : (e : Err) (n : Node Usi) → view (on_error c (usi_driver c tcnt0) e n) ≡ view n
  unfolding on_error abort
  on_error-view e n = ground arith

module _ (c : Config) (tcnt0 : ℕ) (own : ℕ → Bool) (b : Bool) where
  check_tx_bit-view : (n : Node Usi) → view (check_tx_bit c (usi_driver c tcnt0) b n) ≡ view n
  unfolding check_tx_bit
  check_tx_bit-view n = ground (arith, on_error-view c tcnt0 arb_lost n)

  receive_ack-view :
      (a : Bool) (n : Node Usi) → view (receive_ack c (usi_driver c tcnt0) a n) ≡ view n
  unfolding receive_ack
  receive_ack-view a n = ground (arith, on_error-view c tcnt0 nack n)

  receive_bit-view :
      (n : Node Usi)
      → view (receive_bit c (usi_driver c tcnt0) own b n)
        ≡ (let v = view n in record v { rx = rx_bit own b n.rx })
  unfolding receive_bit rx_bit
  receive_bit-view n =
      ground
        (arith, check_tx_bit-view n, receive_ack-view (if n.rx.flags.bcast then b else not b) n)

  pub receive_error-view :
      (e : Err) (n : Node Usi)
      → view (receive_error c (usi_driver c tcnt0) e n)
        ≡ (let v = view n in record v { rx = rx_error n.rx })
  unfolding receive_error rx_error nack_frame
  receive_error-view e n =
      let r = n.rx in
      let d = (if r.flags.bcast then nack_frame n.drv else n.drv) in
      ground
        (arith, on_error-view c tcnt0 e (record n { rx = record r { flags = no_flags }; drv = d }))

  take_bit-view : (n : Node Usi) → view (take_bit c tcnt0 own b n) ≡ view_take own b (view n)
  unfolding take_bit view_take
  take_bit-view n = ground (arith, receive_bit-view n)

  no_transition-view :
      (n : Node Usi) → view (no_transition c tcnt0 own b n) ≡ view_stays own b (view n)
  unfolding no_transition view_stays
  no_transition-view n = ground (arith, receive_error-view no_eom n)

  next_frame-view : (n : Node Usi) → view (next_frame c tcnt0 own b n) ≡ view n
  unfolding next_frame
  next_frame-view n = ground arith

  tick_falls-view : (n : Node Usi) → view (tick_falls c tcnt0 own b n) ≡ view_falls own b (view n)
  unfolding tick_falls view_falls receive_start
  tick_falls-view n =
      ground (arith, next_frame-view n, receive_error-view low_drive (next_frame c tcnt0 own b n))

  tick_rises-view : (n : Node Usi) → view (tick_rises c tcnt0 own b n) ≡ view_rises own b (view n)
  unfolding tick_rises view_rises
  tick_rises-view n = ground arith

  pub process_tick-view :
      (n : Node Usi) → view (process_tick c tcnt0 own b n) ≡ tick_view own b (view n)
  unfolding process_tick tick_view
  process_tick-view n =
      let m = with_usi (λ d. record d { recv_frame_tick = next_tick d.recv_frame_tick }) n in
      let n' = take_bit c tcnt0 own b m in
      ground (arith, take_bit-view m, no_transition-view n', tick_falls-view n', tick_rises-view n')
