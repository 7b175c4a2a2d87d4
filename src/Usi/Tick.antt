-- ===== src/Usi/Tick.antt =====
-- `cec_process_tick`: what the receiver makes of the line in one tick. The source keeps the receive
-- state in a local variable and writes it back at the end; nothing reads it in between.
use avr_cec.Common.{
  ℕ, zero, suc, ◌+◌, ◌*◌, ◌/◌, bit_and, Bool, true, false, not, ◌&&◌, same, if◌then◌else◌, ltb, leb,
  ◌==◌, truth, u8,
}
use avr_cec.Spec.{
  no_eom, low_drive, nom_sample, t7_early_end, t8_late_end, start_low_early, start_low_late,
  start_high_early, start_high_late,
}
use avr_cec.Transmit.{Config}
use avr_cec.Receive.State.{any_flag}
use avr_cec.Receive.Engine.{Node, receive_error, receive_start, receive_bit}
use avr_cec.Usi.{
  Usi, RecvState, usi_recv_idle, usi_recv_start, usi_recv_bits, sample_us, min_ticks, max_ticks,
  usi_driver, with_usi,
}

-- `recv_state == USI_RECV_BITS`, `recv_state == USI_RECV_START`.
abbrev pub is_bits : RecvState → Bool
is_bits usi_recv_idle = false
is_bits usi_recv_start = false
is_bits usi_recv_bits = true

abbrev pub is_start : RecvState → Bool
is_start usi_recv_idle = false
is_start usi_recv_start = true
is_start usi_recv_bits = false

-- The tick counter, which stays at 255.
unfoldable pub next_tick : ℕ → ℕ
next_tick t = let t' = u8 (t + 1) in if t' == 0 then 255 else t'

abbrev pub goes_idle : Node Usi → Node Usi
goes_idle = with_usi λ d. record d { usi_recv_state = usi_recv_idle }

module _ (c : Config) (tcnt0 : ℕ) (own : ℕ → Bool) (bit_state : Bool) where
  -- The sample window.
  unfoldable pub take_bit : Node Usi → Node Usi
  take_bit n =
      if is_bits n.drv.usi_recv_state && n.drv.recv_frame_tick == nom_sample / sample_us
      then (let n' = receive_bit c (usi_driver c tcnt0) own bit_state n in
          if any_flag n'.rx.flags then n' else goes_idle n')
      else n

  -- No transition.
  unfoldable pub no_transition : Node Usi → Node Usi
  no_transition n =
      if ltb n.drv.max_frame_ticks n.drv.recv_frame_tick
      then goes_idle (receive_error c (usi_driver c tcnt0) no_eom n)
      else n

  -- The frame's number in its byte, times 8; after the tenth the next byte begins.
  unfoldable pub next_frame : Node Usi → Node Usi
  next_frame n =
      let frame = u8 (n.drv.recv_frame + 8) in
      if frame == 10 * 8
      then with_usi (λ d. record d { ack_done = false; recv_frame = 0 }) n
      else with_usi (λ d. record d { recv_frame = frame }) n

  -- Falling edge.
  unfoldable pub tick_falls : Node Usi → Node Usi
  tick_falls n =
      let n' = next_frame n in
      with_usi (λ d. record d { recv_frame_tick = 0 })
        (if ltb n.drv.recv_frame_tick n.drv.min_frame_ticks
          then goes_idle (receive_error c (usi_driver c tcnt0) low_drive n')
          else (if is_start n.drv.usi_recv_state
              then with_usi
                  (λ d. record d {
                    ack_done = false;
                    recv_frame = 0;
                    usi_recv_state = usi_recv_bits;
                    min_frame_ticks = min_ticks t7_early_end;
                    max_frame_ticks = max_ticks t8_late_end;
                  })
                  (receive_start c (usi_driver c tcnt0) n')
              else n'))

  -- Rising edge.
  unfoldable pub tick_rises : Node Usi → Node Usi
  tick_rises n =
      if leb (min_ticks start_low_early) n.drv.recv_frame_tick
        && leb n.drv.recv_frame_tick (max_ticks start_low_late)
      then with_usi
          (λ d. record d {
            usi_recv_state = usi_recv_start;
            min_frame_ticks = min_ticks start_high_early;
            max_frame_ticks = max_ticks start_high_late;
          })
          n
      else n

  unfoldable pub process_tick : Node Usi → Node Usi
  process_tick n =
      let n' =
        take_bit (with_usi (λ d. record d { recv_frame_tick = next_tick d.recv_frame_tick }) n) in
      with_usi (λ d. record d { recv_last_bit = bit_state })
        (if same bit_state n'.drv.recv_last_bit
          then no_transition n'
          else (if bit_state then tick_rises n' else tick_falls n'))

-- The loop over the bits of a byte in `cec_receive_periodic`, highest first; a one is a low line.
unfoldable pub process_bits :
    (c : Config) (tcnt0 : ℕ) (own : ℕ → Bool) → ℕ → ℕ → Node Usi → Node Usi
process_bits c tcnt0 own zero buf n = n
process_bits c tcnt0 own (suc k) buf n =
    process_bits c tcnt0 own k (u8 (buf * 2))
      (process_tick c tcnt0 own (not (truth (bit_and buf 128))) n)
