-- ===== src/Usi/Periodic.antt =====
-- `cec_receive_periodic` of cec_usi.c, and what `cec_init` and `cec_halt` call of this driver. The line
-- is read twice in a call, and the registers move on between its two parts: `line`, `late_line` and
-- `pass` say how. `hook` is the application's `cec_usi_frame_hook`.
use avr_cec.Common.{
  ℕ, ◌+◌, ◌-◌, ◌*◌, Bool, true, false, not, ◌&&◌, if◌then◌else◌, leb, ltb, ◌==◌, truth, bit_and,
  bit_or, u8,
}
use avr_cec.Spec.{arb_lost, t6_late0}
use avr_cec.Transmit.{Config}
use avr_cec.Receive.Engine.{Node, on_error}
use avr_cec.Usi.{Usi, Shift, usi_driver, with_usi, max_ticks, pat_idle}
use avr_cec.Usi.Tick.{process_bits}
use avr_cec.Usi.Queue.{next_bit}
use avr_cec.Usi.Ack.{do_ack}

abbrev pub with_shift : (Shift → Shift) → Node Usi → Node Usi
with_shift f = with_usi λ d. record d { shift = f d.shift }

-- The number of idle frames in a row, which stays at 255.
unfoldable pub count_idle : ℕ → ℕ → ℕ
count_idle buf frames =
    if truth buf then 0 else (let f = u8 (frames + 1) in if f == 0 then 255 else f)

-- How many ticks an ack is to be driven: 0 is the early return.
unfoldable pub ack_ticks : Usi → ℕ
ack_ticks d =
    let ticks = u8 (d.recv_frame_tick + bit_and d.shift.count 7) in
    if d.recv_frame == 9 * 8 && ltb d.recv_frame_tick 4
    then 4 - d.recv_frame_tick
    else (if d.recv_frame == 8 * 8 && leb (max_ticks t6_late0) ticks then 5 else 0)

-- The part behind `out`.
unfoldable pub drive_ack : Bool → Node Usi → Node Usi
drive_ack late_line n =
    if not n.drv.ack_done && n.rx.flags.do_ack && not late_line
    then (let acks = ack_ticks n.drv in
        if acks == 0
        then n
        else with_shift (do_ack acks) (with_usi (λ d. record d { ack_done = true }) n))
    else n

module _ (c : Config) (tcnt0 : ℕ) (hook : Node Usi → Node Usi) (own : ℕ → Bool) where
  -- The first part: a line that is low when this host does not drive it.
  unfoldable pub check_line : Bool → Node Usi → Node Usi
  check_line line n =
      let n' =
        (if n.drv.shift.oif
          then with_usi (λ d. record d { float_ticks_max = d.float_ticks_max_next }) n
          else n) in
      if not line && leb n'.drv.float_ticks_max (bit_and n'.drv.shift.count 7)
      then on_error c (usi_driver c tcnt0) arb_lost n'
      else n'

  -- A nack lasts for a whole frame at least.
  unfoldable pub end_nack : Node Usi → Node Usi
  end_nack =
      with_usi λ d. record d { driven = if d.nacking then d.driven else false; nacking = false }

  -- A byte has arrived: the part from the hook to the write of USISR, which restarts its counter at 8
  -- and, by writing a one, clears the flag.
  unfoldable pub turn_over : Node Usi → Node Usi
  turn_over n =
      let n' = end_nack (hook n) in
      let buf = n'.drv.shift.usibr in
      let n'' =
        process_bits c tcnt0 own 8 buf
          (with_usi (λ d. record d { idle_frames = count_idle buf d.idle_frames }) n') in
      let (m, pattern) = next_bit c n'' in
      with_shift (λ s. record s { usibr = pattern; count = bit_or s.count 8; oif = false }) m

  unfoldable pub receive_periodic : Bool → Bool → (Shift → Shift) → Node Usi → Node Usi
  receive_periodic line late_line pass n =
      let n' = check_line line n in
      let n'' = (if n.drv.shift.oif then turn_over n' else n') in
      drive_ack late_line (with_shift pass n'')

-- `cec_transmit_halt_hw` and `cec_receive_halt_hw`.
unfoldable pub transmit_halt_hw : Usi → Usi
transmit_halt_hw d = let s = d.shift in record d { shift = record s { usibr = 0; usidr = 0 } }

unfoldable pub receive_halt_hw : Usi → Usi
receive_halt_hw d = record d { driven = false }

-- `cec_receive_init`; the mode registers, which nothing else touches, are left out.
unfoldable pub receive_init : ℕ → Usi → Usi
receive_init tcnt0 d = record d {
  shift = record { usibr = pat_idle; usidr = pat_idle; count = 8; oif = false };
  tccr0b = tcnt0;
}
