-- ===== src/Watchdog.antt =====
-- cec_watchdog.S: a watchdog on the CEC line that uses timer 1. The code is assembly, of which each function
-- here is what stands between a label and the jumps behind it, one `let` for each instruction that
-- changes something. What the hardware shows at the reads of a call is an argument.
pub mod Report
pub mod Prescaler
use avr_cec.Common.{
  ℕ, ◌+◌, ◌-◌, ◌*◌, ◌/◌, Bool, true, false, if◌then◌else◌, ◌==◌, bit_at, bit_or, u8,
}
use avr_cec.Spec.{t6_late0, t7_early_end, max_rise_time}
use avr_cec.Macros.LogAsm.{log2_asm}
use avr_cec.Macros.Div.{div_round_up_asm}

-- What avr/io.h says of the part: `bv` is `_BV`, the others are numbers of bits.
pub record Part : Type 0 where
  pub bv : ℕ → ℕ
  pub psr1 : ℕ
  pub ocf1a : ℕ
  pub ocf1b : ℕ
  pub pb0 : ℕ
  pub pb1 : ℕ

-- `MAX_LATENCY_US`.
abbrev pub max_latency_us : ℕ
max_latency_us = 2 * (t7_early_end - t6_late0)

-- `US_TO_TICKS` and `US_TO_TICKS_UP`; TCNT1_PRESCALER is 64.
unfoldable pub us_to_ticks : ℕ → ℕ → ℕ
us_to_ticks f_cpu n = f_cpu * n / (64 * 1000000)

unfoldable pub us_to_ticks_up : ℕ → ℕ → ℕ
us_to_ticks_up f_cpu n = div_round_up_asm (f_cpu * n) (64 * 1000000)

-- `TCNT1_PRESCALER_IDEAL` and `TCNT1_PRESCALER_VAL`.
unfoldable pub prescaler_ideal_1 : ℕ → ℕ
prescaler_ideal_1 f_cpu = div_round_up_asm (f_cpu * max_latency_us) (256 * 1000000)

unfoldable pub prescaler_val_1 : (ℕ → ℕ) → ℕ → ℕ
prescaler_val_1 bv f_cpu = log2_asm bv (prescaler_ideal_1 f_cpu * 2 - 1) + 1

-- The registers, `cec_watchdog_last_output`, the values last written to the registers of the timer, and
-- whether interrupts are allowed. `lower` has r0 to r17, which the code does not write.
pub record Machine : Type 0 where
  pub lower : ℕ → ℕ
  pub r18 : ℕ
  pub r19 : ℕ
  pub r20 : ℕ
  pub r21 : ℕ
  pub r22 : ℕ
  pub r23 : ℕ
  pub r24 : ℕ
  pub last_output : ℕ
  pub tcnt1 : ℕ
  pub ocr1a : ℕ
  pub ocr1b : ℕ
  pub gtccr : ℕ
  pub tifr : ℕ
  pub tccr1 : ℕ
  pub interrupts : Bool

-- TCNT1 and TIFR as a call reads them, and CEC_PIN as it reads CEC_PBOUT and then CEC_PBIN of it.
pub record Reads : Type 0 where
  pub tcnt1 : ℕ
  pub tifr : ℕ
  pub pin_out : ℕ
  pub pin_in : ℕ

module _ (p : Part) (f_cpu : ℕ) (q : Reads) where
  -- The label `done`.
  unfoldable pub at_done : Machine → Machine
  at_done m = record m { interrupts = true; last_output = m.r21 }

  -- The label `rising_edge`, to its `rjmp done`.
  unfoldable pub at_rising_edge : Machine → Machine
  at_rising_edge m =
      let m1 = record m { ocr1b = m.r20 } in
      let m2 = record m1 { gtccr = m1.r22 } in
      let m3 = record m2 { tcnt1 = m2.lower 1 } in
      let m4 = record m3 { tifr = m3.lower 13 } in at_done m4

  -- The label `no_edge`.
  unfoldable pub at_no_edge : Machine → Machine
  at_no_edge m =
      if bit_at m.r19 p.ocf1a
      then at_done m
      else (if bit_at q.pin_in p.pb0
          then at_done (record m { r24 = u8 (m.r24 + 1) })
          else at_done m)

  -- From the test of TIFR on.
  unfoldable pub at_tifr : Machine → Machine
  at_tifr m =
      if bit_at m.r19 p.ocf1b
      then at_rising_edge m
      else (if bit_at q.pin_out p.pb1
          then at_done m
          else (let m' = record m { r21 = 0 } in
              if m'.r18 == 0 then at_no_edge m' else at_rising_edge m'))

  -- `cec_watchdog_periodic`; its result is in `r24`.
  unfoldable pub watchdog_periodic : Machine → Machine
  watchdog_periodic m =
      let m1 = record m { r18 = m.last_output } in
      let m2 = record m1 { r21 = 1 } in
      let m3 = record m2 { r20 = us_to_ticks f_cpu max_latency_us } in
      let m4 = record m3 { r22 = p.bv p.psr1 } in
      let m5 = record m4 { r23 = bit_or (p.bv p.ocf1a) (p.bv p.ocf1b) } in
      let m6 = record m5 { r24 = 0 } in
      let m7 = record m6 { interrupts = false } in
      let m8 = record m7 { r18 = q.tcnt1 } in
      let m9 = record m8 { r18 = u8 (m8.r18 + m8.r20) } in
      let n1 = record m9 { ocr1b = m9.r18 } in at_tifr (record n1 { r19 = q.tifr })

module _ (p : Part) (f_cpu : ℕ) where
  -- `cec_watchdog_init`. `out` takes a register, and a number in its place is the register's: the last
  -- `out` writes the register with the number TCNT1_PRESCALER_VAL.
  unfoldable pub watchdog_init : Machine → Machine
  watchdog_init m =
      let m1 = record m { r18 = us_to_ticks_up f_cpu max_rise_time } in
      let m2 = record m1 { ocr1a = m1.r18 } in
      let m3 = record m2 { r18 = us_to_ticks f_cpu max_latency_us } in
      let m4 = record m3 { ocr1b = m3.r18 } in
      let m5 = record m4 { r18 = p.bv p.psr1 } in
      let m6 = record m5 { gtccr = m5.r18 } in
      record m6 { tccr1 = m6.lower (prescaler_val_1 p.bv f_cpu) }
