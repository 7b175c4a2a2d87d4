-- ===== src/Tests/Watchdog.antt =====
-- The watchdog on an ATtiny85.
use avr_cec.Common.{◌^◌, ◌≤◌, ◌<◌, ◌≡◌, refl, arith, true, ◌==◌, if◌then◌else◌}
use avr_cec.Macros.LogAsm.{log2_asm, log2_entries, log2_entry}
use avr_cec.Macros.Div.{div_round_up_asm}
use avr_cec.Watchdog.{
  Part, Reads, Machine, us_to_ticks, watchdog_periodic, watchdog_init, prescaler_ideal_1,
  prescaler_val_1,
}
use avr_cec.Watchdog.Report.{watchdog_periodic-report, watchdog_periodic-timer}
use avr_cec.Watchdog.Prescaler.{divisor_1, watchdog_init-divisor}

program : Unit {0}
unfolding us_to_ticks prescaler_ideal_1 prescaler_val_1 log2_asm log2_entries log2_entry
    div_round_up_asm
program = tt

abbrev part : Part
part = record { bv = λ i. 2 ^ i; psr1 = 1; ocf1a = 6; ocf1b = 5; pb0 = 0; pb1 = 1 }

-- 700 microseconds are 87 ticks at 8 MHz.
abbrev low_line : Reads
low_line = record { tcnt1 = 169; tifr = 0; pin_out = 0; pin_in = 1 }

abbrev later : Reads
later = record low_line { tcnt1 = 170 }

abbrev machine : Machine
machine = record {
  lower = λ i. if i == 13 then 7 else 0;
  r18 = 0;
  r19 = 0;
  r20 = 0;
  r21 = 0;
  r22 = 0;
  r23 = 0;
  r24 = 0;
  last_output = 0;
  tcnt1 = 0;
  ocr1a = 0;
  ocr1b = 0;
  gtccr = 0;
  tifr = 0;
  tccr1 = 0;
  interrupts = true;
}

divisor_runs :
    (prescaler_val_1 (λ i. 2 ^ i) 8000000 ≡ 6)
    × (prescaler_val_1 (λ i. 2 ^ i) 16000000 ≡ 7)
    × (prescaler_val_1 (λ i. 2 ^ i) 1000000 ≡ 3)
unfolding program
divisor_runs = (refl, refl, refl)

watchdog_periodic-report_example : (watchdog_periodic part 8000000 low_line machine).r24 ≡ 1
unfolding program
watchdog_periodic-report_example = watchdog_periodic-report part 8000000 low_line machine

watchdog_periodic-timer_example :
    (let m = watchdog_periodic part 8000000 later machine in
      (m.tifr ≡ 7) × (m.tcnt1 ≡ 0) × (m.ocr1b ≡ 87) × (m.last_output ≡ 0) × (m.interrupts ≡ true))
unfolding program
watchdog_periodic-timer_example = watchdog_periodic-timer part 8000000 later machine

watchdog_init-divisor_example :
    (let m = watchdog_init part 8000000 machine in
      (m.ocr1a ≡ 32)
      × (m.ocr1b ≡ 87)
      × (22 ≤ divisor_1 (λ i. 2 ^ i) 8000000)
      × (divisor_1 (λ i. 2 ^ i) 8000000 < 44)
      × (divisor_1 (λ i. 2 ^ i) 8000000 < 64)
      × (m.tccr1 ≡ 0))
unfolding program
watchdog_init-divisor_example =
    watchdog_init-divisor (λ i. 2 ^ i) (λ i h. refl) part 8000000 machine (omega arith)
      (omega arith)
