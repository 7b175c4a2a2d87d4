-- ===== src/Tests/Constants.antt =====
-- The theorems on the compile-time arithmetic at usual clocks.
use avr_cec.Common.{ℕ, ◌+◌, ◌*◌, ◌/◌, ◌^◌, ◌≡◌, refl, arith, none, some}
use avr_cec.Macros.Div.{div_round_up}
use avr_cec.Macros.Log.{log2, log2_from}
use avr_cec.Macros.LogAsm.{log2_asm, log2_entries, log2_entry, log2_asm-log2}
use avr_cec.Macros.Time.{prescaler, prescaler_val, us_to_jiffies, us_to_jiffies_up, ljiffies_shift}
use avr_cec.Macros.Time.{shift_from}
use avr_cec.Macros.Long.{
  to_ljiffies, to_ljiffies_up, to_jiffies_up, long_shift, milliseconds, microseconds, parts,
}
use avr_cec.Macros.Frequency.{
  hertz, kilohertz, megahertz, gigahertz, times, period_jiffies, period_ljiffies, period_seconds,
}
use avr_cec.Macros.Rollover.{Rollover, rollover_period_us, prescaler_ideal}
use avr_cec.Macros.Long.{seconds, to_jiffies}
use avr_cec.Tests.{clock}

program : Unit {0}
unfolding prescaler prescaler_val div_round_up us_to_jiffies us_to_jiffies_up
program = tt

log2_asm-log2_example : log2_asm (λ i. 2 ^ i) 140 ≡ log2 (λ i. 2 ^ i) 140
log2_asm-log2_example =
    log2_asm-log2 (λ i. 2 ^ i) (λ i. 2 ^ i) 14 140 (omega arith) (λ i h. refl) (λ i h. refl)
      (omega arith) (omega arith)

-- The last term of the assembler's macro is not that of the compiler's.
log2_top_runs :
    (log2_asm (λ i. 2 ^ i) (2 ^ 31) ≡ 0)
    × (log2_asm (λ i. 2 ^ i) (2 ^ 31 + 1) ≡ 1)
    × (log2 (λ i. 2 ^ i) (2 ^ 31) ≡ 31)
unfolding log2 log2_from log2_asm log2_entries log2_entry
log2_top_runs = (refl, refl, refl)

-- At 8 MHz and one rollover of the timer in 300 microseconds.
prescaler_runs :
    (prescaler (div_round_up (2 ^ 64) (8000000 * 300) 256000000) ≡ some 64)
    × (prescaler 10 ≡ some 64)
    × (prescaler_val 10 ≡ some 3)
unfolding program
prescaler_runs = (refl, refl, refl)

-- 850 and 1250 microseconds are 106.25 and 156.25 ticks.
window_runs : (us_to_jiffies clock 850 ≡ 106) × (us_to_jiffies_up clock 1250 ≡ 157)
unfolding program
window_runs = (refl, refl)

-- 65.5 milliseconds at 8 MHz with a prescaler of 64: rounded up, they do not fit a byte.
abbrev long_ticks : ℕ
long_ticks = to_ljiffies_up clock (2 ^ 31) microseconds 5 65500

long_program : Unit {0}
unfolding to_ljiffies to_ljiffies_up to_jiffies_up long_shift ljiffies_shift shift_from div_round_up
    parts
long_program = tt

long_shift_runs : long_shift clock (2 ^ 31) microseconds 65500 ≡ 5
unfolding long_program
long_shift_runs = refl

long_ticks_runs : long_ticks ≡ 256
unfolding long_program
long_ticks_runs = refl

period_program : Unit {0}
unfolding period_jiffies period_ljiffies times to_jiffies to_ljiffies parts
period_program = tt

-- At 8 MHz with a prescaler of 64, the period of 100 Hz is 1250 ticks, and that of 2 kHz would be 62.
period_runs :
    (period_jiffies clock (2 ^ 32) hertz 100 ≡ some 1250)
    × (period_jiffies clock (2 ^ 32) gigahertz 100 ≡ none)
    × (to_jiffies clock (2 ^ 32) milliseconds 1 / 2 ≡ 62)
unfolding period_program
period_runs = (refl, refl, refl)

period_seconds_example :
    (period_jiffies clock (2 ^ 32) hertz 2 ≡ some (to_jiffies clock (2 ^ 32) seconds 1 / 2))
    × (period_jiffies clock (2 ^ 32) kilohertz 2
        ≡ some (to_jiffies clock (2 ^ 32) seconds 1000 / 2))
    × (period_jiffies clock (2 ^ 32) megahertz 2
        ≡ some (to_jiffies clock (2 ^ 32) seconds 1000000 / 2))
    × (period_ljiffies clock (2 ^ 32) hertz 5 2 ≡ to_ljiffies clock (2 ^ 32) seconds 5 1 / 2)
    × (period_ljiffies clock (2 ^ 32) kilohertz 5 2 ≡ to_ljiffies clock (2 ^ 32) seconds 5 1000 / 2)
    × (period_ljiffies clock (2 ^ 32) megahertz 5 2
        ≡ to_ljiffies clock (2 ^ 32) seconds 5 1000000 / 2)
period_seconds_example = period_seconds clock (2 ^ 32) 5 2 (omega arith) (omega arith) (omega arith)

-- A rollover in half a millisecond: the ideal divisor of 16 gives 64.
abbrev rollover : Rollover
rollover = rollover_period_us 500

rollover_chosen : prescaler (prescaler_ideal (2 ^ 64) 8000000 rollover) ≡ some 64
unfolding program prescaler_ideal
rollover_chosen = refl
