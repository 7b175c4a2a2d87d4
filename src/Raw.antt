-- ===== src/Raw.antt =====
-- The drivers of a build without the USI: cec_receive_min.c samples the line, cec_transmit_pwm.c
-- sends by timer 1. Here: their variables, the registers that they write, and what they give the
-- engines. The state of the line and the timer's overflow flag are arguments of the calls.
pub mod Receive
pub mod Pwm
pub mod Window
pub mod Sent
pub mod Cycles
pub mod View
pub mod Wave
pub mod Heard
pub mod Pulses
pub mod Deliver
pub mod Loop
pub mod AtRest
use avr_cec.Common.{ℕ, ◌+◌, ◌-◌, ◌*◌, ◌%◌, ◌≡◌, refl, Bool, true, false, if◌then◌else◌, ltb, u16}
use avr_cec.Spec.{period}
use avr_cec.Macros.Time.{Clock, us_to_jiffies, us_to_jiffies_up}
use avr_cec.Transmit.{Config, Tx, finish_abort}
use avr_cec.Receive.Engine.{Driver}

-- The enum of `xmit_state`.
pub data Xmit : Type 0 where
  xmit_idle xmit_start_bit xmit_running xmit_end1 xmit_end2 xmit_done : Xmit

-- The variables of cec_receive_min.c, and `driven`: CEC_PBOUT is an input, which pulls the line low.
pub record Sampler : Type 0 where
  pub frame_period : ℕ
  pub frame_timer : ℕ
  pub ack_done : ℕ
  pub last_state : Bool
  pub sample : Bool
  pub driven : Bool

-- The variables of cec_transmit_pwm.c and the registers of timer 1. GTCCR is either set for pulse
-- width modulation or forces the line low.
pub record Sender : Type 0 where
  pub high_timer : ℕ
  pub xmit_state : Xmit
  pub tccr1 : ℕ
  pub tcnt1 : ℕ
  pub ocr1b : ℕ
  pub ocr1c : ℕ
  pub gtccr_pwm : Bool

pub record Raw : Type 0 where
  pub sampler : Sampler
  pub pwm : Sender

-- The timer counts of cec_transmit_pwm.c, which the build computes in floating point.
pub record PwmTicks : Type 0 where
  pub prescaler_val : ℕ
  pub data_period : ℕ
  pub zero_ticks : ℕ
  pub one_ticks : ℕ
  pub start_period : ℕ
  pub start_ticks : ℕ

-- The inline assembly of both drivers: `add`, `adc`, and 0xff into the high byte on a carry.
unfoldable pub add_capped : ℕ → ℕ → ℕ
add_capped a b = if ltb (a + b) 65536 then a + b else 0xff00 + (a + b) % 256

module _ (k : Clock) where
  -- `CHECK_BIT_DELAY` is set for the PWM driver; waits are times.
  unfoldable pub raw_config : Bool → Config
  raw_config stats = record {
    bit_delay = true;
    err_stats = stats;
    idle_wait = λ periods. u16 (us_to_jiffies_up k (periods * period));
  }

  -- `cec_receive_nack_frame` of cec_receive_min.c.
  unfoldable pub nack_frame : Raw → Raw
  nack_frame d =
      let s = d.sampler in
      record d {
        sampler = record s {
          driven = true;
          ack_done = u16 (us_to_jiffies k (10 * period));
          frame_timer = 0;
        };
      }

-- `cec_transmit_abort` of cec_transmit_pwm.c.
unfoldable pub abort : Config → Tx → Raw → Tx × Raw
abort c t d =
    let p = d.pwm in
    (
      finish_abort c t,
      record d { pwm = record p { tccr1 = 0; gtccr_pwm = false; xmit_state = xmit_idle } },
    )

pub abort_finishes : (c : Config) (t : Tx) (d : Raw) → (abort c t d).0 ≡ finish_abort c t
unfolding abort
abort_finishes c t d = refl

abbrev pub raw_driver : (k : Clock) (c : Config) → Driver c Raw
raw_driver k c = record {
  nack_frame = nack_frame k;
  abort = abort c;
  abort_finishes = abort_finishes c;
}
