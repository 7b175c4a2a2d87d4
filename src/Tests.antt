-- ===== src/Tests.antt =====
-- Concrete hosts for the examples: a build for 8 MHz with the raw drivers, a receive buffer with one
-- byte of the application in front, and a queued message of two bytes to the television.
pub mod Engines
pub mod Own
pub mod Drivers
pub mod Lines
pub mod Watchdog
pub mod Pins
pub mod Addresses
pub mod Constants
pub mod Usi
pub mod Codes
pub use avr_cec.Common.{cons-IsBytes, zeros-IsBytes}
use avr_cec.Common.{ℕ, ◌^◌, ◌<◌, Bool, true, false, List, [], ◌∷◌, length, IsBytes, get_or, arith}
use avr_cec.Common.{◌==◌, suc, zero}
use avr_cec.Macros.Time.{Clock}
use avr_cec.Transmit.{Config, Tx, State, idle, pend}
use avr_cec.Receive.State.{Rx, no_flags}
use avr_cec.Receive.Engine.{Driver, Node}
use avr_cec.Raw.{Raw, xmit_idle, raw_config, raw_driver}

abbrev pub clock : Clock
clock = record { f_cpu = 8000000; scale = 64; values = 2 ^ 64 }

abbrev pub config : Config
config = raw_config clock true

abbrev pub driver : Driver config Raw
driver = raw_driver clock config

-- Fourteen more bytes.
abbrev pub padded : ℕ → ℕ → List ℕ
padded x y = x ∷ y ∷ 0 ∷ 0 ∷ 0 ∷ 0 ∷ 0 ∷ 0 ∷ 0 ∷ 0 ∷ 0 ∷ 0 ∷ 0 ∷ 0 ∷ 0 ∷ 0 ∷ []

-- Playback device 1 asks the television for its CEC version.
abbrev pub question : Tx
question = record {
  buf = padded 0x40 0x9f;
  buf_end = 1;
  buf_bit = 0;
  buf_pos = 0;
  last_bit = 0;
  state = pend;
  err_counts = 2 ∷ 0 ∷ 0 ∷ 0 ∷ 0 ∷ 0 ∷ 0 ∷ [];
  retries = 0;
  needed_idle = 0;
}

pub question-IsBytes : IsBytes question.buf
question-IsBytes = grind (arith, cons-IsBytes, zeros-IsBytes)

abbrev pub quiet : Tx
quiet = record question { state = idle }

abbrev pub rest : Raw
rest = record {
  sampler = record {
    frame_period = 0;
    frame_timer = 0;
    ack_done = 0;
    last_state = true;
    sample = false;
    driven = false;
  };
  pwm = record {
    high_timer = 0;
    xmit_state = xmit_idle;
    tccr1 = 0;
    tcnt1 = 0;
    ocr1b = 0;
    ocr1c = 0;
    gtccr_pwm = false;
  };
}

abbrev pub free_rx : Rx
free_rx = record { hdr = 1; buf = 0xaa ∷ 0 ∷ padded 0 0; byte = 0; pos = 0; flags = no_flags }

-- A message of one byte waits for the application.
abbrev pub full_rx : Rx
full_rx = record free_rx { buf = 0xaa ∷ 1 ∷ padded 0x40 0 }

abbrev pub listener : Node Raw
listener = record { rx = free_rx; tx = quiet; drv = rest }

abbrev pub busy_listener : Node Raw
busy_listener = record { rx = full_rx; tx = quiet; drv = rest }

abbrev pub television : ℕ → Bool
television a = a == 0
