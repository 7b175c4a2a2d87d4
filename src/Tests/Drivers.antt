-- ===== src/Tests/Drivers.antt =====
-- The theorems on the raw drivers and on `cec_halt`.
use avr_cec.Common.{◌≡◌, ◌≢◌, refl, arith, true, bit_or}
use avr_cec.Macros.Time.{us_to_jiffies, us_to_jiffies_up}
use avr_cec.Macros.Div.{div_round_up}
use avr_cec.Transmit.{bit_eom, idle, get_bit}
use avr_cec.Common.{if◌then◌else◌}
use avr_cec.Cec.Timer.{halt_keeps_sending}
use avr_cec.Common.{[], ◌∷◌}
use avr_cec.Receive.State.{Rx, header, start_flags, any_flag}
use avr_cec.Receive.Engine.{Node}
use avr_cec.Raw.{Raw, PwmTicks, xmit_start_bit, xmit_running, add_capped}
use avr_cec.Addr.Static.{fixed}
use avr_cec.Cec.{Inputs, cec_halt, cec_periodic}
use avr_cec.Cec.Static.{StaticSystem, raw_static_halt, raw_static_periodic}
use avr_cec.Cec.Halt.{halt_leaves_sample}
use avr_cec.Tests.{clock, config, question, free_rx, rest, listener}

program : Unit {0}
unfolding us_to_jiffies us_to_jiffies_up div_round_up add_capped
program = tt

-- At 8 MHz with a prescaler of 256.
abbrev pub ticks : PwmTicks
ticks = record {
  prescaler_val = 9;
  data_period = 74;
  zero_ticks = 46;
  one_ticks = 18;
  start_period = 140;
  start_ticks = 115;
}

abbrev pub sender : Node Raw
sender = record listener { tx = question }

-- A bit has begun 800 microseconds ago, in the middle of the first byte.
abbrev due : Node Raw
due = record listener {
  rx = record free_rx { byte = 9; flags = start_flags };
  drv = record rest { sampler = record rest.sampler { frame_timer = 100; sample = true } };
}

-- The line is high, and the timer of the sender runs out.
abbrev runs_out : Inputs
runs_out = record { rx_line = true; tx_line = true; overflow = true }

halt_leaves_sample_example :
    (let s = raw_static_halt clock config (record { node = due; addresses = fixed 4 }) in
      let d = cec_halt clock config (record { node = due; logical = 4; idx = 1 }) in
      (header s.node.rx ≡ 0)
      × (header (raw_static_periodic clock config ticks runs_out 30 s).node.rx ≡ 128)
      × (bit_or 0 128 ≢ 0)
      × (header (cec_periodic clock config ticks (4 ∷ 8 ∷ []) runs_out 30 d).node.rx ≡ 0))
unfolding program
halt_leaves_sample_example =
    halt_leaves_sample clock config ticks (4 ∷ 8 ∷ []) runs_out 30 due (fixed 4) 4 1 refl refl
      (omega arith) (omega arith) refl (omega arith) (omega arith)

-- A sum that does not fit keeps its low byte.
add_capped_runs : (add_capped 65000 1000 ≡ 65488) × (add_capped 1 2 ≡ 3)
unfolding program
add_capped_runs = (refl, refl)

abbrev following : Rx
following = record free_rx { flags = start_flags }

-- The transmission has been started, and the receive side is idle.
abbrev starting : StaticSystem Raw
starting =
    let d = rest in
    let p = rest.pwm in
    record {
      node = record listener {
        tx = record question { buf_bit = 128; state = bit_eom };
        drv = record d { pwm = record p { xmit_state = xmit_start_bit; tccr1 = 9 } };
      };
      addresses = fixed 4;
    }

halt_keeps_sending_example :
    (let h = raw_static_halt clock config starting in
      let n = (raw_static_periodic clock config ticks runs_out 30 h).node in
      (h.node.drv ≡ starting.node.drv)
      × (h.node.tx.state ≡ idle)
      × (n.tx.state ≡ idle)
      × (n.drv.pwm.tccr1 ≡ 9)
      × (n.drv.pwm.xmit_state ≡ xmit_running)
      × (n.drv.pwm.ocr1b ≡ (if (get_bit config starting.node.tx).1 then 18 else 46)))
unfolding any_flag
halt_keeps_sending_example =
    halt_keeps_sending clock config ticks runs_out 30 starting refl refl (omega arith) refl
