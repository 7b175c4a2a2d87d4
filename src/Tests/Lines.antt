-- ===== src/Tests/Lines.antt =====
-- The raw receiver on lines with pulses: at 8 MHz with a prescaler of 64, one tick is 8 microseconds; the
-- sender's timer runs at a quarter of that.
use avr_cec.Common.{
  ℕ, zero, suc, ◌+◌, ◌*◌, ◌≤◌, ◌<◌, ◌≡◌, refl, arith, true, false, leb, List, [], ◌∷◌,
}
use avr_cec.Macros.Time.{us_to_jiffies, us_to_jiffies_up, us_to_jiffies_rnd}
use avr_cec.Macros.Div.{div_round, div_round_up}
use avr_cec.Transmit.{start, get_bit, data_bit, control_bit, push_last}
use avr_cec.Receive.State.{Rx, any_flag, start_flags}
use avr_cec.Receive.Engine.{Node, receive_start}
use avr_cec.Receive.Decode.{feed}
use avr_cec.Receive.Message.{IsHanded}
use avr_cec.Raw.{Raw, add_capped}
use avr_cec.Raw.Pwm.{xmit_start, xmit_pwm_periodic, xmit_case, load_bit}
use avr_cec.Raw.Cycles.{cycles}
use avr_cec.Raw.Wave.{sample_from, sample_to}
use avr_cec.Raw.Heard.{IsApart, polls}
use avr_cec.Raw.Pulses.{Pulse, bits_of, looks, IsBit, IsStart, SeesAll, AreClose, sum}
use avr_cec.Receive.AtRest.{sending}
use avr_cec.Raw.AtRest.{polls-sending}
use avr_cec.Raw.Pulses.Calls.{pulses-feed}
use avr_cec.Raw.Deliver.{pulse, long_pulse, start_pulse, AreWidths, on_line}
use avr_cec.Addr.DevType.{addr_ready}
use avr_cec.Cec.{System, host}
use avr_cec.Cec.Heard.{periodics, loads-periodics}
use avr_cec.Tests.{question-IsBytes, clock, config, driver, question, listener, television, free_rx}
use avr_cec.Tests.Drivers.{ticks, sender}

program : Unit {0}
unfolding us_to_jiffies us_to_jiffies_up us_to_jiffies_rnd div_round div_round_up add_capped cycles
    xmit_start xmit_pwm_periodic xmit_case load_bit start get_bit data_bit control_bit push_last
    any_flag
program = tt

-- The timer of the sender counts from 0.
abbrev time : ℕ → ℕ
time w = 4 * (w + 1)

window : sample_from clock + 20 ≤ sample_to clock
unfolding program
window = omega arith

start-IsStart : IsStart clock 20 (long_pulse clock time (115, 140))
unfolding program
start-IsStart = record {
  frame = record {
    seen = omega arith;
    seen_high = omega arith;
    long = omega arith;
    short = omega arith;
    fits = omega arith;
  };
  early = omega arith;
  late = omega arith;
}

one-IsBit : IsBit clock 20 (pulse clock time (18, 74))
unfolding program
one-IsBit = record {
  frame = record {
    seen = omega arith;
    seen_high = omega arith;
    long = omega arith;
    short = omega arith;
    fits = omega arith;
  };
  no_start = omega arith;
  settled = omega arith;
  zero_low = λ e. cc;
  one_low = λ e. omega arith;
}

zero-IsBit : IsBit clock 20 (pulse clock time (46, 74))
unfolding program
zero-IsBit = record {
  frame = record {
    seen = omega arith;
    seen_high = omega arith;
    long = omega arith;
    short = omega arith;
    fits = omega arith;
  };
  no_start = omega arith;
  settled = omega arith;
  zero_low = λ e. omega arith;
  one_low = λ e. cc;
}

widths-AreWidths : AreWidths clock 20 window time ticks
unfolding program
widths-AreWidths = record {
  start = start-IsStart;
  one = one-IsBit;
  zero = zero-IsBit;
  one_short = omega arith;
  zero_long = omega arith;
  apart = omega arith;
}

-- The application queues a message at any time.
abbrev asks : ℕ → Node Raw → Node Raw
asks j n = record n { tx = question }

asks-IsApart : IsApart asks
asks-IsApart j n = refl

abbrev every : ℕ → ℕ → List ℕ
every zero d = []
every (suc j) d = d ∷ every j d

every_close : (j : ℕ) → AreClose clock 20 (every j 20)
every_close zero = tt
every_close (suc j) = (omega arith, every_close j)

-- A start bit, a zero and a one, looked at every 160 microseconds.
abbrev short_line : List Pulse
short_line = pulse clock time (46, 74) ∷ pulse clock time (18, 74) ∷ []

short_line-SeesAll :
    SeesAll clock 20 (5 + sum (every 52 20)) (long_pulse clock time (115, 140)) short_line
unfolding program
short_line-SeesAll = omega arith

pulses-feed_example :
    (let p = long_pulse clock time (115, 140) in
      (polls clock config television asks
        (record { delta = 15; line = leb p.low 5 } ∷ looks (every 52 20) 5 p short_line)
        listener).rx
      ≡ (let v = driver in
          feed config v television (bits_of short_line) (receive_start config v listener)).rx)
pulses-feed_example =
    pulses-feed clock 20 window config television asks asks-IsApart
      (long_pulse clock time (115, 140)) short_line (every 52 20) 15 5 listener start-IsStart
      (zero-IsBit, (one-IsBit, tt)) (every_close 52) short_line-SeesAll (omega arith) refl refl refl

-- A start bit and the bits of a message that break off.
polls-sending_example :
    (let p = long_pulse clock time (115, 140) in
      let l = looks (every 52 20) 5 p short_line in
      sending
        (λ d. d.pwm)
        (polls clock config television
          (λ j n. n)
          (record { delta = 15; line = false } ∷ l)
          listener)
      ≡ sending (λ d. d.pwm) listener)
polls-sending_example =
    polls-sending clock config television
      (record { delta = 15; line = false }
        ∷ looks (every 52 20) 5 (long_pulse clock time (115, 140)) short_line)
      listener refl

abbrev follows : ℕ → Rx
follows i = record free_rx { flags = start_flags }

follows_lem : (i : ℕ) → 0 < i → i < 20 → any_flag (follows i).flags ≡ true
unfolding any_flag
follows_lem i l h = refl

sees_message :
    SeesAll clock 20
      (5 + sum (every 325 20))
      (start_pulse clock time ticks clock config follows (λ i. i) sender)
      (on_line clock time ticks clock config follows (λ i. i) sender [])
unfolding program
sees_message = omega arith

-- The television, which has its address.
abbrev set_up : System Raw
set_up = record { node = listener; logical = 0; idx = 1 }

set_up-ready : addr_ready (host set_up) ≡ true
unfolding addr_ready
set_up-ready = refl

loads-periodics_example :
    (let p = start_pulse clock time ticks clock config follows (λ i. i) sender in
      IsHanded 0 0
        (0x40 ∷ 0x9f ∷ [])
        free_rx
        (periodics clock config ticks
          (0 ∷ 14 ∷ [])
          (λ j. true)
          (λ j. false)
          (record { delta = 15; line = leb p.low 5 }
            ∷ looks
                (every 325 20)
                5
                p
                (on_line clock time ticks clock config follows (λ i. i) sender []))
          set_up).node.rx)
loads-periodics_example =
    loads-periodics clock config ticks (0 ∷ 14 ∷ []) (λ j. true) (λ j. false) 20 window time clock
      config ticks widths-AreWidths follows (λ i. i) sender set_up [] (every 325 20) 15 5
      (omega arith) (omega arith) refl question-IsBytes follows_lem (every_close 325) (omega arith)
      sees_message set_up-ready refl refl refl refl refl
