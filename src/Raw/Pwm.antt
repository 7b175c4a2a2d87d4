-- ===== src/Raw/Pwm.antt =====
-- `cec_transmit_periodic` of cec_transmit_pwm.c.
use avr_cec.Common.{ℕ, ◌-◌, bit_and, Bool, true, false, if◌then◌else◌, ltb, truth}
use avr_cec.Spec.{arb_lost}
use avr_cec.Macros.Time.{Clock}
use avr_cec.Transmit.{Config, code, is, wait_for_ack, get_bit, start}
use avr_cec.Receive.State.{any_flag}
use avr_cec.Receive.Engine.{Node, on_error}
use avr_cec.Raw.{
  Raw, Sender, PwmTicks, Xmit, xmit_idle, xmit_start_bit, xmit_running, xmit_end1, xmit_end2,
  xmit_done, add_capped, raw_driver,
}

abbrev pub with_pwm : (Sender → Sender) → Node Raw → Node Raw
with_pwm f n = let d = n.drv in record n { drv = record d { pwm = f d.pwm } }

-- `cec_transmit_init_hw`: the timer's output is forced low.
abbrev pub transmit_init_hw : Node Raw → Node Raw
transmit_init_hw n = with_pwm (λ p. record p { gtccr_pwm = false }) n

module _ (k : Clock) (c : Config) (ticks : PwmTicks) where
  -- The cases XMIT_START, and XMIT_RUNNING after it has set the period: the next bit is loaded.
  unfoldable pub load_bit : Node Raw → Node Raw
  load_bit n =
      let (t, bit) = get_bit c n.tx in
      with_pwm
        (λ p. record p {
          ocr1b = if bit then ticks.one_ticks else ticks.zero_ticks;
          xmit_state = if is t.state wait_for_ack then xmit_end1 else xmit_running;
        })
        (record n { tx = t })

  -- The switch of `xmit_pwm_periodic`.
  unfoldable pub xmit_case : Xmit → Node Raw → Node Raw
  xmit_case xmit_running n =
      if any_flag n.rx.flags
      then load_bit (with_pwm (λ p. record p { ocr1c = ticks.data_period }) n)
      else on_error c (raw_driver k c) arb_lost n
  xmit_case xmit_start_bit n = load_bit n
  xmit_case xmit_end1 n = with_pwm (λ p. record p { ocr1b = 0; xmit_state = xmit_end2 }) n
  xmit_case xmit_end2 n = with_pwm (λ p. record p { tccr1 = 0; xmit_state = xmit_idle }) n
  xmit_case xmit_idle n = n
  xmit_case xmit_done n = n

  -- `xmit_pwm_periodic`; `overflow` is TOV1 of TIFR, which the call then clears.
  unfoldable pub xmit_pwm_periodic : Bool → Node Raw → Node Raw
  xmit_pwm_periodic overflow n = if overflow then xmit_case n.drv.pwm.xmit_state n else n

  -- `xmit_start`, in the state XMIT_IDLE.
  unfoldable pub xmit_start : Node Raw → Node Raw
  xmit_start n =
      let n' = record n { tx = start c n.tx } in
      with_pwm
        (λ p. record p {
          tcnt1 = ticks.start_period - 1;
          ocr1c = ticks.start_period;
          gtccr_pwm = true;
          ocr1b = ticks.start_ticks;
          xmit_state = xmit_start_bit;
          tccr1 = ticks.prescaler_val;
        })
        n'

  abbrev pub is_idle : Xmit → Bool
  is_idle xmit_idle = true
  is_idle _ = false

  -- The part of `cec_transmit_periodic` behind the first `if`: the free time of the line, and the
  -- start of a queued message.
  unfoldable pub watch_line : Bool → ℕ → Node Raw → Node Raw
  watch_line input delta n =
      if input
      then (let n' = with_pwm (λ p. record p { high_timer = add_capped p.high_timer delta }) n in
          if ltb n'.drv.pwm.high_timer n'.tx.needed_idle
          then n'
          else (if is_idle n'.drv.pwm.xmit_state
              then (if truth (bit_and (code n'.tx.state) 2) then xmit_start n' else n')
              else n'))
      else with_pwm (λ p. record p { high_timer = 0 }) n

  unfoldable pub transmit_periodic : Bool → Bool → ℕ → Node Raw → Node Raw
  transmit_periodic overflow input delta n =
      watch_line input delta
        (if is_idle n.drv.pwm.xmit_state then n else xmit_pwm_periodic overflow n)
