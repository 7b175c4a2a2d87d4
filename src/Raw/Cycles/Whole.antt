-- ===== src/Raw/Cycles/Whole.antt =====
-- A whole transmission of the PWM driver: from `xmit_start` until the clock is stopped.
use avr_cec.Common.{
  ℕ, suc, ◌+◌, ◌*◌, ◌<◌, ◌≤◌, ◌≡◌, ap, ap₂, ◌∙◌, sym, arith, inl, true, List, ◌∷◌, length, take,
  IsBytes,
}
use avr_cec.Macros.Time.{Clock}
use avr_cec.Transmit.{Config, Tx, wait_for_ack}
use avr_cec.Transmit.Layout.{message_bits}
use avr_cec.Transmit.Sender.{shown}
use avr_cec.Receive.State.{Rx, any_flag}
use avr_cec.Receive.Engine.{Node}
use avr_cec.Raw.{Raw, PwmTicks, xmit_idle, xmit_running, xmit_end1, xmit_end2}
use avr_cec.Raw.Pwm.{xmit_pwm_periodic, xmit_start}
use avr_cec.Raw.Sent.{widths, meanwhile, loads, loads-xmit_start}
use avr_cec.Raw.Cycles.{
  cycles, cell, with_period, with_period-widths, call, cycles-loads, first_call, transmission,
  stopped, last_call, running_ne,
}

module _ (k : Clock) (c : Config) (ticks : PwmTicks) where
  module _ (heard : ℕ → Rx) (wait : ℕ → ℕ) (n : Node Raw) (fits : n.tx.buf_end < length n.tx.buf)
      (size : length n.tx.buf ≤ 256) (bytes : IsBytes n.tx.buf)
      (follows : (i : ℕ)
        → 0 < i
        → i < 10 + 10 * n.tx.buf_end
        → any_flag (heard i).flags ≡ true) where
    abbrev last : ℕ
    last = 9 + 10 * n.tx.buf_end

    -- The driver behind `xmit_start`, behind the first call, and behind the one that loads the last bit.
    abbrev started : Node Raw
    started = xmit_start k c ticks n

    abbrev first : Node Raw
    first = call k c ticks heard wait (suc last) started

    abbrev loaded : Node Raw × List ℕ
    loaded = loads k c ticks (λ i. heard (suc i)) (λ i. wait (suc i)) (suc last) started

    begun : (first.drv.pwm.xmit_state ≡ xmit_running) × (first.drv.pwm.ocr1c ≡ ticks.start_period)
    begun = first_call k c ticks heard wait (suc last) n (omega arith)

    sent :
        (loaded.1 ≡ widths k c ticks (message_bits (take (suc n.tx.buf_end) n.tx.buf)))
        × (loaded.0.drv.pwm.xmit_state ≡ xmit_end1)
        × (loaded.0.tx.state ≡ wait_for_ack)
    sent =
        loads-xmit_start k c ticks (λ i. heard (suc i)) (λ i. wait (suc i)) n fits size bytes
          (λ i l. follows (suc i) (omega arith) (omega arith))

    pulses :
        cycles k c ticks heard wait (suc last) first
        ≡ (call k c ticks heard wait 0 loaded.0, with_period k c ticks loaded.1)
    unfolding loads
    pulses =
        cycles-loads k c ticks heard wait last first
          (λ e. running_ne (sym begun.0 ∙ e), inl begun.0) (λ i l u. follows i l (omega arith))
          sent.1

    start_cell :
        ◌≡◌ {A = ℕ × ℕ}
          (started.drv.pwm.ocr1b, first.drv.pwm.ocr1c)
          (ticks.start_ticks, ticks.start_period)
    unfolding xmit_start
    start_cell = ap (λ x. (ticks.start_ticks, x)) begun.1

    all_pulses :
        (transmission k c ticks heard wait n).1
        ≡ (ticks.start_ticks, ticks.start_period)
          ∷ shown (cell k c ticks) (message_bits (take (suc n.tx.buf_end) n.tx.buf))
    unfolding cycles
    all_pulses =
        ap (λ z. (started.drv.pwm.ocr1b, first.drv.pwm.ocr1c) ∷ z.1) pulses
        ∙ ap₂ (λ w x. w ∷ x) start_cell
            (ap (with_period k c ticks) sent.0
              ∙ with_period-widths k c ticks (message_bits (take (suc n.tx.buf_end) n.tx.buf)))

    at_end :
        (let m = (transmission k c ticks heard wait n).0 in
          (m.drv.pwm.ocr1b ≡ 0) × (m.drv.pwm.xmit_state ≡ xmit_end2) × (m.tx.state ≡ wait_for_ack))
    unfolding cycles
    at_end =
        let q = last_call k c ticks (meanwhile k c ticks (heard 0) (wait 0) loaded.0) sent.1 in
        (
          ap (λ z. z.0.drv.pwm.ocr1b) pulses ∙ q.0,
          ap (λ z. z.0.drv.pwm.xmit_state) pulses ∙ q.1,
          ap (λ z. z.0.tx.state) pulses ∙ q.2 ∙ sent.2,
        )

  pub cycles-xmit_start :
      (heard : ℕ → Rx) (wait : ℕ → ℕ) (n : Node Raw) (r : Rx) (t : Tx)
      → n.tx.buf_end < length n.tx.buf
      → length n.tx.buf ≤ 256
      → IsBytes n.tx.buf
      → ((i : ℕ) → 0 < i → i < 10 + 10 * n.tx.buf_end → any_flag (heard i).flags ≡ true)
      → (let p = transmission k c ticks heard wait n in
          let after = record p.0 { rx = r; tx = t } in
          let m = xmit_pwm_periodic k c ticks true after in
          (p.1
            ≡ (ticks.start_ticks, ticks.start_period)
              ∷ shown (cell k c ticks) (message_bits (take (suc n.tx.buf_end) n.tx.buf)))
          × (p.0.tx.state ≡ wait_for_ack)
          × (p.0.drv.pwm.ocr1b ≡ 0)
          × (m.drv.pwm.tccr1 ≡ 0)
          × (m.drv.pwm.xmit_state ≡ xmit_idle)
          × (m.rx ≡ r)
          × (m.tx ≡ t))
  cycles-xmit_start heard wait n r t h b bytes a =
      let p = at_end heard wait n h b bytes a in
      let s = stopped k c ticks (transmission k c ticks heard wait n).0 r t p.1 in
      (all_pulses heard wait n h b bytes a, p.2, p.0, s.0, s.1, s.2, s.3)
