-- ===== src/Raw/Cycles.antt =====
-- The pulses that timer 1 makes of what the PWM driver loads, from `xmit_start` until the clock is stopped.
pub mod Whole
use avr_cec.Common.{
  ℕ, zero, suc, ◌+◌, ◌*◌, ◌≤◌, ◌<◌, ◌≡◌, ◌≢◌, ◌⊎◌, inl, refl, ap, ap₂, ◌∙◌, sym, subst, arith, Bool,
  true, List, [], ◌∷◌, length, take, IsBytes, if◌then◌else◌,
}
use avr_cec.Macros.Time.{Clock}
use avr_cec.Transmit.{Config, Tx, wait_for_ack, get_bit, start}
use avr_cec.Transmit.Layout.{message_bits}
use avr_cec.Receive.State.{Rx, any_flag}
use avr_cec.Receive.Engine.{Node}
use avr_cec.Raw.{
  Raw, PwmTicks, Xmit, xmit_idle, xmit_start_bit, xmit_running, xmit_end1, xmit_end2, xmit_done,
}
use avr_cec.Raw.Pwm.{load_bit, xmit_case, xmit_pwm_periodic, xmit_start}
use avr_cec.Raw.Sent.{width, widths, meanwhile, loads, loads-xmit_start}
use avr_cec.Transmit.Left.{IsLeft, IsLeft-step, start-IsLeft, is_wait_for_ack}
use avr_cec.Transmit.Sender.{shown}

running_ne : xmit_running ≢ xmit_start_bit
running_ne e = cc

module _ (k : Clock) (c : Config) (ticks : PwmTicks) where
  -- `j` pulses of the timer, as many calls, and for each pulse its low part and its period: the timer takes
  -- over OCR1B when a pulse begins, so its low part is what OCR1B held before the call that finds the
  -- timer run out, and its period what this call leaves in OCR1C.
  unfoldable pub cycles : (ℕ → Rx) → (ℕ → ℕ) → ℕ → Node Raw → Node Raw × List (ℕ × ℕ)
  cycles heard wait zero n = (n, [])
  cycles heard wait (suc j) n =
      let n' = xmit_pwm_periodic k c ticks true (meanwhile k c ticks (heard j) (wait j) n) in
      let (m, l) = cycles heard wait j n' in (m, (n.drv.pwm.ocr1b, n'.drv.pwm.ocr1c) ∷ l)

  -- The pulse of a bit.
  abbrev pub cell : Bool → ℕ × ℕ
  cell b = (width k c ticks b, ticks.data_period)

  abbrev with_period : List ℕ → List (ℕ × ℕ)
  with_period [] = []
  with_period (w ∷ l) = (w, ticks.data_period) ∷ with_period l

  with_period-widths : (bs : List Bool) → with_period (widths k c ticks bs) ≡ shown cell bs
  with_period-widths [] = refl
  with_period-widths (b ∷ bs) = ap (λ l. cell b ∷ l) (with_period-widths bs)

  -- Behind the start bit, the period is that of data once a bit has been loaded in XMIT_RUNNING.
  abbrev HasPeriod : Xmit → Node Raw → Type 0
  HasPeriod x n =
      (x ≢ xmit_start_bit) × ((x ≡ xmit_running) ⊎ (n.drv.pwm.ocr1c ≡ ticks.data_period))

  case-HasPeriod :
      (x : Xmit) (n : Node Raw)
      → HasPeriod x n
      → (x ≡ xmit_running → any_flag n.rx.flags ≡ true)
      → (let n' = xmit_case k c ticks x n in
          (x ≡ n.drv.pwm.xmit_state → HasPeriod n'.drv.pwm.xmit_state n')
          × (n'.drv.pwm.ocr1c ≡ ticks.data_period))
  unfolding xmit_case load_bit
  case-HasPeriod xmit_idle n h a = (λ e. ground arith, ground arith)
  case-HasPeriod xmit_start_bit n h a = absurd (h.0 refl)
  case-HasPeriod xmit_running n h a =
      let on = a refl in (λ e. ground (arith, on), ground (arith, on))
  case-HasPeriod xmit_end1 n h a = (λ e. ground arith, ground arith)
  case-HasPeriod xmit_end2 n h a = (λ e. ground arith, ground arith)
  case-HasPeriod xmit_done n h a = (λ e. ground arith, ground arith)

  call-HasPeriod :
      (n : Node Raw)
      → HasPeriod n.drv.pwm.xmit_state n
      → (n.drv.pwm.xmit_state ≡ xmit_running → any_flag n.rx.flags ≡ true)
      → (let n' = xmit_pwm_periodic k c ticks true n in
          HasPeriod n'.drv.pwm.xmit_state n' × (n'.drv.pwm.ocr1c ≡ ticks.data_period))
  unfolding xmit_pwm_periodic
  call-HasPeriod n h a = let q = case-HasPeriod n.drv.pwm.xmit_state n h a in (q.0 refl, q.1)

  module _ (heard : ℕ → Rx) (wait : ℕ → ℕ) where
    abbrev call : ℕ → Node Raw → Node Raw
    call j n = xmit_pwm_periodic k c ticks true (meanwhile k c ticks (heard j) (wait j) n)

    -- The pulses are those of the widths that are loaded, one call later.
    cycles-loads :
        (j : ℕ) (n : Node Raw)
        → HasPeriod n.drv.pwm.xmit_state n
        → ((i : ℕ) → 0 < i → i ≤ j → any_flag (heard i).flags ≡ true)
        → (let q = loads k c ticks (λ i. heard (suc i)) (λ i. wait (suc i)) j n in
            q.0.drv.pwm.xmit_state ≡ xmit_end1
            → (cycles heard wait (suc j) n
                ≡ (call 0 q.0, (n.drv.pwm.ocr1b, ticks.data_period) ∷ with_period q.1)))
    unfolding cycles loads
    cycles-loads zero n h a e =
        let p = call-HasPeriod (meanwhile k c ticks (heard 0) (wait 0) n) h (λ r. cc) in
        ap (λ x. (call 0 n, (n.drv.pwm.ocr1b, x) ∷ [])) p.1
    cycles-loads (suc j) n h a e =
        let m = call (suc j) n in
        let p =
          call-HasPeriod (meanwhile k c ticks (heard (suc j)) (wait (suc j)) n) h
            (λ r. a (suc j) (omega arith) (omega arith)) in
        let r = cycles-loads j m p.0 (λ i l u. a i l (omega arith)) e in
        ap (λ z. (z.0, (n.drv.pwm.ocr1b, m.drv.pwm.ocr1c) ∷ z.1)) r
        ∙ ap
            (λ x. (
              call 0 (loads k c ticks (λ i. heard (suc i)) (λ i. wait (suc i)) j m).0,
              (n.drv.pwm.ocr1b, x)
                  ∷ (m.drv.pwm.ocr1b, ticks.data_period)
                  ∷ with_period (loads k c ticks (λ i. heard (suc i)) (λ i. wait (suc i)) j m).1,
            ))
            p.1

    -- The first call loads a bit and leaves the period.
    first_call :
        (j : ℕ) (n : Node Raw)
        → n.tx.buf_end < 256
        → (let m = call j (xmit_start k c ticks n) in
            (m.drv.pwm.xmit_state ≡ xmit_running) × (m.drv.pwm.ocr1c ≡ ticks.start_period))
    unfolding xmit_start xmit_pwm_periodic xmit_case load_bit
    first_call j n h =
        let t = start c n.tx in
        let u : Tx = record t { needed_idle = wait j } in
        let l = start-IsLeft c n.tx h in
        let z = IsLeft-step c u (8 + 10 * n.tx.buf_end) (
          subst (IsLeft u) (omega arith)
            (record { pos_in = l.pos_in; end_byte = l.end_byte; place = l.place })) in
        (
          ap (λ b. if b then xmit_end1 else xmit_running)
              (is_wait_for_ack (get_bit c u).0.state z.1),
          refl,
        )

  -- A whole transmission, of as many pulses as the message has bits and the start bit.
  abbrev pub transmission : (ℕ → Rx) → (ℕ → ℕ) → Node Raw → Node Raw × List (ℕ × ℕ)
  transmission heard wait n =
      cycles heard wait (suc (suc (9 + 10 * n.tx.buf_end))) (xmit_start k c ticks n)

  stopped :
      (n : Node Raw) (r : Rx) (t : Tx)
      → n.drv.pwm.xmit_state ≡ xmit_end2
      → (let m = xmit_pwm_periodic k c ticks true (record n { rx = r; tx = t }) in
          (m.drv.pwm.tccr1 ≡ 0) × (m.drv.pwm.xmit_state ≡ xmit_idle) × (m.rx ≡ r) × (m.tx ≡ t))
  unfolding xmit_pwm_periodic xmit_case
  stopped n r t e = ground arith

  last_call :
      (n : Node Raw)
      → n.drv.pwm.xmit_state ≡ xmit_end1
      → (let m = xmit_pwm_periodic k c ticks true n in
          (m.drv.pwm.ocr1b ≡ 0) × (m.drv.pwm.xmit_state ≡ xmit_end2) × (m.tx.state ≡ n.tx.state))
  unfolding xmit_pwm_periodic xmit_case
  last_call n e = ground arith
