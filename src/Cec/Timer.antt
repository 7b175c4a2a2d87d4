-- ===== src/Cec/Timer.antt =====
-- What `cec_halt` does to a transmission that the receive side has not noticed yet.
use avr_cec.Common.{ℕ, ◌<◌, ◌≡◌, ◌∙◌, ap, sym, subst, refl, arith, Bool, true, false, if◌then◌else◌}
use avr_cec.Macros.Time.{Clock}
use avr_cec.Transmit.{Config, Tx, idle, get_bit, data_bit}
use avr_cec.Receive.State.{any_flag}
use avr_cec.Receive.Engine.{Node, receive_error}
use avr_cec.Receive.AtRest.{still_idle, get_bit-sending}
use avr_cec.Raw.{Raw, PwmTicks, raw_driver, nack_frame, xmit_start_bit, xmit_running}
use avr_cec.Raw.Pwm.{xmit_pwm_periodic, xmit_case, load_bit, is_idle, watch_line, transmit_periodic}
use avr_cec.Raw.Receive.{receive_periodic}
use avr_cec.Raw.AtRest.{receive_periodic-sending}
use avr_cec.Addr.Static.{static_match, static_init}
use avr_cec.Cec.{Inputs, halt_engines, periodic_engines}
use avr_cec.Cec.Static.{StaticSystem, raw_static_halt, raw_static_periodic}

module _ (k : Clock) (c : Config) (ticks : PwmTicks) where
  -- What a call of the sender leaves, in which the timer has run out before the first bit.
  record IsLoaded (n m : Node Raw) : Type 0 where
    state : m.tx.state ≡ n.tx.state
    tccr1 : m.drv.pwm.tccr1 ≡ n.drv.pwm.tccr1
    xmit_state : m.drv.pwm.xmit_state ≡ xmit_running
    ocr1b : m.drv.pwm.ocr1b ≡ (if (get_bit c n.tx).1 then ticks.one_ticks else ticks.zero_ticks)

  watch_line-IsLoaded :
      (input : Bool) (delta : ℕ) (n m : Node Raw)
      → IsLoaded n m
      → IsLoaded n (watch_line k c ticks input delta m)
  unfolding watch_line
  watch_line-IsLoaded input delta n m l = ground arith

  xmit-IsLoaded :
      (n : Node Raw)
      → n.tx.state ≡ idle
      → n.drv.pwm.xmit_state ≡ xmit_start_bit
      → 0 < n.tx.buf_bit
      → IsLoaded n (xmit_pwm_periodic k c ticks true n)
  unfolding xmit_pwm_periodic xmit_case load_bit get_bit data_bit
  xmit-IsLoaded n h x b = record {
    state = ground arith;
    tccr1 = ground arith;
    xmit_state = ground arith;
    ocr1b = ground arith;
  }

  transmit_periodic-IsLoaded :
      (input : Bool) (delta : ℕ) (n : Node Raw)
      → n.tx.state ≡ idle
      → n.drv.pwm.xmit_state ≡ xmit_start_bit
      → 0 < n.tx.buf_bit
      → IsLoaded n (transmit_periodic k c ticks true input delta n)
  unfolding transmit_periodic
  transmit_periodic-IsLoaded input delta n h x b =
      let m = xmit_pwm_periodic k c ticks true n in
      subst (λ u. IsLoaded n (watch_line k c ticks input delta u))
        (sym (ap (λ y. if is_idle k c ticks y then n else m) x))
        (watch_line-IsLoaded input delta n m (xmit-IsLoaded n h x b))

  halted :
      (n : Node Raw)
      → any_flag n.rx.flags ≡ false
      → ((halt_engines k c n).drv ≡ n.drv)
        × ((halt_engines k c n).tx ≡ (let t = n.tx in record t { state = idle }))
  unfolding halt_engines receive_error
  halted n f = ground arith

  idle_bit : (t : Tx) → 0 < t.buf_bit → (get_bit c (record t { state = idle })).1 ≡ (get_bit c t).1
  unfolding get_bit data_bit
  idle_bit t b = ground arith

  static_call :
      (i : Inputs) (delta : ℕ) (own : ℕ → Bool) (n : Node Raw)
      → i.overflow ≡ true
      → periodic_engines k c ticks i delta own n
        ≡ transmit_periodic k c ticks true i.tx_line delta
            (receive_periodic k c own i.rx_line delta n)
  unfolding periodic_engines
  static_call i delta own n over =
      ap
        (λ o.
          transmit_periodic k c ticks o i.tx_line delta
            (receive_periodic k c own i.rx_line delta n))
        over

  -- In a build with static addresses: if `cec_halt` is called while the sender waits to load the first
  -- bit of a message and the receive side has not seen the start bit, then it leaves the sender and its
  -- timer as they are, and a call of `cec_periodic` behind it that finds the timer run out, whatever
  -- the line does, loads the width of that bit: the timer runs on, the sender is in XMIT_RUNNING, and
  -- the state of the transmit side is TRANSMIT_IDLE before and after the call.
  pub halt_keeps_sending :
      (i : Inputs) (delta : ℕ) (s : StaticSystem Raw)
      → any_flag s.node.rx.flags ≡ false
      → s.node.drv.pwm.xmit_state ≡ xmit_start_bit
      → 0 < s.node.tx.buf_bit
      → i.overflow ≡ true
      → (let h = raw_static_halt k c s in
          let n = (raw_static_periodic k c ticks i delta h).node in
          (h.node.drv ≡ s.node.drv)
          × (h.node.tx.state ≡ idle)
          × (n.tx.state ≡ idle)
          × (n.drv.pwm.tccr1 ≡ s.node.drv.pwm.tccr1)
          × (n.drv.pwm.xmit_state ≡ xmit_running)
          × (n.drv.pwm.ocr1b
              ≡ (if (get_bit c s.node.tx).1 then ticks.one_ticks else ticks.zero_ticks)))
  unfolding raw_static_halt raw_static_periodic
  halt_keeps_sending i delta s f x b over =
      let own = static_match (static_init s.addresses) in
      let n = halt_engines k c s.node in
      let q = halted s.node f in
      let rest = ap (λ t. t.state) q.1 in
      let m = receive_periodic k c own i.rx_line delta n in
      let e = receive_periodic-sending k c own i.rx_line delta n rest in
      let same = ap (λ p. p.1) e ∙ ap (λ d. d.pwm) q.0 in
      let bit = ap (λ p. p.0.buf_bit) e ∙ ap (λ t. t.buf_bit) q.1 in
      let l =
        transmit_periodic-IsLoaded i.tx_line delta m (still_idle (λ d. d.pwm) n m e rest)
          (ap (λ p. p.xmit_state) same ∙ x) (rw bit b) in
      let started = static_call i delta own n over in
      rw started (
        q.0,
        rest,
        l.state ∙ still_idle (λ d. d.pwm) n m e rest,
        l.tccr1 ∙ ap (λ p. p.tccr1) same,
        l.xmit_state,
        l.ocr1b
            ∙ ap (λ y. if y then ticks.one_ticks else ticks.zero_ticks)
                (get_bit-sending c (raw_driver k c) (λ d. d.pwm) (λ d. unfold nack_frame in refl) n
                    m e
                  ∙ ap (λ t. (get_bit c t).1) q.1
                  ∙ idle_bit s.node.tx b),
      )
