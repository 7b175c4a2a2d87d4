-- ===== src/Raw/Sent.antt =====
-- The pulse widths that the PWM driver loads while it sends a message.
use avr_cec.Common.{
  ℕ, zero, suc, ◌+◌, ◌*◌, ◌≤◌, ◌<◌, ◌≡◌, ◌≢◌, ◌⊎◌, inl, inr, refl, ap, ◌∙◌, sym, arith, Bool, true,
  List, [], ◌∷◌, length, take, IsBytes, if◌then◌else◌,
}
use avr_cec.Macros.Time.{Clock}
use avr_cec.Transmit.{Config, wait_for_ack, is, get_bit}
use avr_cec.Transmit.Layout.{message_bits}
use avr_cec.Receive.State.{Rx, any_flag}
use avr_cec.Receive.Engine.{Node}
use avr_cec.Raw.{Raw, PwmTicks, xmit_start_bit, xmit_running, xmit_end1}
use avr_cec.Raw.Pwm.{load_bit, xmit_case, xmit_pwm_periodic, xmit_start}
use avr_cec.Transmit.Left.{is_wait_for_ack}
use avr_cec.Transmit.Sender.{Sender, shown, sends, sends-start}

module _ (k : Clock) (c : Config) (ticks : PwmTicks) where
  -- The width of a bit, in timer counts.
  abbrev pub width : Bool → ℕ
  width b = if b then ticks.one_ticks else ticks.zero_ticks

  abbrev pub widths : List Bool → List ℕ
  widths = shown width

  -- What the receive side does between two calls of the sender, while it has nothing to report: its
  -- own variables change, and the wait.
  abbrev pub meanwhile : Rx → ℕ → Node Raw → Node Raw
  meanwhile r w n = let t = n.tx in record n { rx = r; tx = record t { needed_idle = w } }

  -- `j` calls of `xmit_pwm_periodic` that each find the timer run out, and the widths loaded; `heard i`
  -- and `wait i` are what the receive side leaves before the call that `i` others follow.
  unfoldable pub loads : (ℕ → Rx) → (ℕ → ℕ) → ℕ → Node Raw → Node Raw × List ℕ
  loads heard wait zero n = (n, [])
  loads heard wait (suc j) n =
      let n' = xmit_pwm_periodic k c ticks true (meanwhile (heard j) (wait j) n) in
      let (m, l) = loads heard wait j n' in (m, n'.drv.pwm.ocr1b ∷ l)

  -- The sender is in the middle of a message, and may load a bit.
  abbrev Sends : Rx → Node Raw → Type 0
  Sends r n =
      (n.drv.pwm.xmit_state ≡ xmit_start_bit)
      ⊎ ((n.drv.pwm.xmit_state ≡ xmit_running) × (any_flag r.flags ≡ true))

  load_lem :
      (n : Node Raw)
      → Sends n.rx n
      → (let n' = xmit_pwm_periodic k c ticks true n in
          (n'.tx ≡ (get_bit c n.tx).0)
          × (n'.drv.pwm.ocr1b ≡ width (get_bit c n.tx).1)
          × (n'.drv.pwm.xmit_state
              ≡ (if is (get_bit c n.tx).0.state wait_for_ack then xmit_end1 else xmit_running)))
  unfolding xmit_pwm_periodic xmit_case load_bit
  load_lem n (inl s) = ground arith
  load_lem n (inr s) = ground arith

  -- The driver in the middle of a message of which the first call is followed by `last` others.
  module _ (heard : ℕ → Rx) (wait : ℕ → ℕ) (last : ℕ)
      (follows : (i : ℕ) → i < last → any_flag (heard i).flags ≡ true) where
    abbrev load : ℕ → Node Raw → Node Raw × ℕ
    load j n =
        let n' = xmit_pwm_periodic k c ticks true (meanwhile (heard j) (wait j) n) in
        (n', n'.drv.pwm.ocr1b)

    load-Sends :
        (j : ℕ) (n : Node Raw)
        → Sends (heard (suc j)) n
        → suc j ≤ last
        → (load (suc j) n).0.tx.state ≢ wait_for_ack
        → Sends (heard j) (load (suc j) n).0
    load-Sends j n s h w =
        let q = load_lem (meanwhile (heard (suc j)) (wait (suc j)) n) s in
        inr (
          q.2
              ∙ ap (λ b. if b then xmit_end1 else xmit_running)
                  (is_wait_for_ack _ (λ e. w (ap (λ t. t.state) q.0 ∙ e))),
          follows j (omega arith),
        )

    load-ends :
        (n : Node Raw)
        → Sends (heard 0) n
        → (load 0 n).0.tx.state ≡ wait_for_ack
        → (load 0 n).0.drv.pwm.xmit_state ≡ xmit_end1
    load-ends n s e =
        let q = load_lem (meanwhile (heard 0) (wait 0) n) s in
        q.2
        ∙ ap (λ u. if is u wait_for_ack then xmit_end1 else xmit_running)
            (ap (λ t. t.state) (sym q.0) ∙ e)

    pwm_sender : Sender c (Node Raw)
    pwm_sender = record {
      tx = λ n. n.tx;
      show = width;
      step = load;
      Going = λ j n. Sends (heard j) n × (j ≤ last);
      Done = λ n. n.drv.pwm.xmit_state ≡ xmit_end1;
      wait = λ j n. wait j;
      asks = λ j n g. let q = load_lem (meanwhile (heard j) (wait j) n) g.0 in (q.0, q.1);
      goes_on = λ j n g w. (load-Sends j n g.0 g.1 w, omega (arith, g.1));
      ends = λ n g e. load-ends n g.0 e;
    }

    loads-sends : (j : ℕ) (n : Node Raw) → loads heard wait j n ≡ sends pwm_sender j n
    unfolding loads sends pwm_sender
    loads-sends zero n = refl
    loads-sends (suc j) n = ap (λ p. (p.0, (load j n).1 ∷ p.1)) (loads-sends j (load j n).0)

  -- From `xmit_start` on, the calls that find the timer run out load the widths of the bits of the
  -- message. The first call comes with the start bit; at every later one the receive side is
  -- following.
  pub loads-xmit_start :
      (heard : ℕ → Rx) (wait : ℕ → ℕ) (n : Node Raw)
      → n.tx.buf_end < length n.tx.buf
      → length n.tx.buf ≤ 256
      → IsBytes n.tx.buf
      → ((i : ℕ) → i < 9 + 10 * n.tx.buf_end → any_flag (heard i).flags ≡ true)
      → (let p = loads heard wait (suc (9 + 10 * n.tx.buf_end)) (xmit_start k c ticks n) in
          (p.1 ≡ widths (message_bits (take (suc n.tx.buf_end) n.tx.buf)))
          × (p.0.drv.pwm.xmit_state ≡ xmit_end1)
          × (p.0.tx.state ≡ wait_for_ack))
  unfolding xmit_start
  loads-xmit_start heard wait n h b t a =
      let last = 9 + 10 * n.tx.buf_end in
      let m = xmit_start k c ticks n in
      rw (loads-sends heard wait last a (suc last) m) (
        unfold pwm_sender in
        sends-start (pwm_sender heard wait last a) n.tx m h b t refl (inl refl, omega arith))
