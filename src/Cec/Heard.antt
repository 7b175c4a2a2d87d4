-- ===== src/Cec/Heard.antt =====
-- `cec_periodic` of the build with the raw drivers, called one time after the other: what the host hears.
use avr_cec.Common.{
  ℕ, suc, ◌+◌, ◌*◌, ◌≤◌, ◌<◌, ◌≡◌, refl, ap, ◌∙◌, sym, subst, arith, Bool, true, false, ◌==◌, not,
  leb, List, [], ◌∷◌, length, take, IsBytes,
}
use avr_cec.Macros.Time.{Clock}
use avr_cec.Transmit.{Config}
use avr_cec.Receive.State.{Rx, no_flags, any_flag, header}
use avr_cec.Receive.Engine.{Node, on_error}
use avr_cec.Receive.Message.{IsHanded}
use avr_cec.Addr.DevType.{Host, addr_ready, addr_match, addr_periodic}
use avr_cec.Raw.{
  Raw, PwmTicks, Xmit, xmit_idle, xmit_start_bit, xmit_running, xmit_end1, xmit_end2, xmit_done,
  abort,
}
use avr_cec.Raw.Pwm.{
  load_bit, xmit_case, xmit_pwm_periodic, xmit_start, watch_line, transmit_periodic,
}
use avr_cec.Raw.Receive.{receive_periodic}
use avr_cec.Raw.View.{view, view_call, receive_periodic-view}
use avr_cec.Raw.Wave.{Poll, sample_from, sample_to}
use avr_cec.Raw.Pulses.{looks, SeesAll, AreClose, sum}
use avr_cec.Raw.Deliver.{start_pulse, AreWidths, on_line}
use avr_cec.Raw.Loop.{MainLoop, rounds, loads-rounds}
use avr_cec.Cec.{System, Inputs, host, cec_periodic}

module _ (k : Clock) (c : Config) (ticks : PwmTicks) where
  xmit_case-view : (x : Xmit) (n : Node Raw) → view (xmit_case k c ticks x n) ≡ view n
  unfolding xmit_case load_bit on_error abort
  xmit_case-view xmit_idle n = refl
  xmit_case-view xmit_start_bit n = refl
  xmit_case-view xmit_running n = ground arith
  xmit_case-view xmit_end1 n = refl
  xmit_case-view xmit_end2 n = refl
  xmit_case-view xmit_done n = refl

  watch_line-view :
      (input : Bool) (delta : ℕ) (n : Node Raw) → view (watch_line k c ticks input delta n) ≡ view n
  unfolding watch_line xmit_start
  watch_line-view input delta n = ground arith

  pub transmit_periodic-view :
      (overflow input : Bool) (delta : ℕ) (n : Node Raw)
      → view (transmit_periodic k c ticks overflow input delta n) ≡ view n
  unfolding transmit_periodic xmit_pwm_periodic
  transmit_periodic-view overflow input delta n =
      watch_line-view input delta _ ∙ ground (arith, xmit_case-view n.drv.pwm.xmit_state n)

  module _ (addrs : List ℕ) (overflow tx_line : ℕ → Bool) where
    abbrev inputs : ℕ → Bool → Inputs
    inputs j line = record { rx_line = line; tx_line = tx_line j; overflow = overflow j }

    -- `cec_periodic` in the main loop, once for each look at the line. `overflow i` and `tx_line i` are
    -- what the transmit side finds in the call that `i` others follow.
    pub periodics : List Poll → System Raw → System Raw
    periodics [] s = s
    periodics (q ∷ l) s =
        periodics l (cec_periodic k c ticks addrs (inputs (length l) q.line) q.delta s)

    addr_periodic-ready : (h : Host) → addr_ready h ≡ true → addr_periodic addrs h ≡ h
    unfolding addr_periodic
    addr_periodic-ready h e = rw e refl

    cec_periodic-ready :
        (i : Inputs) (delta : ℕ) (s : System Raw)
        → addr_ready (host s) ≡ true
        → (let s' = cec_periodic k c ticks addrs i delta s in
            (view s'.node ≡ view_call k (addr_match (host s)) i.rx_line delta (view s.node))
            × (s'.logical ≡ s.logical))
    unfolding cec_periodic addr_ready
    cec_periodic-ready i delta s e =
        let own = addr_match (host s) in
        let n = receive_periodic k c own i.rx_line delta s.node in
        let n' = transmit_periodic k c ticks i.overflow i.tx_line delta n in
        rw (addr_periodic-ready (host (record s { node = n' })) e) (
          transmit_periodic-view i.overflow i.tx_line delta n
              ∙ receive_periodic-view k c own i.rx_line delta s.node,
          refl,
        )

    same_address :
        (s s' : System Raw) → s'.logical ≡ s.logical → addr_match (host s') ≡ addr_match (host s)
    unfolding addr_match
    same_address s s' e = ap (λ x a. a == x) e

    still_ready :
        (s s' : System Raw)
        → s'.logical ≡ s.logical
        → addr_ready (host s) ≡ true
        → addr_ready (host s') ≡ true
    unfolding addr_ready
    still_ready s s' e r = ap (λ x. not (x == 0xff)) e ∙ r

    -- The main loop of a host with the address of `h`.
    periodic_loop : (h : System Raw) → MainLoop k (addr_match (host h)) (System Raw)
    periodic_loop h = record {
      node = λ s. s.node;
      step = λ j q s. cec_periodic k c ticks addrs (inputs j q.line) q.delta s;
      Ready = λ s. (addr_ready (host s) ≡ true) × (s.logical ≡ h.logical);
      seen = λ j q s r.
          (cec_periodic-ready (inputs j q.line) q.delta s r.0).0
          ∙ ap (λ own. view_call k own q.line q.delta (view s.node)) (same_address h s r.1);
      stays = λ j q s r.
          let e = (cec_periodic-ready (inputs j q.line) q.delta s r.0).1 in
          (still_ready s (cec_periodic k c ticks addrs (inputs j q.line) q.delta s) e r.0, e ∙ r.1);
    }

    periodics-rounds :
        (h : System Raw) (l : List Poll) (s : System Raw)
        → periodics l s ≡ rounds (periodic_loop h) l s
    unfolding periodics rounds periodic_loop
    periodics-rounds h [] s = refl
    periodics-rounds h (q ∷ l) s = periodics-rounds h l _

    module _ (g : ℕ) (window : sample_from k + g ≤ sample_to k) (time : ℕ → ℕ) (ks : Clock)
        (cs : Config) (counts : PwmTicks) (fine : AreWidths k g window time counts) (heard : ℕ → Rx)
        (wait : ℕ → ℕ) where
      -- A host that has its address and goes on calling `cec_periodic` is given the message of 2 to 16
      -- bytes that another host's PWM driver sends from `xmit_start` on, where every pulse of it,
      -- the start bit among them, has the low part and the period that this driver's registers give it,
      -- but for the ack slots that are pulled: the bytes up to `transmit_buf_end` in order, behind a
      -- header byte that is their number, whatever its own transmit side does meanwhile and whatever
      -- bits follow; the ack slots are pulled if the message goes to one host and left alone if it is a
      -- broadcast. The host sees the falling edge of the start bit at most `g` ticks of its timer late,
      -- and calls at least every `g` ticks, up to the last pulse. The conditions: the sender's widths
      -- and periods are those of a start bit, a one and a zero with `g` ticks to spare, and `g` ticks
      -- fit the sample window; at the sender a buffer of its declared size that holds bytes, and a
      -- receive side that follows; at the host a free buffer, a high line at the call before, and no
      -- message in reception.
      pub loads-periodics :
          (s : Node Raw) (r : System Raw) (rest : List Bool) (ds : List ℕ) (d x : ℕ)
          → 0 < s.tx.buf_end
          → s.tx.buf_end < length s.tx.buf
          → length s.tx.buf ≡ 16
          → IsBytes s.tx.buf
          → ((i : ℕ) → 0 < i → i < 10 + 10 * s.tx.buf_end → any_flag (heard i).flags ≡ true)
          → AreClose k g ds
          → x ≤ g
          → SeesAll k g
              (x + sum ds)
              (start_pulse k time counts ks cs heard wait s)
              (on_line k time counts ks cs heard wait s rest)
          → addr_ready (host r) ≡ true
          → length r.node.rx.buf ≡ 17 + r.node.rx.hdr
          → header r.node.rx ≡ 0
          → r.node.rx.flags ≡ no_flags
          → r.node.drv.sampler.last_state ≡ true
          → r.node.drv.sampler.sample ≡ false
          → (let p = start_pulse k time counts ks cs heard wait s in
              IsHanded 0 0
                (take (suc s.tx.buf_end) s.tx.buf)
                r.node.rx
                (periodics
                  (record { delta = d; line = leb p.low x }
                    ∷ looks ds x p (on_line k time counts ks cs heard wait s rest))
                  r).node.rx)
      unfolding periodic_loop
      loads-periodics s r rest ds d x long fits size ht follows close soon sees ready len free none
            high idle =
          subst
            (λ (u : System Raw).
              IsHanded 0 0 (take (suc s.tx.buf_end) s.tx.buf) r.node.rx u.node.rx)
            (sym (periodics-rounds r _ r))
            (loads-rounds (periodic_loop r) c g window time ks cs counts fine heard wait s r rest ds
              d x long fits size ht follows close soon sees (ready, refl) len free none high idle)
