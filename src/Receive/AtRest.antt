-- ===== src/Receive/AtRest.antt =====
-- What the receive engine does at a host whose transmit side is idle: of the transmit side it changes the
-- wait alone, and of the driver what `cec_receive_nack_frame` changes.
use avr_cec.Common.{ℕ, ◌≡◌, refl, ap, ◌∙◌, sym, arith, Bool, not, if◌then◌else◌}
use avr_cec.Spec.{Err, arb_lost, nack}
use avr_cec.Transmit.{Config, Tx, idle, get_bit, data_bit, control_bit}
use avr_cec.Receive.State.{no_flags}
use avr_cec.Receive.Engine.{
  Driver, Node, on_error, receive_error, receive_start, receive_bit, check_tx_bit, receive_ack,
}

-- The transmit side but for the wait, and a part of the driver.
abbrev pub sending : {D A : Type 0} → (D → A) → Node D → Tx × A
sending part n = (let t = n.tx in record t { needed_idle = 0 }, part n.drv)

module _ {D A : Type 0} (part : D → A) where
  pub still_idle :
      (n m : Node D) → sending part m ≡ sending part n → n.tx.state ≡ idle → m.tx.state ≡ idle
  still_idle n m e h = ap (λ p. p.0.state) e ∙ h

module _ {D A : Type 0} (c : Config) (v : Driver c D) (part : D → A)
    (kept : (d : D) → part (v.nack_frame d) ≡ part d) where
  pub on_error-idle : (e : Err) (n : Node D) → n.tx.state ≡ idle → on_error c v e n ≡ n
  unfolding on_error
  on_error-idle e n h = ground arith

  pub receive_error-sending :
      (e : Err) (n : Node D)
      → n.tx.state ≡ idle
      → sending part (receive_error c v e n) ≡ sending part n
  unfolding receive_error
  receive_error-sending e n h =
      let r = n.rx in
      let d = (if r.flags.bcast then v.nack_frame n.drv else n.drv) in
      let m = record n { rx = record r { flags = no_flags }; drv = d } in
      ground (arith, on_error-idle e m h, kept n.drv)

  pub receive_start-sending : (n : Node D) → sending part (receive_start c v n) ≡ sending part n
  unfolding receive_start
  receive_start-sending n = refl

  check_tx_bit-idle : (b : Bool) (n : Node D) → n.tx.state ≡ idle → check_tx_bit c v b n ≡ n
  unfolding check_tx_bit
  check_tx_bit-idle b n h = ground (arith, on_error-idle arb_lost n h)

  receive_ack-idle : (a : Bool) (n : Node D) → n.tx.state ≡ idle → receive_ack c v a n ≡ n
  unfolding receive_ack
  receive_ack-idle a n h = ground (arith, on_error-idle nack n h)

  pub receive_bit-sending :
      (own : ℕ → Bool) (b : Bool) (n : Node D)
      → n.tx.state ≡ idle
      → sending part (receive_bit c v own b n) ≡ sending part n
  unfolding receive_bit
  receive_bit-sending own b n h =
      ground (
        arith,
        check_tx_bit-idle b n h,
        receive_ack-idle (if n.rx.flags.bcast then b else not b) n h,
      )

  -- The next bit depends on nothing else.
  pub get_bit-sending :
      (n m : Node D) → sending part m ≡ sending part n → (get_bit c m.tx).1 ≡ (get_bit c n.tx).1
  get_bit-sending n m e = sym (plain m.tx) ∙ ap (λ p. (get_bit c p.0).1) e ∙ plain n.tx
    where
      plain : (t : Tx) → (get_bit c (record t { needed_idle = 0 })).1 ≡ (get_bit c t).1
      plain t = unfold get_bit data_bit control_bit in ground arith
