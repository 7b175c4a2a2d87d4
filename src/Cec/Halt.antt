-- ===== src/Cec/Halt.antt =====
-- What is left behind by `cec_halt`.
use avr_cec.Common.{
  ℕ, List, ◌≤◌, ◌<◌, ◌≡◌, ◌≢◌, refl, ap, ap₂, ◌∙◌, arith, bit_or, Bool, true, false, length, get_or,
  get_or-set_self, length-set, Bool-cases, inl, inr, bit_or_top,
}
use avr_cec.Spec.{halt, no_eom, t3, t4, Err}
use avr_cec.Macros.Time.{Clock, us_to_jiffies, us_to_jiffies_up}
use avr_cec.Transmit.{Config}
use avr_cec.Receive.State.{Rx, header, any_flag, no_flags}
use avr_cec.Receive.Engine.{Node, receive_error, receive_start, on_error}
use avr_cec.Receive.Byte.{none_of_no_flag}
use avr_cec.Receive.Decode.{rx_bit, receive_bit-rx}
use avr_cec.Receive.Frame.{idle_bit}
use avr_cec.Raw.{Raw, PwmTicks, add_capped, raw_driver, nack_frame, abort}
use avr_cec.Raw.Receive.{
  with_sampler, advance, take_sample, end_ack, no_edge, rising_edge, edges, receive_periodic,
}
use avr_cec.Addr.DevType.{addr_init}
use avr_cec.Addr.Static.{Addresses, static_match, static_init}
use avr_cec.Cec.{Inputs, halt_engines, periodic_engines, cec_halt, cec_periodic}
use avr_cec.Addr.DevType.Empties.{addr_periodic-header}
use avr_cec.Cec.Heard.{transmit_periodic-view}
use avr_cec.Cec.Static.{raw_static_halt, raw_static_periodic}
use avr_cec.Raw.Pwm.{transmit_periodic}

module _ (k : Clock) (c : Config) (own : ℕ → Bool) where
  -- Two receive sides with the same buffer.
  abbrev SameBuf : Rx → Rx → Type 0
  SameBuf r s = (r.buf ≡ s.buf) × (r.hdr ≡ s.hdr)

  receive_error-buf :
      (e : Err) (n : Node Raw) → SameBuf (receive_error c (raw_driver k c) e n).rx n.rx
  unfolding receive_error on_error
  receive_error-buf e n = ground arith

  end_ack-buf : (n : Node Raw) → SameBuf (end_ack k c own true n).rx n.rx
  unfolding end_ack
  end_ack-buf n = ground arith

  edges-buf : (n : Node Raw) → SameBuf (edges k c own true n).rx n.rx
  unfolding edges no_edge rising_edge receive_start
  edges-buf n = ground (arith, receive_error-buf no_eom n)

  receive_error-fields :
      (e : Err) (n : Node Raw)
      → (let n' = receive_error c (raw_driver k c) e n in
          (n'.rx.flags ≡ no_flags)
          × (n'.rx.pos ≡ n.rx.pos)
          × (n'.drv.sampler.sample ≡ n.drv.sampler.sample)
          × (n.rx.flags.bcast ≡ false → n'.drv.sampler.frame_timer ≡ n.drv.sampler.frame_timer))
  unfolding receive_error on_error nack_frame abort
  receive_error-fields e n = elim (Bool-cases (any_flag n.rx.flags)) [
    | inl on ↦ (ground arith, ground arith, ground arith, λ b. ground arith)
    | inr off ↦ (
      ground (arith, none_of_no_flag n.rx.flags off),
      ground arith,
      ground arith,
      λ b. ground arith,
    )
  ]

  sample_taken :
      (n : Node Raw)
      → n.drv.sampler.sample ≡ true
      → us_to_jiffies k t3 < n.drv.sampler.frame_timer
      → n.drv.sampler.frame_timer ≤ us_to_jiffies_up k t4
      → (take_sample k c own true n).rx ≡ rx_bit own true n.rx
  unfolding take_sample
  sample_taken n s early late = ground (
    arith,
    receive_bit-rx c (raw_driver k c) own true (with_sampler (λ s. record s { sample = false }) n),
  )

  -- A call of the receiver that takes a sample with the line high.
  periodic_header :
      (delta : ℕ) (n : Node Raw)
      → header (receive_periodic k c own true delta n).rx
        ≡ header (take_sample k c own true (advance k c own true delta n)).rx
  unfolding receive_periodic
  periodic_header delta n =
      let m = take_sample k c own true (advance k c own true delta n) in
      let a = end_ack k c own true m in
      ap₂ (λ b h. get_or b h 0) (edges-buf a).0 (edges-buf a).1
      ∙ ap₂ (λ b h. get_or b h 0) (end_ack-buf m).0 (end_ack-buf m).1

  -- A sample that is taken while no message is received.
  stale_sample :
      (delta : ℕ) (n : Node Raw)
      → n.rx.flags ≡ no_flags
      → n.drv.sampler.sample ≡ true
      → n.rx.hdr < length n.rx.buf
      → us_to_jiffies k t3 < add_capped n.drv.sampler.frame_timer delta
      → add_capped n.drv.sampler.frame_timer delta ≤ us_to_jiffies_up k t4
      → header (receive_periodic k c own true delta n).rx ≡ bit_or n.rx.pos 128
  unfolding advance
  stale_sample delta n e s h early late =
      periodic_header delta n
      ∙ ap (λ r. header r) (sample_taken (advance k c own true delta n) s early late)
      ∙ idle_bit own n.rx e h

  -- The same for the engines' part of `cec_halt`.
  halted_sample :
      (delta : ℕ) (n : Node Raw)
      → n.drv.sampler.sample ≡ true
      → n.rx.flags.bcast ≡ false
      → n.rx.pos < 256
      → n.rx.hdr < length n.rx.buf
      → us_to_jiffies k t3 < add_capped n.drv.sampler.frame_timer delta
      → add_capped n.drv.sampler.frame_timer delta ≤ us_to_jiffies_up k t4
      → header (receive_periodic k c own true delta (halt_engines k c n)).rx ≡ bit_or n.rx.pos 128
  unfolding halt_engines
  halted_sample delta n s b p h early late =
      let f = receive_error-fields halt n in
      let e = receive_error-buf halt n in
      let timer = f.3 b in
      let size : n.rx.hdr < length (receive_error c (raw_driver k c) halt n).rx.buf = rw (e.0) h in
      stale_sample delta (halt_engines k c n) f.0 (f.2 ∙ s) (rw (length-set, e.1) size)
        (rw timer early) (rw timer late)
      ∙ ap (λ x. bit_or x 128) f.1

  error_inside :
      (n : Node Raw)
      → n.rx.hdr < length n.rx.buf
      → (let m = (receive_error c (raw_driver k c) halt n).rx in m.hdr < length m.buf)
  error_inside n q = let e = receive_error-buf halt n in rw (e.0, e.1) q

  emptied : (n : Node Raw) → n.rx.hdr < length n.rx.buf → header (halt_engines k c n).rx ≡ 0
  unfolding halt_engines
  emptied n q =
      let m = (receive_error c (raw_driver k c) halt n).rx in
      get_or-set_self m.buf m.hdr 0 0 (error_inside n q)

module _ (k : Clock) (c : Config) (ticks : PwmTicks) where
  transmit_periodic-header :
      (overflow input : Bool) (delta : ℕ) (n : Node Raw)
      → header (transmit_periodic k c ticks overflow input delta n).rx ≡ header n.rx
  transmit_periodic-header overflow input delta n =
      ap (λ v. header v.rx) (transmit_periodic-view k c ticks overflow input delta n)

  static_header :
      (i : Inputs) (delta : ℕ) (n : Node Raw) (a : Addresses)
      → (let s = raw_static_halt k c (record { node = n; addresses = a }) in
          header (raw_static_periodic k c ticks i delta s).node.rx
          ≡ header
              (receive_periodic k c
                (static_match (static_init a))
                i.rx_line
                delta
                (halt_engines k c n)).rx)
  unfolding raw_static_periodic raw_static_halt periodic_engines
  static_header i delta n a =
      transmit_periodic-header i.overflow i.tx_line delta
        (receive_periodic k c (static_match (static_init a)) i.rx_line delta (halt_engines k c n))

  -- In a build with static addresses: if a sample is due when `cec_halt` is called and no broadcast is
  -- being received, then the call of `cec_periodic` behind it, if it falls into the sample window and
  -- finds the line high, leaves a header byte in the buffer that `cec_halt` has emptied: the number of
  -- bytes received so far, with the NACK bit, which is not 0. In a build with addresses by device type
  -- the same two calls leave the header byte 0. The position is a byte, and the header byte lies in the
  -- buffer.
  pub halt_leaves_sample :
      (addrs : List ℕ) (i : Inputs) (delta : ℕ) (n : Node Raw) (a : Addresses) (logical idx : ℕ)
      → n.drv.sampler.sample ≡ true
      → n.rx.flags.bcast ≡ false
      → n.rx.pos < 256
      → n.rx.hdr < length n.rx.buf
      → i.rx_line ≡ true
      → us_to_jiffies k t3 < add_capped n.drv.sampler.frame_timer delta
      → add_capped n.drv.sampler.frame_timer delta ≤ us_to_jiffies_up k t4
      → (let s = raw_static_halt k c (record { node = n; addresses = a }) in
          let d = cec_halt k c (record { node = n; logical = logical; idx = idx }) in
          (header s.node.rx ≡ 0)
          × (header (raw_static_periodic k c ticks i delta s).node.rx ≡ bit_or n.rx.pos 128)
          × (bit_or n.rx.pos 128 ≢ 0)
          × (header (cec_periodic k c ticks addrs i delta d).node.rx ≡ 0))
  unfolding raw_static_halt cec_halt cec_periodic addr_init
  halt_leaves_sample addrs i delta n a logical idx due b p h line early late =
      let own = static_match (static_init a) in
      (
        emptied k c own n h,
        static_header i delta n a
            ∙ ap (λ x. header (receive_periodic k c own x delta (halt_engines k c n)).rx) line
            ∙ halted_sample k c own delta n due b p h early late,
        λ z. omega (arith, z, bit_or_top n.rx.pos p),
        addr_periodic-header addrs _ refl,
      )
