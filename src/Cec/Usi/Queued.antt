-- ===== src/Cec/Usi/Queued.antt =====
-- What `cec_halt` does to a transmission of the USI driver that the receive side has not noticed yet.
use avr_cec.Common.{ℕ, ◌/◌, ◌<◌, ◌≡◌, ◌∙◌, ap, refl, arith, Bool, true, false, if◌then◌else◌}
use avr_cec.Transmit.{Config, Tx, idle, get_bit, data_bit}
use avr_cec.Receive.State.{any_flag}
use avr_cec.Receive.Engine.{Node, receive_error}
use avr_cec.Receive.AtRest.{sending, still_idle, get_bit-sending}
use avr_cec.Usi.{Usi, usi_xmit_start, usi_xmit_bits, pat_start1, usi_driver, nack_frame, with_usi}
use avr_cec.Usi.Tick.{process_bits}
use avr_cec.Usi.Queue.{next_bit, xmit_pattern, start_pattern, bit_pattern}
use avr_cec.Usi.Wave.{pattern_of}
use avr_cec.Usi.Calls.{Call}
use avr_cec.Usi.Periodic.{
  with_shift, count_idle, check_line, end_nack, turn_over, drive_ack, receive_periodic,
  transmit_halt_hw, receive_halt_hw,
}
use avr_cec.Usi.AtRest.{xmit_of, process_bits-sending, check_line-sending}
use avr_cec.Addr.Static.{static_match}
use avr_cec.Cec.Usi.{halt_node_usi, periodic_node_usi}
use avr_cec.Cec.Static.{StaticSystem, usi_static_halt, usi_static_periodic}

-- The hook leaves the transmit side, but for the wait, and the state of the sender alone.
abbrev pub IsCalm : (Node Usi → Node Usi) → Type 0
IsCalm hook = (n : Node Usi) → sending xmit_of (hook n) ≡ sending xmit_of n

module _ (c : Config) (tcnt0 : ℕ) (hook : Node Usi → Node Usi) where
  -- The driver when `cec_receive_periodic` asks for the next byte.
  abbrev before : (ℕ → Bool) → Node Usi → Node Usi
  before own n =
      let n' = end_nack c tcnt0 hook own (hook n) in
      let buf = n'.drv.shift.usibr in
      process_bits c tcnt0 own 8 buf
        (with_usi (λ d. record d { idle_frames = count_idle buf d.idle_frames }) n')

  -- What a call of `cec_periodic` that finds a byte writes to USIBR, before an ack is added to it.
  abbrev pub written : Call → StaticSystem Usi → ℕ
  written e s =
      let own = static_match s.addresses in
      (turn_over c tcnt0 hook own
        (check_line c tcnt0 hook own e.line (with_shift (λ r. e.shift) s.node))).drv.shift.usibr

  turn_over_lem :
      (own : ℕ → Bool) (n : Node Usi)
      → (let p = next_bit c (before own n) in
          let m = turn_over c tcnt0 hook own n in
          (sending xmit_of m ≡ sending xmit_of p.0) × (m.drv.shift.usibr ≡ p.1))
  unfolding turn_over
  turn_over_lem own n = (refl, refl)

  drive_ack-sending :
      (late_line : Bool) (n : Node Usi)
      → sending xmit_of (drive_ack late_line n) ≡ sending xmit_of n
  unfolding drive_ack
  drive_ack-sending late_line n = ground arith

  module _ (calm : IsCalm hook) where
    before-sending :
        (own : ℕ → Bool) (n : Node Usi)
        → n.tx.state ≡ idle
        → sending xmit_of (before own n) ≡ sending xmit_of n
    unfolding end_nack
    before-sending own n h =
        let m = hook n in
        process_bits-sending c tcnt0 own 8 _ _ (still_idle xmit_of n m (calm n) h) ∙ calm n

    -- A call up to the next byte, and as a whole.
    asked :
        (e : Call) (s : StaticSystem Usi)
        → s.node.tx.state ≡ idle
        → e.shift.oif ≡ true
        → (n : Node Usi) × (sending xmit_of n ≡ sending xmit_of s.node)
          × (sending xmit_of (usi_static_periodic c tcnt0 hook e s).node
              ≡ sending xmit_of (next_bit c n).0)
          × (written e s ≡ (next_bit c n).1)
    unfolding usi_static_periodic periodic_node_usi receive_periodic
    asked e s h full =
        let own = static_match s.addresses in
        let w = with_shift (λ r. e.shift) s.node in
        let m = check_line c tcnt0 hook own e.line w in
        let q = check_line-sending c tcnt0 own hook e.line w h in
        let t = turn_over_lem own m in
        (
          before own m,
          before-sending own m (still_idle xmit_of w m q h) ∙ q,
          drive_ack-sending e.late_line _
              ∙ ap (λ o. sending xmit_of (if o then turn_over c tcnt0 hook own m else m)) full
              ∙ t.0,
          t.1,
        )

    starts :
        (n : Node Usi)
        → n.drv.usi_xmit_state ≡ usi_xmit_start
        → (let p = next_bit c n in
            (p.0.tx ≡ n.tx) × (p.0.drv.usi_xmit_state ≡ usi_xmit_bits) × (p.1 ≡ pat_start1))
    unfolding next_bit xmit_pattern start_pattern
    starts n x = ground arith

    goes_on :
        (n : Node Usi)
        → n.tx.state ≡ idle
        → n.drv.usi_xmit_state ≡ usi_xmit_bits
        → 0 < n.tx.buf_bit
        → (let p = next_bit c n in
            (p.0.tx.state ≡ idle)
            × (p.0.tx.buf_bit ≡ n.tx.buf_bit / 2)
            × (p.0.drv.usi_xmit_state ≡ usi_xmit_bits)
            × (p.1 ≡ pattern_of (get_bit c n.tx).1))
    unfolding next_bit xmit_pattern bit_pattern get_bit data_bit
    goes_on n h x b = (ground arith, ground arith, ground arith, ground arith)

    halted :
        (n : Node Usi)
        → any_flag n.rx.flags ≡ false
        → ((halt_node_usi c tcnt0 n).tx ≡ (let t = n.tx in record t { state = idle }))
          × ((halt_node_usi c tcnt0 n).drv.usi_xmit_state ≡ n.drv.usi_xmit_state)
    unfolding halt_node_usi receive_error transmit_halt_hw receive_halt_hw
    halted n f = ground arith

    idle_bit :
        (t : Tx) → 0 < t.buf_bit → (get_bit c (record t { state = idle })).1 ≡ (get_bit c t).1
    unfolding get_bit data_bit
    idle_bit t b = ground arith

    static_halt_tx :
        (s : StaticSystem Usi)
        → (usi_static_halt c tcnt0 s).node.tx ≡ (halt_node_usi c tcnt0 s.node).tx
    unfolding usi_static_halt
    static_halt_tx s = refl

    static_halt_xmit :
        (s : StaticSystem Usi)
        → (usi_static_halt c tcnt0 s).node.drv.usi_xmit_state
          ≡ (halt_node_usi c tcnt0 s.node).drv.usi_xmit_state
    unfolding usi_static_halt
    static_halt_xmit s = refl

    next_same :
        (s u : StaticSystem Usi)
        → (sending xmit_of u.node).0 ≡ (sending xmit_of s.node).0
        → (get_bit c u.node.tx).1 ≡ (get_bit c s.node.tx).1
    next_same s u e =
        get_bit-sending c (usi_driver c tcnt0) (λ d. tt) (λ d. refl) s.node u.node
          (ap (λ t. (t, tt)) e)

    first_byte :
        (e : Call) (s : StaticSystem Usi)
        → s.node.tx.state ≡ idle
        → s.node.drv.usi_xmit_state ≡ usi_xmit_start
        → e.shift.oif ≡ true
        → (sending xmit_of (usi_static_periodic c tcnt0 hook e s).node
            ≡ ((sending xmit_of s.node).0, usi_xmit_bits))
          × (written e s ≡ pat_start1)
    first_byte e s h x full =
        let (y, same, next, byte) = asked e s h full in
        let a = starts y (ap (λ p. p.1) same ∙ x) in
        (
          next
              ∙ ap
                  (λ t. (
                    let u : Tx = t in record u { needed_idle = 0 },
                    (next_bit c y).0.drv.usi_xmit_state,
                  ))
                  a.0
              ∙ ap (λ z. ((sending xmit_of y).0, z)) a.1
              ∙ ap (λ p. (p.0, usi_xmit_bits)) same,
          byte ∙ a.2,
        )

    second_byte :
        (e : Call) (s : StaticSystem Usi)
        → s.node.tx.state ≡ idle
        → s.node.drv.usi_xmit_state ≡ usi_xmit_bits
        → 0 < s.node.tx.buf_bit
        → e.shift.oif ≡ true
        → (let m = (usi_static_periodic c tcnt0 hook e s).node in
            (m.tx.state ≡ idle)
            × (m.tx.buf_bit ≡ s.node.tx.buf_bit / 2)
            × (m.drv.usi_xmit_state ≡ usi_xmit_bits)
            × (written e s ≡ pattern_of (get_bit c s.node.tx).1))
    second_byte e s h x b full =
        let (y, same, next, byte) = asked e s h full in
        let bit = ap (λ p. p.0.buf_bit) same in
        let a =
          goes_on y (still_idle xmit_of s.node y same h) (ap (λ p. p.1) same ∙ x) (rw bit b) in
        (
          ap (λ p. p.0.state) next ∙ a.0,
          ap (λ p. p.0.buf_bit) next ∙ a.1 ∙ ap (λ z. z / 2) bit,
          ap (λ p. p.1) next ∙ a.2,
          byte
              ∙ a.3
              ∙ ap pattern_of (
                  get_bit-sending c (usi_driver c tcnt0) xmit_of (λ d. unfold nack_frame in refl)
                    s.node y same),
        )

    -- In a build with static addresses: if `cec_halt` is called between the two bytes of a start bit
    -- and the receive side has not seen the start bit, then the next two calls of `cec_periodic` that
    -- find a byte, whatever has arrived, write the rest of the start bit and the byte of the first
    -- bit of the message to USIBR (before an ack is added to it); the driver is then in USI_XMIT_BITS
    -- and a bit further in the message, and the state of the transmit side is TRANSMIT_IDLE after
    -- each of the calls. The application's hook leaves the transmit side, but for the wait, and the
    -- state of the sender alone.
    pub usi_halt_keeps_sending :
        (e f : Call) (s : StaticSystem Usi)
        → any_flag s.node.rx.flags ≡ false
        → s.node.drv.usi_xmit_state ≡ usi_xmit_start
        → 0 < s.node.tx.buf_bit
        → e.shift.oif ≡ true
        → f.shift.oif ≡ true
        → (let h = usi_static_halt c tcnt0 s in
            let n = usi_static_periodic c tcnt0 hook e h in
            let m = usi_static_periodic c tcnt0 hook f n in
            (h.node.tx.state ≡ idle)
            × (written e h ≡ pat_start1)
            × (n.node.tx.state ≡ idle)
            × (written f n ≡ pattern_of (get_bit c s.node.tx).1)
            × (m.node.tx.state ≡ idle)
            × (m.node.tx.buf_bit ≡ s.node.tx.buf_bit / 2)
            × (m.node.drv.usi_xmit_state ≡ usi_xmit_bits))
    usi_halt_keeps_sending e f s none x b full again =
        let q = halted s.node none in
        let h = usi_static_halt c tcnt0 s in
        let rest = static_halt_tx s ∙ q.0 in
        let one = first_byte e h (ap (λ t. t.state) rest) (static_halt_xmit s ∙ q.1 ∙ x) full in
        let n = usi_static_periodic c tcnt0 hook e h in
        let bit = ap (λ p. p.0.buf_bit) one.0 ∙ ap (λ t. t.buf_bit) rest in
        let still = ap (λ p. p.0.state) one.0 ∙ ap (λ t. t.state) rest in
        let two = second_byte f n still (ap (λ p. p.1) one.0) (rw bit b) again in
        (
          ap (λ t. t.state) rest,
          one.1,
          still,
          two.3
              ∙ ap pattern_of (
                  next_same h n (ap (λ p. p.0) one.0)
                  ∙ ap (λ t. (get_bit c t).1) rest
                  ∙ idle_bit s.node.tx b),
          two.0,
          two.1 ∙ ap (λ y. y / 2) bit,
          two.2,
        )
