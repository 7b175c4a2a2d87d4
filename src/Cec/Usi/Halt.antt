-- ===== src/Cec/Usi/Halt.antt =====
-- What `cec_halt` leaves behind in the USI driver.
use avr_cec.Common.{
  ℕ, ◌<◌, ◌≡◌, ◌≢◌, refl, ap, ◌∙◌, arith, bit_or, Bool, true, false, length, get_or-set_self, set,
  same, length-set, Bool-cases, inl, inr, bit_or_top, if◌then◌else◌,
}
use avr_cec.Spec.{halt}
use avr_cec.Transmit.{Config}
use avr_cec.Receive.State.{Rx, header, any_flag, no_flags}
use avr_cec.Receive.Engine.{Node}
use avr_cec.Receive.Byte.{none_of_no_flag}
use avr_cec.Receive.Decode.{rx_bit, rx_error}
use avr_cec.Receive.Frame.{idle_bit}
use avr_cec.Addr.DevType.{addr_init}
use avr_cec.Usi.{Usi, usi_recv_bits}
use avr_cec.Usi.Tick.{next_tick}
use avr_cec.Usi.View.{View, view, view_take, view_stays, view_rises, tick_view, receive_error-view}
use avr_cec.Usi.Wave.{view_bits, view_bytes}
use avr_cec.Usi.Calls.{Call, IsHook, calls, calls-view}
use avr_cec.Common.{[], ◌∷◌, List, zero, suc}
use avr_cec.Usi.Tick.{is_bits}
use avr_cec.Receive.Decode.{rx_bit-ack, ack_bit-over}
use avr_cec.Addr.Static.{Addresses, static_match, static_init}
use avr_cec.Addr.DevType.Empties.{addr_periodic-header}
use avr_cec.Cec.Usi.{usi_periodic, periodic_node_usi}
use avr_cec.Cec.Static.{usi_static_halt, usi_static_periodic}
use avr_cec.Usi.Periodic.{transmit_halt_hw, receive_halt_hw}
use avr_cec.Cec.Usi.{usi_halt, halt_node_usi}

-- The engine's receive side after the error that `cec_halt` reports.
rx_error_lem :
    (r : Rx)
    → ((rx_error r).flags ≡ no_flags)
      × ((rx_error r).pos ≡ r.pos)
      × ((rx_error r).hdr ≡ r.hdr)
      × ((rx_error r).buf ≡ r.buf)
unfolding rx_error
rx_error_lem r = elim (Bool-cases (any_flag r.flags)) [
  | inl on ↦ rw on (refl, refl, refl, refl)
  | inr off ↦ rw off (none_of_no_flag r.flags off, refl, refl, refl)
]

-- A sample that is taken while no message is received.
sample_header :
    (own : ℕ → Bool) (v : View)
    → v.state ≡ usi_recv_bits
    → v.tick ≡ 3
    → (view_take own true v).rx ≡ rx_bit own true v.rx
unfolding view_take
sample_header own v s t = rw (s, t) refl

error_header : (r : Rx) → header (rx_error r) ≡ header r
unfolding rx_error
error_header r = ground arith

judged_header :
    (own : ℕ → Bool) (v : View)
    → header (if same true v.last then view_stays own true v else view_rises own true v).rx
      ≡ header v.rx
unfolding view_stays view_rises
judged_header own v = ground (arith, error_header v.rx)

-- Nothing is received, and the line is high: the ticks leave the buffer.
abbrev IsQuiet : View → Type 0
IsQuiet v = (v.rx.flags ≡ no_flags) × (is_bits v.state ≡ false)

no_error : (r : Rx) → r.flags ≡ no_flags → rx_error r ≡ r
unfolding rx_error any_flag
no_error r e = rw e refl

judged-IsQuiet :
    (own : ℕ → Bool) (v : View)
    → IsQuiet v
    → IsQuiet (record (if same true v.last then view_stays own true v else view_rises own true v) {
      last = true;
    })
unfolding view_stays view_rises
judged-IsQuiet own v q = ground (arith, no_error v.rx q.0)

stale_flags : (own : ℕ → Bool) (r : Rx) → r.flags ≡ no_flags → (rx_bit own true r).flags ≡ no_flags
stale_flags own r e =
    ground (arith, e, rx_bit-ack own true r (ap (λ f. f.bits_eom) e), ack_bit-over false r refl)

tick_view-IsQuiet :
    (own : ℕ → Bool) (v : View)
    → IsQuiet v
    → IsQuiet (tick_view own true v) × (header (tick_view own true v).rx ≡ header v.rx)
unfolding tick_view view_take view_stays view_rises
tick_view-IsQuiet own v q = ground (arith, no_error v.rx q.0)

quiet_bits :
    (own : ℕ → Bool) (j : ℕ) (v : View) → IsQuiet v → header (view_bits own j 0 v).rx ≡ header v.rx
unfolding view_bits
quiet_bits own zero v q = refl
quiet_bits own (suc j) v q =
    let n = tick_view-IsQuiet own v q in quiet_bits own j (tick_view own true v) n.0 ∙ n.1

stale_bit :
    (own : ℕ → Bool) (v : View)
    → v.rx.flags ≡ no_flags
    → v.state ≡ usi_recv_bits
    → v.tick ≡ 3
    → IsQuiet (view_take own true v)
unfolding view_take any_flag
stale_bit own v f s t =
    let r = rx_bit own true v.rx in
    let e : r.flags ≡ no_flags = stale_flags own v.rx f in rw (s, t, e) (refl, refl)

stale_tick :
    (own : ℕ → Bool) (v : View)
    → v.rx.flags ≡ no_flags
    → v.state ≡ usi_recv_bits
    → v.tick ≡ 2
    → v.rx.hdr < length v.rx.buf
    → IsQuiet (tick_view own true v) × (header (tick_view own true v).rx ≡ bit_or v.rx.pos 128)
unfolding tick_view next_tick
stale_tick own v f s t h =
    let w = record v { tick = next_tick v.tick } in
    let e : w.tick ≡ 3 = rw t refl in
    (
      judged-IsQuiet own (view_take own true w) (stale_bit own w f s e),
      judged_header own (view_take own true w)
          ∙ ap (λ r. header r) (sample_header own w s e)
          ∙ idle_bit own v.rx f h,
    )

module _ (c : Config) (tcnt0 : ℕ) where
  halted_view :
      (n : Node Usi)
      → view (halt_node_usi c tcnt0 n) ≡ (
          let v = view n in
          let r = rx_error n.rx in record v { rx = record r { buf = set r.buf r.hdr 0 } })
  unfolding halt_node_usi transmit_halt_hw receive_halt_hw
  halted_view n =
      ap (λ (v : View). let r = v.rx in record v { rx = record r { buf = set r.buf r.hdr 0 } })
        (receive_error-view c tcnt0 (λ a. false) true halt n)

  error_inside : (r : Rx) → r.hdr < length r.buf → (rx_error r).hdr < length (rx_error r).buf
  error_inside r h = let e = rx_error_lem r in rw (e.2, e.3) h

  emptied : (n : Node Usi) → n.rx.hdr < length n.rx.buf → header (halt_node_usi c tcnt0 n).rx ≡ 0
  emptied n h =
      let r = rx_error n.rx in
      ap (λ v. header v.rx) (halted_view n) ∙ get_or-set_self r.buf r.hdr 0 0 (error_inside n.rx h)

  sampled :
      (own : ℕ → Bool) (n : Node Usi)
      → n.drv.usi_recv_state ≡ usi_recv_bits
      → n.drv.recv_frame_tick ≡ 2
      → n.rx.hdr < length n.rx.buf
      → header (view_bits own 8 0 (view (halt_node_usi c tcnt0 n))).rx ≡ bit_or n.rx.pos 128
  unfolding view_bits
  sampled own n d t h =
      let e = rx_error_lem n.rx in
      let r = rx_error n.rx in
      let w : View = (let v = view n in record v { rx = record r { buf = set r.buf r.hdr 0 } }) in
      let s = stale_tick own w e.0 d t (rw length-set (error_inside n.rx h)) in
      ap (λ v. header (view_bits own 8 0 v).rx) (halted_view n)
      ∙ quiet_bits own 7 (tick_view own true w) s.0
      ∙ s.1
      ∙ ap (λ x. bit_or x 128) e.1

module _ (c : Config) (tcnt0 : ℕ) (hook : Node Usi → Node Usi) (is_hook : IsHook hook) where
  heard :
      (own : ℕ → Bool) (e : Call) (n : Node Usi)
      → e.shift.oif ≡ true
      → e.shift.usibr ≡ 0
      → view (calls c tcnt0 hook own (e ∷ []) n) ≡ view_bits own 8 0 (view n)
  heard own e n full high =
      calls-view c tcnt0 hook own is_hook (e ∷ []) n
      ∙ ap (λ o. view_bytes own (if o then e.shift.usibr ∷ [] else []) (view n)) full
      ∙ ap (λ x. view_bits own 8 x (view n)) high

  static_header :
      (e : Call) (n : Node Usi) (a : Addresses)
      → (usi_static_periodic c tcnt0 hook e
          (usi_static_halt c tcnt0 (record { node = n; addresses = a }))).node
        ≡ calls c tcnt0 hook (static_match (static_init a)) (e ∷ []) (halt_node_usi c tcnt0 n)
  unfolding usi_static_periodic usi_static_halt periodic_node_usi calls
  static_header e n a = refl

  -- In a build with static addresses: if the driver is within a message when `cec_halt` is called and the
  -- next tick is the one in which a bit is sampled, then the call of `cec_periodic` behind it that finds
  -- eight ticks of a high line leaves a header byte in the buffer that `cec_halt` has emptied: the number
  -- of bytes received so far, with the NACK bit, which is not 0. In a build with addresses by device type
  -- the same two calls leave the header byte 0. The application's hook leaves the receive side and the
  -- registers alone, the position is a byte, and the header byte lies in the buffer.
  pub usi_halt_leaves_sample :
      (addrs : List ℕ) (e : Call) (n : Node Usi) (a : Addresses) (logical idx : ℕ)
      → n.drv.usi_recv_state ≡ usi_recv_bits
      → n.drv.recv_frame_tick ≡ 2
      → n.rx.pos < 256
      → n.rx.hdr < length n.rx.buf
      → e.shift.oif ≡ true
      → e.shift.usibr ≡ 0
      → (let s = usi_static_halt c tcnt0 (record { node = n; addresses = a }) in
          let d = usi_halt c tcnt0 (record { node = n; logical = logical; idx = idx }) in
          (header s.node.rx ≡ 0)
          × (header (usi_static_periodic c tcnt0 hook e s).node.rx ≡ bit_or n.rx.pos 128)
          × (bit_or n.rx.pos 128 ≢ 0)
          × (header (usi_periodic c tcnt0 hook addrs e d).node.rx ≡ 0))
  unfolding usi_static_halt usi_halt usi_periodic addr_init
  usi_halt_leaves_sample addrs e n a logical idx d t p h full high =
      let own = static_match (static_init a) in
      (
        emptied c tcnt0 n h,
        ap (λ m. header m.rx) (static_header e n a)
            ∙ ap (λ v. header v.rx) (heard own e (halt_node_usi c tcnt0 n) full high)
            ∙ sampled c tcnt0 own n d t h,
        λ z. omega (arith, z, bit_or_top n.rx.pos p),
        addr_periodic-header addrs _ refl,
      )
