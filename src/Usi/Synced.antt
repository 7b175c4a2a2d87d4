-- ===== src/Usi/Synced.antt =====
-- The receive state of the USI driver and the flags of the receive engine go together.
use avr_cec.Common.{
  ℕ, zero, suc, ◌<◌, ◌≡◌, refl, sym, subst, arith, Bool, true, false, ◌&&◌, same, if◌then◌else◌,
  leb, ltb, ◌==◌, Bool-cases, inl, inr, List, [], ◌∷◌,
}
use avr_cec.Transmit.{Config}
use avr_cec.Receive.State.{Rx, any_flag, no_flags, start_flags}
use avr_cec.Receive.Engine.{Node}
use avr_cec.Receive.Decode.{rx_bit, rx_error}
use avr_cec.Receive.Byte.{none_of_no_flag, any_flag_active}
use avr_cec.Usi.{Usi, RecvState, usi_recv_idle, usi_recv_start, usi_recv_bits}
use avr_cec.Usi.Tick.{is_bits, is_start, next_tick}
use avr_cec.Usi.View.{View, view, view_take, view_stays, view_falls, view_rises, tick_view}
use avr_cec.Usi.Wave.{view_bits, view_bytes}
use avr_cec.Usi.Calls.{Call, IsHook, arrived, calls, calls-view}

-- What each receive state says of the engine's flags and of the limits for the next edge.
abbrev pub Expects : RecvState → View → Type 0
Expects usi_recv_idle v = v.rx.flags ≡ no_flags
Expects usi_recv_start v = (v.low ≡ 14) × (v.high ≡ 16)
Expects usi_recv_bits v = (any_flag v.rx.flags ≡ true) × (v.low ≡ 6) × (v.high ≡ 10)

pub record IsSynced (v : View) : Type 0 where
  pub tick_in : v.tick < 256
  pub agrees : Expects v.state v

if_both : (t : Bool) (v w : View) → IsSynced v → IsSynced w → IsSynced (if t then v else w)
if_both true v w p q = p
if_both false v w p q = q

rx_error-none : (r : Rx) → (rx_error r).flags ≡ no_flags
unfolding rx_error
rx_error-none r = elim (Bool-cases (any_flag r.flags)) [
  | inl on ↦ rw on
  | inr off ↦ rw off (none_of_no_flag r.flags off)
]

next_tick-lt : (t : ℕ) → next_tick t < 256
unfolding next_tick
next_tick-lt t = ground arith

-- Neither reads the counter or the last line.
Expects-moved :
    (t : RecvState) (v : View) (k : ℕ) (b : Bool)
    → Expects t v
    → Expects t (record v { tick = k; last = b })
Expects-moved usi_recv_idle v k b e = e
Expects-moved usi_recv_start v k b e = e
Expects-moved usi_recv_bits v k b e = e

moved :
    (v : View) (k : ℕ) (b : Bool)
    → k < 256
    → IsSynced v
    → IsSynced (record v { tick = k; last = b })
moved v k b h s = record { tick_in = h; agrees = Expects-moved v.state v k b s.agrees }

bits_limits :
    (t : RecvState) (v : View) → is_bits t ≡ true → Expects t v → (v.low ≡ 6) × (v.high ≡ 10)
bits_limits usi_recv_idle v i e = absurd (cc)
bits_limits usi_recv_start v i e = absurd (cc)
bits_limits usi_recv_bits v i e = (e.1, e.2)

Expects-bits :
    (t : RecvState) (v : View)
    → is_bits t ≡ true
    → (any_flag v.rx.flags ≡ true) × (v.low ≡ 6) × (v.high ≡ 10)
    → Expects t v
Expects-bits usi_recv_idle v i e = absurd (cc)
Expects-bits usi_recv_start v i e = absurd (cc)
Expects-bits usi_recv_bits v i e = e

module _ (own : ℕ → Bool) (b : Bool) where
  bits_case :
      (v : View)
      → IsSynced v
      → (is_bits v.state && v.tick == 3) ≡ true
      → IsSynced (
          let r = rx_bit own b v.rx in
          record v { rx = r; state = if any_flag r.flags then v.state else usi_recv_idle })
  bits_case v s t = elim (Bool-cases (any_flag (rx_bit own b v.rx).flags)) [
    | inl on ↦ rw on (record {
      tick_in = s.tick_in;
      agrees =
          Expects-bits v.state _ is_in (
            on,
            (bits_limits v.state v is_in s.agrees).0,
            (bits_limits v.state v is_in s.agrees).1,
          );
    })
    | inr off ↦
        rw off
          (record { tick_in = s.tick_in; agrees = none_of_no_flag (rx_bit own b v.rx).flags off })
  ]
    where
      is_in : is_bits v.state ≡ true
      is_in = ground (arith, t)

  take-IsSynced : (v : View) → IsSynced v → IsSynced (view_take own b v)
  unfolding view_take
  take-IsSynced v s = elim (Bool-cases (is_bits v.state && v.tick == 3)) [
    | inl t ↦ rw t (bits_case v s t)
    | inr f ↦ rw f s
  ]

  stays-IsSynced : (v : View) → IsSynced v → IsSynced (view_stays own b v)
  unfolding view_stays
  stays-IsSynced v s = elim (Bool-cases (ltb v.high v.tick)) [
    | inl t ↦ rw t (record { tick_in = s.tick_in; agrees = rx_error-none v.rx })
    | inr f ↦ rw f s
  ]

  falls-IsSynced : (v : View) → IsSynced v → IsSynced (view_falls own b v)
  unfolding view_falls
  falls-IsSynced v s = elim (Bool-cases (ltb v.tick v.low)) [
    | inl t ↦ rw t (record { tick_in = omega arith; agrees = rx_error-none v.rx })
    | inr f ↦ rw f (elim (Bool-cases (is_start v.state)) [
      | inl t ↦ rw t (record {
        tick_in = omega arith;
        agrees = (any_flag_active start_flags refl, refl, refl);
      })
      | inr g ↦ rw g (moved v 0 v.last (omega arith) s)
    ])
  ]

  rises-IsSynced : (v : View) → IsSynced v → IsSynced (view_rises own b v)
  unfolding view_rises
  rises-IsSynced v s = elim (Bool-cases (leb 11 v.tick && leb v.tick 14)) [
    | inl t ↦ rw t (record { tick_in = s.tick_in; agrees = (refl, refl) })
    | inr f ↦ rw f s
  ]

  tick_view-IsSynced : (v : View) → IsSynced v → IsSynced (tick_view own b v)
  unfolding tick_view
  tick_view-IsSynced v s = moved _ _ b (judged.tick_in) judged
    where
      v' : View
      v' = view_take own b (record v { tick = next_tick v.tick })

      s' : IsSynced v'
      s' = take-IsSynced _ (moved v _ v.last (next_tick-lt v.tick) s)

      judged : IsSynced (
          if same b v'.last
          then view_stays own b v'
          else (if b then view_rises own b v' else view_falls own b v'))
      judged =
          if_both _ _ _ (stays-IsSynced _ s')
            (if_both b _ _ (rises-IsSynced _ s') (falls-IsSynced _ s'))

view_bits-IsSynced :
    (own : ℕ → Bool) (k x : ℕ) (v : View) → IsSynced v → IsSynced (view_bits own k x v)
unfolding view_bits
view_bits-IsSynced own zero x v s = s
view_bits-IsSynced own (suc k) x v s = view_bits-IsSynced own k _ _ (tick_view-IsSynced own _ v s)

view_bytes-IsSynced :
    (own : ℕ → Bool) (l : List ℕ) (v : View) → IsSynced v → IsSynced (view_bytes own l v)
view_bytes-IsSynced own [] v s = s
view_bytes-IsSynced own (x ∷ l) v s = view_bytes-IsSynced own l _ (view_bits-IsSynced own 8 x v s)

-- Whatever arrives on the line, in whatever calls of the USI driver's `cec_receive_periodic`: when
-- the driver is idle the engine receives nothing, when it awaits the high part of a start bit the
-- limits are those of a start bit, when it is within a message the engine receives and the limits are
-- those of a data bit, and the tick counter is a byte; this is so after the calls when it was so
-- before them. The application's hook leaves the receive side and the registers alone.
pub calls-IsSynced :
    (c : Config) (tcnt0 : ℕ) (hook : Node Usi → Node Usi) (own : ℕ → Bool)
    → IsHook hook
    → (l : List Call) (n : Node Usi) → IsSynced (view n)
    → IsSynced (view (calls c tcnt0 hook own l n))
calls-IsSynced c tcnt0 hook own is_hook l n s =
    subst IsSynced (sym (calls-view c tcnt0 hook own is_hook l n))
      (view_bytes-IsSynced own (arrived l) (view n) s)
