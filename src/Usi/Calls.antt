-- ===== src/Usi/Calls.antt =====
-- Calls of `cec_receive_periodic` one after the other: what arrives in the buffer register, and what the
-- receive side makes of it.
use avr_cec.Common.{
  ℕ, ◌<◌, ◌≡◌, refl, ap, ap₂, ◌∙◌, sym, arith, Bool, true, false, if◌then◌else◌, List, [], ◌∷◌,
  length,
}
use avr_cec.Spec.{arb_lost}
use avr_cec.Transmit.{Config}
use avr_cec.Receive.State.{no_flags}
use avr_cec.Receive.Engine.{Node, receive_start, on_error}
use avr_cec.Receive.Decode.{rx_feed, feed, feed-rx, rx_start}
use avr_cec.Usi.{
  Usi, Shift, usi_recv_idle, usi_driver, pat_start0, pat_start1, abort, with_usi, XmitState,
  usi_xmit_idle, usi_xmit_start, usi_xmit_bits,
}
use avr_cec.Usi.Queue.{next_bit, idle_pattern, start_pattern, bit_pattern, xmit_pattern}
use avr_cec.Usi.View.{view, on_error-view}
use avr_cec.Usi.Wave.{patterns, view_bits, view_bytes, wave_run, process_bits-view}
use avr_cec.Usi.Periodic.{with_shift, check_line, end_nack, turn_over, drive_ack, receive_periodic}

-- One call: the registers at its beginning, the line when it is read, and how the registers move on.
pub record Call : Type 0 where
  pub shift : Shift
  pub line : Bool
  pub late_line : Bool
  pub pass : Shift → Shift

-- The bytes that the calls find.
abbrev pub arrived : List Call → List ℕ
arrived [] = []
arrived (e ∷ l) = if e.shift.oif then e.shift.usibr ∷ arrived l else arrived l

-- What the application's hook may not do: touch the receive side or the driver.
pub record IsHook (hook : Node Usi → Node Usi) : Type 0 where
  pub view_kept : (n : Node Usi) → view (hook n) ≡ view n
  pub shift_kept : (n : Node Usi) → (hook n).drv.shift ≡ n.drv.shift

module _ (c : Config) (tcnt0 : ℕ) (hook : Node Usi → Node Usi) (own : ℕ → Bool) where
  unfoldable pub calls : List Call → Node Usi → Node Usi
  calls [] n = n
  calls (e ∷ l) n =
      calls l
        (receive_periodic c tcnt0 hook own e.line e.late_line e.pass (with_shift (λ s. e.shift) n))

  -- An error leaves what has arrived.
  on_error-usibr :
      (n : Node Usi)
      → (on_error c (usi_driver c tcnt0) arb_lost n).drv.shift.usibr ≡ n.drv.shift.usibr
  unfolding on_error abort
  on_error-usibr n = ground arith

  check_line_lem :
      (line : Bool) (n : Node Usi)
      → (view (check_line c tcnt0 hook own line n) ≡ view n)
        × ((check_line c tcnt0 hook own line n).drv.shift.usibr ≡ n.drv.shift.usibr)
  unfolding check_line
  check_line_lem line n =
      let m = with_usi (λ d. record d { float_ticks_max = d.float_ticks_max_next }) n in
      ground (
        arith,
        on_error-view c tcnt0 arb_lost n,
        on_error-view c tcnt0 arb_lost m,
        on_error-usibr n,
        on_error-usibr m,
      )

  xmit_pattern-view : (x : XmitState) (n : Node Usi) → view (xmit_pattern c x n).0 ≡ view n
  unfolding xmit_pattern idle_pattern start_pattern bit_pattern
  xmit_pattern-view usi_xmit_idle n = ground arith
  xmit_pattern-view usi_xmit_start n = refl
  xmit_pattern-view usi_xmit_bits n = refl

  next_bit-view : (n : Node Usi) → view (next_bit c n).0 ≡ view n
  unfolding next_bit
  next_bit-view n = xmit_pattern-view n.drv.usi_xmit_state n

  drive_ack-view : (late_line : Bool) (n : Node Usi) → view (drive_ack late_line n) ≡ view n
  unfolding drive_ack
  drive_ack-view late_line n = ground arith

  -- A whole waveform at a host that is at rest.
  Wave-heard :
      (bits : List Bool) (n : Node Usi)
      → 0 < length bits
      → n.rx.flags ≡ no_flags
      → n.drv.usi_recv_state ≡ usi_recv_idle
      → n.drv.recv_last_bit ≡ true
      → (view_bytes own (pat_start0 ∷ pat_start1 ∷ patterns bits) (view n)).rx
        ≡ rx_feed own bits (rx_start n.rx)
  Wave-heard [] n h none idle high = absurd (omega arith)
  Wave-heard (b ∷ bs) n h none idle high =
      ap₂
        (λ s t.
          (view_bytes own (pat_start0 ∷ pat_start1 ∷ patterns (b ∷ bs))
            (let v = view n in record v { state = s; last = t })).rx)
        idle high
      ∙ ap (λ v. v.rx)
          (wave_run own b bs n.rx n.drv.recv_frame_tick n.drv.min_frame_ticks n.drv.max_frame_ticks
            none)

  module _ (is_hook : IsHook hook) where
    turn_over-view :
        (n : Node Usi)
        → view (turn_over c tcnt0 hook own n) ≡ view_bits own 8 n.drv.shift.usibr (view n)
    unfolding turn_over end_nack
    turn_over-view n =
        next_bit-view _
        ∙ process_bits-view own c tcnt0 8 _ _
        ∙ ap₂ (λ x v. view_bits own 8 x v) (ap (λ s. s.usibr) (is_hook.shift_kept n))
            (is_hook.view_kept n)

    call_lem :
        (e : Call) (n : Node Usi)
        → view (
            receive_periodic c tcnt0 hook own e.line e.late_line e.pass
              (with_shift (λ s. e.shift) n))
          ≡ (if e.shift.oif then view_bits own 8 e.shift.usibr (view n) else view n)
    unfolding receive_periodic
    call_lem e n =
        drive_ack-view e.late_line _
        ∙ either e.shift.oif _ _
        ∙ ap₂ (λ v w. if e.shift.oif then v else w)
            (turn_over-view (check_line c tcnt0 hook own e.line m)
              ∙ ap₂ (λ x v. view_bits own 8 x v) (check_line_lem e.line m).1
                  (check_line_lem e.line m).0)
            (check_line_lem e.line m).0
      where
        m : Node Usi
        m = with_shift (λ s. e.shift) n

        either :
            (t : Bool) (a b : Node Usi) → view (if t then a else b) ≡ (if t then view a else view b)
        either true a b = refl
        either false a b = refl

    -- Whatever the line and the registers do, the calls see the bytes that have arrived.
    pub calls-view :
        (l : List Call) (n : Node Usi) → view (calls l n) ≡ view_bytes own (arrived l) (view n)
    unfolding calls
    calls-view [] n = refl
    calls-view (e ∷ l) n =
        calls-view l _ ∙ ap (view_bytes own (arrived l)) (call_lem e n) ∙ split e.shift.oif
      where
        split :
            (t : Bool)
            → view_bytes own
                (arrived l)
                (if t then view_bits own 8 e.shift.usibr (view n) else view n)
              ≡ view_bytes own (if t then e.shift.usibr ∷ arrived l else arrived l) (view n)
        split true = refl
        split false = refl

    -- At a host that receives nothing, the calls of the USI driver in which a start bit and the
    -- waveforms of bits arrive, eight ticks to a byte, do to the receive side what `cec_receive_start`
    -- and `cec_receive_bit` do for these bits, up to the end of a message; whatever other calls there
    -- are, however the line and the registers behave otherwise, and whatever the transmit side does.
    -- The application's hook leaves the receive side and the registers alone.
    pub calls-feed :
        (bits : List Bool) (l : List Call) (n : Node Usi)
        → 0 < length bits
        → n.rx.flags ≡ no_flags
        → n.drv.usi_recv_state ≡ usi_recv_idle
        → n.drv.recv_last_bit ≡ true
        → arrived l ≡ pat_start0 ∷ pat_start1 ∷ patterns bits
        → (calls l n).rx
          ≡ (let v = usi_driver c tcnt0 in feed c v own bits (receive_start c v n)).rx
    calls-feed bits l n pos none idle high e =
        ap (λ v. v.rx) (calls-view l n ∙ ap (λ k. view_bytes own k (view n)) e)
        ∙ Wave-heard bits n pos none idle high
        ∙ sym (
            feed-rx c (usi_driver c tcnt0) own bits (receive_start c (usi_driver c tcnt0) n)
            ∙ started n)
      where
        started :
            (n : Node Usi)
            → rx_feed own bits (receive_start c (usi_driver c tcnt0) n).rx
              ≡ rx_feed own bits (rx_start n.rx)
        started n = unfold receive_start in refl
