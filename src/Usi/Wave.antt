-- ===== src/Usi/Wave.antt =====
-- The receiver on the waveforms that the driver sends: the two bytes of a start bit, and the byte of a
-- bit.
use avr_cec.Common.{
  ℕ, zero, suc, ◌+◌, ◌*◌, ◌<◌, ◌≡◌, refl, ap, ◌∙◌, sym, arith, bit_and, Bool, true, false, not,
  if◌then◌else◌, truth, u8, Bool-cases, inl, inr, List, [], ◌∷◌,
}
use avr_cec.Transmit.{Config}
use avr_cec.Transmit.Sender.{shown}
use avr_cec.Receive.State.{Rx, any_flag, no_flags}
use avr_cec.Receive.Engine.{Node}
use avr_cec.Receive.Decode.{rx_bit, rx_feed, rx_start, rx_error}
use avr_cec.Receive.Byte.{rx_feed-off, rx_feed-cons, any_flag_active}
use avr_cec.Usi.{
  Usi, RecvState, usi_recv_idle, usi_recv_start, usi_recv_bits, pat_1, pat_0, pat_start0,
  pat_start1,
}
use avr_cec.Usi.Tick.{process_bits, next_tick}
use avr_cec.Usi.View.{
  View, view, view_take, view_stays, view_falls, view_rises, tick_view, process_tick-view,
}

-- The driver's byte for a bit.
abbrev pub pattern_of : Bool → ℕ
pattern_of b = if b then pat_1 else pat_0

abbrev pub patterns : List Bool → List ℕ
patterns = shown pattern_of

module _ (own : ℕ → Bool) where
  unfoldable pub view_bits : ℕ → ℕ → View → View
  view_bits zero buf v = v
  view_bits (suc k) buf v =
      view_bits k (u8 (buf * 2)) (tick_view own (not (truth (bit_and buf 128))) v)

  abbrev pub view_bytes : List ℕ → View → View
  view_bytes [] v = v
  view_bytes (x ∷ l) v = view_bytes l (view_bits 8 x v)

  -- In the middle of a bit, at its sample, and at its end.
  abbrev point : Rx → ℕ → RecvState → Bool → View
  point r t s b = record { rx = r; tick = t; low = 6; high = 10; state = s; last = b }

  abbrev bits_or_idle : Rx → RecvState
  bits_or_idle r = if any_flag r.flags then usi_recv_bits else usi_recv_idle

  abbrev settled : Rx → View
  settled r = point r 7 (bits_or_idle r) true

  half_1 :
      (r : Rx)
      → view_bits 4 pat_1 (point r 7 usi_recv_bits true)
        ≡ point (rx_bit own true r) 3 (bits_or_idle (rx_bit own true r)) true
  unfolding view_bits tick_view view_take view_stays view_falls view_rises next_tick
  half_1 r = refl

  half_0 :
      (r : Rx)
      → view_bits 4 pat_0 (point r 7 usi_recv_bits true)
        ≡ point (rx_bit own false r) 3 (bits_or_idle (rx_bit own false r)) false
  unfolding view_bits tick_view view_take view_stays view_falls view_rises next_tick
  half_0 r = refl

  rest_1 : (r : Rx) (s : RecvState) → view_bits 4 0 (point r 3 s true) ≡ point r 7 s true
  unfolding view_bits tick_view view_take view_stays view_falls view_rises next_tick
  rest_1 r usi_recv_idle = refl
  rest_1 r usi_recv_start = refl
  rest_1 r usi_recv_bits = refl

  rest_0 : (r : Rx) (s : RecvState) → view_bits 4 0x80 (point r 3 s false) ≡ point r 7 s true
  unfolding view_bits tick_view view_take view_stays view_falls view_rises next_tick
  rest_0 r usi_recv_idle = refl
  rest_0 r usi_recv_start = refl
  rest_0 r usi_recv_bits = refl

  off_run :
      (b : Bool) (r : Rx)
      → view_bits 8 (pattern_of b) (point r 7 usi_recv_idle true) ≡ point r 7 usi_recv_idle true
  unfolding view_bits tick_view view_take view_stays view_falls view_rises next_tick
  off_run true r = refl
  off_run false r = refl

  -- While bits are received.
  on_run :
      (b : Bool) (r : Rx)
      → view_bits 8 (pattern_of b) (point r 7 usi_recv_bits true) ≡ settled (rx_bit own b r)
  unfolding view_bits
  on_run true r = ap (view_bits 4 0) (half_1 r) ∙ rest_1 (rx_bit own true r) _
  on_run false r = ap (view_bits 4 0x80) (half_0 r) ∙ rest_0 (rx_bit own false r) _

  settled_in :
      (s : RecvState) (b : Bool) (r : Rx)
      → bits_or_idle r ≡ s
      → view_bits 8 (pattern_of b) (settled r) ≡ view_bits 8 (pattern_of b) (point r 7 s true)
  settled_in s b r e = ap (λ u. view_bits 8 (pattern_of b) (point r 7 u true)) e

  bits_run :
      (bs : List Bool) (r : Rx) → view_bytes (patterns bs) (settled r) ≡ settled (rx_feed own bs r)
  bits_run [] r = unfold rx_feed in refl
  bits_run (b ∷ bs) r = elim (Bool-cases (any_flag r.flags)) [
    | inl on ↦
        ap (view_bytes (patterns bs)) (
          settled_in usi_recv_bits b r (ap (λ t. if t then usi_recv_bits else usi_recv_idle) on)
          ∙ on_run b r)
        ∙ bits_run bs (rx_bit own b r)
        ∙ ap settled (sym (rx_feed-cons own b bs r on))
    | inr off ↦
        ap (view_bytes (patterns bs)) (
          settled_in usi_recv_idle b r (idle_of r off)
          ∙ off_run b r
          ∙ ap (λ u. point r 7 u true) (sym (idle_of r off)))
        ∙ bits_run bs r
        ∙ ap settled (rx_feed-off own bs r off ∙ sym (rx_feed-off own (b ∷ bs) r off))
  ]
    where
      idle_of : (r : Rx) → any_flag r.flags ≡ false → bits_or_idle r ≡ usi_recv_idle
      idle_of r off = ap (λ t. if t then usi_recv_bits else usi_recv_idle) off

  -- No message is being received.
  abbrev quiet : Rx → ℕ → ℕ → ℕ → Bool → View
  quiet r t lo hi b = record {
    rx = r;
    tick = t;
    low = lo;
    high = hi;
    state = usi_recv_idle;
    last = b;
  }

  module _ (r : Rx) (none : r.flags ≡ no_flags) (lo hi : ℕ) where
    no_error : rx_error r ≡ r
    unfolding rx_error
    no_error = ground (arith, none)

    quiet_same :
        (t : ℕ) (b : Bool) → tick_view own b (quiet r t lo hi b) ≡ quiet r (next_tick t) lo hi b
    unfolding tick_view view_take view_stays
    quiet_same t b = ground (arith, no_error, Bool-cases b)

    quiet_falls : (t : ℕ) → tick_view own false (quiet r t lo hi true) ≡ quiet r 0 lo hi false
    unfolding tick_view view_take view_falls
    quiet_falls t = ground (arith, no_error)

    low_ticks : ℕ → View → View
    low_ticks zero v = v
    low_ticks (suc k) v = low_ticks k (tick_view own false v)

    low_run :
        (k t : ℕ) → t + k < 256 → low_ticks k (quiet r t lo hi false) ≡ quiet r (t + k) lo hi false
    unfolding low_ticks
    low_run zero t h = ap (λ i. quiet r i lo hi false) (omega arith)
    low_run (suc k) t h =
        ap (low_ticks k)
          (quiet_same t false ∙ ap (λ i. quiet r i lo hi false) (tick_lem t (omega arith)))
        ∙ low_run k (t + 1) (omega arith)
        ∙ ap (λ i. quiet r i lo hi false) (omega arith)
      where
        tick_lem : (t : ℕ) → t < 255 → next_tick t ≡ t + 1
        tick_lem t h = unfold next_tick in ground arith

    -- The two bytes of a start bit: low from the second tick on for twelve ticks, and high for three.
    started : View
    started = record { rx = r; tick = 14; low = 14; high = 16; state = usi_recv_start; last = true }

    first_half : (t : ℕ) → view_bits 8 pat_start0 (quiet r t lo hi true) ≡ quiet r 6 lo hi false
    unfolding view_bits low_ticks
    first_half t =
        ap (λ v. low_ticks 6 (tick_view own false v)) (quiet_same t true)
        ∙ ap (low_ticks 6) (quiet_falls (next_tick t))
        ∙ low_run 6 0 (omega arith)

    second_half : view_bits 8 pat_start1 (quiet r 6 lo hi false) ≡ started
    unfolding view_bits low_ticks started tick_view view_take view_stays view_rises next_tick
    second_half =
        ap (λ v. tick_view own true (tick_view own true (tick_view own true v)))
          (low_run 5 6 (omega arith))

  -- The first falling edge after a start bit.
  first_edge :
      (r : Rx) (none : r.flags ≡ no_flags) (lo hi : ℕ)
      → tick_view own false (started r none lo hi)
        ≡ tick_view own false (point (rx_start r) 7 usi_recv_bits true)
  unfolding started tick_view view_take view_falls next_tick
  first_edge r none lo hi = refl

  first_bit :
      (b : Bool) (r : Rx) (none : r.flags ≡ no_flags) (lo hi : ℕ)
      → view_bits 8 (pattern_of b) (started r none lo hi) ≡ settled (rx_bit own b (rx_start r))
  unfolding view_bits
  first_bit true r none lo hi =
      ap (view_bits 7 0x80) (first_edge r none lo hi) ∙ on_run true (rx_start r)
  first_bit false r none lo hi =
      ap (view_bits 7 0xf0) (first_edge r none lo hi) ∙ on_run false (rx_start r)

  -- A host that receives no message hears the start bit and the bits of a transmission.
  pub wave_run :
      (b : Bool) (bs : List Bool) (r : Rx) (t lo hi : ℕ)
      → r.flags ≡ no_flags
      → view_bytes (pat_start0 ∷ pat_start1 ∷ patterns (b ∷ bs)) (quiet r t lo hi true)
        ≡ settled (rx_feed own (b ∷ bs) (rx_start r))
  wave_run b bs r t lo hi none =
      ap (λ v. view_bytes (pat_start1 ∷ patterns (b ∷ bs)) v) (first_half r none lo hi t)
      ∙ ap (view_bytes (patterns (b ∷ bs))) (second_half r none lo hi)
      ∙ ap (view_bytes (patterns bs)) (first_bit b r none lo hi)
      ∙ bits_run bs (rx_bit own b (rx_start r))
      ∙ ap settled (sym (rx_feed-cons own b bs (rx_start r) (any_flag_active _ refl)))

  pub process_bits-view :
      (c : Config) (tcnt0 : ℕ) (k buf : ℕ) (n : Node Usi)
      → view (process_bits c tcnt0 own k buf n) ≡ view_bits k buf (view n)
  unfolding process_bits view_bits
  process_bits-view c tcnt0 zero buf n = refl
  process_bits-view c tcnt0 (suc k) buf n =
      process_bits-view c tcnt0 k (u8 (buf * 2)) _
      ∙ ap (view_bits k (u8 (buf * 2))) (process_tick-view c tcnt0 own _ n)
