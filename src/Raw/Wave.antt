-- ===== src/Raw/Wave.antt =====
-- Waveforms of bits as the raw receiver finds them: calls of `cec_receive_periodic` one after the other, with
-- the time since the call before and the level of the line.
use avr_cec.Common.{
  ℕ, ◌+◌, ◌-◌, ◌≤◌, ◌<◌, ◌≡◌, refl, ap, ◌∙◌, arith, Bool, true, false, not, ◌&&◌, ltb, u16, List,
  [], ◌∷◌, Bool-cases, inl, inr,
}
use avr_cec.Spec.{t3, t4, t7_early_end, start_low_early, start_low_late, start_high_early}
use avr_cec.Macros.Time.{Clock, us_to_jiffies, us_to_jiffies_up, us_to_jiffies_rnd}
use avr_cec.Receive.State.{Rx, any_flag}
use avr_cec.Receive.Decode.{rx_bit, rx_feed, rx_start, rx_error}
use avr_cec.Receive.Byte.{rx_feed-off}
use avr_cec.Raw.{add_capped}
use avr_cec.Raw.View.{
  View, view_error, view_sample, view_stays, view_rises, view_begins, view_falls, view_edges,
  view_error, view_call,
}

-- The time since the call before, and the level of the line.
pub record Poll : Type 0 where
  pub delta : ℕ
  pub line : Bool

module _ (k : Clock) where
  -- The sample window, the low part of a start bit, and the least times to the next falling edge.
  abbrev pub sample_from : ℕ
  sample_from = us_to_jiffies k t3

  abbrev pub sample_to : ℕ
  sample_to = us_to_jiffies_up k t4

  abbrev pub start_from : ℕ
  start_from = us_to_jiffies k start_low_early

  abbrev pub start_to : ℕ
  start_to = us_to_jiffies_up k start_low_late

  abbrev pub bit_period : ℕ
  bit_period = u16 (us_to_jiffies_rnd k (t7_early_end - 50))

  abbrev pub start_period : ℕ
  start_period = u16 (us_to_jiffies_rnd k (start_high_early - 200))

  -- The time at which a frame has taken too long.
  abbrev pub latest : ℕ → ℕ
  latest p = u16 (p + u16 (us_to_jiffies_up k 800))

  -- Between two falling edges, with the timer at `t`: the line stays as it is and not for too long, or it
  -- rises too early for a start bit.
  abbrev pub IsQuiet : ℕ → Bool → Bool → ℕ → Type 0
  IsQuiet p false false t = t ≤ latest p
  IsQuiet p true true t = t ≤ latest p
  IsQuiet p false true t = t ≤ start_from
  IsQuiet p true false t = ⊥

  -- The calls in which the given bits arrive: `p` is the least time from the falling edge at the beginning
  -- of the frame to the next one, `t` the time since that edge at the call before, `last` the level
  -- that it found, and `sampled` says that the frame's bit, if it has one, is behind.
  pub data Wave : ℕ → List Bool → ℕ → Bool → Bool → List Poll → Type 0 where
    over : {p t : ℕ} → Wave p [] t true true []
    waits :
        {p t : ℕ} {b last : Bool} {bs : List Bool} {l : List Poll} (q : Poll)
        → IsQuiet p last q.line (add_capped t q.delta)
        → add_capped t q.delta ≤ sample_from
        → Wave p (b ∷ bs) (add_capped t q.delta) q.line false l
        → Wave p (b ∷ bs) t last false (q ∷ l)
    samples :
        {p t : ℕ} {last : Bool} {bs : List Bool} {l : List Poll} (q : Poll)
        → IsQuiet p last q.line (add_capped t q.delta)
        → sample_from < add_capped t q.delta
        → add_capped t q.delta ≤ sample_to
        → Wave p bs (add_capped t q.delta) q.line true l
        → Wave p (q.line ∷ bs) t last false (q ∷ l)
    rests :
        {p t : ℕ} {last : Bool} {bs : List Bool} {l : List Poll} (q : Poll)
        → IsQuiet p last q.line (add_capped t q.delta)
        → Wave p bs (add_capped t q.delta) q.line true l
        → Wave p bs t last true (q ∷ l)
    falls :
        {p t : ℕ} {b : Bool} {bs : List Bool} {l : List Poll} (q : Poll)
        → q.line ≡ false
        → p ≤ add_capped t q.delta
        → Wave bit_period (b ∷ bs) 0 false false l
        → Wave p (b ∷ bs) t true true (q ∷ l)

  -- A start bit, from its falling edge on, and the bits behind it.
  pub data StartWave : List Bool → ℕ → List Poll → Type 0 where
    stays :
        {t : ℕ} {bs : List Bool} {l : List Poll} (q : Poll)
        → q.line ≡ false
        → StartWave bs (add_capped t q.delta) l
        → StartWave bs t (q ∷ l)
    rises :
        {t : ℕ} {bs : List Bool} {l : List Poll} (q : Poll)
        → q.line ≡ true
        → start_from < add_capped t q.delta
        → add_capped t q.delta < start_to
        → Wave start_period bs (add_capped t q.delta) true true l
        → StartWave bs t (q ∷ l)

  module _ (own : ℕ → Bool) where
    unfoldable pub view_calls : List Poll → View → View
    view_calls [] v = v
    view_calls (q ∷ l) v = view_calls l (view_call k own q.line q.delta v)

    abbrev pub point : Rx → ℕ → ℕ → Bool → Bool → View
    point r p t last s = record { rx = r; period = p; timer = t; last = last; sample = s }

    -- The edges of a call: none, or a rise that begins nothing.
    quiet_edge :
        (p t : ℕ) (last line s : Bool) (r : Rx)
        → IsQuiet p last line t
        → view_edges k own line (point r p t last s) ≡ point r p t line s
    unfolding view_edges view_stays view_rises
    quiet_edge p t false false s r q = ground (arith, q)
    quiet_edge p t true true s r q = ground (arith, q)
    quiet_edge p t false true s r q = ground (arith, q)
    quiet_edge p t true false s r q = absurd q

    unsampled :
        (line : Bool) (v : View)
        → (v.sample && ltb sample_from v.timer) ≡ false
        → view_sample k own line v ≡ v
    unfolding view_sample
    unsampled line v n = rw n

    sampled_bit :
        (line : Bool) (v : View)
        → v.sample ≡ true
        → sample_from < v.timer
        → v.timer ≤ sample_to
        → view_sample k own line v ≡ record v { rx = rx_bit own line v.rx; sample = false }
    unfolding view_sample
    sampled_bit line v s early late = ground (arith, s)

    quiet_call :
        (p t d : ℕ) (last line s : Bool) (r : Rx)
        → IsQuiet p last line (add_capped t d)
        → (s && ltb sample_from (add_capped t d)) ≡ false
        → view_call k own line d (point r p t last s) ≡ point r p (add_capped t d) line s
    unfolding view_call
    quiet_call p t d last line s r q n =
        ap (view_edges k own line) (unsampled line (point r p (add_capped t d) last s) n)
        ∙ quiet_edge p (add_capped t d) last line s r q

    sampling_call :
        (p t d : ℕ) (last line : Bool) (r : Rx)
        → IsQuiet p last line (add_capped t d)
        → sample_from < add_capped t d
        → add_capped t d ≤ sample_to
        → view_call k own line d (point r p t last true)
          ≡ point (rx_bit own line r) p (add_capped t d) line false
    unfolding view_call
    sampling_call p t d last line r q early late =
        ap (view_edges k own line)
          (sampled_bit line (point r p (add_capped t d) last true) refl early late)
        ∙ quiet_edge p (add_capped t d) last line false (rx_bit own line r) q

    falling_call :
        (p t d : ℕ) (r : Rx)
        → p ≤ add_capped t d
        → view_call k own false d (point r p t true false)
          ≡ point r bit_period 0 false (any_flag r.flags)
    unfolding view_call view_edges view_falls view_begins view_sample
    falling_call p t d r h = ground arith

    -- Nothing is received: a line that stays low, and the rise that ends the low part of a start bit.
    idle_call :
        (p t d : ℕ) (r : Rx)
        → any_flag r.flags ≡ false
        → view_call k own false d (point r p t false false) ≡ point r p (add_capped t d) false false
    unfolding view_call view_edges view_stays view_sample view_error rx_error
    idle_call p t d r off = ground (arith, off)

    rising_call :
        (p t d : ℕ) (r : Rx)
        → start_from < add_capped t d
        → add_capped t d < start_to
        → view_call k own true d (point r p t false false)
          ≡ point (rx_start r) start_period (add_capped t d) true false
    unfolding view_call view_edges view_rises view_sample
    rising_call p t d r early late = ground arith

    -- The falling edge of a start bit.
    pub first_fall :
        (p t d : ℕ) (last s line : Bool) (r : Rx)
        → any_flag r.flags ≡ false
        → last ≡ true
        → s ≡ false
        → line ≡ false
        → view_call k own line d (point r p t last s) ≡ point r bit_period 0 false false
    unfolding view_call view_edges view_falls view_sample
    first_fall p t d last s line r off high idle low = rw (high, idle, low) (ground (arith, off))

    -- What a wave does to the receive side, from any of its calls on.
    pub Wave-heard :
        {p : ℕ} {bs : List Bool} {t : ℕ} {last sampled : Bool} {l : List Poll} (r : Rx)
        → Wave p bs t last sampled l
        → (view_calls l (point r p t last (not sampled && any_flag r.flags))).rx ≡ rx_feed own bs r
    unfolding view_calls rx_feed
    Wave-heard r over = refl
    Wave-heard r (waits {p} {t} {b} {last} {bs} {l} q quiet early w) =
        ap (λ v. (view_calls l v).rx)
          (quiet_call p t q.delta last q.line (any_flag r.flags) r quiet (ground (arith, early)))
        ∙ Wave-heard r w
    Wave-heard r (samples {p} {t} {last} {bs} {l} q quiet early late w) =
        elim (Bool-cases (any_flag r.flags)) [
          | inl on ↦ rw on (
              ap (λ v. (view_calls l v).rx)
                (sampling_call p t q.delta last q.line r quiet early late)
              ∙ Wave-heard (rx_bit own q.line r) w)
          | inr off ↦ rw off (
              ap (λ v. (view_calls l v).rx) (quiet_call p t q.delta last q.line false r quiet refl)
              ∙ Wave-heard r w
              ∙ rx_feed-off own bs r off)
        ]
    Wave-heard r (rests {p} {t} {last} {bs} {l} q quiet w) =
        ap (λ v. (view_calls l v).rx) (quiet_call p t q.delta last q.line false r quiet refl)
        ∙ Wave-heard r w
    Wave-heard r (falls {p} {t} {b} {bs} {l} q low end w) =
        ap (λ x. (view_calls l (view_call k own x q.delta (point r p t true false))).rx) low
        ∙ ap (λ v. (view_calls l v).rx) (falling_call p t q.delta r end)
        ∙ Wave-heard r w

    -- A start bit at a host that receives nothing, from a call at which the line is low.
    pub start_heard :
        {bs : List Bool} {t : ℕ} {l : List Poll} (r : Rx)
        → any_flag r.flags ≡ false
        → StartWave bs t l
        → (view_calls l (point r bit_period t false false)).rx ≡ rx_feed own bs (rx_start r)
    unfolding view_calls
    start_heard r off (stays {t} {bs} {l} q low w) =
        ap (λ x. (view_calls l (view_call k own x q.delta (point r bit_period t false false))).rx)
          low
        ∙ ap (λ v. (view_calls l v).rx) (idle_call bit_period t q.delta r off)
        ∙ start_heard r off w
    start_heard r off (rises {t} {bs} {l} q high early late w) =
        ap (λ x. (view_calls l (view_call k own x q.delta (point r bit_period t false false))).rx)
          high
        ∙ ap (λ v. (view_calls l v).rx) (rising_call bit_period t q.delta r early late)
        ∙ Wave-heard (rx_start r) w
