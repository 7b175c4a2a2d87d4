-- ===== src/Raw/Heard.antt =====
-- Calls of `cec_receive_periodic` of cec_receive_min.c in which a start bit and bits arrive.
use avr_cec.Common.{ℕ, ◌≡◌, refl, ap, ◌∙◌, sym, Bool, true, false, List, [], ◌∷◌, length}
use avr_cec.Macros.Time.{Clock}
use avr_cec.Transmit.{Config}
use avr_cec.Receive.State.{Rx, no_flags, any_flag}
use avr_cec.Receive.Engine.{Node, receive_start}
use avr_cec.Receive.Decode.{rx_feed, rx_start, feed, feed-rx}
use avr_cec.Raw.{Raw, raw_driver}
use avr_cec.Raw.Receive.{receive_periodic}
use avr_cec.Raw.View.{view, receive_periodic-view}
use avr_cec.Raw.Wave.{Poll, StartWave, view_calls, first_fall, start_heard}

-- What happens between two calls, the calls of `cec_transmit_periodic` among it: anything but a change of
-- the receive side or of the variables of the receiver.
abbrev pub IsApart : (ℕ → Node Raw → Node Raw) → Type 0
IsApart between = (j : ℕ) (n : Node Raw) → view (between j n) ≡ view n

module _ (k : Clock) (c : Config) (own : ℕ → Bool) where
  started : (n : Node Raw) → (receive_start c (raw_driver k c) n).rx ≡ rx_start n.rx
  unfolding receive_start
  started n = refl

  quiet : (r : Rx) → r.flags ≡ no_flags → any_flag r.flags ≡ false
  unfolding any_flag
  quiet r e = rw e refl

  pub view_calls-feed :
      (bs : List Bool) (q : Poll) (l : List Poll) (n : Node Raw)
      → n.rx.flags ≡ no_flags
      → n.drv.sampler.last_state ≡ true
      → n.drv.sampler.sample ≡ false
      → q.line ≡ false
      → StartWave k bs 0 l
      → (view_calls k own (q ∷ l) (view n)).rx
        ≡ (let v = raw_driver k c in feed c v own bs (receive_start c v n)).rx
  unfolding view_calls
  view_calls-feed bs q l n none high idle low w =
      ap (λ v. (view_calls k own l v).rx)
        (first_fall k own n.drv.sampler.frame_period n.drv.sampler.frame_timer q.delta
          n.drv.sampler.last_state n.drv.sampler.sample q.line n.rx (quiet n.rx none) high idle low)
      ∙ start_heard k own n.rx (quiet n.rx none) w
      ∙ sym (
          feed-rx c (raw_driver k c) own bs (receive_start c (raw_driver k c) n)
          ∙ ap (rx_feed own bs) (started n))

module _ (k : Clock) (c : Config) (own : ℕ → Bool) (between : ℕ → Node Raw → Node Raw) where
  -- `between i` comes behind the call that `i` others follow.
  unfoldable pub polls : List Poll → Node Raw → Node Raw
  polls [] n = n
  polls (q ∷ l) n = polls l (between (length l) (receive_periodic k c own q.line q.delta n))

  pub polls-view :
      IsApart between
      → (l : List Poll) (n : Node Raw) → view (polls l n) ≡ view_calls k own l (view n)
  unfolding polls view_calls
  polls-view apart [] n = refl
  polls-view apart (q ∷ l) n =
      polls-view apart l _
      ∙ ap (view_calls k own l) (
          apart (length l) (receive_periodic k c own q.line q.delta n)
          ∙ receive_periodic-view k c own q.line q.delta n)

  -- At a host that receives nothing, where the line was high and no sample is due, the calls of the raw
  -- receiver that find the falling edge of a start bit and then the waveform of a start bit and of bits
  -- do to the receive side what `cec_receive_start` and `cec_receive_bit` do for these bits, up to the
  -- end of a message; whatever the transmit side does in these calls and between them.
  pub polls-feed :
      IsApart between
      → (bs : List Bool) (q : Poll) (l : List Poll) (n : Node Raw) → n.rx.flags ≡ no_flags
      → n.drv.sampler.last_state ≡ true
      → n.drv.sampler.sample ≡ false
      → q.line ≡ false
      → StartWave k bs 0 l
      → (polls (q ∷ l) n).rx ≡ (let v = raw_driver k c in feed c v own bs (receive_start c v n)).rx
  polls-feed apart bs q l n none high idle low w =
      ap (λ v. v.rx) (polls-view apart (q ∷ l) n)
      ∙ view_calls-feed k c own bs q l n none high idle low w
