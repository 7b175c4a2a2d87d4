-- ===== src/Raw/Pulses/Calls.antt =====
-- Calls of the raw receiver that look at pulses.
use avr_cec.Common.{ap, ◌∙◌, ℕ, ◌+◌, ◌≤◌, ◌≡◌, arith, Bool, true, false, leb, List, ◌∷◌}
use avr_cec.Macros.Time.{Clock}
use avr_cec.Transmit.{Config}
use avr_cec.Receive.State.{no_flags}
use avr_cec.Receive.Engine.{Node, receive_start}
use avr_cec.Receive.Decode.{feed}
use avr_cec.Raw.{Raw, raw_driver}
use avr_cec.Raw.Wave.{sample_from, sample_to}
use avr_cec.Raw.View.{view}
use avr_cec.Raw.Wave.{view_calls}
use avr_cec.Raw.Heard.{IsApart, polls, polls-view, view_calls-feed}
use avr_cec.Raw.Pulses.{Pulse, bits_of, looks, IsStart, AreBits, SeesAll, AreClose, sum}
use avr_cec.Raw.Pulses.Seen.{pulses-StartWave}

module _ (k : Clock) (g : ℕ) (window : sample_from k + g ≤ sample_to k) (c : Config)
    (own : ℕ → Bool) where
  pub looks-feed :
      (p : Pulse) (rest : List Pulse) (ds : List ℕ) (d x : ℕ) (n : Node Raw)
      → IsStart k g p
      → AreBits k g rest
      → AreClose k g ds
      → SeesAll k g (x + sum ds) p rest
      → x ≤ g
      → n.rx.flags ≡ no_flags
      → n.drv.sampler.last_state ≡ true
      → n.drv.sampler.sample ≡ false
      → (view_calls k own
          (record { delta = d; line = leb p.low x } ∷ looks ds x p rest)
          (view n)).rx
        ≡ (let v = raw_driver k c in feed c v own (bits_of rest) (receive_start c v n)).rx
  looks-feed p rest ds d x n i a close s h none high idle =
      view_calls-feed k c own (bits_of rest) (record { delta = d; line = leb p.low x })
        (looks ds x p rest) n none high idle (ground (arith, i.frame.seen))
        (pulses-StartWave k g window ds x p rest i a close s h)

module _ (k : Clock) (g : ℕ) (window : sample_from k + g ≤ sample_to k) (c : Config)
    (own : ℕ → Bool) (between : ℕ → Node Raw → Node Raw) (apart : IsApart between) where
  -- A line carries a start bit and pulses that are ones and zeros, and the raw receiver looks at it at
  -- least every `g` ticks of its timer, from at most `g` ticks behind the falling edge of the start bit
  -- up to the last pulse. What its calls do to the receive side is then what `cec_receive_start` and
  -- `cec_receive_bit` do for these bits, up to the end of a message. The conditions: at the beginning
  -- nothing is received, the line was high and no sample is due; each pulse keeps its limits by `g`
  -- ticks, and `g` ticks fit the sample window; between the calls the receiver is left alone.
  pub pulses-feed :
      (p : Pulse) (rest : List Pulse) (ds : List ℕ) (d x : ℕ) (n : Node Raw)
      → IsStart k g p
      → AreBits k g rest
      → AreClose k g ds
      → SeesAll k g (x + sum ds) p rest
      → x ≤ g
      → n.rx.flags ≡ no_flags
      → n.drv.sampler.last_state ≡ true
      → n.drv.sampler.sample ≡ false
      → (polls k c own between (record { delta = d; line = leb p.low x } ∷ looks ds x p rest) n).rx
        ≡ (let v = raw_driver k c in feed c v own (bits_of rest) (receive_start c v n)).rx
  pulses-feed p rest ds d x n i a close s h none high idle =
      ap (λ v. v.rx)
        (polls-view k c own between apart
          (record { delta = d; line = leb p.low x } ∷ looks ds x p rest) n)
      ∙ looks-feed k g window c own p rest ds d x n i a close s h none high idle
