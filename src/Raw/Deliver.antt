-- ===== src/Raw/Deliver.antt =====
-- Two hosts with the raw drivers: the pulses that one of them loads, as the other one looks at the line.
use avr_cec.Common.{
  ℕ, suc, ◌+◌, ◌*◌, ◌%◌, ◌≤◌, ◌<◌, ◌≡◌, refl, ap, ap₂, ◌∙◌, sym, subst, arith, Bool, true, false,
  ◌==◌, ltb, leb, List, [], ◌∷◌, ◌++◌, length, get_or, take, IsBytes, length-take_le, if◌then◌else◌,
}
use avr_cec.Macros.Time.{Clock}
use avr_cec.Transmit.{Config}
use avr_cec.Receive.State.{Rx, no_flags, any_flag, header}
use avr_cec.Receive.Engine.{Node, receive_start}
use avr_cec.Receive.Decode.{feed}
use avr_cec.Receive.Frame.{wire}
use avr_cec.Receive.Message.{IsHanded, receive-message}
use avr_cec.Link.{message_bits_long, get_or-take, take-IsBytes}
use avr_cec.Link.Slots.{followed, followed-frames, shown-append}
use avr_cec.Raw.{Raw, PwmTicks, raw_driver}
use avr_cec.Transmit.Layout.{message_bits}
use avr_cec.Transmit.Sender.{shown}
use avr_cec.Raw.Cycles.{transmission, cell}
use avr_cec.Raw.Cycles.Whole.{cycles-xmit_start}
use avr_cec.Raw.Wave.{sample_from, sample_to, view_calls}
use avr_cec.Raw.View.{view}
use avr_cec.Raw.Pulses.{Pulse, bits_of, looks, IsBit, IsStart, AreBits, SeesAll, AreClose, sum}
use avr_cec.Raw.Pulses.Calls.{looks-feed}

-- Another host pulls the line low for a zero, or leaves it alone.
abbrev pub pull : PwmTicks → Bool → ℕ × ℕ → ℕ × ℕ
pull ticks slot (w, p) =
    (if slot then w else (if ltb w ticks.zero_ticks then ticks.zero_ticks else w), p)

-- The first pulse of a transmission, and the others.
abbrev pub first_of : List (ℕ × ℕ) → ℕ × ℕ
first_of [] = (0, 0)
first_of (x ∷ l) = x

abbrev pub others_of : List (ℕ × ℕ) → List (ℕ × ℕ)
others_of [] = []
others_of (x ∷ l) = l

module _ (k : Clock) (time : ℕ → ℕ) where
  -- The line: `time` is how long the sender's timer takes for a count, in ticks of the receiver's. A pulse
  -- is low for its low part; one that is over when the receiver samples stands for a one.
  abbrev pub pulse : ℕ × ℕ → Pulse
  pulse (w, p) = record { bit = leb (time w) (sample_from k); low = time w; total = time p }

  abbrev pub pulses : List (ℕ × ℕ) → List Pulse
  pulses [] = []
  pulses (x ∷ l) = pulse x ∷ pulses l

  abbrev pub long_pulse : ℕ × ℕ → Pulse
  long_pulse (w, p) = record { bit = false; low = time w; total = time p }

  module _ (ticks : PwmTicks) (ks : Clock) (ct : Config) (heard : ℕ → Rx) (wait : ℕ → ℕ) where
    -- The start bit that the sender's timer makes.
    abbrev pub start_pulse : Node Raw → Pulse
    start_pulse s = long_pulse (first_of (transmission ks ct ticks heard wait s).1)

    -- The pulses on the line behind the start bit: those that the sender's timer makes, with the followers
    -- in the ack slots, and those of other bits.
    abbrev pub on_line : Node Raw → List Bool → List Pulse
    on_line s rest =
        let sent = others_of (transmission ks ct ticks heard wait s).1 in
        let slot = get_or s.tx.buf 0 0 % 16 == 15 in
        pulses (followed (pull ticks slot) sent ++ shown (cell ks ct ticks) rest)

module _ (k : Clock) (g : ℕ) (window : sample_from k + g ≤ sample_to k) (time : ℕ → ℕ)
    (ticks : PwmTicks) where
  -- The widths of the build are those of a start bit, a one and a zero, for a receiver that looks at the
  -- line every `g` ticks.
  pub record AreWidths : Type 0 where
    pub start : IsStart k g (long_pulse k time (ticks.start_ticks, ticks.start_period))
    pub one : IsBit k g (pulse k time (ticks.one_ticks, ticks.data_period))
    pub zero : IsBit k g (pulse k time (ticks.zero_ticks, ticks.data_period))
    pub one_short : time ticks.one_ticks ≤ sample_from k
    pub zero_long : sample_from k < time ticks.zero_ticks
    pub apart : ticks.one_ticks < ticks.zero_ticks

  module _ (ks : Clock) (ct : Config) (fine : AreWidths) where
    bit_of-cell : (b : Bool) → (pulse k time (cell ks ct ticks b)).bit ≡ b
    bit_of-cell true = ground (arith, fine.one_short)
    bit_of-cell false = ground (arith, fine.zero_long)

    bits_of-cells : (bs : List Bool) → bits_of (pulses k time (shown (cell ks ct ticks) bs)) ≡ bs
    bits_of-cells [] = refl
    bits_of-cells (b ∷ bs) = ap₂ ◌∷◌ (bit_of-cell b) (bits_of-cells bs)

    cells-AreBits : (bs : List Bool) → AreBits k g (pulses k time (shown (cell ks ct ticks) bs))
    cells-AreBits [] = tt
    cells-AreBits (true ∷ bs) = (fine.one, cells-AreBits bs)
    cells-AreBits (false ∷ bs) = (fine.zero, cells-AreBits bs)

    pull-cell : (slot : Bool) → pull ticks slot (cell ks ct ticks true) ≡ cell ks ct ticks slot
    pull-cell true = refl
    pull-cell false = ground (arith, fine.apart)

    module _ (c : Config) (own : ℕ → Bool) (heard : ℕ → Rx) (wait : ℕ → ℕ) where
      sent :
          (s : Node Raw)
          → s.tx.buf_end < length s.tx.buf
          → length s.tx.buf ≡ 16
          → IsBytes s.tx.buf
          → ((i : ℕ) → 0 < i → i < 10 + 10 * s.tx.buf_end → any_flag (heard i).flags ≡ true)
          → ((transmission ks ct ticks heard wait s).1
              ≡ (ticks.start_ticks, ticks.start_period)
                ∷ shown (cell ks ct ticks) (message_bits (take (suc s.tx.buf_end) s.tx.buf)))
      sent s fits size ht follows =
          (cycles-xmit_start ks ct ticks heard wait s s.rx s.tx fits (omega arith) ht follows).0

      -- The same by the message.
      on_line-wire :
          (s : Node Raw) (rest : List Bool)
          → 0 < s.tx.buf_end
          → s.tx.buf_end < length s.tx.buf
          → length s.tx.buf ≡ 16
          → IsBytes s.tx.buf
          → ((i : ℕ) → 0 < i → i < 10 + 10 * s.tx.buf_end → any_flag (heard i).flags ≡ true)
          → (let m = take (suc s.tx.buf_end) s.tx.buf in
              on_line k time ticks ks ct heard wait s rest
              ≡ pulses k time (shown (cell ks ct ticks) (wire (get_or m 0 0 % 16 == 15) m ++ rest)))
      on_line-wire s rest long fits size ht follows =
          ap₂
            (λ a q.
              pulses k time
                (followed (pull ticks (a % 16 == 15)) q ++ shown (cell ks ct ticks) rest))
            first (ap others_of (sent s fits size ht follows))
          ∙ ap
              (λ q. pulses k time (
                followed (pull ticks slot) (shown (cell ks ct ticks) q)
                ++ shown (cell ks ct ticks) rest))
              (message_bits_long m (omega (arith, count)))
          ∙ ap (λ q. pulses k time (q ++ shown (cell ks ct ticks) rest))
              (followed-frames (cell ks ct ticks) (pull ticks slot) slot m (pull-cell slot))
          ∙ ap (pulses k time) (sym (shown-append (cell ks ct ticks) (wire slot m) rest))
        where
          m : List ℕ
          m = take (suc s.tx.buf_end) s.tx.buf

          count : length m ≡ suc s.tx.buf_end
          count = length-take_le (suc s.tx.buf_end) s.tx.buf fits

          slot : Bool
          slot = get_or m 0 0 % 16 == 15

          first : get_or s.tx.buf 0 0 ≡ get_or m 0 0
          first = sym (get_or-take (suc s.tx.buf_end) 0 s.tx.buf (omega arith))

      pub loads-looks :
          (s n : Node Raw) (rest : List Bool) (ds : List ℕ) (d x : ℕ)
          → 0 < s.tx.buf_end
          → s.tx.buf_end < length s.tx.buf
          → length s.tx.buf ≡ 16
          → IsBytes s.tx.buf
          → ((i : ℕ) → 0 < i → i < 10 + 10 * s.tx.buf_end → any_flag (heard i).flags ≡ true)
          → AreClose k g ds
          → x ≤ g
          → SeesAll k g
              (x + sum ds)
              (start_pulse k time ticks ks ct heard wait s)
              (on_line k time ticks ks ct heard wait s rest)
          → length n.rx.buf ≡ 17 + n.rx.hdr
          → header n.rx ≡ 0
          → n.rx.flags ≡ no_flags
          → n.drv.sampler.last_state ≡ true
          → n.drv.sampler.sample ≡ false
          → (let p = start_pulse k time ticks ks ct heard wait s in
              IsHanded 0 0
                (take (suc s.tx.buf_end) s.tx.buf)
                n.rx
                (view_calls k own
                  (record { delta = d; line = leb p.low x }
                    ∷ looks ds x p (on_line k time ticks ks ct heard wait s rest))
                  (view n)).rx)
      loads-looks s n rest ds d x long fits size ht follows close soon sees len free none high
            idle =
          subst (IsHanded 0 0 m n.rx) (sym heard_bits) (
            receive-message c (raw_driver k c) own m rest n (omega (arith, count))
              (omega (arith, count)) (take-IsBytes (suc s.tx.buf_end) s.tx.buf ht) len free)
        where
          m : List ℕ
          m = take (suc s.tx.buf_end) s.tx.buf

          count : length m ≡ suc s.tx.buf_end
          count = length-take_le (suc s.tx.buf_end) s.tx.buf fits

          bits : List Bool
          bits = wire (get_or m 0 0 % 16 == 15) m ++ rest

          line :
              on_line k time ticks ks ct heard wait s rest
              ≡ pulses k time (shown (cell ks ct ticks) bits)
          line = on_line-wire s rest long fits size ht follows

          p : Pulse
          p = start_pulse k time ticks ks ct heard wait s

          heard_bits :
              (view_calls k own
                (record { delta = d; line = leb p.low x }
                  ∷ looks ds x p (on_line k time ticks ks ct heard wait s rest))
                (view n)).rx
              ≡ (let v = raw_driver k c in feed c v own bits (receive_start c v n)).rx
          heard_bits =
              looks-feed k g window c own p (on_line k time ticks ks ct heard wait s rest) ds d x n
                (subst (λ q. IsStart k g (long_pulse k time (first_of q)))
                  (sym (sent s fits size ht follows)) fine.start)
                (subst (AreBits k g) (sym line) (cells-AreBits bits)) close sees soon none high idle
              ∙ ap
                  (λ l.
                    (let v = raw_driver k c in feed c v own (bits_of l) (receive_start c v n)).rx)
                  line
              ∙ ap (λ l. (let v = raw_driver k c in feed c v own l (receive_start c v n)).rx)
                  (bits_of-cells bits)
