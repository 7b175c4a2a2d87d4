-- ===== src/Receive/Ack.antt =====
-- Which messages a host answers in their ack slots.
use avr_cec.Common.{
  ℕ, ◌%◌, ◌<◌, ◌≡◌, refl, ◌∙◌, ap, sym, arith, Bool, false, ◌&&◌, ◌||◌, not, [], if◌then◌else◌,
  ◌==◌, truth, Bool-cases, bit_and-nibble,
}
use mathlib.Core.List.{append-nil}
use avr_cec.Transmit.{Config}
use avr_cec.Transmit.Layout.{bits_from}
use avr_cec.Receive.State.{Rx, header, finish_byte, judge_byte, apply_nack}
use avr_cec.Receive.Engine.{Driver, Node, receive_start}
use avr_cec.Receive.Decode.{rx_feed, feed, feed-rx}
use avr_cec.Receive.Byte.{rx_feed-byte}

finish_first :
    (own : ℕ → Bool) (x : ℕ) (r : Rx)
    → x < 256
    → r.pos ≡ 0
    → r.flags.bcast ≡ false
    → r.flags.do_ack ≡ false
    → ((finish_byte own r x).flags.do_ack
        ≡ (if x % 16 == 15 then truth (header r) else own (x % 16) && not (truth (header r))))
      × ((finish_byte own r x).flags.ignore ≡ (r.flags.ignore || truth (header r)))
unfolding finish_byte judge_byte apply_nack
finish_first own x r h z b a = ground (arith, bit_and-nibble x h, Bool-cases (own (x % 16)))

module _ {D : Type 0} (c : Config) (v : Driver c D) where
  -- Once a start bit and the eight bits of a first byte have arrived, the host will answer in the
  -- ack slots (CEC_RECV_DO_ACK) exactly if the target is one of its addresses and its buffer is free,
  -- or, for a broadcast, whose answer refuses the message, if a message waits in its buffer.
  pub do_ack-first_byte :
      (own : ℕ → Bool) (x : ℕ) (n : Node D)
      → x < 256
      → (feed c v own (bits_from 8 x) (receive_start c v n)).rx.flags.do_ack
        ≡ (if x % 16 == 15 then truth (header n.rx) else own (x % 16) && not (truth (header n.rx)))
  unfolding receive_start rx_feed
  do_ack-first_byte own x n h =
      ap (λ r. r.flags.do_ack)
        (feed-rx c v own (bits_from 8 x) (receive_start c v n)
          ∙ ap (λ l. rx_feed own l r₀) (sym (append-nil (bits_from 8 x)))
          ∙ rx_feed-byte own x [] r₀ refl refl h)
      ∙ (finish_first own x r₀ h refl refl refl).0
    where
      r₀ : Rx
      r₀ = (receive_start c v n).rx
