-- ===== src/Tests/Own.antt =====
-- A playback device that asks the television for its CEC version, and hears itself.
use avr_cec.Common.{◌++◌, ◌≡◌, refl, arith, false, true, [], ◌∷◌}
use avr_cec.Spec.{present_period_wait}
use avr_cec.Transmit.{idle, again, start}
use avr_cec.Transmit.Frame.{emit}
use avr_cec.Receive.Engine.{Node, receive_start}
use avr_cec.Receive.Decode.{feed}
use avr_cec.Receive.Frame.{wire_to}
use avr_cec.Raw.{Raw}
use avr_cec.Link.{acknowledge}
use avr_cec.Link.Own.{talk, begin_message}
use avr_cec.Transmit.Layout.{bits_from}
use avr_cec.Link.Busy.{own_busy}
use avr_cec.Link.Outcome.{own_acked, own_refused}
use avr_cec.Tests.{
  full_rx, padded, rest, cons-IsBytes, zeros-IsBytes, question-IsBytes, config, driver, question,
  listener, television,
}

abbrev asking : Node Raw
asking = record listener { tx = question }

own_acked_example :
    (let heard = acknowledge false (emit config 20 (start config question)).1 in
      let n = talk config driver television heard (begin_message config driver asking) in
      (n.tx.state ≡ idle)
      × (n.tx.retries ≡ (start config question).retries)
      × (n.tx.needed_idle ≡ config.idle_wait present_period_wait)
      × (n.rx ≡ (feed config driver television heard (receive_start config driver asking)).rx))
own_acked_example =
    own_acked config driver television asking (omega arith) (omega arith) question-IsBytes
      (omega arith) refl

-- The television refuses the second byte: the message is queued again.
own_refused_example :
    (let heard = wire_to false true true (0x40 ∷ 0x9f ∷ []) in
      let n = talk config driver television heard (begin_message config driver asking) in
      (n.tx.retries ≡ 1)
      × (n.tx.state ≡ again)
      × (n.rx ≡ (feed config driver television heard (receive_start config driver asking)).rx))
unfolding start
own_refused_example =
    own_refused config driver television asking 2 (omega arith) (omega arith) question-IsBytes
      (omega arith) refl (omega arith) (omega arith)

-- Playback device 1 reports its address to all, while a message waits in its receive buffer.
abbrev reporting : Node Raw
reporting = record {
  rx = full_rx;
  tx = record question { buf = padded 0x4f 0x84; buf_end = 4 };
  drv = rest;
}

own_busy_example :
    (let bits = bits_from 8 0x4f ++ (false ∷ []) in
      let at_slot = talk config driver television bits (begin_message config driver reporting) in
      let pulled =
        talk config driver television
          (bits ++ (false ∷ []))
          (begin_message config driver reporting) in
      (at_slot.rx.flags.do_ack ≡ true)
      × (at_slot.rx.flags.bits_eom ≡ false)
      × (pulled.tx.retries ≡ 1)
      × (pulled.tx.state ≡ again))
unfolding start
own_busy_example =
    own_busy config driver television reporting (omega arith) (omega arith)
      (grind (arith, cons-IsBytes, zeros-IsBytes)) (omega arith) refl refl
