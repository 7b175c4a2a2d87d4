-- ===== src/Tests/Engines.antt =====
-- The engines' theorems at the hosts of the tests.
use avr_cec.Common.{
  ℕ, ◌<◌, ◌≤◌, ◌≡◌, refl, arith, true, false, not, List, [], ◌∷◌, ◌++◌, length, IsBytes, ltb,
  if◌then◌else◌,
}
use avr_cec.Common.{get_or, inr}
use avr_cec.Spec.{arb_lost}
use avr_cec.Tests.{
  question-IsBytes, config, driver, question, listener, busy_listener, television, cons-IsBytes,
  free_rx, padded, zeros-IsBytes, full_rx,
}
use avr_cec.Transmit.{start, failed, code, finish_abort, count_error, expected_bit}
use avr_cec.Transmit.Layout.{bits_from, message_bits}
use avr_cec.Transmit.Frame.{emit}
use avr_cec.Transmit.Emit.{IsSent, emit-start}
use avr_cec.Transmit.Attempts.{fail_times, fail_times-state}
use avr_cec.Transmit.Echo.{after_two, echo_of}
use avr_cec.Transmit.Bounds.{emit-reads_inside}
use avr_cec.Receive.State.{any_flag, data_bit, shift_in, finish_byte, judge_byte}
use avr_cec.Receive.Engine.{Node, receive_start, receive_bit, check_tx_bit, on_error}
use avr_cec.Raw.{Raw}
use avr_cec.Receive.Decode.{feed}
use avr_cec.Receive.Frame.{wire, wire_to}
use avr_cec.Receive.Message.{IsHanded, receive-message, receive-refused}
use avr_cec.Receive.Overrun.{receive-overrun}
use avr_cec.Receive.Bounds.{feed-outside_kept}
use avr_cec.Receive.Pending.{waiting_message_kept}
use avr_cec.Receive.Ack.{do_ack-first_byte}
use avr_cec.Receive.Echo.{check_tx_bit-echo}
use avr_cec.Link.{acknowledge, deliver}

program : Unit {0}
unfolding receive_start receive_bit check_tx_bit expected_bit on_error feed any_flag data_bit
    shift_in finish_byte judge_byte
program = tt

deliver_example :
    IsHanded 0 0
      (0x40 ∷ 0x9f ∷ [])
      free_rx
      (feed config driver television
        (acknowledge false (emit config 20 (start config question)).1 ++ [])
        (receive_start config driver listener)).rx
deliver_example =
    deliver config config driver television question [] listener (omega arith) (omega arith) refl
      question-IsBytes refl refl

abbrev report : List ℕ
report = 0x4f ∷ 0x82 ∷ 0x10 ∷ 0x00 ∷ []

report-IsBytes : IsBytes report
report-IsBytes = grind (arith, cons-IsBytes, zeros-IsBytes)

-- A broadcast, and the start of another message behind it.
receive-message_example :
    IsHanded 0 0 report free_rx
      (feed config driver television
        (wire true report ++ (true ∷ false ∷ []))
        (receive_start config driver listener)).rx
receive-message_example =
    receive-message config driver television report (true ∷ false ∷ []) listener (omega arith)
      (omega arith) report-IsBytes refl refl

-- The third of the four bytes is refused: three are handed over.
receive-refused_example :
    IsHanded 128 0
      (0x4f ∷ 0x82 ∷ 0x10 ∷ [])
      free_rx
      (feed config driver television
        (wire_to true false false (0x4f ∷ 0x82 ∷ 0x10 ∷ []) ++ bits_from 8 0)
        (receive_start config driver listener)).rx
receive-refused_example =
    receive-refused config driver television (0x4f ∷ 0x82 ∷ 0x10 ∷ []) false (bits_from 8 0)
      listener (omega arith) (omega arith) (grind (arith, cons-IsBytes, zeros-IsBytes)) refl refl

-- Sixteen bytes to the television, and one more.
abbrev long : List ℕ
long = padded 0x40 0x64

long-IsBytes : IsBytes long
long-IsBytes = grind (arith, cons-IsBytes, zeros-IsBytes)

receive-overrun_example :
    IsHanded 193 0 long free_rx
      (feed config driver television
        (wire_to false true true (long ++ (0x21 ∷ [])) ++ bits_from 8 0)
        (receive_start config driver listener)).rx
receive-overrun_example =
    receive-overrun config driver television long 0x21 true (bits_from 8 0) listener refl
      long-IsBytes (omega arith) refl refl

emit-start_example :
    IsSent config (start config question) (emit config 20 (start config question)).0
    × ((emit config 20 (start config question)).1 ≡ message_bits (0x40 ∷ 0x9f ∷ []))
emit-start_example = emit-start config question (omega arith) (omega arith) question-IsBytes

-- Another variable stands behind the buffer of a host that is sent 18 bytes.
abbrev with_memory : Node Raw
with_memory = let r = free_rx in record listener { rx = record r { buf = r.buf ++ (7 ∷ []) } }

abbrev too_long : List ℕ
too_long = 0x40 ∷ 1 ∷ 2 ∷ 3 ∷ 4 ∷ 5 ∷ 6 ∷ 7 ∷ 8 ∷ 9 ∷ 10 ∷ 11 ∷ 12 ∷ 13 ∷ 14 ∷ 15 ∷ 16 ∷ 17 ∷ []

feed-outside_kept_example :
    get_or
      (feed config driver television
        (wire false too_long)
        (receive_start config driver with_memory)).rx.buf
      18
      0
    ≡ 7
feed-outside_kept_example =
    feed-outside_kept config driver television (wire false too_long) with_memory 18
      (inr (omega arith))

waiting_message_kept_example :
    (feed config driver television
      (wire false (0x40 ∷ 0x9f ∷ []))
      (receive_start config driver busy_listener)).rx.buf
    ≡ full_rx.buf
waiting_message_kept_example =
    waiting_message_kept config driver television (wire false (0x40 ∷ 0x9f ∷ [])) busy_listener
      (omega arith)

do_ack-first_byte_example :
    (let n =
        feed config driver television (bits_from 8 0x40) (receive_start config driver listener) in
      n.rx.flags.do_ack ≡ true)
do_ack-first_byte_example = do_ack-first_byte config driver television 0x40 listener (omega arith)

fail_times-state_example :
    ((fail_times config 5 question).state ≡ failed) × ((fail_times config 5 question).retries ≡ 5)
fail_times-state_example = fail_times-state config 4 question refl (omega arith)

check_tx_bit-echo_example :
    (let t = start config question in
      let n = record listener { tx = after_two config t } in
      (check_tx_bit config driver (echo_of config t) n ≡ n)
      × ((check_tx_bit config driver (not (echo_of config t)) n).tx ≡ (
          if ltb 3 (code n.tx.state)
          then finish_abort config (count_error config arb_lost n.tx)
          else n.tx)))
check_tx_bit-echo_example =
    check_tx_bit-echo config driver (record listener { tx = start config question })
      (unfold start in omega arith)

emit-reads_inside_example :
    (let u = (emit config 23 (start config question)).0 in
      (u.buf_pos < length u.buf) × (u.buf_pos ≤ u.buf_end))
emit-reads_inside_example = emit-reads_inside config 23 question refl (omega arith)

-- Seven bits leave the preloaded bit at the top.
seven_bits :
    (feed config driver television
      (bits_from 7 0x20)
      (receive_start config driver listener)).rx.byte
    ≡ 0xa0
unfolding program
seven_bits = refl
