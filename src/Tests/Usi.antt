-- ===== src/Tests/Usi.antt =====
-- The theorems on the USI driver.
pub mod Entry
use avr_cec.Common.{
  bit_or, ◌≢◌, ℕ, ◌^◌, ◌%◌, ◌≡◌, ◌++◌, ◌-◌, inl, ap, refl, arith, true, false, List, [], ◌∷◌,
  IsBytes, leb, if◌then◌else◌,
}
use avr_cec.Transmit.{
  idle, bit_eom, wait_for_ack, start, finish_abort, get_bit, data_bit, control_bit, push_last,
}
use avr_cec.Transmit.Layout.{message_bits, frame}
use avr_cec.Receive.State.{start_flags, header, any_flag}
use avr_cec.Receive.Engine.{Node, receive_start}
use avr_cec.Receive.Decode.{feed}
use avr_cec.Receive.Frame.{wire}
use avr_cec.Receive.Message.{IsHanded}
use avr_cec.Usi.{
  usi_recv_bits, usi_xmit_bits, usi_xmit_start, Usi, Shift, usi_recv_idle, usi_xmit_idle,
  usi_driver, pat_start0, pat_start1, usi_config, with_usi, abort,
}
use avr_cec.Usi.Ack.{do_ack}
use avr_cec.Usi.View.{view}
use avr_cec.Usi.Queue.{next_bit, xmit_pattern, idle_pattern, start_pattern, bit_pattern}
use avr_cec.Usi.Tick.{process_tick}
use avr_cec.Usi.Wave.{pattern_of, patterns}
use avr_cec.Usi.Calls.{Call, IsHook, arrived, calls, calls-feed}
use avr_cec.Usi.Sent.{IsAside, writes, writes-queued}
use avr_cec.Usi.Deliver.{on_line, writes-calls}
use avr_cec.Usi.Synced.{IsSynced, calls-IsSynced}
use avr_cec.Usi.Shifts.{abort_releases, do_ack_ticks, acked, low_ticks}
use avr_cec.Tests.{
  question-IsBytes, cons-IsBytes, zeros-IsBytes, question, quiet, free_rx, television,
}

program : Unit {0}
unfolding frame writes next_bit xmit_pattern idle_pattern start_pattern bit_pattern start get_bit
    data_bit control_bit push_last
program = tt

abbrev half : Shift
half = record { usidr = 0xb5; usibr = 0; oif = false; count = 13 }

abbrev at_rest : Usi
at_rest = record {
  recv_frame_tick = 9;
  recv_frame = 0;
  min_frame_ticks = 6;
  max_frame_ticks = 10;
  idle_frames = 7;
  usi_recv_state = usi_recv_idle;
  usi_xmit_state = usi_xmit_idle;
  float_ticks_max = 8;
  float_ticks_max_next = 8;
  recv_last_bit = true;
  nacking = false;
  ack_done = false;
  driven = false;
  tccr0b = 3;
  shift = half;
}

abbrev usi_listener : Node Usi
usi_listener = record { rx = free_rx; tx = quiet; drv = at_rest }

abbrev usi_sender : Node Usi
usi_sender = record usi_listener { tx = question }

-- The application asks for another transmission; between the sender's calls, frames pass.
abbrev asks_again : Node Usi → Node Usi
asks_again n = record n { tx = question }

asks_again-IsHook : IsHook asks_again
asks_again-IsHook = record { view_kept = λ n. refl; shift_kept = λ n. refl }

abbrev counts_idle : ℕ → Node Usi → Node Usi
counts_idle j = with_usi λ d. record d { idle_frames = j }

counts_idle-IsAside : IsAside counts_idle
counts_idle-IsAside = record {
  wait = λ j n. n.tx.needed_idle;
  tx_kept = λ j n. refl;
  state_kept = λ j n. refl;
}

-- Calls that find these bytes, each after one that finds none.
abbrev hears : List ℕ → List Call
hears [] = []
hears (x ∷ l) =
    record {
      shift = record { usidr = 0; usibr = 0; oif = false; count = 9 };
      line = true;
      late_line = true;
      pass = λ s. s;
    }
    ∷ record {
      shift = record { usidr = x; usibr = x; oif = true; count = 8 };
      line = false;
      late_line = false;
      pass = λ s. record s { count = 9 };
    }
    ∷ hears l

arrived-hears : (l : List ℕ) → arrived (hears l) ≡ l
arrived-hears [] = refl
arrived-hears (x ∷ l) = ap (λ r. x ∷ r) (arrived-hears l)

calls-feed_example :
    (calls
      (usi_config true)
      3
      asks_again
      television
      (hears (pat_start0 ∷ pat_start1 ∷ patterns (wire false (0x40 ∷ 0x9f ∷ []))))
      usi_listener).rx
    ≡ (let v = usi_driver (usi_config true) 3 in
        feed
          (usi_config true)
          v
          television
          (wire false (0x40 ∷ 0x9f ∷ []))
          (receive_start (usi_config true) v usi_listener)).rx
calls-feed_example =
    calls-feed (usi_config true) 3 asks_again television asks_again-IsHook
      (wire false (0x40 ∷ 0x9f ∷ []))
      (hears (pat_start0 ∷ pat_start1 ∷ patterns (wire false (0x40 ∷ 0x9f ∷ [])))) usi_listener
      (omega arith) refl refl refl (arrived-hears _)

abbrev given : List ℕ
given = pat_start0 ∷ pat_start1 ∷ patterns (message_bits (0x40 ∷ 0x9f ∷ []))

writes-queued_example :
    (let p = writes (usi_config true) counts_idle 22 usi_sender in
      (p.1 ≡ given) × (p.0.drv.usi_xmit_state ≡ usi_xmit_idle) × (p.0.tx.state ≡ wait_for_ack))
writes-queued_example =
    writes-queued (usi_config true) counts_idle counts_idle-IsAside usi_sender (omega arith)
      (omega arith) question-IsBytes refl (inl refl) (omega arith)

abbrev sent : List ℕ
sent = (writes (usi_config true) counts_idle 22 usi_sender).1

writes-calls_example :
    IsHanded 0 0
      (0x40 ∷ 0x9f ∷ [])
      free_rx
      (calls
        (usi_config true)
        3
        asks_again
        television
        (hears (on_line false sent ++ patterns (true ∷ [])))
        usi_listener).rx
writes-calls_example =
    writes-calls (usi_config true) (usi_config true) 3 asks_again television counts_idle
      asks_again-IsHook counts_idle-IsAside usi_sender usi_listener (true ∷ [])
      (hears (on_line false sent ++ patterns (true ∷ []))) (omega arith) (omega arith) refl
      question-IsBytes refl (inl refl) (omega arith) refl refl refl refl refl (arrived-hears _)

-- The bytes themselves.
sent_runs : sent ≡ given
unfolding program
sent_runs = refl

abort_releases_example :
    (let (t', d') = abort (usi_config true) 3 (start (usi_config true) question) at_rest in
      (t' ≡ finish_abort (usi_config true) (start (usi_config true) question))
      × (d'.usi_xmit_state ≡ usi_xmit_idle)
      × (d'.shift.usidr ≡ 0xb5 % 2 ^ 5)
      × (d'.tccr0b ≡ 3))
abort_releases_example =
    abort_releases (usi_config true) 3 (start (usi_config true) question) at_rest (omega arith)
      (omega arith)

-- Of an ack of five ticks one is over, three fit the register, and one goes to the buffer.
do_ack_ticks_example :
    (let low = low_ticks 5 0xb5 in
      do_ack 5 half ≡ (if leb 5 low then half else acked (5 - low) 3 half))
do_ack_ticks_example = do_ack_ticks 5 half (omega arith) (omega arith) (omega arith)

calls-IsSynced_example : IsSynced (
    view (
      calls
        (usi_config true)
        3
        asks_again
        television
        (hears (0x7f ∷ 0xf8 ∷ 0xc0 ∷ []))
        usi_listener))
calls-IsSynced_example =
    calls-IsSynced (usi_config true) 3 asks_again television asks_again-IsHook
      (hears (0x7f ∷ 0xf8 ∷ 0xc0 ∷ [])) usi_listener
      (record { tick_in = omega arith; agrees = refl })
