-- ===== src/Tests/Usi/Entry.antt =====
-- The theorems on the entry points of the build with the USI driver.
use avr_cec.Common.{bit_or, ◌≢◌, ◌≡◌, refl, arith, true, [], ◌∷◌}
use avr_cec.Transmit.{idle, bit_eom, get_bit}
use avr_cec.Receive.State.{start_flags, header, any_flag}
use avr_cec.Usi.{
  usi_recv_bits, usi_xmit_bits, usi_xmit_start, Usi, with_usi, pat_start1, usi_config,
}
use avr_cec.Usi.View.{view}
use avr_cec.Cec.{System}
use avr_cec.Cec.Usi.{usi_halt, usi_init, usi_periodic}
use avr_cec.Cec.Usi.Runs.{runs, runs-init}
use avr_cec.Cec.Usi.Halt.{usi_halt_leaves_sample}
use avr_cec.Cec.Usi.Queued.{written, usi_halt_keeps_sending}
use avr_cec.Cec.Static.{StaticSystem, usi_static_halt, usi_static_periodic}
use avr_cec.Addr.Static.{fixed}
use avr_cec.Receive.Engine.{Node}
use avr_cec.Usi.Calls.{Call}
use avr_cec.Common.{ℕ}
use avr_cec.Usi.Wave.{pattern_of}
use avr_cec.Usi.Synced.{IsSynced}
use avr_cec.Tests.{question, free_rx}
use avr_cec.Tests.Usi.{at_rest, usi_listener, asks_again, asks_again-IsHook, hears}

-- Between the two bytes of a start bit, and two ticks into the bit of a message.
abbrev starting : StaticSystem Usi
starting =
    let d = at_rest in
    record {
      node = record usi_listener {
        tx = record question { buf_bit = 128; state = bit_eom };
        drv = record d { usi_xmit_state = usi_xmit_start };
      };
      addresses = fixed 4;
    }

abbrev sampling : Node Usi
sampling =
    let d = at_rest in
    record usi_listener {
      rx = record free_rx { byte = 9; pos = 1; flags = start_flags };
      drv = record d { usi_recv_state = usi_recv_bits; recv_frame_tick = 2 };
    }

-- A byte has arrived in the buffer register.
abbrev finds : ℕ → Call
finds x = record {
  shift = record { usibr = x; usidr = 0; count = 8; oif = true };
  line = true;
  late_line = true;
  pass = λ s. s;
}

usi_halt_leaves_sample_example :
    (let s =
        usi_static_halt (usi_config true) 3 (record { node = sampling; addresses = fixed 4 }) in
      let d = usi_halt (usi_config true) 3 (record { node = sampling; logical = 4; idx = 1 }) in
      (header s.node.rx ≡ 0)
      × (header (usi_static_periodic (usi_config true) 3 asks_again (finds 0) s).node.rx
          ≡ bit_or 1 128)
      × (bit_or 1 128 ≢ 0)
      × (header (usi_periodic (usi_config true) 3 asks_again (4 ∷ 8 ∷ []) (finds 0) d).node.rx ≡ 0))
usi_halt_leaves_sample_example =
    usi_halt_leaves_sample (usi_config true) 3 asks_again asks_again-IsHook (4 ∷ 8 ∷ []) (finds 0)
      sampling (fixed 4) 4 1 refl refl (omega arith) (omega arith) refl refl

-- A hook that counts frames.
abbrev counts : Node Usi → Node Usi
counts = with_usi λ d. record d { idle_frames = 7 }

usi_halt_keeps_sending_example :
    (let h = usi_static_halt (usi_config true) 3 starting in
      let n = usi_static_periodic (usi_config true) 3 counts (finds 0) h in
      let m = usi_static_periodic (usi_config true) 3 counts (finds 0x7f) n in
      (h.node.tx.state ≡ idle)
      × (written (usi_config true) 3 counts (finds 0) h ≡ pat_start1)
      × (n.node.tx.state ≡ idle)
      × (written (usi_config true) 3 counts (finds 0x7f) n
          ≡ pattern_of (get_bit (usi_config true) starting.node.tx).1)
      × (m.node.tx.state ≡ idle)
      × (m.node.tx.buf_bit ≡ 64)
      × (m.node.drv.usi_xmit_state ≡ usi_xmit_bits))
unfolding any_flag
usi_halt_keeps_sending_example =
    usi_halt_keeps_sending (usi_config true) 3 counts (λ n. refl) (finds 0) (finds 0x7f) starting
      refl refl (omega arith) refl refl

-- Power-up, a start bit and a one, with a playback device's table of addresses.
abbrev powered : System Usi
powered = record { node = usi_listener; logical = 0; idx = 0 }

runs-init_example : IsSynced (
    view
      (runs
        (usi_config true)
        3
        asks_again
        (4 ∷ 8 ∷ 11 ∷ [])
        (hears (0x7f ∷ 0xf8 ∷ 0xc0 ∷ []))
        (usi_init (usi_config true) 3 powered)).node)
runs-init_example =
    runs-init (usi_config true) 3 asks_again (4 ∷ 8 ∷ 11 ∷ []) asks_again-IsHook
      (hears (0x7f ∷ 0xf8 ∷ 0xc0 ∷ [])) powered refl refl (omega arith)
