-- ===== src/Cec/Usi/Runs.antt =====
-- The entry points of the build with the USI driver, called one after the other.
use avr_cec.Common.{ℕ, ◌<◌, ◌≡◌, refl, ap, ◌∙◌, arith, List, [], ◌∷◌, subst, sym}
use avr_cec.Transmit.{Config}
use avr_cec.Receive.State.{Rx, no_flags, any_flag}
use avr_cec.Receive.Engine.{Node}
use avr_cec.Addr.DevType.{Host, addr_init, addr_match, addr_periodic}
use avr_cec.Usi.{Usi, RecvState, usi_recv_idle, usi_recv_start, usi_recv_bits}
use avr_cec.Usi.View.{View, view}
use avr_cec.Usi.Calls.{Call, IsHook, calls}
use avr_cec.Usi.Synced.{Expects, IsSynced, calls-IsSynced}
use avr_cec.Usi.Periodic.{receive_init}
use avr_cec.Cec.{System, host}
use avr_cec.Cec.Usi.{usi_init, usi_periodic}

-- Of the receive side only the flags count.
Expects-flags :
    (t : RecvState) (v : View) (r : Rx)
    → v.rx.flags ≡ r.flags
    → Expects t v
    → Expects t (record v { rx = r })
Expects-flags usi_recv_idle v r e x = sym e ∙ x
Expects-flags usi_recv_start v r e x = x
Expects-flags usi_recv_bits v r e x = (ap any_flag (sym e) ∙ x.0, x.1, x.2)

same_flags :
    (v : View) (r : Rx) → v.rx.flags ≡ r.flags → IsSynced v → IsSynced (record v { rx = r })
same_flags v r e s = record { tick_in = s.tick_in; agrees = Expects-flags v.state v r e s.agrees }

addr_periodic-flags : (addrs : List ℕ) (h : Host) → h.rx.flags ≡ (addr_periodic addrs h).rx.flags
unfolding addr_periodic
addr_periodic-flags addrs h = ground arith

module _ (c : Config) (tcnt0 : ℕ) (hook : Node Usi → Node Usi) (addrs : List ℕ) where
  -- `cec_periodic` in the main loop, once for each of the calls.
  pub runs : List Call → System Usi → System Usi
  runs [] s = s
  runs (e ∷ l) s = runs l (usi_periodic c tcnt0 hook addrs e s)

  module _ (is_hook : IsHook hook) where
    usi_periodic-IsSynced :
        (e : Call) (s : System Usi)
        → IsSynced (view s.node)
        → IsSynced (view (usi_periodic c tcnt0 hook addrs e s).node)
    unfolding usi_periodic calls
    usi_periodic-IsSynced e s i =
        let own = addr_match (host s) in
        let n = calls c tcnt0 hook own (e ∷ []) s.node in
        same_flags (view n) _ (addr_periodic-flags addrs (host (record s { node = n })))
          (calls-IsSynced c tcnt0 hook own is_hook (e ∷ []) s.node i)

    runs-IsSynced :
        (l : List Call) (s : System Usi) → IsSynced (view s.node) → IsSynced (view (runs l s).node)
    unfolding runs
    runs-IsSynced [] s i = i
    runs-IsSynced (e ∷ l) s i = runs-IsSynced l _ (usi_periodic-IsSynced e s i)

    init-IsSynced :
        (s : System Usi) → IsSynced (view s.node) → IsSynced (view (usi_init c tcnt0 s).node)
    unfolding usi_init receive_init addr_init
    init-IsSynced s i = same_flags (view s.node) _ refl i

    -- With the variables as they are at power-up, when nothing is received, `cec_init` and then any
    -- number of calls of `cec_periodic`, whatever arrives on the line and whatever the address module
    -- does with the message buffers meanwhile, leave the receive state of the USI driver, its limits
    -- for the next edge and the flags of the receive engine in agreement. The application's hook leaves
    -- the receive side and the registers alone.
    pub runs-init :
        (l : List Call) (s : System Usi)
        → s.node.rx.flags ≡ no_flags
        → s.node.drv.usi_recv_state ≡ usi_recv_idle
        → s.node.drv.recv_frame_tick < 256
        → IsSynced (view (runs l (usi_init c tcnt0 s)).node)
    runs-init l s none idle tick = runs-IsSynced l _ (
        init-IsSynced s (record {
          tick_in = tick;
          agrees = subst (λ t. Expects t (view s.node)) (sym idle) none;
        }))
