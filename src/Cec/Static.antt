-- ===== src/Cec/Static.antt =====
-- cec.c, for the builds with the addresses of cec_addr_bitfield.c, cec_addr_fixed.c and cec_addr_none.c: the
-- entry points over those of the engines, which the drivers give.
use avr_cec.Common.{
  ℕ, suc, ◌+◌, ◌*◌, ◌≤◌, ◌<◌, ◌≡◌, refl, ap, ◌∙◌, sym, subst, Bool, true, false, leb, List, [], ◌∷◌,
  length, take, IsBytes,
}
use avr_cec.Macros.Time.{Clock}
use avr_cec.Transmit.{Config}
use avr_cec.Receive.State.{Rx, no_flags, any_flag, header}
use avr_cec.Receive.Engine.{Node}
use avr_cec.Receive.Message.{IsHanded}
use avr_cec.Addr.Static.{Addresses, static_match, static_init}
use avr_cec.Raw.{Raw, PwmTicks}
use avr_cec.Raw.View.{view, view_call, receive_periodic-view}
use avr_cec.Raw.Wave.{Poll, sample_from, sample_to}
use avr_cec.Raw.Pulses.{looks, SeesAll, AreClose, sum}
use avr_cec.Raw.Deliver.{start_pulse, AreWidths, on_line}
use avr_cec.Raw.Loop.{MainLoop, rounds, loads-rounds}
use avr_cec.Cec.{Inputs, init_engines, halt_engines, periodic_engines}
use avr_cec.Cec.Heard.{transmit_periodic-view}
use avr_cec.Cec.Usi.{init_node_usi, halt_node_usi, periodic_node_usi}
use avr_cec.Usi.{Usi}
use avr_cec.Usi.Calls.{Call}

pub record StaticSystem (D : Type 0) : Type 0 where
  pub node : Node D
  pub addresses : Addresses

-- `cec_init` and `cec_halt` end with `cec_addr_init`; `engines` is what comes before.
abbrev pub with_init : {D : Type 0} → (engines : Node D → Node D) → StaticSystem D → StaticSystem D
with_init engines s = record { node = engines s.node; addresses = static_init s.addresses }

abbrev pub with_match :
    {D : Type 0} → (engines : (ℕ → Bool) → Node D → Node D) → StaticSystem D → StaticSystem D
with_match engines s = record s { node = engines (static_match s.addresses) s.node }

module _ (c : Config) (tcnt0 : ℕ) where
  unfoldable pub usi_static_init : StaticSystem Usi → StaticSystem Usi
  usi_static_init = with_init (init_node_usi c tcnt0)

  unfoldable pub usi_static_halt : StaticSystem Usi → StaticSystem Usi
  usi_static_halt = with_init (halt_node_usi c tcnt0)

  unfoldable pub usi_static_periodic :
      (Node Usi → Node Usi) → Call → StaticSystem Usi → StaticSystem Usi
  usi_static_periodic hook e = with_match (periodic_node_usi c tcnt0 hook e)

module _ (k : Clock) (c : Config) where
  unfoldable pub raw_static_init : StaticSystem Raw → StaticSystem Raw
  raw_static_init = with_init (init_engines k c)

  unfoldable pub raw_static_halt : StaticSystem Raw → StaticSystem Raw
  raw_static_halt = with_init (halt_engines k c)

  unfoldable pub raw_static_periodic : PwmTicks → Inputs → ℕ → StaticSystem Raw → StaticSystem Raw
  raw_static_periodic ticks i delta = with_match (periodic_engines k c ticks i delta)

  module _ (ticks : PwmTicks) (overflow tx_line : ℕ → Bool) where
    abbrev inputs : ℕ → Bool → Inputs
    inputs j line = record { rx_line = line; tx_line = tx_line j; overflow = overflow j }

    -- `cec_periodic` in the main loop, as in Cec/Heard.
    pub static_periodics : List Poll → StaticSystem Raw → StaticSystem Raw
    static_periodics [] s = s
    static_periodics (q ∷ l) s =
        static_periodics l (raw_static_periodic ticks (inputs (length l) q.line) q.delta s)

    static_loop : (h : StaticSystem Raw) → MainLoop k (static_match h.addresses) (StaticSystem Raw)
    unfolding raw_static_periodic periodic_engines
    static_loop h = record {
      node = λ s. s.node;
      step = λ j q s. raw_static_periodic ticks (inputs j q.line) q.delta s;
      Ready = λ s. s.addresses ≡ h.addresses;
      seen = λ j q s e.
          transmit_periodic-view k c ticks (overflow j) (tx_line j) q.delta _
          ∙ receive_periodic-view k c (static_match s.addresses) q.line q.delta s.node
          ∙ ap (λ a. view_call k (static_match a) q.line q.delta (view s.node)) e;
      stays = λ j q s e. e;
    }

    static_periodics-rounds :
        (h : StaticSystem Raw) (l : List Poll) (s : StaticSystem Raw)
        → static_periodics l s ≡ rounds (static_loop h) l s
    unfolding static_periodics rounds static_loop
    static_periodics-rounds h [] s = refl
    static_periodics-rounds h (q ∷ l) s = static_periodics-rounds h l _

    module _ (g : ℕ) (window : sample_from k + g ≤ sample_to k) (time : ℕ → ℕ) (ks : Clock)
        (cs : Config) (counts : PwmTicks) (fine : AreWidths k g window time counts) (heard : ℕ → Rx)
        (wait : ℕ → ℕ) where
      pub loads-static_periodics :
          (s : Node Raw) (r : StaticSystem Raw) (rest : List Bool) (ds : List ℕ) (d x : ℕ)
          → 0 < s.tx.buf_end
          → s.tx.buf_end < length s.tx.buf
          → length s.tx.buf ≡ 16
          → IsBytes s.tx.buf
          → ((i : ℕ) → 0 < i → i < 10 + 10 * s.tx.buf_end → any_flag (heard i).flags ≡ true)
          → AreClose k g ds
          → x ≤ g
          → SeesAll k g
              (x + sum ds)
              (start_pulse k time counts ks cs heard wait s)
              (on_line k time counts ks cs heard wait s rest)
          → length r.node.rx.buf ≡ 17 + r.node.rx.hdr
          → header r.node.rx ≡ 0
          → r.node.rx.flags ≡ no_flags
          → r.node.drv.sampler.last_state ≡ true
          → r.node.drv.sampler.sample ≡ false
          → (let p = start_pulse k time counts ks cs heard wait s in
              IsHanded 0 0
                (take (suc s.tx.buf_end) s.tx.buf)
                r.node.rx
                (static_periodics
                  (record { delta = d; line = leb p.low x }
                    ∷ looks ds x p (on_line k time counts ks cs heard wait s rest))
                  r).node.rx)
      unfolding static_loop
      loads-static_periodics s r rest ds d x long fits size ht follows close soon sees len free none
            high idle =
          subst
            (λ (u : StaticSystem Raw).
              IsHanded 0 0 (take (suc s.tx.buf_end) s.tx.buf) r.node.rx u.node.rx)
            (sym (static_periodics-rounds r _ r))
            (loads-rounds (static_loop r) c g window time ks cs counts fine heard wait s r rest ds d
              x long fits size ht follows close soon sees refl len free none high idle)
