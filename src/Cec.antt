-- ===== src/Cec.antt =====
-- cec.c: the entry points, for the builds with addresses by device type: with the raw drivers here,
-- with the USI driver in Cec/Usi. Those with other addresses are in Cec/Static.
pub mod Halt
pub mod Timer
pub mod Heard
pub mod Static
pub mod Usi
use avr_cec.Common.{ℕ, Bool, true, false, List, set}
use avr_cec.Spec.{halt}
use avr_cec.Macros.Time.{Clock}
use avr_cec.Transmit.{Config, Tx, State, idle, init}
use avr_cec.Receive.State.{Rx}
use avr_cec.Receive.Engine.{Node, Driver, receive_error, receive_halt, transmit_halt}
use avr_cec.Addr.DevType.{Host, addr_init, addr_match, addr_periodic}
use avr_cec.Raw.{Raw, PwmTicks, raw_driver}
use avr_cec.Raw.Receive.{with_sampler, receive_periodic}
use avr_cec.Raw.Pwm.{transmit_init_hw, transmit_periodic}

-- The engines, the drivers and the address module.
pub record System (D : Type 0) : Type 0 where
  pub node : Node D
  pub logical : ℕ
  pub idx : ℕ

-- The variables that the address module sees, and what it leaves in them.
abbrev pub host : {D : Type 0} → System D → Host
host s = record { logical = s.logical; idx = s.idx; rx = s.node.rx; tx = s.node.tx }

abbrev pub with_host : {D : Type 0} → Host → System D → System D
with_host h s =
    let n = s.node in
    record { node = record n { rx = h.rx; tx = h.tx }; logical = h.logical; idx = h.idx }

-- `cec_halt` up to the address module; the functions are the driver's `cec_receive_halt_hw` and
-- `cec_transmit_halt_hw`.
abbrev pub halt_node : {D : Type 0} (c : Config) → Driver c D → (D → D) → (D → D) → Node D → Node D
halt_node c v receive_halt_hw transmit_halt_hw n =
    transmit_halt transmit_halt_hw (receive_halt receive_halt_hw (receive_error c v halt n))

-- What the hardware shows in one call of `cec_periodic`: the line when the receiver reads it and
-- when the transmitter does, and the timer's overflow flag.
pub record Inputs : Type 0 where
  pub rx_line : Bool
  pub tx_line : Bool
  pub overflow : Bool

module _ (k : Clock) (c : Config) where
  -- The raw drivers have nothing to halt.
  unfoldable pub halt_engines : Node Raw → Node Raw
  halt_engines n = halt_node c (raw_driver k c) (λ d. d) (λ d. d) n

  -- `cec_halt`.
  unfoldable pub cec_halt : System Raw → System Raw
  cec_halt s =
      let n = halt_engines s.node in
      let s' = record s { node = n } in with_host (addr_init (host s')) s'

  -- `cec_init` up to the address module: the output pin floats, the transmit side waits, the timer's
  -- output is forced low.
  unfoldable pub init_engines : Node Raw → Node Raw
  init_engines m =
      let n = with_sampler (λ d. record d { driven = false }) m in
      transmit_init_hw (record n { tx = init c n.tx })

  -- `cec_init`.
  unfoldable pub cec_init : System Raw → System Raw
  unfolding init_engines
  cec_init s =
      let s' = record s { node = init_engines s.node } in with_host (addr_init (host s')) s'

  -- `cec_periodic` up to the address module, with `cec_addr_match`.
  unfoldable pub periodic_engines : PwmTicks → Inputs → ℕ → (ℕ → Bool) → Node Raw → Node Raw
  periodic_engines ticks i delta own m =
      let n = receive_periodic k c own i.rx_line delta m in
      transmit_periodic k c ticks i.overflow i.tx_line delta n

  -- `cec_periodic`.
  unfoldable pub cec_periodic : PwmTicks → List ℕ → Inputs → ℕ → System Raw → System Raw
  unfolding periodic_engines
  cec_periodic ticks addrs i delta s =
      let n = periodic_engines ticks i delta (addr_match (host s)) s.node in
      let s' = record s { node = n } in with_host (addr_periodic addrs (host s')) s'
