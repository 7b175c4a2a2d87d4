-- ===== src/Cec/Usi.antt =====
-- cec.c, for the build with the USI driver and addresses by device type.
pub mod Halt
pub mod Queued
pub mod Runs
use avr_cec.Common.{ℕ, Bool, false, List}
use avr_cec.Transmit.{Config, init}
use avr_cec.Receive.Engine.{Node}
use avr_cec.Addr.DevType.{addr_init, addr_match, addr_periodic}
use avr_cec.Usi.{Usi, usi_driver}
use avr_cec.Usi.Calls.{Call}
use avr_cec.Usi.Periodic.{
  with_shift, receive_periodic, transmit_halt_hw, receive_halt_hw, receive_init,
}
use avr_cec.Cec.{System, host, with_host, halt_node}

-- `cec_transmit_periodic` and `cec_transmit_init_hw` of this driver have no statements.
module _ (c : Config) (tcnt0 : ℕ) where
  -- `cec_halt` up to the address module.
  unfoldable pub halt_node_usi : Node Usi → Node Usi
  halt_node_usi n = halt_node c (usi_driver c tcnt0) receive_halt_hw transmit_halt_hw n

  unfoldable pub usi_halt : System Usi → System Usi
  usi_halt s =
      let s' = record s { node = halt_node_usi s.node } in with_host (addr_init (host s')) s'

  -- `cec_init` up to the address module: the output pin floats, the interface starts, the transmit side
  -- waits.
  unfoldable pub init_node_usi : Node Usi → Node Usi
  init_node_usi n =
      let d = n.drv in
      record n { tx = init c n.tx; drv = receive_init tcnt0 (record d { driven = false }) }

  -- `cec_init`.
  unfoldable pub usi_init : System Usi → System Usi
  unfolding init_node_usi
  usi_init s =
      let s' = record s { node = init_node_usi s.node } in with_host (addr_init (host s')) s'

  -- `cec_periodic` up to the address module, for what the hardware shows in a call.
  unfoldable pub periodic_node_usi : (Node Usi → Node Usi) → Call → (ℕ → Bool) → Node Usi → Node Usi
  periodic_node_usi hook e own n =
      receive_periodic c tcnt0 hook own e.line e.late_line e.pass (with_shift (λ s. e.shift) n)

  -- `cec_periodic`.
  unfoldable pub usi_periodic : (Node Usi → Node Usi) → List ℕ → Call → System Usi → System Usi
  unfolding periodic_node_usi
  usi_periodic hook addrs e s =
      let s' = record s { node = periodic_node_usi hook e (addr_match (host s)) s.node } in
      with_host (addr_periodic addrs (host s')) s'
