-- ===== src/Receive/Engine.antt =====
-- The calls of cec_receive.c, and the two of cec_transmit.c that reach the hardware driver. The
-- driver is a parameter: what `cec_receive_nack_frame` and `cec_transmit_abort` do to its registers.
use avr_cec.Common.{set, ℕ, ◌≡◌, Bool, not, if◌then◌else◌, ltb, truth, ◌==◌, to_ℕ}
use avr_cec.Spec.{Err, arb_lost, nack, new_period_wait}
use avr_cec.Transmit.{
  Config, Tx, again, idle, wait_for_ack, code, is, count_error, finish_abort, expected_bit,
}
use avr_cec.Receive.State.{Rx, any_flag, no_flags, start_flags, data_bit, eom_bit, ack_bit}

-- What a driver implements, over its registers and variables `D`. Every driver's abort ends its own
-- transmission and calls `cec_transmit_finish_abort`, and changes no other variable of the engine.
pub record Driver (c : Config) (D : Type 0) : Type 0 where
  pub nack_frame : D → D
  pub abort : Tx → D → Tx × D
  pub abort_finishes : (t : Tx) (d : D) → (abort t d).0 ≡ finish_abort c t

-- The program's state: both engines and the driver.
pub record Node (D : Type 0) : Type 0 where
  pub rx : Rx
  pub tx : Tx
  pub drv : D

module _ {D : Type 0} (c : Config) (v : Driver c D) where
  -- `cec_transmit_on_error`.
  unfoldable pub on_error : Err → Node D → Node D
  on_error e n =
      if ltb (code again) (code n.tx.state)
      then (let (t, d) = v.abort (count_error c e n.tx) n.drv in record n { tx = t; drv = d })
      else n

  -- `cec_check_tx_bit`.
  unfoldable pub check_tx_bit : Bool → Node D → Node D
  check_tx_bit bit n = if to_ℕ bit == expected_bit c n.tx then n else on_error arb_lost n

  -- `cec_transmit_receive_ack`.
  unfoldable pub receive_ack : Bool → Node D → Node D
  receive_ack acked n =
      if acked
      then (if is n.tx.state wait_for_ack
          then (let t = n.tx in record n { tx = record t { state = idle } })
          else n)
      else on_error nack n

  -- `cec_receive_error`.
  unfoldable pub receive_error : Err → Node D → Node D
  receive_error e n =
      if any_flag n.rx.flags
      then (let r = n.rx in
          let d = (if r.flags.bcast then v.nack_frame n.drv else n.drv) in
          on_error e (record n { rx = record r { flags = no_flags }; drv = d }))
      else n

  -- `cec_receive_start`: we count someone else as the present initiator.
  unfoldable pub receive_start : Node D → Node D
  receive_start n =
      let r = n.rx in
      let t = n.tx in
      record n {
        rx = record r { pos = 0; byte = 1; flags = start_flags };
        tx = record t { needed_idle = c.idle_wait new_period_wait };
      }

  -- `cec_receive_bit`: data and EOM bits are checked against the transmit side, ack bits reported
  -- to it, first; then the receive side advances.
  unfoldable pub receive_bit : (ℕ → Bool) → Bool → Node D → Node D
  receive_bit own bit n =
      if n.rx.flags.bits_eom
      then (let n' = check_tx_bit bit n in
          record n' { rx = (if truth n.rx.byte then data_bit own bit n.rx else eom_bit bit n.rx) })
      else (let acked = (if n.rx.flags.bcast then bit else not bit) in
          let n' = receive_ack acked n in record n' { rx = ack_bit acked n.rx })

-- `cec_receive_halt` and `cec_transmit_halt`, over the driver's own halt functions.
abbrev pub receive_halt : {D : Type 0} → (D → D) → Node D → Node D
receive_halt halt_hw n =
    let r = n.rx in record n { rx = record r { buf = set r.buf r.hdr 0 }; drv = halt_hw n.drv }

abbrev pub transmit_halt : {D : Type 0} → (D → D) → Node D → Node D
transmit_halt halt_hw n =
    let t = n.tx in record n { tx = record t { state = idle }; drv = halt_hw n.drv }
