-- ===== src/Receive/Echo.antt =====
-- The receive side checks its own host's transmission: arbitration.
use avr_cec.Common.{◌<◌, ◌≡◌, arith, not, ltb, if◌then◌else◌, Bool-cases}
use avr_cec.Spec.{Err, arb_lost}
use avr_cec.Transmit.{Config, code, count_error, finish_abort}
use avr_cec.Transmit.Echo.{echo_of, after_two, expected-after_two}
use avr_cec.Receive.Engine.{Driver, Node, check_tx_bit, on_error}

module _ {D : Type 0} (c : Config) (v : Driver c D) where
  -- On a busy transmit side an error is counted and the transmission aborted; on another one it does
  -- nothing.
  pub on_error-tx :
      (e : Err) (n : Node D)
      → (on_error c v e n).tx
        ≡ (if ltb 3 (code n.tx.state) then finish_abort c (count_error c e n.tx) else n.tx)
  unfolding on_error
  on_error-tx e n = ground (arith, v.abort_finishes (count_error c e n.tx) n.drv)

  -- From any state whose memory of bits is a byte, after any two bits that the transmit side has
  -- handed to the driver, hearing the bit that is then
  -- on the line changes nothing, and hearing its opposite aborts the transmission as lost, if one is
  -- under way.
  pub check_tx_bit-echo :
      (n : Node D)
      → n.tx.last_bit < 256
      → (let n' = record n { tx = after_two c n.tx } in
          (check_tx_bit c v (echo_of c n.tx) n' ≡ n')
          × ((check_tx_bit c v (not (echo_of c n.tx)) n').tx ≡ (
              if ltb 3 (code n'.tx.state)
              then finish_abort c (count_error c arb_lost n'.tx)
              else n'.tx)))
  unfolding check_tx_bit
  check_tx_bit-echo n h = (
    ground (arith, expected-after_two c n.tx h),
    ground (
      arith,
      expected-after_two c n.tx h,
      Bool-cases (echo_of c n.tx),
      on_error-tx arb_lost (record n { tx = after_two c n.tx }),
    ),
  )
