-- ===== src/Tests/Pins.antt =====
-- The pin macros with the output on pin 1 and the input on pin 3 of a port.
use avr_cec.Common.{ℕ, ◌^◌, ◌<◌, ◌≡◌, refl, arith, true, false, List, [], ◌∷◌}
use avr_cec.Pins.{
  Registers, receive_drive_low, receive_float, receive_driven, transmit_drive_low, transmit_float,
  pin_config, pin_unconfig, input_state, output_state,
}
use avr_cec.Pins.Calls.{
  PinCall, rx_low, rx_float, tx_low, tx_float, pin_calls, drives, drives-levels, pin_unconfig_lem,
}

program : Unit {0}
unfolding receive_drive_low receive_float receive_driven transmit_drive_low transmit_float
    pin_config pin_unconfig input_state output_state
program = tt

abbrev bv : ℕ → ℕ
bv i = 2 ^ i

abbrev masks : (i : ℕ) → i < 8 → bv i ≡ 2 ^ i
masks i h = refl

-- Other pins are outputs, and driven.
abbrev before : Registers
before = record { ddr = 0x51; port = 0x41 }

abbrev acks : List PinCall
acks = tx_float ∷ rx_low ∷ rx_float ∷ tx_low ∷ []

-- After the acknowledgement, the line is pulled by the transmit side.
acks_run :
    pin_calls bv 1 3 false acks (pin_config bv 1 3 false before)
    ≡ record { ddr = 0x53; port = 0x4b }
unfolding program
acks_run = refl

line_runs : (input_state bv 1 3 0x41 ≡ true) × (output_state bv 1 3 0x43 ≡ false)
unfolding program
line_runs = (refl, refl)

drives-levels_example :
    drives bv 1 3 false (pin_calls bv 1 3 false acks (pin_config bv 1 3 false before))
    ≡ (false, true)
drives-levels_example =
    drives-levels bv masks 1 3 (omega arith) (omega arith) acks before (omega arith, omega arith)

pin_unconfig_lem_example :
    pin_unconfig bv 1 3 false (pin_calls bv 1 3 false acks (pin_config bv 1 3 false before))
    ≡ before
pin_unconfig_lem_example =
    pin_unconfig_lem bv masks 1 3 (omega arith) (omega arith) acks before (omega arith, omega arith)
      (refl, refl, refl)
