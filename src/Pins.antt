-- ===== src/Pins.antt =====
-- The pin macros of cec.h, over the registers CEC_DDR and CEC_PORT; CEC_PBOUT and CEC_PBIN are the numbers
-- of the pins, and `bv` is _BV of avr-libc.
pub mod Masks
pub mod Calls
use avr_cec.Common.{
  ℕ, ◌-◌, bit_and, bit_or, Bool, true, false, not, if◌then◌else◌, truth, List, [], ◌∷◌,
}

pub record Registers : Type 0 where
  pub ddr : ℕ
  pub port : ℕ

-- `|=`, and `&= ~` on a register of 8 bits, with the value of `_BV`.
abbrev pub set_mask : ℕ → ℕ → ℕ
set_mask m x = bit_or x m

abbrev pub clear_mask : ℕ → ℕ → ℕ
clear_mask m x = bit_and x (255 - m)

-- `monitor` is CEC_MONITOR, which is 0 in the builds with a transmit side.
module _ (bv : ℕ → ℕ) (pbout pbin : ℕ) (monitor : Bool) where
  unfoldable pub receive_drive_low : Registers → Registers
  receive_drive_low r = if monitor then r else record r { ddr = clear_mask (bv pbout) r.ddr }

  unfoldable pub receive_float : Registers → Registers
  receive_float r = if monitor then r else record r { ddr = set_mask (bv pbout) r.ddr }

  unfoldable pub receive_driven : Registers → Bool
  receive_driven r = if monitor then false else not (truth (bit_and r.ddr (bv pbout)))

  unfoldable pub transmit_drive_low : Registers → Registers
  transmit_drive_low r = if monitor then r else record r { port = set_mask (bv pbout) r.port }

  unfoldable pub transmit_float : Registers → Registers
  transmit_float r = if monitor then r else record r { port = clear_mask (bv pbout) r.port }

  -- The last three steps are those of the builds without CEC_MONITOR.
  unfoldable pub pin_config : Registers → Registers
  pin_config r = if monitor then record r { port = set_mask (bv pbin) r.port } else record {
    ddr = set_mask (bv pbout) r.ddr;
    port = set_mask (bv pbout) (set_mask (bv pbin) r.port);
  }

  unfoldable pub pin_unconfig : Registers → Registers
  pin_unconfig r =
      let port = clear_mask (bv pbin) (clear_mask (bv pbout) r.port) in
      if monitor
      then record r { port = port }
      else record { ddr = clear_mask (bv pbout) r.ddr; port = port }

-- `cec_output_state` and `cec_input_state`, by CEC_PIN.
module _ (bv : ℕ → ℕ) (pbout pbin : ℕ) where
  unfoldable pub output_state : ℕ → Bool
  output_state pins = not (truth (bit_and pins (bv pbout)))

  unfoldable pub input_state : ℕ → Bool
  input_state pins = not (truth (bit_and pins (bv pbin)))
