-- ===== src/Pins/Calls.antt =====
-- The pin macros of cec.h, called one after the other between cec_pin_config and cec_pin_unconfig.
use avr_cec.Common.{
  ℕ, ◌^◌, ◌<◌, ◌≡◌, refl, ap, ap₂, ◌∙◌, subst, Bool, true, false, not, bit_and, truth, List, [],
  ◌∷◌,
}
use avr_cec.Pins.{
  Registers, set_mask, clear_mask, receive_drive_low, receive_float, receive_driven,
  transmit_drive_low, transmit_float, pin_config, pin_unconfig,
}
use avr_cec.Pins.Masks.{
  clear_mask-set_mask, clear_mask-clear_mask, clear_mask_comm, set_mask-bit, clear_mask-bit,
  clear_mask-off, set_mask-byte, clear_mask-byte,
}

-- Calls of cec_receive_drive_low, cec_receive_float, cec_transmit_drive_low and cec_transmit_float.
pub data PinCall : Type 0 where
  rx_low rx_float tx_low tx_float : PinCall

-- Whether the receive side drives the line, and whether the transmit side does.
abbrev pub level : PinCall → Bool × Bool → Bool × Bool
level rx_low (rx, tx) = (true, tx)
level rx_float (rx, tx) = (false, tx)
level tx_low (rx, tx) = (rx, true)
level tx_float (rx, tx) = (rx, false)

abbrev pub levels : List PinCall → Bool × Bool → Bool × Bool
levels [] p = p
levels (c ∷ l) p = levels l (level c p)

module _ (bv : ℕ → ℕ) (out inp : ℕ) (monitor : Bool) where
  abbrev pub pin_call : PinCall → Registers → Registers
  pin_call rx_low r = receive_drive_low bv out inp monitor r
  pin_call rx_float r = receive_float bv out inp monitor r
  pin_call tx_low r = transmit_drive_low bv out inp monitor r
  pin_call tx_float r = transmit_float bv out inp monitor r

  abbrev pub pin_calls : List PinCall → Registers → Registers
  pin_calls [] r = r
  pin_calls (c ∷ l) r = pin_calls l (pin_call c r)

  -- What the registers show of the two sides.
  abbrev pub drives : Registers → Bool × Bool
  drives r = (receive_driven bv out inp monitor r, truth (bit_and r.port (bv out)))

  -- Neither of the pins is configured.
  abbrev pub IsFree : Registers → Type 0
  IsFree r =
      (truth (bit_and r.ddr (bv out)) ≡ false)
      × (truth (bit_and r.port (bv out)) ≡ false)
      × (truth (bit_and r.port (bv inp)) ≡ false)

abbrev pub IsRegisters : Registers → Type 0
IsRegisters r = (r.ddr < 256) × (r.port < 256)

module _ (bv : ℕ → ℕ) (masks : (i : ℕ) → i < 8 → bv i ≡ 2 ^ i) (out inp : ℕ) (out_pin : out < 8)
    (in_pin : inp < 8) where
  pin_call-IsRegisters :
      (c : PinCall) (r : Registers) → IsRegisters r → IsRegisters (pin_call bv out inp false c r)
  unfolding receive_drive_low receive_float transmit_drive_low transmit_float
  pin_call-IsRegisters rx_low r (d, p) =
      rw (masks out out_pin) (clear_mask-byte r.ddr out d out_pin, p)
  pin_call-IsRegisters rx_float r (d, p) =
      rw (masks out out_pin) (set_mask-byte r.ddr out d out_pin, p)
  pin_call-IsRegisters tx_low r (d, p) =
      rw (masks out out_pin) (d, set_mask-byte r.port out p out_pin)
  pin_call-IsRegisters tx_float r (d, p) =
      rw (masks out out_pin) (d, clear_mask-byte r.port out p out_pin)

  drives-pin_call :
      (c : PinCall) (r : Registers)
      → IsRegisters r
      → drives bv out inp false (pin_call bv out inp false c r)
        ≡ level c (drives bv out inp false r)
  unfolding receive_drive_low receive_float transmit_drive_low transmit_float receive_driven
  drives-pin_call rx_low r (d, p) =
      rw (masks out out_pin)
        (ap (λ b. (not b, truth (bit_and r.port (2 ^ out)))) (clear_mask-bit r.ddr out d out_pin))
  drives-pin_call rx_float r (d, p) =
      rw (masks out out_pin)
        (ap (λ b. (not b, truth (bit_and r.port (2 ^ out)))) (set_mask-bit r.ddr out d out_pin))
  drives-pin_call tx_low r (d, p) =
      rw (masks out out_pin)
        (ap (λ b. (not (truth (bit_and r.ddr (2 ^ out))), b)) (set_mask-bit r.port out p out_pin))
  drives-pin_call tx_float r (d, p) =
      rw (masks out out_pin)
        (ap (λ b. (not (truth (bit_and r.ddr (2 ^ out))), b)) (clear_mask-bit r.port out p out_pin))

  pin_config-IsRegisters :
      (r : Registers) → IsRegisters r → IsRegisters (pin_config bv out inp false r)
  unfolding pin_config
  pin_config-IsRegisters r (d, p) =
      rw (masks out out_pin, masks inp in_pin)
        (
          set_mask-byte r.ddr out d out_pin,
          set_mask-byte _ out (set_mask-byte r.port inp p in_pin) out_pin,
        )

  drives-pin_config :
      (r : Registers)
      → IsRegisters r
      → drives bv out inp false (pin_config bv out inp false r) ≡ (false, true)
  unfolding pin_config receive_driven
  drives-pin_config r (d, p) =
      rw (masks out out_pin, masks inp in_pin)
        (ap₂ (λ a b. (not a, b)) (set_mask-bit r.ddr out d out_pin)
          (set_mask-bit _ out (set_mask-byte r.port inp p in_pin) out_pin))

  drives-pin_calls :
      (l : List PinCall) (r : Registers)
      → IsRegisters r
      → drives bv out inp false (pin_calls bv out inp false l r)
        ≡ levels l (drives bv out inp false r)
  drives-pin_calls [] r x = refl
  drives-pin_calls (c ∷ l) r x =
      drives-pin_calls l (pin_call bv out inp false c r) (pin_call-IsRegisters c r x)
      ∙ ap (levels l) (drives-pin_call c r x)

  -- Behind `cec_pin_config` and any calls of the drivers' pin macros, `cec_receive_driven` is true exactly
  -- if the receive side drove the line low last and did not let it go again, and the output bit of
  -- CEC_PORT is set exactly if the transmit side did: each side has its own register, and
  -- cec_pin_config begins with the receive side off and the output bit set. For registers of 8 bits and
  -- pins below 8, where `_BV` is the power of two.
  pub drives-levels :
      (l : List PinCall) (r : Registers)
      → IsRegisters r
      → drives bv out inp false (pin_calls bv out inp false l (pin_config bv out inp false r))
        ≡ levels l (false, true)
  drives-levels l r x =
      drives-pin_calls l (pin_config bv out inp false r) (pin_config-IsRegisters r x)
      ∙ ap (levels l) (drives-pin_config r x)

  abbrev registers : ℕ → ℕ → Registers
  registers d p = record { ddr = d; port = p }

  pin_unconfig-pin_call :
      (c : PinCall) (r : Registers)
      → IsRegisters r
      → pin_unconfig bv out inp false (pin_call bv out inp false c r)
        ≡ pin_unconfig bv out inp false r
  unfolding pin_unconfig receive_drive_low receive_float transmit_drive_low transmit_float
  pin_unconfig-pin_call rx_low r (d, p) = rw (masks out out_pin) (
      ap (λ x. registers x (clear_mask (bv inp) (clear_mask (2 ^ out) r.port)))
        (clear_mask-clear_mask r.ddr out d out_pin))
  pin_unconfig-pin_call rx_float r (d, p) = rw (masks out out_pin) (
      ap (λ x. registers x (clear_mask (bv inp) (clear_mask (2 ^ out) r.port)))
        (clear_mask-set_mask r.ddr out d out_pin))
  pin_unconfig-pin_call tx_low r (d, p) = rw (masks out out_pin) (
      ap (registers (clear_mask (2 ^ out) r.ddr))
        (ap (clear_mask (bv inp)) (clear_mask-set_mask r.port out p out_pin)))
  pin_unconfig-pin_call tx_float r (d, p) = rw (masks out out_pin) (
      ap (registers (clear_mask (2 ^ out) r.ddr))
        (ap (clear_mask (bv inp)) (clear_mask-clear_mask r.port out p out_pin)))

  pin_unconfig-pin_calls :
      (l : List PinCall) (r : Registers)
      → IsRegisters r
      → pin_unconfig bv out inp false (pin_calls bv out inp false l r)
        ≡ pin_unconfig bv out inp false r
  pin_unconfig-pin_calls [] r x = refl
  pin_unconfig-pin_calls (c ∷ l) r x =
      pin_unconfig-pin_calls l (pin_call bv out inp false c r) (pin_call-IsRegisters c r x)
      ∙ pin_unconfig-pin_call c r x

  port_back :
      (x : ℕ)
      → x < 256
      → truth (bit_and x (2 ^ out)) ≡ false
      → truth (bit_and x (2 ^ inp)) ≡ false
      → clear_mask (2 ^ inp) (clear_mask (2 ^ out) (set_mask (2 ^ out) (set_mask (2 ^ inp) x))) ≡ x
  port_back x h o i =
      let y = set_mask (2 ^ inp) x in
      let hy : y < 256 = set_mask-byte x inp h in_pin in
      ap (clear_mask (2 ^ inp)) (clear_mask-set_mask y out hy out_pin)
      ∙ clear_mask_comm y inp out hy in_pin out_pin
      ∙ ap (clear_mask (2 ^ out))
          (clear_mask-set_mask x inp h in_pin ∙ clear_mask-off x inp h in_pin i)
      ∙ clear_mask-off x out h out_pin o

  pin_unconfig-pin_config :
      (r : Registers)
      → IsRegisters r
      → IsFree bv out inp false r
      → pin_unconfig bv out inp false (pin_config bv out inp false r) ≡ r
  unfolding pin_unconfig pin_config
  pin_unconfig-pin_config r (d, p) (f, o, i) =
      rw (masks out out_pin, masks inp in_pin)
        (ap₂ registers
          (clear_mask-set_mask r.ddr out d out_pin
            ∙ clear_mask-off r.ddr out d out_pin
                (subst (λ m. truth (bit_and r.ddr m) ≡ false) (masks out out_pin) f))
          (port_back r.port p (subst (λ m. truth (bit_and r.port m) ≡ false) (masks out out_pin) o)
            (subst (λ m. truth (bit_and r.port m) ≡ false) (masks inp in_pin) i)))

  -- `cec_pin_unconfig` undoes `cec_pin_config`, whatever calls of the drivers' pin macros come between
  -- them: with the bits of the two pins clear before, all registers are as they were, the bits of
  -- other pins at all times among them. For registers of 8 bits and pins below 8, where `_BV` is the
  -- power of two.
  pub pin_unconfig_lem :
      (l : List PinCall) (r : Registers)
      → IsRegisters r
      → IsFree bv out inp false r
      → pin_unconfig bv out inp false (pin_calls bv out inp false l (pin_config bv out inp false r))
        ≡ r
  pin_unconfig_lem l r x f =
      pin_unconfig-pin_calls l (pin_config bv out inp false r) (pin_config-IsRegisters r x)
      ∙ pin_unconfig-pin_config r x f
