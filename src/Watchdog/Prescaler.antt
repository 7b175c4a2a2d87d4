-- ===== src/Watchdog/Prescaler.antt =====
-- The timer of the watchdog: the choice of its divisor, and what `cec_watchdog_init` writes.
use avr_cec.Common.{ℕ, suc, ◌+◌, ◌-◌, ◌*◌, ◌/◌, ◌^◌, ◌≤◌, ◌<◌, ◌≡◌, refl, ap, ◌∙◌, arith}
use avr_cec.Macros.Div.{div_round_up_asm}
use avr_cec.Macros.Log.{log2, log2_floor}
use avr_cec.Macros.LogAsm.{log2_asm, log2_asm-log2}
use native.Mathlib.Nat.{pow-suc}
use avr_cec.Watchdog.{
  Part, Machine, us_to_ticks, us_to_ticks_up, prescaler_ideal_1, prescaler_val_1, watchdog_init,
}

-- The divisor that TCNT1_PRESCALER_VAL stands for, the power of two whose exponent is one less.
abbrev pub divisor_1 : (ℕ → ℕ) → ℕ → ℕ
divisor_1 bv f = 2 ^ (prescaler_val_1 bv f - 1)

module _ (bv : ℕ → ℕ) (masks : (i : ℕ) → i ≤ 31 → bv i ≡ 2 ^ i) where
  ideal_bounds :
      (f : ℕ) → 0 < f → f < 2 ^ 32 → (0 < prescaler_ideal_1 f) × (prescaler_ideal_1 f < 2 ^ 14)
  unfolding prescaler_ideal_1 div_round_up_asm
  ideal_bounds f p h = (ground arith, ground arith)

  small : (f : ℕ) → f ≤ 11702857 → prescaler_ideal_1 f ≤ 32
  unfolding prescaler_ideal_1 div_round_up_asm
  small f h = ground arith

  divisor_lem :
      (i l : ℕ)
      → 0 < i
      → 2 ^ l ≤ i * 2 - 1
      → i * 2 - 1 < 2 ^ (l + 1)
      → (i ≤ 2 ^ l) × (2 ^ l < 2 * i)
  divisor_lem i l p a b =
      let turn : l + 1 ≡ suc l = omega arith in
      let e : 2 ^ (l + 1) ≡ 2 ^ l * 2 = ap (λ j. 2 ^ j) turn ∙ pow-suc 2 l in
      (omega (arith, b, e), omega (arith, a))

  divisor_1-ideal :
      (f : ℕ)
      → 0 < f
      → f < 2 ^ 32
      → (prescaler_ideal_1 f ≤ divisor_1 bv f) × (divisor_1 bv f < 2 * prescaler_ideal_1 f)
  unfolding prescaler_val_1
  divisor_1-ideal f p h =
      let i = prescaler_ideal_1 f in
      let (low, high) = ideal_bounds f p h in
      let n = i * 2 - 1 in
      let e =
        log2_asm-log2 bv (λ j. 2 ^ j) 15 n (omega arith) masks (λ j k. refl) (omega (arith, low))
          (omega (arith, high)) in
      let (a, b) =
        log2_floor (λ j. 2 ^ j) 15 n (omega arith) (λ j k. refl) (omega (arith, low))
          (omega (arith, high)) in
      let back : log2_asm bv n + 1 - 1 ≡ log2 (λ j. 2 ^ j) n = omega (arith, e) in
      rw back (divisor_lem i (log2 (λ j. 2 ^ j) n) low a b)

  -- At an F_CPU from 1 Hz up to 11702857 Hz, `cec_watchdog_init` sets the two compare registers to the
  -- rise time and to the latency in ticks of a clock divided by 64; but TCNT1_PRESCALER_VAL stands for
  -- the least power of two from the ideal divisor on, which is then below 64. And TCCR1 is not given
  -- this value, but the register of this number. `_BV` gives the powers of two up to 31.
  pub watchdog_init-divisor :
      (p : Part) (f : ℕ) (m : Machine)
      → 0 < f
      → f ≤ 11702857
      → (let m' = watchdog_init (record p { bv = bv }) f m in
          (m'.ocr1a ≡ div_round_up_asm (f * 250) (64 * 1000000))
          × (m'.ocr1b ≡ f * 700 / (64 * 1000000))
          × (prescaler_ideal_1 f ≤ divisor_1 bv f)
          × (divisor_1 bv f < 2 * prescaler_ideal_1 f)
          × (divisor_1 bv f < 64)
          × (m'.tccr1 ≡ m.lower (prescaler_val_1 bv f)))
  unfolding watchdog_init us_to_ticks us_to_ticks_up
  watchdog_init-divisor p f m q h =
      let (a, b) = divisor_1-ideal f q (omega arith) in
      (refl, refl, a, b, omega (arith, b, small f h), refl)
