-- ===== src/Macros/Frequency.antt =====
-- time.h: the periods of frequencies in timer ticks, and in the longer ticks of LJIFFIES. The product with
-- F_CPU is computed in a type with `k.values` values, the divisor in one with `w` values.
use avr_cec.Common.{ℕ, ◌*◌, ◌/◌, ◌%◌, ◌≤◌, ◌<◌, ◌≡◌, ap, ◌∙◌, sym, arith, Option, none, some}
use avr_cec.Macros.Div.{div_round, div_round_up}
use avr_cec.Macros.Time.{Clock}
use avr_cec.Macros.Long.{seconds, parts, to_jiffies, to_ljiffies, lprescaler}
use native.Mathlib.Nat.{mul-le-mul_left, mod-eq_of_lt, div-div-eq-div-mul}

pub data FrequencyUnit : Type 0 where
  hertz kilohertz megahertz gigahertz : FrequencyUnit

-- The factor of F_CPU.
unfoldable pub times : FrequencyUnit → ℕ
times hertz = 1
times kilohertz = 1000
times megahertz = 1000000
times gigahertz = 1000000000

module _ (k : Clock) (w : ℕ) (u : FrequencyUnit) where
  -- The conversions by a prescaler, `TCNT0_PRESCALER` or `TCNT0_LPRESCALER`.
  abbrev pub period_in : ℕ → ℕ → ℕ
  period_in scale n = times u * k.f_cpu % k.values / (scale * n % w)

  -- `*HZ_TO_JIFFIES`; the parentheses of GHZ_TO_JIFFIES do not match.
  unfoldable pub period_jiffies : ℕ → Option ℕ
  period_jiffies n = elim u [
    | hertz ↦ some (period_in k.scale n)
    | kilohertz ↦ some (period_in k.scale n)
    | megahertz ↦ some (period_in k.scale n)
    | gigahertz ↦ none
  ]

  -- `*HZ_TO_JIFFIES_UP`, `*HZ_TO_JIFFIES_RND`.
  unfoldable pub period_jiffies_up : ℕ → ℕ
  period_jiffies_up n = div_round_up k.values (times u * k.f_cpu % k.values) (k.scale * n % w)

  unfoldable pub period_jiffies_rnd : ℕ → ℕ
  period_jiffies_rnd n = div_round k.values (times u * k.f_cpu % k.values) (k.scale * n % w)

  -- `*HZ_TO_LJIFFIES`, `*HZ_TO_LJIFFIES_UP`, `*HZ_TO_LJIFFIES_RND`, by LJIFFIES_SHIFT.
  unfoldable pub period_ljiffies : ℕ → ℕ → ℕ
  period_ljiffies shift n = period_in (lprescaler k w seconds shift) n

  unfoldable pub period_ljiffies_up : ℕ → ℕ → ℕ
  period_ljiffies_up shift n =
      div_round_up k.values (times u * k.f_cpu % k.values) (lprescaler k w seconds shift * n % w)

  unfoldable pub period_ljiffies_rnd : ℕ → ℕ → ℕ
  period_ljiffies_rnd shift n =
      div_round k.values (times u * k.f_cpu % k.values) (lprescaler k w seconds shift * n % w)

module _ (k : Clock) (w : ℕ) where
  -- `n` periods of a frequency are the ticks of so many seconds.
  quotient_by :
      (u : FrequencyUnit) (scale n : ℕ)
      → scale * n < w
      → scale < w
      → period_in k w u scale n ≡ times u * k.f_cpu % k.values / (scale * 1 % w) / n
  quotient_by u scale n h r =
      let x = times u * k.f_cpu % k.values in
      ap (λ d. x / d) (mod-eq_of_lt h)
      ∙ sym (div-div-eq-div-mul x scale n)
      ∙ ap (λ d. x / d / n) (sym (mod-eq_of_lt (omega (arith, r))) ∙ ap (λ d. d % w) (omega arith))

  le_product : (x n : ℕ) → 0 < n → x * n < w → x < w
  le_product x n p m = let q : x * 1 ≤ x * n = mul-le-mul_left x p in omega (arith, q)

  -- The conversions of `n` Hz, kHz and MHz to ticks, rounded down, are what S_TO_JIFFIES gives for 1, 1000
  -- and 1000000 seconds, divided by `n`; and so are those to the long ticks, with S_TO_LJIFFIES. (The
  -- period of `n` kHz is a thousandth of a second divided by `n`.) The conditions: `n` is not 0, and
  -- the products of the divisors do not wrap.
  pub period_seconds :
      (shift n : ℕ)
      → 0 < n
      → k.scale * n < w
      → lprescaler k w seconds shift * n < w
      → (period_jiffies k w hertz n ≡ some (to_jiffies k w seconds 1 / n))
        × (period_jiffies k w kilohertz n ≡ some (to_jiffies k w seconds 1000 / n))
        × (period_jiffies k w megahertz n ≡ some (to_jiffies k w seconds 1000000 / n))
        × (period_ljiffies k w hertz shift n ≡ to_ljiffies k w seconds shift 1 / n)
        × (period_ljiffies k w kilohertz shift n ≡ to_ljiffies k w seconds shift 1000 / n)
        × (period_ljiffies k w megahertz shift n ≡ to_ljiffies k w seconds shift 1000000 / n)
  unfolding period_jiffies period_ljiffies to_jiffies to_ljiffies parts times
  period_seconds shift n p h l =
      let below = λ (x : ℕ) (m : x * n < w). le_product x n p m in
      (
        ap some (quotient_by hertz k.scale n h (below k.scale h)),
        ap some (quotient_by kilohertz k.scale n h (below k.scale h)),
        ap some (quotient_by megahertz k.scale n h (below k.scale h)),
        quotient_by hertz (lprescaler k w seconds shift) n l (below _ l),
        quotient_by kilohertz (lprescaler k w seconds shift) n l (below _ l),
        quotient_by megahertz (lprescaler k w seconds shift) n l (below _ l),
      )
