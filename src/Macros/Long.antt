-- ===== src/Macros/Long.antt =====
-- time.h: times in seconds, milliseconds, microseconds or nanoseconds in timer ticks, and in the longer
-- ticks of LJIFFIES, which keep times up to LONG_TIME in 8 bits. The product with F_CPU is computed in a
-- type with `k.values` values, the divisor in one with `w` values.
use avr_cec.Common.{ℕ, zero, suc, ◌+◌, ◌*◌, ◌/◌, ◌%◌, ◌^◌, ◌-◌, ◌≤◌, ◌<◌, ◌≡◌, refl, ap, ◌∙◌, arith}
use avr_cec.Macros.Div.{div_round, div_round_up, div_round_up_ceil, div_round_up_eq}
use avr_cec.Macros.Time.{Clock, ljiffies_shift, ljiffies_shift_least}
use native.Mathlib.Nat.{
  mod-eq_of_lt, div-lt_iff_lt-mul, mul-le-mul_right, mul-le-mul_left, mul_assoc, mul-pos,
  pow-le-pow_right, pow-suc,
}

pub data TimeUnit : Type 0 where
  seconds milliseconds microseconds nanoseconds : TimeUnit

-- The factor of the divisor.
unfoldable pub parts : TimeUnit → ℕ
parts seconds = 1
parts milliseconds = 1000
parts microseconds = 1000000
parts nanoseconds = 1000000000

module _ (k : Clock) (w : ℕ) (u : TimeUnit) where
  -- `TCNT0_PRESCALER * ...`, and with the prescaler of the longer ticks, `TCNT0_LPRESCALER`.
  abbrev pub divisor : ℕ → ℕ
  divisor scale = scale * parts u % w

  abbrev pub lprescaler : ℕ → ℕ
  lprescaler shift = 2 ^ shift * k.scale % w

  -- `*_TO_JIFFIES`, `*_TO_JIFFIES_UP`, `*_TO_JIFFIES_RND`.
  unfoldable pub to_jiffies : ℕ → ℕ
  to_jiffies n = n * k.f_cpu % k.values / divisor k.scale

  unfoldable pub to_jiffies_up : ℕ → ℕ
  to_jiffies_up n = div_round_up k.values (n * k.f_cpu % k.values) (divisor k.scale)

  unfoldable pub to_jiffies_rnd : ℕ → ℕ
  to_jiffies_rnd n = div_round k.values (n * k.f_cpu % k.values) (divisor k.scale)

  -- `*_TO_LJIFFIES`, `*_TO_LJIFFIES_UP`, `*_TO_LJIFFIES_RND`, by LJIFFIES_SHIFT.
  unfoldable pub to_ljiffies : ℕ → ℕ → ℕ
  to_ljiffies shift n = n * k.f_cpu % k.values / divisor (lprescaler shift)

  unfoldable pub to_ljiffies_up : ℕ → ℕ → ℕ
  to_ljiffies_up shift n =
      div_round_up k.values (n * k.f_cpu % k.values) (divisor (lprescaler shift))

  unfoldable pub to_ljiffies_rnd : ℕ → ℕ → ℕ
  to_ljiffies_rnd shift n = div_round k.values (n * k.f_cpu % k.values) (divisor (lprescaler shift))

  -- LJIFFIES_SHIFT, by LONG_TIME: the shift for LJIFFIES_MAX.
  unfoldable pub long_shift : ℕ → ℕ
  long_shift long = ljiffies_shift (to_jiffies_up long)

parts_pos : (u : TimeUnit) → 0 < parts u
unfolding parts
parts_pos seconds = omega arith
parts_pos milliseconds = omega arith
parts_pos microseconds = omega arith
parts_pos nanoseconds = omega arith

pow_pos : (s : ℕ) → 0 < 2 ^ s
pow_pos s = pow-le-pow_right {n = 2} (omega arith) {i = 0} {j = s} (omega arith)

eight_more : (s : ℕ) → 2 ^ (8 + s) ≡ 256 * 2 ^ s
eight_more zero = refl
eight_more (suc s) =
    ap (λ i. 2 ^ i) turn ∙ pow-suc 2 (8 + s) ∙ omega (arith, eight_more s, pow-suc 2 s)
  where
    turn : 8 + suc s ≡ suc (8 + s)
    turn = omega arith

-- A product that the quotient does not exceed, by a divisor that is longer by the shift.
below_byte : (s d x l : ℕ) → 0 < d → x ≤ l * d → l < 2 ^ (8 + s) → x < 256 * (2 ^ s * d)
below_byte s d x l p h b =
    let m : (l + 1) * d ≤ 2 ^ (8 + s) * d = mul-le-mul_right d (omega arith) in
    let e : 2 ^ (8 + s) * d ≡ 256 * (2 ^ s * d) =
      ap (λ q. q * d) (eight_more s) ∙ mul_assoc 256 (2 ^ s) d in
    omega (arith, m, e, h, p)

module _ (k : Clock) (w : ℕ) (u : TimeUnit) (long : ℕ) where
  -- The products for times up to `long`, of a length that LJIFFIES_SHIFT provides for, do not wrap.
  pub record IsWide : Type 0 where
    pub scale_pos : 0 < k.scale
    pub product : long * k.f_cpu < k.values
    pub divisor : 2 ^ long_shift k w u long * (k.scale * parts u) < w
    pub max : to_jiffies_up k w u long < 2 ^ 32

  module _ (wide : IsWide) where
    d_pos : 0 < k.scale * parts u
    d_pos = mul-pos wide.scale_pos (parts_pos u)

    longer : k.scale * parts u < w
    longer =
        let l : 1 * (k.scale * parts u) ≤ 2 ^ long_shift k w u long * (k.scale * parts u) =
          mul-le-mul_right (k.scale * parts u) (pow_pos (long_shift k w u long)) in
        omega (arith, l, wide.divisor)

    inner : 2 ^ long_shift k w u long * k.scale < w
    inner =
        let l : 2 ^ long_shift k w u long * (k.scale * 1)
            ≤ 2 ^ long_shift k w u long * (k.scale * parts u) =
          mul-le-mul_left (2 ^ long_shift k w u long) (mul-le-mul_left k.scale (parts_pos u)) in
        omega (arith, l, wide.divisor)

    long_divisor :
        divisor k w u (lprescaler k w u (long_shift k w u long))
        ≡ 2 ^ long_shift k w u long * (k.scale * parts u)
    long_divisor =
        ap (λ q. q * parts u % w) (mod-eq_of_lt inner)
        ∙ ap (λ q. q % w) (mul_assoc (2 ^ long_shift k w u long) k.scale (parts u))
        ∙ mod-eq_of_lt wide.divisor

    -- LJIFFIES_MAX reaches the longest time.
    long_reach :
        0 < long * k.f_cpu → long * k.f_cpu ≤ to_jiffies_up k w u long * (k.scale * parts u)
    unfolding to_jiffies_up
    long_reach p =
        rw (mod-eq_of_lt wide.product, mod-eq_of_lt longer)
          (div_round_up_ceil k.values (long * k.f_cpu) (k.scale * parts u) p wide.product d_pos).0

    time_below :
        (n : ℕ)
        → 0 < n * k.f_cpu
        → n ≤ long
        → n * k.f_cpu < 256 * (2 ^ long_shift k w u long * (k.scale * parts u))
    unfolding long_shift
    time_below n p h =
        let m : n * k.f_cpu ≤ long * k.f_cpu = mul-le-mul_right k.f_cpu h in
        below_byte (long_shift k w u long) (k.scale * parts u) (n * k.f_cpu)
          (to_jiffies_up k w u long) d_pos (omega (arith, m, long_reach (omega (arith, m))))
          (ljiffies_shift_least (to_jiffies_up k w u long) wide.max).0

    fits : (n : ℕ) → 0 < n * k.f_cpu → n ≤ long → n * k.f_cpu < k.values
    fits n p h =
        let m : n * k.f_cpu ≤ long * k.f_cpu = mul-le-mul_right k.f_cpu h in
        omega (arith, m, wide.product)

  -- The longer ticks of LJIFFIES: a time that is not 0 and at most LONG_TIME is rounded down to a number of
  -- them that fits a byte, and rounded up to one that is at most 256, when no product wraps and
  -- LJIFFIES_MAX is a number of 32 bits.
  pub to_ljiffies-byte :
      IsWide
      → (n : ℕ) → 0 < n * k.f_cpu
      → n ≤ long
      → (to_ljiffies k w u (long_shift k w u long) n < 256)
        × (to_ljiffies_up k w u (long_shift k w u long) n ≤ 256)
  unfolding to_ljiffies to_ljiffies_up
  to_ljiffies-byte wide n p h =
      rw (long_divisor wide, mod-eq_of_lt (fits wide n p h))
        (
          (div-lt_iff_lt-mul e_pos).1 below,
          rw (div_round_up_eq k.values (n * k.f_cpu) e p (fits wide n p h) e_pos) (
              let q : (n * k.f_cpu - 1) / e < 256 =
                (div-lt_iff_lt-mul e_pos).1 (omega (arith, below)) in
              omega (arith, q)),
        )
    where
      e : ℕ
      e = 2 ^ long_shift k w u long * (k.scale * parts u)

      e_pos : 0 < e
      e_pos = mul-pos (pow_pos (long_shift k w u long)) (d_pos wide)

      below : n * k.f_cpu < 256 * e
      below = time_below wide n p h
