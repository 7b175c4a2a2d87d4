-- ===== src/Macros/Time.antt =====
-- time.h: the timer's prescaler, and times in timer ticks ("jiffies").
use avr_cec.Common.{
  ℕ, zero, suc, ◌+◌, ◌*◌, ◌/◌, ◌%◌, ◌^◌, ◌≤◌, ◌<◌, ◌≡◌, ◌⊎◌, refl, subst, arith, if◌then◌else◌, leb,
  ltb, ltb→lt, ◌==◌, Option, none, some, inl, inr, Bool-cases,
}
use avr_cec.Macros.Div.{div_round, div_round_up, div_round_order}
use native.Mathlib.Nat.{mod-eq_of_lt, zero-add}
use native.Mathlib.Decide.{dec_le}

-- `TCNT0_PRESCALER` by `TCNT0_PRESCALER_IDEAL`; `none` is the `#error`.
unfoldable pub prescaler : ℕ → Option ℕ
prescaler ideal =
    if ideal == 1
    then some 1
    else (if leb ideal 8
        then some 8
        else (if leb ideal 64
            then some 64
            else (if leb ideal 256
                then some 256
                else (if leb ideal 1024 then some 1024 else none))))

-- `TCNT0_PRESCALER_VAL`.
unfoldable pub prescaler_val : ℕ → Option ℕ
prescaler_val ideal =
    if ideal == 1
    then some 1
    else (if leb ideal 8
        then some 2
        else (if leb ideal 64
            then some 3
            else (if leb ideal 256 then some 4 else (if leb ideal 1024 then some 5 else none))))

-- One of the timer's divisors.
abbrev pub IsDivisor : ℕ → Type 0
IsDivisor p = (p ≡ 1) ⊎ (p ≡ 8) ⊎ (p ≡ 64) ⊎ (p ≡ 256) ⊎ (p ≡ 1024)

-- An ideal divisor from 1 on that one of the timer's divisors reaches gets a divisor of the timer, the
-- least of those that are not below it.
pub prescaler_least :
    (ideal d : ℕ)
    → 0 < ideal
    → IsDivisor d
    → ideal ≤ d
    → (p : ℕ) × (prescaler ideal ≡ some p) × IsDivisor p × (ideal ≤ p) × (p ≤ d)
unfolding prescaler
prescaler_least ideal d h i l = elim (dec_le ideal 1) [
  | yes a ↦ (1, ground arith, inl refl, a, ground arith)
  | no a ↦ elim (dec_le ideal 8) [
    | yes b ↦ (8, ground arith, inr (inl refl), b, ground arith)
    | no b ↦ elim (dec_le ideal 64) [
      | yes e ↦ (64, ground arith, inr (inr (inl refl)), e, ground arith)
      | no e ↦ elim (dec_le ideal 256) [
        | yes f ↦ (256, ground arith, inr (inr (inr (inl refl))), f, ground arith)
        | no f ↦ (1024, ground arith, inr (inr (inr (inr refl))), ground arith, ground arith)
      ]
    ]
  ]
]

-- The build's clock: F_CPU, TCNT0_PRESCALER, and the number of values of the type of F_CPU.
pub record Clock : Type 0 where
  pub f_cpu : ℕ
  pub scale : ℕ
  pub values : ℕ

module _ (k : Clock) where
  -- `US_TO_JIFFIES`, `US_TO_JIFFIES_UP`, `US_TO_JIFFIES_RND`.
  unfoldable pub us_to_jiffies : ℕ → ℕ
  us_to_jiffies n = n * k.f_cpu % k.values / (k.scale * 1000000 % k.values)

  unfoldable pub us_to_jiffies_up : ℕ → ℕ
  us_to_jiffies_up n = div_round_up k.values (n * k.f_cpu % k.values) (k.scale * 1000000 % k.values)

  unfoldable pub us_to_jiffies_rnd : ℕ → ℕ
  us_to_jiffies_rnd n = div_round k.values (n * k.f_cpu % k.values) (k.scale * 1000000 % k.values)

  -- No product of the conversion of `n` microseconds wraps.
  pub record Fits (n : ℕ) : Type 0 where
    pub scale_pos : 0 < k.scale
    pub product : n * k.f_cpu + k.scale * 1000000 < k.values

  -- A time that is not 0, at a clock whose products do not wrap, in ticks: US_TO_JIFFIES,
  -- US_TO_JIFFIES_RND and US_TO_JIFFIES_UP are in this order, and the last is at most one above
  -- the first.
  pub jiffies_order :
      (n : ℕ)
      → Fits n
      → 0 < n * k.f_cpu
      → (us_to_jiffies n ≤ us_to_jiffies_rnd n)
        × (us_to_jiffies_rnd n ≤ us_to_jiffies_up n)
        × (us_to_jiffies_up n ≤ us_to_jiffies n + 1)
  unfolding us_to_jiffies us_to_jiffies_up us_to_jiffies_rnd
  jiffies_order n f p =
      rw
        (
          mod-eq_of_lt {n = n * k.f_cpu} {m = k.values} (omega (arith, f.product)),
          mod-eq_of_lt {n = k.scale * 1000000} {m = k.values} (omega (arith, f.product)),
        )
        (div_round_order k.values (n * k.f_cpu) (k.scale * 1000000) p (omega (arith, f.product))
          (omega (arith, f.scale_pos)))

-- `LJIFFIES_SHIFT`, by `LJIFFIES_MAX`: the chain of comparisons with `1UL << 8` to `1UL << 31`.
unfoldable pub shift_from : ℕ → ℕ → ℕ → ℕ
shift_from max zero s = s
shift_from max (suc j) s =
    let rest = shift_from max j (s + 1) in if ltb max (2 ^ (8 + s)) then s else rest

unfoldable pub ljiffies_shift : ℕ → ℕ
unfolding shift_from
ljiffies_shift max = shift_from max 24 0

shift_from_lem :
    (max j s : ℕ)
    → max < 2 ^ (8 + (j + s))
    → (s ≡ 0) ⊎ (2 ^ (7 + s) ≤ max)
    → let r = shift_from max j s in (max < 2 ^ (8 + r)) × ((r ≡ 0) ⊎ (2 ^ (7 + r) ≤ max))
unfolding shift_from
shift_from_lem max zero s h l = (subst (λ i. max < 2 ^ (8 + i)) (zero-add s) h, l)
shift_from_lem max (suc j) s h l = elim (Bool-cases (ltb max (2 ^ (8 + s)))) [
  | inl t ↦ rw t (ltb→lt max (2 ^ (8 + s)) t, l)
  | inr f ↦ rw f (
      shift_from_lem max j (s + 1) (subst (λ i. max < 2 ^ (8 + i)) deeper h)
        (inr (rw next (ground (arith, f)))))
]
  where
    deeper : suc j + s ≡ j + (s + 1)
    deeper = omega arith

    next : 7 + (s + 1) ≡ 8 + s
    next = omega arith

-- LJIFFIES_SHIFT is the least shift after which every value up to a 32-bit LJIFFIES_MAX fits a byte.
pub ljiffies_shift_least :
    (max : ℕ)
    → max < 2 ^ 32
    → let r = ljiffies_shift max in (max < 2 ^ (8 + r)) × ((r ≡ 0) ⊎ (2 ^ (7 + r) ≤ max))
unfolding ljiffies_shift
ljiffies_shift_least max h = shift_from_lem max 24 0 h (inl refl)
