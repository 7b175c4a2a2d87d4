-- ===== src/Macros/Rollover.antt =====
-- time.h: the ideal divisor of the timer's clock, by the time in which the timer is to count to 256.
use avr_cec.Common.{ℕ, ◌*◌, ◌%◌, ◌≤◌, ◌<◌, ◌≡◌, sym, subst, arith, some, ◌⊎◌, inl, inr}
use avr_cec.Macros.Div.{div_round_up, div_round_up_ceil, cancel}
use avr_cec.Macros.Time.{Clock, us_to_jiffies_up, prescaler, prescaler_least, IsDivisor}
use avr_cec.Macros.Frequency.{hertz, times, period_jiffies_up}
use native.Mathlib.Decide.{dec_le}
use native.Mathlib.Nat.{mod-eq_of_lt, mul_comm, mul-pos, mul-le-mul_right}

-- TCNT0_ROLLOVER_PERIOD_US or TCNT0_ROLLOVER_HZ.
pub data Rollover : Type 0 where
  rollover_period_us rollover_hz : ℕ → Rollover

-- `TCNT0_PRESCALER_IDEAL`; `m` is the number of values of the preprocessor's type.
unfoldable pub prescaler_ideal : ℕ → ℕ → Rollover → ℕ
prescaler_ideal m f_cpu (rollover_period_us us) = div_round_up m (f_cpu * us % m) 256000000
prescaler_ideal m f_cpu (rollover_hz hz) = div_round_up m f_cpu (256 * hz % m)

module _ (m x b : ℕ) (x_pos : 0 < x) (x_fits : x < m) (b_pos : 0 < b) where
  -- A number of periods suffices exactly if the quotient, rounded up, is not above it.
  enough : (q : ℕ) → x ≤ q * b → div_round_up m x b ≤ q
  enough q h =
      let (up, up') = div_round_up_ceil m x b x_pos x_fits b_pos in
      cancel m b (div_round_up m x b) q (omega (arith, up', h))

  suffices : (q : ℕ) → div_round_up m x b ≤ q → x ≤ q * b
  suffices q h =
      let (up, up') = div_round_up_ceil m x b x_pos x_fits b_pos in
      let l : div_round_up m x b * b ≤ q * b = mul-le-mul_right b h in omega (arith, up, l)

prescaler_reach : (ideal p : ℕ) → prescaler ideal ≡ some p → ideal ≤ p
unfolding prescaler
prescaler_reach ideal p e = ground arith

prescaler_finest :
    (ideal p d : ℕ) → 0 < ideal → prescaler ideal ≡ some p → IsDivisor d → ideal ≤ d → p ≤ d
prescaler_finest ideal p d h e i l =
    let (p', e', is, above, least) = prescaler_least ideal d h i l in ground arith

-- The ticks of the rollover, rounded up, and what no product in them exceeds.
abbrev pub rollover_ticks : Clock → ℕ → Rollover → ℕ
rollover_ticks k w (rollover_period_us us) = us_to_jiffies_up k us
rollover_ticks k w (rollover_hz hz) = period_jiffies_up k w hertz hz

abbrev pub IsExact : ℕ → Clock → ℕ → Rollover → Type 0
IsExact m k w (rollover_period_us us) =
    (0 < k.scale)
    × (0 < us * k.f_cpu)
    × (us * k.f_cpu < m)
    × (256000000 < m)
    × (us * k.f_cpu < k.values)
    × (k.scale * 1000000 < k.values)
IsExact m k w (rollover_hz hz) =
    (0 < k.scale)
    × (0 < k.f_cpu)
    × (0 < hz)
    × (k.f_cpu < m)
    × (256 * hz < m)
    × (k.f_cpu < k.values)
    × (k.scale * hz < w)

-- The quantities that are compared, of the two ways.
abbrev cycles : ℕ → Rollover → ℕ
cycles f (rollover_period_us us) = us * f
cycles f (rollover_hz hz) = f

abbrev share : Rollover → ℕ
share (rollover_period_us us) = 1000000
share (rollover_hz hz) = hz

ideal_bound :
    (m w : ℕ) (k : Clock) (r : Rollover) (q : ℕ)
    → IsExact m k w r
    → ((prescaler_ideal m k.f_cpu r ≤ q → cycles k.f_cpu r ≤ q * (256 * share r))
        × (cycles k.f_cpu r ≤ q * (256 * share r) → prescaler_ideal m k.f_cpu r ≤ q))
unfolding prescaler_ideal
ideal_bound m w k (rollover_period_us us) q (sp, p, fm, bm, fv, dv) =
    rw (mul_comm k.f_cpu us, mod-eq_of_lt fm)
      (
        suffices m (us * k.f_cpu) 256000000 p fm (omega arith) q,
        enough m (us * k.f_cpu) 256000000 p fm (omega arith) q,
      )
ideal_bound m w k (rollover_hz hz) q (sp, p, hp, fm, bm, fv, dv) = rw (mod-eq_of_lt bm) (
  suffices m k.f_cpu (256 * hz) p fm (omega arith) q,
  enough m k.f_cpu (256 * hz) p fm (omega arith) q,
)

ticks_bound :
    (m w : ℕ) (k : Clock) (r : Rollover)
    → IsExact m k w r
    → ((rollover_ticks k w r ≤ 256 → cycles k.f_cpu r ≤ 256 * (k.scale * share r))
        × (cycles k.f_cpu r ≤ 256 * (k.scale * share r) → rollover_ticks k w r ≤ 256))
unfolding us_to_jiffies_up period_jiffies_up times
ticks_bound m w k (rollover_period_us us) (sp, p, fm, bm, fv, dv) =
    rw (mod-eq_of_lt fv, mod-eq_of_lt dv)
      (
        suffices k.values (us * k.f_cpu) (k.scale * 1000000) p fv (omega arith) 256,
        enough k.values (us * k.f_cpu) (k.scale * 1000000) p fv (omega arith) 256,
      )
ticks_bound m w k (rollover_hz hz) (sp, p, hp, fm, bm, fv, dv) =
    rw (one, mod-eq_of_lt fv, mod-eq_of_lt dv)
      (
        suffices k.values k.f_cpu (k.scale * hz) p fv (mul-pos sp hp) 256,
        enough k.values k.f_cpu (k.scale * hz) p fv (mul-pos sp hp) 256,
      )
  where
    one : 1 * k.f_cpu ≡ k.f_cpu
    one = omega arith

same_product : (p s : ℕ) → p * (256 * s) ≡ 256 * (p * s)
same_product p s = omega arith

cycles_positive : (m w : ℕ) (k : Clock) (r : Rollover) → IsExact m k w r → 0 < cycles k.f_cpu r
cycles_positive m w k (rollover_period_us us) x = x.1
cycles_positive m w k (rollover_hz hz) x = x.1

ideal_positive :
    (m w : ℕ) (k : Clock) (r : Rollover) → IsExact m k w r → 0 < prescaler_ideal m k.f_cpu r
ideal_positive m w k r x = elim (dec_le (prescaler_ideal m k.f_cpu r) 0) [
  | yes h ↦
      let l : cycles k.f_cpu r ≤ 0 * (256 * share r) = (ideal_bound m w k r 0 x).0 h in
      absurd (omega (arith, l, cycles_positive m w k r x))
  | no h ↦ omega arith
]

-- The prescaler that time.h chooses is the least divisor of the timer with which the time given for
-- the rollover, in microseconds or as a frequency, takes at most 256 ticks, rounded up: with this
-- prescaler it does, and a divisor that is below it takes more. The conditions: the time is not 0, some
-- divisor of the timer is at least the ideal one, and no product wraps.
pub rollover_finest :
    (m w : ℕ) (k : Clock) (r : Rollover) (d : ℕ)
    → prescaler (prescaler_ideal m k.f_cpu r) ≡ some k.scale
    → IsExact m k w r
    → IsDivisor d
    → IsExact m (record k { scale = d }) w r
    → (rollover_ticks k w r ≤ 256)
      × ((k.scale ≤ d) ⊎ (256 < rollover_ticks (record k { scale = d }) w r))
rollover_finest m w k r d e x i x' =
    let k' = record k { scale = d } in
    (
      (ticks_bound m w k r x).1 (
          subst (λ z. cycles k.f_cpu r ≤ z) (same_product k.scale (share r))
            ((ideal_bound m w k r k.scale x).0 (prescaler_reach _ k.scale e))),
      elim (dec_le (rollover_ticks k' w r) 256) [
        | yes h ↦ inl (
            prescaler_finest _ k.scale d (ideal_positive m w k r x) e i (
              (ideal_bound m w k r d x).1 (
                subst (λ z. cycles k.f_cpu r ≤ z) (sym (same_product d (share r)))
                  ((ticks_bound m w k' r x').0 h))))
        | no h ↦ inr (omega arith)
      ],
    )
