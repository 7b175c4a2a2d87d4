-- ===== src/Macros/Log.antt =====
-- `LOG2` of bitops.h, as the compiler sees it: a chain of comparisons with `_BV(0)` to `_BV(31)`.
-- `_BV` is avr-libc's macro, and a parameter: what it gives past the width of `int` is not fixed.
use avr_cec.Common.{
  ℕ, zero, suc, ◌+◌, ◌-◌, ◌^◌, ◌≤◌, ◌<◌, ◌≡◌, refl, arith, false, if◌then◌else◌, ltb, Bool-cases,
  inl, inr, ltb→lt, ◌⊎◌,
}
use native.Mathlib.Nat.{pow-le-pow_right}
use native.Mathlib.Decide.{dec_lt}

module _ (bv : ℕ → ℕ) where
  -- The comparisons from `_BV(k)` on; the first two both answer 0.
  unfoldable pub log2_from : ℕ → ℕ → ℕ → ℕ
  log2_from n zero k = k - 1
  log2_from n (suc j) k = let rest = log2_from n j (k + 1) in if ltb n (bv k) then k - 1 else rest

  unfoldable pub log2 : ℕ → ℕ
  unfolding log2_from
  log2 n = log2_from n 32 0

pub pow_reach : (n k m : ℕ) → 2 ^ k ≤ n → n < 2 ^ m → k < m
pow_reach n k m l h = elim (dec_lt k m) [
  | yes p ↦ p
  | no p ↦
      absurd (omega (arith, pow-le-pow_right {n = 2} (omega arith) {i = m} {j = k} (omega arith)))
]

-- The comparison with `2 ^ k` that succeeds after the one before it failed.
between :
    (n k : ℕ)
    → 0 < n
    → (k ≡ 0) ⊎ (2 ^ (k - 1) ≤ n)
    → n < 2 ^ k
    → (2 ^ (k - 1) ≤ n) × (n < 2 ^ (k - 1 + 1))
between n zero p l u = absurd (omega arith)
between n (suc k) p (inl e) u = absurd (omega arith)
between n (suc k) p (inr l) u = (l, rw back u)
  where
    back : suc k - 1 + 1 ≡ suc k
    back = omega arith

module _ (bv : ℕ → ℕ) (m : ℕ) (is_bv : (i : ℕ) → i ≤ m → bv i ≡ 2 ^ i) (n : ℕ) (below : n < 2 ^ m)
    (pos : 0 < n) where
  log2_from_bounds :
      (j k : ℕ)
      → k ≤ m
      → m < j + k
      → (k ≡ 0) ⊎ (2 ^ (k - 1) ≤ n)
      → (2 ^ log2_from bv n j k ≤ n) × (n < 2 ^ (log2_from bv n j k + 1))
  unfolding log2_from
  log2_from_bounds zero k km h low = absurd (omega arith)
  log2_from_bounds (suc j) k km h low = elim (Bool-cases (ltb n (bv k))) [
    | inl t ↦ rw t (between n k pos low (rw (is_bv k km) at (ltb→lt n (bv k) t)))
    | inr f ↦ rw f (
        log2_from_bounds j (k + 1)
          (let l : k < m = pow_reach n k m (not_below f) below in omega arith) (omega arith)
          (inr (rw next (not_below f))))
  ]
    where
      not_below : ltb n (bv k) ≡ false → 2 ^ k ≤ n
      not_below f = ground (arith, is_bv k km, f)

      next : k + 1 - 1 ≡ k
      next = omega arith

-- LOG2 is the binary logarithm, rounded down, of every number from 1 that lies below a power of two
-- whose exponent `m` is at most 31 and up to which `_BV` gives the powers of two.
pub log2_floor :
    (bv : ℕ → ℕ) (m n : ℕ)
    → m ≤ 31
    → ((i : ℕ) → i ≤ m → bv i ≡ 2 ^ i)
    → 0 < n
    → n < 2 ^ m
    → (2 ^ log2 bv n ≤ n) × (n < 2 ^ (log2 bv n + 1))
unfolding log2
log2_floor bv m n h b p l =
    log2_from_bounds bv m b n l p 32 0 (omega arith) (omega arith) (inl refl)
