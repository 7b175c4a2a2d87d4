-- ===== src/Macros/Div.antt =====
-- div.h.
use avr_cec.Common.{
  refl, if◌then◌else◌, ◌==◌, ℕ, ◌+◌, ◌-◌, ◌*◌, ◌/◌, ◌%◌, ◌≤◌, ◌<◌, ◌≡◌, ap, ◌∙◌, arith,
}
use native.Mathlib.Nat.{mod-eq_of_lt, lt_of_mul-lt-mul_left, div-le_self, div-add-mod, mod-lt}

module _ (m : ℕ) where
  -- `DIV_ROUND`.
  unfoldable pub div_round : ℕ → ℕ → ℕ
  div_round n d = (n + d / 2) % m / d

  -- `DIV_ROUND_UP`; below 1 the subtraction wraps.
  unfoldable pub div_round_up : ℕ → ℕ → ℕ
  div_round_up n d = (1 + (n + m - 1) % m / d) % m

  pub div_round_up_eq : (n d : ℕ) → 0 < n → n < m → 0 < d → div_round_up n d ≡ 1 + (n - 1) / d
  unfolding div_round_up
  div_round_up_eq n d p h q =
      let e : (n + m - 1) % m ≡ n - 1 = grind arith in
      let k : (n - 1) / d ≤ n - 1 = div-le_self (n - 1) d in
      ap (λ x. (1 + x / d) % m) e ∙ mod-eq_of_lt (omega arith)

  -- DIV_ROUND_UP is the least multiplier that reaches `n`, for `n` from 1 on.
  pub div_round_up_ceil :
      (n d : ℕ)
      → 0 < n
      → n < m
      → 0 < d
      → (n ≤ div_round_up n d * d) × (div_round_up n d * d < n + d)
  div_round_up_ceil n d p h q =
      rw (div_round_up_eq n d p h q) (omega (arith, div-add-mod (n - 1) d, mod-lt (n - 1) q))

  -- DIV_ROUND is a nearest quotient.
  pub div_round_nearest :
      (n d : ℕ)
      → n + d / 2 < m
      → 0 < d
      → (div_round n d * d ≤ n + d / 2) × (n + d / 2 < div_round n d * d + d)
  unfolding div_round
  div_round_nearest n d h q =
      rw (mod-eq_of_lt h) (omega (arith, div-add-mod (n + d / 2) d, mod-lt (n + d / 2) q))

  pub cancel : (d a b : ℕ) → d * a < d * (b + 1) → a ≤ b
  cancel d a b h = let l : a < b + 1 = lt_of_mul-lt-mul_left d h in omega arith

  -- For `n` from 1 on and a positive `d`, no sum of the macros wrapping: of the quotient and the
  -- two roundings, DIV_ROUND lies between the others, and DIV_ROUND_UP is at most one above the
  -- quotient.
  pub div_round_order :
      (n d : ℕ)
      → 0 < n
      → n + d / 2 < m
      → 0 < d
      → (n / d ≤ div_round n d)
        × (div_round n d ≤ div_round_up n d)
        × (div_round_up n d ≤ n / d + 1)
  div_round_order n d p h q =
      let (up, up') = div_round_up_ceil n d p (omega arith) q in
      let (near, near') = div_round_nearest n d h q in
      let e : d * (n / d) + n % d ≡ n = div-add-mod n d in
      let r : n % d < d = mod-lt n q in
      (
        cancel d (n / d) (div_round n d) (omega arith),
        cancel d (div_round n d) (div_round_up n d) (omega arith),
        cancel d (div_round_up n d) (n / d + 1) (omega arith),
      )

-- The assembler's variants; its integers have a sign and 64 bits, of which the uses need no more than
-- the lower 63. Below 1, the dividend of `DIV_ROUND_UP` is -1.
unfoldable pub div_round_asm : ℕ → ℕ → ℕ
div_round_asm n d = (n + d / 2) / d

unfoldable pub div_round_up_asm : ℕ → ℕ → ℕ
div_round_up_asm n d = if n == 0 then (if d == 1 then 0 else 1) else 1 + (n - 1) / d

pub div_round_asm-div_round : (m n d : ℕ) → n + d / 2 < m → div_round_asm n d ≡ div_round m n d
unfolding div_round_asm div_round
div_round_asm-div_round m n d h = rw (mod-eq_of_lt h) refl

pub div_round_up_asm-div_round_up :
    (m n d : ℕ) → 0 < n → n < m → 0 < d → div_round_up_asm n d ≡ div_round_up m n d
unfolding div_round_up_asm
div_round_up_asm-div_round_up m n d p h q = rw (div_round_up_eq m n d p h q) (ground arith)
