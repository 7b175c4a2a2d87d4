-- ===== src/Macros/Mul.antt =====
-- `MUL_FIXED_B` of div.h: a byte times the constant fraction `bn / bd`, for values up to `max_a`. The
-- products of the constants are taken to fit the types in which the build computes them.
use avr_cec.Common.{
  ℕ, zero, suc, ◌+◌, ◌*◌, ◌/◌, ◌%◌, ◌^◌, ◌≤◌, ◌<◌, ◌≡◌, ◌≢◌, ◌∙◌, sym, arith, ◌&&◌, if◌then◌else◌,
  leb, ltb, ◌==◌, truth, bit_and, Option, none, some,
}
use native.Mathlib.Nat.{mul_comm, div-le_of_le-mul}

-- `_MUL_BIT_FIXED_B`: what bit `bit` of `a` adds.
unfoldable pub mul_bit : ℕ → ℕ → ℕ → ℕ → ℕ → ℕ
mul_bit a bn bd max_a bit =
    if leb (2 ^ bit) max_a && truth (bit_and a (2 ^ bit)) then 2 ^ bit * bn / bd else 0

-- `_MUL_FIXED_B` in a type of `m` values.
unfoldable pub mul_bits : ℕ → ℕ → ℕ → ℕ → ℕ → ℕ
mul_bits m a bn bd max_a =
    (mul_bit a bn bd max_a 0
      + mul_bit a bn bd max_a 1
      + mul_bit a bn bd max_a 2
      + mul_bit a bn bd max_a 3
      + mul_bit a bn bd max_a 4
      + mul_bit a bn bd max_a 5
      + mul_bit a bn bd max_a 6
      + mul_bit a bn bd max_a 7)
    % m

-- The pairs of tests that `_MUL_SHIFT_FIXED` makes for the shifts from `bit` on, `left` of them.
unfoldable pub mul_shift : ℕ → ℕ → ℕ → ℕ → ℕ → Option ℕ
mul_shift a bn bd zero bit = none
mul_shift a bn bd (suc left) bit =
    let rest = mul_shift a bn bd left (bit + 1) in
    if bd == bn * 2 ^ bit
    then some (a * 2 ^ bit)
    else (if bd == bn / 2 ^ bit then some (a / 2 ^ bit) else rest)

-- The products of the last tests, in the width that the result needs.
unfoldable pub mul_sized : ℕ → ℕ → ℕ → ℕ → ℕ
mul_sized a bn bd max_a =
    if ltb (max_a * bn / bd) 256
    then mul_bits 256 a bn bd max_a
    else (if ltb (max_a * bn / bd) 65536
        then mul_bits 65536 a bn bd max_a
        else mul_bits (2 ^ 32) a bn bd max_a)

abbrev or_else : Option ℕ → ℕ → ℕ
or_else none y = y
or_else (some x) y = x

-- `MUL_FIXED_B`; the result is an unsigned long.
unfoldable pub mul_fixed_b : ℕ → ℕ → ℕ → ℕ → ℕ
mul_fixed_b a bn bd max_a =
    (if bd == bn then a else or_else (mul_shift a bn bd 7 1) (mul_sized a bn bd max_a)) % 2 ^ 32

-- By `bn / (bn * 2)`, one half, MUL_FIXED_B doubles a byte: the result is the half for no byte but 0.
pub mul_fixed_b_half :
    (a bn max_a : ℕ)
    → 0 < bn
    → 0 < a
    → a < 256
    → (mul_fixed_b a bn (bn * 2) max_a ≡ a * 2)
      × (mul_fixed_b a bn (bn * 2) max_a ≢ a * bn / (bn * 2))
unfolding mul_fixed_b mul_shift
mul_fixed_b_half a bn max_a p q h =
    (doubled, λ e. let same : a * 2 ≡ a * bn / (bn * 2) = sym doubled ∙ e in omega (arith, bounded))
  where
    doubled : mul_fixed_b a bn (bn * 2) max_a ≡ a * 2
    doubled = ground arith

    bounded : a * bn / (bn * 2) ≤ a
    bounded = div-le_of_le-mul (bn * 2) {m = a * bn} {n = a} (rw (mul_comm a bn) (grind arith))
