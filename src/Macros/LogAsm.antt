-- ===== src/Macros/LogAsm.antt =====
-- `LOG2` of bitops.h, as the assembler sees it: a union of entries, each of which is its bit's number
-- or 0. A true comparison is -1 for the assembler, and a true `&&` is 1. `_BV` is a parameter, as for
-- the compiler's `LOG2`.
use avr_cec.Common.{
  ℕ, zero, suc, ◌+◌, ◌^◌, ◌≤◌, ◌<◌, ◌≡◌, refl, ap₂, ◌∙◌, arith, bit_or, ◌&&◌, if◌then◌else◌, leb,
  ltb, ◌==◌, ==_iff, holds_below, holds_below_lem,
}
use native.Mathlib.Nat.{pow-le-pow_right}
use avr_cec.Macros.Log.{log2, log2_floor, pow_reach}

module _ (bv : ℕ → ℕ) where
  -- `__LOG2_ENTRY`: the negated condition is a mask of ones or 0.
  unfoldable pub log2_entry : ℕ → ℕ → ℕ
  log2_entry n bit = if leb (bv bit) n && ltb n (bv (bit + 1)) then bit else 0

  -- The entries from `k` on, and the last term, in which -(-1) is 1.
  unfoldable pub log2_entries : ℕ → ℕ → ℕ → ℕ
  unfolding log2_entry
  log2_entries n zero k = if ltb (bv 31) n then 1 else 0
  log2_entries n (suc j) k = bit_or (log2_entry n k) (log2_entries n j (k + 1))

  unfoldable pub log2_asm : ℕ → ℕ
  unfolding log2_entries
  log2_asm n = log2_entries n 31 0

union_zero : (r : ℕ) → r < 32 → (bit_or r 0 ≡ r) × (bit_or 0 r ≡ r)
unfolding holds_below
union_zero r h = (
  (==_iff _ _).0 (holds_below_lem (λ x. bit_or x 0 == x) 32 refl r h),
  (==_iff _ _).0 (holds_below_lem (λ x. bit_or 0 x == x) 32 refl r h),
)

grows : (i j : ℕ) → i ≤ j → 2 ^ i ≤ 2 ^ j
grows i j h = pow-le-pow_right {n = 2} (omega arith) {i = i} {j = j} h

module _ (bv : ℕ → ℕ) (is_bv : (i : ℕ) → i ≤ 31 → bv i ≡ 2 ^ i) (n r : ℕ) (low : 2 ^ r ≤ n)
    (high : n < 2 ^ (r + 1)) (below : r < 31) where
  log2_entry_lem : (k : ℕ) → k < 31 → log2_entry bv n k ≡ (if k == r then r else 0)
  unfolding log2_entry
  log2_entry_lem k h =
      ground (arith, is_bv k, is_bv (k + 1), grows (k + 1) r, grows (r + 1) k, low, high)

  log2_entries_lem : (j k : ℕ) → j + k ≡ 31 → log2_entries bv n j k ≡ (if leb k r then r else 0)
  unfolding log2_entries
  log2_entries_lem zero k h = ground (arith, is_bv 31, grows (r + 1) 31, high)
  log2_entries_lem (suc j) k h =
      ap₂ bit_or (log2_entry_lem k (omega arith)) (log2_entries_lem j (k + 1) (omega arith))
      ∙ ground (arith, union_zero r)

-- For every number from 1 on that lies below a power of two whose exponent `m` is at most 31, LOG2 is the
-- same for the assembler and for the compiler, where the assembler's `_BV` gives the powers of two up
-- to 31, and the compiler's up to `m`.
pub log2_asm-log2 :
    (bv bv' : ℕ → ℕ) (m n : ℕ)
    → m ≤ 31
    → ((i : ℕ) → i ≤ 31 → bv i ≡ 2 ^ i)
    → ((i : ℕ) → i ≤ m → bv' i ≡ 2 ^ i)
    → 0 < n
    → n < 2 ^ m
    → log2_asm bv n ≡ log2 bv' n
unfolding log2_asm
log2_asm-log2 bv bv' m n h b b' p l =
    log2_entries_lem bv b n r (floor.0) (floor.1)
      (let q : r < m = pow_reach n r m floor.0 l in omega arith) 31 0 refl
    ∙ ground arith
  where
    r : ℕ
    r = log2 bv' n

    floor : (2 ^ r ≤ n) × (n < 2 ^ (r + 1))
    floor = log2_floor bv' m n h b' p l
