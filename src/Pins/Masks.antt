-- ===== src/Pins/Masks.antt =====
-- Bits of a register of 8 bits, set and cleared: each law is checked at every byte and pin by evaluation.
use avr_cec.Common.{
  ℕ, ◌^◌, ◌<◌, ◌≡◌, refl, ◌==◌, ==_iff, Bool, true, false, not, ◌||◌, bit_and, truth, ltb, ltb→lt,
  arith, holds_below, holds_below_lem,
}
use avr_cec.Pins.{set_mask, clear_mask}

at_all :
    (test : ℕ → ℕ → Bool)
    → holds_below (λ x. holds_below (test x) 8) 256 ≡ true
    → (x k : ℕ) → x < 256
    → k < 8
    → test x k ≡ true
at_all test e x k h i =
    holds_below_lem (test x) 8 (holds_below_lem (λ y. holds_below (test y) 8) 256 e x h) k i

module _ (x k : ℕ) (h : x < 256) (i : k < 8) where
  pub clear_mask-set_mask : (clear_mask (2 ^ k) (set_mask (2 ^ k) x)) ≡ (clear_mask (2 ^ k) x)
  unfolding holds_below
  clear_mask-set_mask = (==_iff _ _).0 (
      at_all (λ y j. (clear_mask (2 ^ j) (set_mask (2 ^ j) y)) == (clear_mask (2 ^ j) y)) refl x k h
        i)

  pub clear_mask-clear_mask : (clear_mask (2 ^ k) (clear_mask (2 ^ k) x)) ≡ (clear_mask (2 ^ k) x)
  unfolding holds_below
  clear_mask-clear_mask = (==_iff _ _).0 (
      at_all (λ y j. (clear_mask (2 ^ j) (clear_mask (2 ^ j) y)) == (clear_mask (2 ^ j) y)) refl x k
        h i)

  pub set_mask-bit : truth (bit_and (set_mask (2 ^ k) x) (2 ^ k)) ≡ true
  unfolding holds_below
  set_mask-bit = (at_all (λ y j. truth (bit_and (set_mask (2 ^ j) y) (2 ^ j))) refl x k h i)

  pub clear_mask-bit : truth (bit_and (clear_mask (2 ^ k) x) (2 ^ k)) ≡ false
  unfolding holds_below
  clear_mask-bit =
      ground
        (arith, at_all (λ y j. not (truth (bit_and (clear_mask (2 ^ j) y) (2 ^ j)))) refl x k h i)

  pub set_mask-byte : set_mask (2 ^ k) x < 256
  unfolding holds_below
  set_mask-byte = ltb→lt _ _ (at_all (λ y j. ltb (set_mask (2 ^ j) y) 256) refl x k h i)

  pub clear_mask-byte : clear_mask (2 ^ k) x < 256
  unfolding holds_below
  clear_mask-byte = ltb→lt _ _ (at_all (λ y j. ltb (clear_mask (2 ^ j) y) 256) refl x k h i)

  pub clear_mask-off : truth (bit_and x (2 ^ k)) ≡ false → clear_mask (2 ^ k) x ≡ x
  unfolding holds_below
  clear_mask-off e = ground (
    arith,
    ==_iff (clear_mask (2 ^ k) x) x,
    at_all (λ y j. truth (bit_and y (2 ^ j)) || clear_mask (2 ^ j) y == y) refl x k h i,
  )

-- The order in which two bits are cleared.
pub clear_mask_comm :
    (x k l : ℕ)
    → x < 256
    → k < 8
    → l < 8
    → clear_mask (2 ^ k) (clear_mask (2 ^ l) x) ≡ clear_mask (2 ^ l) (clear_mask (2 ^ k) x)
unfolding holds_below
clear_mask_comm x k l h i j = (==_iff _ _).0 (
    holds_below_lem
      (λ n. clear_mask (2 ^ k) (clear_mask (2 ^ n) x) == clear_mask (2 ^ n) (clear_mask (2 ^ k) x))
      8
      (at_all
        (λ y m.
          holds_below
            (λ n.
              clear_mask (2 ^ m) (clear_mask (2 ^ n) y)
              == clear_mask (2 ^ n) (clear_mask (2 ^ m) y))
            8)
        refl x k h i)
      l j)
