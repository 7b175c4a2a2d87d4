-- ===== src/Common/Bits.antt =====
-- The bit operations on bytes as arithmetic: each law is checked at every byte by evaluation.
use Prim.Native.Nat.{ℕ, zero, suc, ◌+◌, ◌*◌, ◌/◌, ◌%◌, ◌^◌, ◌≤◌, ◌<◌, bit_and, bit_or}
use mathlib.Core.Path.{◌≡◌, refl, sym, ◌∙◌, ap₂}
use mathlib.Core.Bool.{Bool, true, false, ◌&&◌}
use native.Mathlib.Decide.{ℕ_discrete}
use native.Mathlib.Omega.{arith}
use avr_cec.Common.Test.{leb, ◌==◌, ==_iff, truth, same, same→eq, to_ℕ, u8}

-- The test holds at every number under the bound.
unfoldable pub holds_below : (ℕ → Bool) → ℕ → Bool
holds_below test zero = true
holds_below test (suc n) = holds_below test n && test n

pub holds_below_lem :
    (test : ℕ → Bool) (n : ℕ) → holds_below test n ≡ true → (x : ℕ) → x < n → test x ≡ true
unfolding holds_below
holds_below_lem test zero e x h = absurd (omega arith)
holds_below_lem test (suc n) e x h = elim (ℕ_discrete x n) [
  | yes p ↦ rw p (ground arith)
  | no np ↦ holds_below_lem test n (ground arith) x (omega arith)
]

-- Bit `k` of a number.
abbrev pub bit_at : ℕ → ℕ → Bool
bit_at x k = x / 2 ^ k % 2 == 1

agree_below :
    (m : ℕ) (q : ℕ → Bool)
    → holds_below (λ y. same (truth (bit_and y m)) (q y)) 256 ≡ true
    → (x : ℕ) → x < 256
    → truth (bit_and x m) ≡ q x
agree_below m q e x h =
    same→eq _ _ (holds_below_lem (λ y. same (truth (bit_and y m)) (q y)) 256 e x h)

-- A byte masked with one bit, as a condition.
pub byte_bit : (k x : ℕ) → k < 8 → x < 256 → truth (bit_and x (2 ^ k)) ≡ bit_at x k
unfolding holds_below
byte_bit zero x hk h = agree_below 1 (λ y. bit_at y 0) refl x h
byte_bit (suc zero) x hk h = agree_below 2 (λ y. bit_at y 1) refl x h
byte_bit (suc (suc zero)) x hk h = agree_below 4 (λ y. bit_at y 2) refl x h
byte_bit (suc (suc (suc zero))) x hk h = agree_below 8 (λ y. bit_at y 3) refl x h
byte_bit (suc (suc (suc (suc zero)))) x hk h = agree_below 16 (λ y. bit_at y 4) refl x h
byte_bit (suc (suc (suc (suc (suc zero))))) x hk h = agree_below 32 (λ y. bit_at y 5) refl x h
byte_bit (suc (suc (suc (suc (suc (suc zero)))))) x hk h = agree_below 64 (λ y. bit_at y 6) refl x h
byte_bit (suc (suc (suc (suc (suc (suc (suc zero))))))) x hk h =
    agree_below 128 (λ y. bit_at y 7) refl x h
byte_bit (suc (suc (suc (suc (suc (suc (suc (suc k)))))))) x hk h = absurd (omega arith)

-- Shifting a bit into a byte from the right.
pub bit_or-bit : (x : ℕ) (b : Bool) → x < 256 → bit_or (u8 (x * 2)) (to_ℕ b) ≡ u8 (x * 2) + to_ℕ b
unfolding holds_below
bit_or-bit x true h =
    (==_iff _ _).0 (holds_below_lem (λ y. bit_or (u8 (y * 2)) 1 == u8 (y * 2) + 1) 256 refl x h)
bit_or-bit x false h =
    (==_iff _ _).0 (holds_below_lem (λ y. bit_or (u8 (y * 2)) 0 == u8 (y * 2) + 0) 256 refl x h)

-- The low nibble.
pub bit_and-nibble : (x : ℕ) → x < 256 → bit_and x 15 ≡ x % 16
unfolding holds_below
bit_and-nibble x h = (==_iff _ _).0 (holds_below_lem (λ y. bit_and y 15 == y % 16) 256 refl x h)

-- Two nibbles joined.
pub bit_or-nibbles : (hi lo : ℕ) → hi < 16 → lo < 16 → bit_or (hi * 16) lo ≡ hi * 16 + lo
unfolding holds_below
bit_or-nibbles hi lo hh hl =
    ap₂ (λ h l. bit_or (h * 16) l) (sym hi_part) (sym lo_part)
    ∙ (==_iff _ _).0 (
        holds_below_lem (λ y. bit_or (y / 16 * 16) (y % 16) == y) 256 refl (hi * 16 + lo)
          (omega arith))
  where
    hi_part : (hi * 16 + lo) / 16 ≡ hi
    hi_part = omega arith

    lo_part : (hi * 16 + lo) % 16 ≡ lo
    lo_part = omega arith

-- The two top bits of a byte.
pub bit_and_top : (x : ℕ) → x < 256 → bit_and x 192 ≡ x / 64 * 64
unfolding holds_below
bit_and_top x h = (==_iff _ _).0 (holds_below_lem (λ y. bit_and y 192 == y / 64 * 64) 256 refl x h)

pub bit_or-zero : (x : ℕ) → x < 256 → bit_or x 0 ≡ x
unfolding holds_below
bit_or-zero x h = (==_iff _ _).0 (holds_below_lem (λ y. bit_or y 0 == y) 256 refl x h)

pub to_ℕ-le_one : (b : Bool) → to_ℕ b ≤ 1
to_ℕ-le_one true = omega arith
to_ℕ-le_one false = omega arith

pub to_ℕ-truth_bit : (q : ℕ) → q < 2 → to_ℕ (q == 1) ≡ q
to_ℕ-truth_bit q h = ground arith

pub bit_and-one : (x : ℕ) → x < 256 → bit_and x 1 ≡ x % 2
unfolding holds_below
bit_and-one x h = (==_iff _ _).0 (holds_below_lem (λ y. bit_and y 1 == y % 2) 256 refl x h)

pub below_top : (x : ℕ) → x < 256 → truth (bit_and x 128) ≡ false → x < 128
below_top x h e = ground (arith, byte_bit 7 x (omega arith) h)

pub bit_or_top : (x : ℕ) → x < 256 → 128 ≤ bit_or x 128
unfolding holds_below
bit_or_top x h = ground (arith, holds_below_lem (λ y. leb 128 (bit_or y 128)) 256 refl x h)

-- Setting the top bit of a number below it.
pub bit_or_high : (x : ℕ) → x < 128 → bit_or x 128 ≡ 128 + x
unfolding holds_below
bit_or_high x h = ground (arith, holds_below_lem (λ y. bit_or y 128 == 128 + y) 128 refl x h)
