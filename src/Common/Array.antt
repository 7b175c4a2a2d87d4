-- ===== src/Common/Array.antt =====
-- C arrays as lists with native indices.
use Prim.Native.Nat.{ℕ, zero, suc, ◌+◌, ◌<◌, ◌≤◌}
use mathlib.Core.Path.{◌≡◌, refl, ap, ap₂, ◌∙◌}
use mathlib.Core.Logic.{◌≢◌}
use mathlib.Core.List.{List, [], ◌∷◌, ◌++◌}
use native.Mathlib.Numerals.{add-one}
use native.Mathlib.Omega.{arith}

module _ {ℓ} {A : Type ℓ} where
  abbrev pub length : List A → ℕ
  length [] = 0
  length (x ∷ xs) = suc (length xs)

  abbrev pub get_or : List A → ℕ → A → A
  get_or [] i d = d
  get_or (x ∷ xs) zero d = x
  get_or (x ∷ xs) (suc i) d = get_or xs i d

  -- A write out of bounds changes nothing; where the source writes, the index is proved in range.
  abbrev pub set : List A → ℕ → A → List A
  set [] i v = []
  set (x ∷ xs) zero v = v ∷ xs
  set (x ∷ xs) (suc i) v = x ∷ set xs i v

  abbrev pub take : ℕ → List A → List A
  take zero xs = []
  take (suc n) [] = []
  take (suc n) (x ∷ xs) = x ∷ take n xs

  abbrev pub drop : ℕ → List A → List A
  drop zero xs = xs
  drop (suc n) [] = []
  drop (suc n) (x ∷ xs) = drop n xs

  pub length-set : (xs : List A) (i : ℕ) (v : A) → length (set xs i v) ≡ length xs
  length-set [] i v = refl
  length-set (x ∷ xs) zero v = refl
  length-set (x ∷ xs) (suc i) v = ap suc (length-set xs i v)

  pub length-append : (xs ys : List A) → length (xs ++ ys) ≡ length xs + length ys
  length-append [] ys = omega arith
  length-append (x ∷ xs) ys = omega (arith, length-append xs ys)

  pub get_or-set_self :
      (xs : List A) (i : ℕ) (v d : A) → i < length xs → get_or (set xs i v) i d ≡ v
  get_or-set_self [] i v d h = absurd (omega arith)
  get_or-set_self (x ∷ xs) zero v d h = refl
  get_or-set_self (x ∷ xs) (suc i) v d h = get_or-set_self xs i v d (omega arith)

  pub get_or-set_ne :
      (xs : List A) (i j : ℕ) (v d : A) → i ≢ j → get_or (set xs i v) j d ≡ get_or xs j d
  get_or-set_ne [] i j v d h = refl
  get_or-set_ne (x ∷ xs) zero zero v d h = absurd (h refl)
  get_or-set_ne (x ∷ xs) zero (suc j) v d h = refl
  get_or-set_ne (x ∷ xs) (suc i) zero v d h = refl
  get_or-set_ne (x ∷ xs) (suc i) (suc j) v d h = get_or-set_ne xs i j v d (λ e. h (ap suc e))

-- Every element is a byte.
abbrev pub IsBytes : List ℕ → Type 0
IsBytes l = (i : ℕ) → get_or l i 0 < 256

pub zeros-IsBytes : IsBytes []
zeros-IsBytes i = omega arith

pub cons-IsBytes : (x : ℕ) (l : List ℕ) → x < 256 → IsBytes l → IsBytes (x ∷ l)
cons-IsBytes x l h t zero = h
cons-IsBytes x l h t (suc i) = t i

-- The `n` elements from index `i` on.
abbrev pub slice : List ℕ → ℕ → ℕ → List ℕ
slice l i zero = []
slice l i (suc n) = get_or l i 0 ∷ slice l (i + 1) n

slice-cons : (x : ℕ) (l : List ℕ) (i n : ℕ) → slice (x ∷ l) (i + 1) n ≡ slice l i n
slice-cons x l i zero = refl
slice-cons x l i (suc n) =
    ap₂ ◌∷◌ (ap (λ k. get_or (x ∷ l) k 0) (add-one i)) (slice-cons x l (i + 1) n)

pub slice-eq-take : (l : List ℕ) (n : ℕ) → n ≤ length l → slice l 0 n ≡ take n l
slice-eq-take l zero h = refl
slice-eq-take [] (suc n) h = absurd (omega arith)
slice-eq-take (x ∷ l) (suc n) h =
    ap (λ r. x ∷ r) (slice-cons x l 0 n ∙ slice-eq-take l n (omega arith))

pub length-take_le {ℓ} : {A : Type ℓ} (n : ℕ) (l : List A) → n ≤ length l → length (take n l) ≡ n
length-take_le zero l h = refl
length-take_le (suc n) [] h = absurd (omega arith)
length-take_le (suc n) (x ∷ l) h = ap suc (length-take_le n l (omega arith))
