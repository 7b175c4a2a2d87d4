-- ===== src/Codes.antt =====
-- The tables of codes that the headers give the application: cec_keys.h and cec_msg.h. Here: how a code is
-- found in a table.
pub mod Keys
pub mod Messages
use avr_cec.Common.{
  ℕ, ◌≡◌, ◌↔◌, ap, ◌∙◌, sym, if◌then◌else◌, ◌==◌, List, [], ◌∷◌, Option, none, some,
}

-- The first entry of a table with a code.
unfoldable pub lookup : {A : Type 0} → (A → ℕ) → List A → ℕ → Option A
lookup code [] n = none
lookup code (x ∷ l) n = let rest = lookup code l n in if code x == n then some x else rest

-- Two entries have one code exactly if they are the same.
abbrev pub AreDistinct : {A : Type 0} → (A → ℕ) → Type 0
AreDistinct {A} code = (x y : A) → (code x ≡ code y) ↔ (x ≡ y)

abbrev from_option : {A : Type 0} → A → Option A → A
from_option d none = d
from_option d (some x) = x

-- Two entries with one code stand for the same entry of the table.
pub found_same :
    {A : Type 0} (code : A → ℕ) (table : List A) (first : A → A)
    → ((x : A) → lookup code table (code x) ≡ some (first x))
    → (x y : A) → code x ≡ code y
    → first x ≡ first y
found_same code table first found x y e =
    ap (from_option (first x)) (sym (found x) ∙ ap (lookup code table) e ∙ found y)

pub found_distinct :
    {A : Type 0} (code : A → ℕ) (table : List A)
    → ((x : A) → lookup code table (code x) ≡ some x)
    → AreDistinct code
found_distinct code table found x y = (found_same code table (λ z. z) found x y, ap code)
