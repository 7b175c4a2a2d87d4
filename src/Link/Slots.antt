-- ===== src/Link/Slots.antt =====
-- The ack slots of a message: what a driver sends for its bits, with the followers' part in the
-- slots, and the bits up to a slot.
use avr_cec.Common.{
  zero, suc, ◌*◌, ◌≤◌, sym, ◌∙◌, take, ◌==◌, ◌&&◌, ℕ, ◌<◌, ◌≡◌, refl, ap, ap₂, arith, Bool, true,
  false, List, [], ◌∷◌, ◌++◌, length,
}
use avr_cec.Transmit.Layout.{bits_from, frame, frames}
use avr_cec.Transmit.Sender.{shown}
use avr_cec.Receive.Frame.{wire, wire_to, wire_frame}

-- `pull` is what the followers make of what the initiator sends in an ack slot; they leave everything
-- else to the initiator.
abbrev pub followed : {A : Type 0} → (A → A) → List A → List A
followed pull [] = []
followed pull (a ∷ b ∷ c ∷ d ∷ e ∷ f ∷ g ∷ h ∷ eom ∷ ack ∷ rest) =
    a ∷ b ∷ c ∷ d ∷ e ∷ f ∷ g ∷ h ∷ eom ∷ pull ack ∷ followed pull rest
followed pull l = l

module _ {A : Type 0} (show : Bool → A) where
  pub followed-frames :
      (pull : A → A) (slot : Bool) (m : List ℕ)
      → pull (show true) ≡ show slot
      → followed pull (shown show (frames true m)) ≡ shown show (wire slot m)
  unfolding frame
  followed-frames pull slot [] e = refl
  followed-frames pull slot (x ∷ []) e =
      ap (λ y. shown show (bits_from 8 x) ++ (show true ∷ y ∷ [])) e
  followed-frames pull slot (x ∷ y ∷ m) e =
      ap₂ (λ z r. shown show (bits_from 8 x) ++ (show false ∷ z ∷ r)) e
        (followed-frames pull slot (y ∷ m) e)

  pub shown-append : (a b : List Bool) → shown show (a ++ b) ≡ shown show a ++ shown show b
  shown-append [] b = refl
  shown-append (x ∷ a) b = ap (λ l. show x ∷ l) (shown-append a b)

pub wire_pos :
    (slot : Bool) (m : List ℕ) (rest : List Bool) → 0 < length m → 0 < length (wire slot m ++ rest)
wire_pos slot [] rest h = absurd (omega arith)
wire_pos slot (x ∷ []) rest h = omega arith
wire_pos slot (x ∷ y ∷ m) rest h = omega arith

-- The bits of a message up to its last ack slot.
abbrev pub before_slot : Bool → Bool → List ℕ → List Bool
before_slot slot eom [] = []
before_slot slot eom (x ∷ []) = bits_from 8 x ++ (eom ∷ [])
before_slot slot eom (x ∷ y ∷ m) = wire_frame false slot x ++ before_slot slot eom (y ∷ m)

pub wire_to-before_slot :
    (slot eom last : Bool) (m : List ℕ)
    → 0 < length m
    → wire_to slot eom last m ≡ before_slot slot eom m ++ (last ∷ [])
wire_to-before_slot slot eom last [] h = absurd (omega arith)
wire_to-before_slot slot eom last (x ∷ []) h = refl
wire_to-before_slot slot eom last (x ∷ y ∷ m) h =
    ap (λ l. wire_frame false slot x ++ l) (wire_to-before_slot slot eom last (y ∷ m) (omega arith))

pub before_slot_pos :
    (slot eom : Bool) (m : List ℕ) → 0 < length m → 0 < length (before_slot slot eom m)
before_slot_pos slot eom [] h = absurd (omega arith)
before_slot_pos slot eom (x ∷ []) h = omega arith
before_slot_pos slot eom (x ∷ y ∷ m) h = omega arith

pub length-before_slot :
    (slot eom : Bool) (m : List ℕ)
    → 0 < length m
    → suc (length (before_slot slot eom m)) ≡ 10 * length m
length-before_slot slot eom [] h = absurd (omega arith)
length-before_slot slot eom (x ∷ []) h = refl
length-before_slot slot eom (x ∷ y ∷ m) h =
    omega (arith, length-before_slot slot eom (y ∷ m) (omega arith))

-- The bits that a host sends, up to its last ack slot.
pub frames-before_slot :
    (eom : Bool) (m : List ℕ) → 0 < length m → frames eom m ≡ before_slot true eom m ++ (true ∷ [])
unfolding frame
frames-before_slot eom [] h = absurd (omega arith)
frames-before_slot eom (x ∷ []) h = refl
frames-before_slot eom (x ∷ y ∷ m) h =
    ap (λ l. wire_frame false true x ++ l) (frames-before_slot eom (y ∷ m) (omega arith))

-- ... and up to the ack slot of the `k`th byte.
pub frames-slot :
    (eom e : Bool) (k : ℕ) (m : List ℕ)
    → 0 < k
    → k ≤ length m
    → e ≡ (k == length m && eom)
    → (rest : List Bool) × (frames eom m ≡ before_slot true e (take k m) ++ (true ∷ rest))
unfolding frame
frames-slot eom e zero m h w q = absurd (omega arith)
frames-slot eom e (suc k) [] h w q = absurd (omega arith)
frames-slot eom e (suc zero) (x ∷ []) h w q =
    ([], ap (λ b. bits_from 8 x ++ (b ∷ true ∷ [])) (sym q))
frames-slot eom e (suc (suc k)) (x ∷ []) h w q = absurd (omega (arith, w))
frames-slot eom e (suc zero) (x ∷ y ∷ m) h w q =
    let off : false ≡ e = ground (arith, q) in
    (frames eom (y ∷ m), ap (λ b. bits_from 8 x ++ (b ∷ true ∷ frames eom (y ∷ m))) off)
frames-slot eom e (suc (suc k)) (x ∷ y ∷ m) h w q =
    let (rest, p) =
      frames-slot eom e (suc k) (y ∷ m) (omega arith) (omega (arith, w)) (q ∙ ground arith) in
    (rest, ap (λ l. wire_frame false true x ++ l) p)
