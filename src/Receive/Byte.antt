-- ===== src/Receive/Byte.antt =====
-- A byte sent most significant bit first arrives whole.
use avr_cec.Common.{
  ℕ, ◌+◌, ◌*◌, ◌/◌, ◌%◌, ◌≤◌, ◌<◌, ◌≡◌, refl, ap, ◌∙◌, arith, bit_and, Bool, true, false, List, [],
  ◌∷◌, ◌++◌, ◌==◌, truth, to_ℕ, bit_at, byte_bit, bit_or-bit, to_ℕ-truth_bit,
}
use mathlib.Core.List.{append_assoc}
use avr_cec.Transmit.Layout.{bits_from}
use avr_cec.Receive.State.{
  no_flags, Rx, Flags, any_flag, data_bit, finish_byte, judge_byte, shift_in,
}
use avr_cec.Receive.Decode.{rx_bit, rx_feed}

-- A number with the bits put in from the right.
abbrev pub shifts : ℕ → List Bool → ℕ
shifts v [] = v
shifts v (b ∷ bs) = shifts (v * 2 + to_ℕ b) bs

pub le-shifts : (v : ℕ) (bs : List Bool) → v ≤ shifts v bs
le-shifts v [] = omega arith
le-shifts v (b ∷ bs) = omega (arith, le-shifts (v * 2 + to_ℕ b) bs)

shift_in_lem : (v : ℕ) (b : Bool) → v < 128 → shift_in v b ≡ v * 2 + to_ℕ b
unfolding shift_in
shift_in_lem v b h = omega (arith, bit_or-bit v b (omega arith))

top_bit : (v : ℕ) → v < 256 → truth (bit_and v 128) ≡ (v / 128 % 2 == 1)
top_bit v h = byte_bit 7 v (omega arith) h

-- The receive side is in the middle of a byte.
abbrev pub IsData : Rx → Type 0
IsData r = (r.flags.bits_eom ≡ true) × (0 < r.byte)

pub rx_bit_shift :
    (own : ℕ → Bool) (b : Bool) (r : Rx)
    → IsData r
    → r.byte < 128
    → rx_bit own b r ≡ record r { byte = r.byte * 2 + to_ℕ b }
unfolding rx_bit data_bit
rx_bit_shift own b r d h = ground (arith, d, top_bit r.byte, shift_in_lem r.byte b)

pub any_flag_bits : (f : Flags) → f.bits_eom ≡ true → any_flag f ≡ true
unfolding any_flag
any_flag_bits f e = ground arith

pub none_of_no_flag : (f : Flags) → any_flag f ≡ false → f ≡ no_flags
unfolding any_flag
none_of_no_flag f h = ground arith

pub any_flag_active : (f : Flags) → f.active ≡ true → any_flag f ≡ true
unfolding any_flag
any_flag_active f e = ground arith

pub rx_feed-cons :
    (own : ℕ → Bool) (b : Bool) (bs : List Bool) (r : Rx)
    → any_flag r.flags ≡ true
    → rx_feed own (b ∷ bs) r ≡ rx_feed own bs (rx_bit own b r)
unfolding rx_feed
rx_feed-cons own b bs r e = rw e

pub rx_feed-off :
    (own : ℕ → Bool) (bs : List Bool) (r : Rx) → any_flag r.flags ≡ false → rx_feed own bs r ≡ r
unfolding rx_feed
rx_feed-off own [] r off = refl
rx_feed-off own (b ∷ bs) r off = rw off

data_run :
    (own : ℕ → Bool) (bs rest : List Bool) (r : Rx)
    → IsData r
    → shifts r.byte bs < 256
    → rx_feed own (bs ++ rest) r ≡ rx_feed own rest (record r { byte = shifts r.byte bs })
data_run own [] rest r d h = refl
data_run own (b ∷ bs) rest r d h =
    rx_feed-cons own b (bs ++ rest) r (any_flag_bits r.flags d.0)
    ∙ ap (rx_feed own (bs ++ rest))
        (rx_bit_shift own b r d (omega (arith, le-shifts (r.byte * 2 + to_ℕ b) bs)))
    ∙ data_run own bs rest (record r { byte = r.byte * 2 + to_ℕ b }) (d.0, omega arith) h

-- The first seven bits of a byte, and the last.
pub bits_from_split : (x : ℕ) → bits_from 8 x ≡ bits_from 7 (x / 2) ++ (bit_at x 0 ∷ [])
bits_from_split x = ground arith

pub shifts_seven : (x : ℕ) → x < 256 → shifts 1 (bits_from 7 (x / 2)) ≡ 128 + x / 2
shifts_seven x h =
    rw
      (
        digit (x / 2 / 64 % 2) (omega arith),
        digit (x / 2 / 32 % 2) (omega arith),
        digit (x / 2 / 16 % 2) (omega arith),
        digit (x / 2 / 8 % 2) (omega arith),
        digit (x / 2 / 4 % 2) (omega arith),
        digit (x / 2 / 2 % 2) (omega arith),
        digit (x / 2 / 1 % 2) (omega arith),
      )
      (omega arith)
  where
    digit : (q : ℕ) → q < 2 → to_ℕ (q == 1) ≡ q
    digit = to_ℕ-truth_bit

finish_byte-byte :
    (own : ℕ → Bool) (r : Rx) (v x : ℕ)
    → finish_byte own (record r { byte = v }) x ≡ finish_byte own r x
unfolding finish_byte judge_byte
finish_byte-byte own r v x = refl

shift_in_last : (x : ℕ) → x < 256 → shift_in (128 + x / 2) (bit_at x 0) ≡ x
unfolding shift_in
shift_in_last x h = omega (
  arith,
  bit_or-bit (128 + x / 2) (bit_at x 0) (omega arith),
  to_ℕ-truth_bit (x / 1 % 2) (omega arith),
)

pub rx_bit_last :
    (own : ℕ → Bool) (x : ℕ) (r : Rx)
    → r.flags.bits_eom ≡ true
    → x < 256
    → rx_bit own (bit_at x 0) (record r { byte = 128 + x / 2 }) ≡ finish_byte own r x
unfolding rx_bit data_bit
rx_bit_last own x r e h = ground (
  arith,
  e,
  top_bit (128 + x / 2) (omega arith),
  shift_in_last x h,
  finish_byte-byte own r (128 + x / 2) x,
)

-- The eight bits of a byte, from its preloaded bit on, come to `finish_byte` with that byte.
pub rx_feed-byte :
    (own : ℕ → Bool) (x : ℕ) (rest : List Bool) (r : Rx)
    → r.flags.bits_eom ≡ true
    → r.byte ≡ 1
    → x < 256
    → rx_feed own (bits_from 8 x ++ rest) r ≡ rx_feed own rest (finish_byte own r x)
rx_feed-byte own x rest r e one h =
    ap (λ l. rx_feed own (l ++ rest) r) (bits_from_split x)
    ∙ ap (λ l. rx_feed own l r) (append_assoc seven (last ∷ []) rest)
    ∙ data_run own seven (last ∷ rest) r (e, omega arith) (rw value (omega arith))
    ∙ ap (λ v. rx_feed own (last ∷ rest) (record r { byte = v })) value
    ∙ rx_feed-cons own last rest _ (any_flag_bits r.flags e)
    ∙ ap (rx_feed own rest) (rx_bit_last own x r e h)
  where
    last : Bool
    last = bit_at x 0

    seven : List Bool
    seven = bits_from 7 (x / 2)

    value : shifts r.byte seven ≡ 128 + x / 2
    value = rw one (shifts_seven x h)
