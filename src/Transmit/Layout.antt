-- ===== src/Transmit/Layout.antt =====
-- The layout of a message on the line.
use avr_cec.Common.{ℕ, zero, suc, Bool, true, false, List, [], ◌∷◌, ◌++◌, length, ltb, bit_at}

-- The low `k` bits of a byte, highest first.
abbrev pub bits_from : ℕ → ℕ → List Bool
bits_from zero x = []
bits_from (suc k) x = bit_at x k ∷ bits_from k x

-- A byte on the line: eight bits, the end-of-message bit, and the ack slot, sent as a one.
unfoldable pub frame : Bool → ℕ → List Bool
frame eom x = bits_from 8 x ++ (eom ∷ true ∷ [])

-- The frames of a message; only the last one can carry the end-of-message bit.
abbrev pub frames : Bool → List ℕ → List Bool
frames eom [] = []
frames eom (x ∷ []) = frame eom x
frames eom (x ∷ y ∷ r) = frame false x ++ frames eom (y ∷ r)

-- A message of one byte is a poll, which is sent with no end-of-message bit.
abbrev pub message_bits : List ℕ → List Bool
message_bits l = frames (ltb 1 (length l)) l
