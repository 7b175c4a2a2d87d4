-- ===== src/Link/Hears.antt =====
-- What a host hears of its own message, for the receive engine: its own bits, and in the ack slots
-- what the followers make of them.
use avr_cec.Common.{
  ℕ, suc, ◌+◌, ◌*◌, ◌/◌, ◌%◌, ◌≤◌, ◌<◌, ◌≡◌, ◌⊎◌, inl, inr, refl, ap, ◌∙◌, subst, sym, arith, Bool,
  true, false, not, List, [], ◌∷◌, ◌++◌, length, get_or, if◌then◌else◌, ◌==◌, to_ℕ, IsBytes, bit_at,
}
use mathlib.Core.List.{append_assoc}
use avr_cec.Transmit.Layout.{bits_from}
use avr_cec.Receive.State.{Rx, any_flag, finish_byte}
use avr_cec.Receive.Decode.{rx_bit}
use avr_cec.Receive.Byte.{
  IsData, shifts, le-shifts, rx_bit_shift, any_flag_bits, any_flag_active, bits_from_split,
  shifts_seven, rx_bit_last,
}
use avr_cec.Receive.Frame.{
  IsReceiving, after_eom, after_byte_clear, next_byte, finish_byte_lem, eom_step, slot_more,
  next_byte-IsReceiving, data_active,
}
use avr_cec.Link.Slots.{before_slot, before_slot_pos}

-- What the receive side hears of its own bit `b`, with `bs` to come: that bit, or in an ack slot before
-- the last one an acknowledgement.
abbrev pub IsHeard : Bool → Bool → List Bool → Rx → Type 0
IsHeard b h bs r =
    ((r.flags.bits_eom ≡ true) × (h ≡ b))
    ⊎ ((r.flags.bits_eom ≡ false) × ((if r.flags.bcast then h else not h) ≡ true) × (0 < length bs))

-- The receive side goes from `r` to `r'`, active all the time, when `bs` is sent and `hs` is heard.
unfoldable pub Hears : (ℕ → Bool) → List Bool → List Bool → Rx → Rx → Type 0
Hears own [] [] r r' = r ≡ r'
Hears own [] (h ∷ hs) r r' = ⊥
Hears own (b ∷ bs) [] r r' = ⊥
Hears own (b ∷ bs) (h ∷ hs) r r' =
    (any_flag r.flags ≡ true) × IsHeard b h bs r × Hears own bs hs (rx_bit own h r) r'

-- The receive side is at the last ack slot of its own message.
pub record IsAtSlot (bc : Bool) (r : Rx) : Type 0 where
  pub slot : r.flags.bits_eom ≡ false
  pub active : r.flags.active ≡ true
  pub bcast : r.flags.bcast ≡ bc

module _ (own : ℕ → Bool) where
  pub nil_heard : (r : Rx) → Hears own [] [] r r
  unfolding Hears
  nil_heard r = refl

  pub bit_heard :
      (b : Bool) (bs hs : List Bool) (r s r' : Rx)
      → r.flags.bits_eom ≡ true
      → rx_bit own b r ≡ s
      → Hears own bs hs s r'
      → Hears own (b ∷ bs) (b ∷ hs) r r'
  unfolding Hears
  bit_heard b bs hs r s r' e n w =
      (any_flag_bits r.flags e, inl (e, refl), subst (λ u. Hears own bs hs u r') (sym n) w)

  data_heard :
      (l bs hs : List Bool) (r r' : Rx)
      → IsData r
      → shifts r.byte l < 256
      → Hears own bs hs (record r { byte = shifts r.byte l }) r'
      → Hears own (l ++ bs) (l ++ hs) r r'
  data_heard [] bs hs r r' d h w = w
  data_heard (b ∷ l) bs hs r r' d h w =
      bit_heard b (l ++ bs) (l ++ hs) r (record r { byte = r.byte * 2 + to_ℕ b }) r' d.0
        (rx_bit_shift own b r d (omega (arith, le-shifts (r.byte * 2 + to_ℕ b) l)))
        (data_heard l bs hs (record r { byte = r.byte * 2 + to_ℕ b }) r' (d.0, omega arith) h w)

  byte_split :
      (x : ℕ) (l : List Bool) → bits_from 8 x ++ l ≡ bits_from 7 (x / 2) ++ (bit_at x 0 ∷ l)
  byte_split x l =
      ap (λ m. m ++ l) (bits_from_split x) ∙ append_assoc (bits_from 7 (x / 2)) (bit_at x 0 ∷ []) l

  pub byte_heard :
      (x : ℕ) (bs hs : List Bool) (r r' : Rx)
      → r.flags.bits_eom ≡ true
      → r.byte ≡ 1
      → x < 256
      → Hears own bs hs (finish_byte own r x) r'
      → Hears own (bits_from 8 x ++ bs) (bits_from 8 x ++ hs) r r'
  byte_heard x bs hs r r' e one h w =
      subst (λ l. Hears own l (bits_from 8 x ++ hs) r r') (sym (byte_split x bs))
        (subst (λ l. Hears own (seven ++ (bit_at x 0 ∷ bs)) l r r') (sym (byte_split x hs))
          (data_heard seven (bit_at x 0 ∷ bs) (bit_at x 0 ∷ hs) r r' (e, omega arith)
            (rw value (omega arith))
            (bit_heard (bit_at x 0) bs hs (record r { byte = shifts r.byte seven })
              (finish_byte own r x) r' e (rw value (rx_bit_last own x r e h)) w)))
    where
      seven : List Bool
      seven = bits_from 7 (x / 2)

      value : shifts r.byte seven ≡ 128 + x / 2
      value = rw one (shifts_seven x h)

  module _ (bc : Bool) where
    frame_heard :
        (e : Bool) (j x : ℕ) (bs hs : List Bool) (r r' : Rx)
        → IsReceiving bc j r
        → j < 16
        → x < 256
        → (j ≡ 0 → bc ≡ (x % 16 == 15))
        → Hears own bs hs (after_eom own bc e j x r) r'
        → Hears own (bits_from 8 x ++ (e ∷ bs)) (bits_from 8 x ++ (e ∷ hs)) r r'
    frame_heard e j x bs hs r r' v h hx hb w =
        byte_heard x (e ∷ bs) (e ∷ hs) r r' v.bits v.fresh hx (
          subst (λ u. Hears own (e ∷ bs) (e ∷ hs) u r')
            (sym (finish_byte_lem own bc j x r v h hx hb))
            (bit_heard e bs hs _ _ r' ((after_byte_clear own bc j x r.flags).3 ∙ v.bits)
              (eom_step own bc j x r v h hx hb e) w))

    slot_heard :
        (j x : ℕ) (bs hs : List Bool) (r r' : Rx)
        → IsReceiving bc j r
        → j < 16
        → x < 256
        → (j ≡ 0 → bc ≡ (x % 16 == 15))
        → 0 < length bs
        → Hears own bs hs (next_byte own bc j x r) r'
        → Hears own (true ∷ bs) (bc ∷ hs) (after_eom own bc false j x r) r'
    unfolding Hears
    slot_heard j x bs hs r r' v h hx hb p w = (
      any_flag_active _ (data_active own bc j x r v h hx hb),
      inr (refl, ground (arith, v.bcast, after_byte_clear own bc j x r.flags), p),
      subst (λ u. Hears own bs hs u r') (sym (slot_more own bc j x r v h hx hb)) w,
    )

    -- The receive side after a whole message but its last ack slot, the host's bits heard as they are
    -- and the frames acknowledged.
    pub message_heard :
        (eom : Bool) (m : List ℕ) (j : ℕ) (r : Rx)
        → 0 < length m
        → j + length m ≤ 16
        → IsBytes m
        → (j ≡ 0 → bc ≡ (get_or m 0 0 % 16 == 15))
        → IsReceiving bc j r
        → (r' : Rx) × Hears own (before_slot true eom m) (before_slot bc eom m) r r'
          × IsAtSlot bc r'
    message_heard eom [] j r pos h hm hb v = absurd (omega arith)
    message_heard eom (x ∷ []) j r pos h hm hb v = (
      after_eom own bc eom j x r,
      frame_heard eom j x [] [] r _ v (omega arith) (hm 0) hb (nil_heard _),
      record {
        slot = refl;
        active = data_active own bc j x r v (omega arith) (hm 0) hb;
        bcast = ground (arith, v.bcast, hb, after_byte_clear own bc j x r.flags);
      },
    )
    message_heard eom (x ∷ y ∷ m) j r pos h hm hb v =
        let (r', w, a) =
          message_heard eom (y ∷ m) (suc j) (next_byte own bc j x r) (omega arith) (omega arith)
            (λ i. hm (suc i)) (λ e. absurd (omega arith))
            (next_byte-IsReceiving own bc j x r v (omega arith) (hm 0) hb) in
        (
          r',
          frame_heard false j x _ _ r r' v (omega arith) (hm 0) hb (
              slot_heard j x _ _ r r' v (omega arith) (hm 0) hb
                (before_slot_pos true eom (y ∷ m) (omega arith)) w),
          a,
        )
