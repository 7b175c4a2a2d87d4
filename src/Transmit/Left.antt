-- ===== src/Transmit/Left.antt =====
-- How far a transmission is: the calls of `cec_transmit_get_bit` that are left, and that the wait of
-- the transmit side does not matter to the bits.
use avr_cec.Common.{
  ℕ, zero, suc, ◌+◌, ◌-◌, ◌*◌, ◌^◌, ◌≤◌, ◌<◌, ◌≡◌, ◌≢◌, ◌⊎◌, inl, inr, refl, ap, ◌∙◌, arith, ◌∷◌,
  false,
}
use native.Mathlib.Nat.{one-le-pow}
use avr_cec.Transmit.{
  Config, Tx, State, idle, failed, pend, again, bit_eom, ack, wait_for_ack, is, start, get_bit,
  data_bit, control_bit,
}
use avr_cec.Transmit.Emit.{start_fields}
use avr_cec.Transmit.Frame.{emit, mask, mask_half}

-- How many more calls of `cec_transmit_get_bit` a transmission takes.
pub record IsLeft (t : Tx) (r : ℕ) : Type 0 where
  pub pos_in : t.buf_pos ≤ t.buf_end
  pub end_byte : t.buf_end < 256
  pub place :
      ((i : ℕ) × (i ≤ 8)
        × (t.buf_bit ≡ mask i)
        × (t.state ≡ bit_eom)
        × (r ≡ 10 * (t.buf_end - t.buf_pos) + i + 2))
      ⊎ ((t.buf_bit ≡ 0) × (t.state ≡ ack) × (r ≡ 10 * (t.buf_end - t.buf_pos) + 1))

module _ (c : Config) where
  -- What a call leaves alone, and the rest of what it does: at a data bit, ...
  record IsMoved (t u : Tx) (b p : ℕ) (s : State) : Type 0 where
    same_end : u.buf_end ≡ t.buf_end
    next_bit : u.buf_bit ≡ b
    next_pos : u.buf_pos ≡ p
    next_state : u.state ≡ s

  at_data :
      (i : ℕ) (t : Tx) → t.buf_bit ≡ 2 ^ i → IsMoved t (get_bit c t).0 (mask i) t.buf_pos t.state
  unfolding get_bit data_bit
  at_data i t b = ground (arith, b, one-le-pow i 2, mask_half i)

  -- ... at the end-of-message bit ...
  at_eom : (t : Tx) → t.buf_bit ≡ 0 → t.state ≡ bit_eom → IsMoved t (get_bit c t).0 0 t.buf_pos ack
  unfolding get_bit control_bit
  at_eom t b s = ground arith

  -- ... and at the ack bit of a frame before the last.
  at_ack :
      (t : Tx)
      → t.buf_bit ≡ 0
      → t.state ≡ ack
      → t.buf_pos < t.buf_end
      → t.buf_end < 256
      → IsMoved t (get_bit c t).0 128 (t.buf_pos + 1) bit_eom
  unfolding get_bit control_bit
  at_ack t b s h e = ground arith

  -- A call in the middle of a transmission.
  pub IsLeft-step :
      (t : Tx) (r : ℕ)
      → IsLeft t (suc (suc r))
      → IsLeft (get_bit c t).0 (suc r) × ((get_bit c t).0.state ≢ wait_for_ack)
  unfolding mask
  IsLeft-step t r v = at_place v.place
    where
      at_place :
          ((i : ℕ) × (i ≤ 8)
              × (t.buf_bit ≡ mask i)
              × (t.state ≡ bit_eom)
              × (suc (suc r) ≡ 10 * (t.buf_end - t.buf_pos) + i + 2))
            ⊎ ((t.buf_bit ≡ 0) × (t.state ≡ ack) × (suc (suc r) ≡ 10 * (t.buf_end - t.buf_pos) + 1))
          → IsLeft (get_bit c t).0 (suc r) × ((get_bit c t).0.state ≢ wait_for_ack)
      at_place (inl (zero, h, b, s, e)) =
          let m = at_eom t b s in
          (
            record {
              pos_in = omega (arith, v.pos_in, m.same_end, m.next_pos);
              end_byte = omega (arith, v.end_byte, m.same_end);
              place = inr (m.next_bit, m.next_state, omega (arith, e, m.same_end, m.next_pos));
            },
            λ z. cc (z, m.next_state),
          )
      at_place (inl (suc i, h, b, s, e)) =
          let m = at_data i t b in
          (
            record {
              pos_in = omega (arith, v.pos_in, m.same_end, m.next_pos);
              end_byte = omega (arith, v.end_byte, m.same_end);
              place = inl (
                i,
                omega arith,
                m.next_bit,
                m.next_state ∙ s,
                omega (arith, e, m.same_end, m.next_pos),
              );
            },
            λ z. cc (z, m.next_state, s),
          )
      at_place (inr (b, s, e)) =
          let m = at_ack t b s (omega (arith, e, v.pos_in)) v.end_byte in
          (
            record {
              pos_in = omega (arith, e, v.pos_in, m.same_end, m.next_pos);
              end_byte = omega (arith, v.end_byte, m.same_end);
              place = inl (
                8,
                omega arith,
                m.next_bit,
                m.next_state,
                omega (arith, e, m.same_end, m.next_pos),
              );
            },
            λ z. cc (z, m.next_state),
          )

  -- The last call.
  pub IsLeft-last : (t : Tx) → IsLeft t 1 → (get_bit c t).0.state ≡ wait_for_ack
  unfolding get_bit data_bit control_bit mask
  IsLeft-last t v = ground (arith, v.place)

  -- The wait does not matter to the bits.
  get_bit_wait :
      (t : Tx) (w : ℕ)
      → (w' : ℕ) × (get_bit c (record t { needed_idle = w })
          ≡ (let u = (get_bit c t).0 in record u { needed_idle = w' }, (get_bit c t).1))
  unfolding get_bit data_bit control_bit
  get_bit_wait t w = ((get_bit c (record t { needed_idle = w })).0.needed_idle, ground arith)

  pub emit_wait :
      (j : ℕ) (t : Tx) (w : ℕ) → (emit c j (record t { needed_idle = w })).1 ≡ (emit c j t).1
  unfolding emit
  emit_wait zero t w = refl
  emit_wait (suc j) t w =
      let g = get_bit_wait t w in
      rw g.1 (ap (λ l. (get_bit c t).1 ∷ l) (emit_wait j (get_bit c t).0 g.0))

  pub start-IsLeft : (t : Tx) → t.buf_end < 256 → IsLeft (start c t) (suc (9 + 10 * t.buf_end))
  unfolding mask
  start-IsLeft t h =
      let (bit, state, pos, buf, end) = start_fields c t in
      record {
        pos_in = omega (arith, pos);
        end_byte = omega (arith, h, end);
        place = inl (8, omega arith, bit, state, omega (arith, pos, end));
      }

pub is_wait_for_ack : (s : State) → s ≢ wait_for_ack → is s wait_for_ack ≡ false
is_wait_for_ack wait_for_ack h = absurd (h refl)
is_wait_for_ack idle h = refl
is_wait_for_ack failed h = refl
is_wait_for_ack pend h = refl
is_wait_for_ack again h = refl
is_wait_for_ack bit_eom h = refl
is_wait_for_ack ack h = refl
