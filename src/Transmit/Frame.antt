-- ===== src/Transmit/Frame.antt =====
-- What the calls of `cec_transmit_get_bit` return for one byte of the message.
use avr_cec.Common.{
  ℕ, zero, suc, ◌+◌, ◌/◌, ◌^◌, ◌≤◌, ◌<◌, ◌≡◌, refl, ap, ◌∙◌, arith, Bool, true, ◌&&◌, List, [], ◌∷◌,
  ◌++◌, get_or, if◌then◌else◌, ◌==◌, truth, u8, bit_at, byte_bit,
}
use avr_cec.Spec.{present_period_wait}
use avr_cec.Transmit.{Config, Tx, bit_eom, wait_for_ack, get_bit, push_last}
use native.Mathlib.Nat.{pow-suc, one-le-pow}
use avr_cec.Transmit.Layout.{bits_from, frame}

-- The mask of bit `k - 1`, and 0 behind the lowest bit.
unfoldable pub mask : ℕ → ℕ
mask zero = 0
mask (suc k) = 2 ^ k

pub mask_half : (k : ℕ) → 2 ^ k / 2 ≡ mask k
unfolding mask
mask_half zero = refl
mask_half (suc k) = omega (arith, pow-suc 2 k)

module _ (c : Config) where
  -- `k` calls of `cec_transmit_get_bit`, and the bits that they return.
  unfoldable pub emit : ℕ → Tx → Tx × List Bool
  emit zero t = (t, [])
  emit (suc k) t = let (t', b) = get_bit c t in let (u, l) = emit k t' in (u, b ∷ l)

  -- `transmit_last_bit` after the given bits.
  abbrev pub push_all : ℕ → List Bool → ℕ
  push_all l [] = l
  push_all l (b ∷ bs) = push_all (push_last c l b) bs

  pub emit_add :
      (m k n : ℕ) (t : Tx)
      → n ≡ m + k
      → emit n t ≡ (let (t', l) = emit m t in let (u, l') = emit k t' in (u, l ++ l'))
  unfolding emit
  emit_add zero k n t e = rw (let e' : n ≡ k = omega arith in e')
  emit_add (suc m) k n t e =
      rw (let e' : n ≡ suc (m + k) = omega arith in e')
        (rw (emit_add m k (m + k) (get_bit c t).0 refl))

  -- One call put in front of `k` more.
  emit-suc :
      (k : ℕ) (t t' : Tx) (b : Bool)
      → get_bit c t ≡ (t', b)
      → emit (suc k) t ≡ ((emit k t').0, b ∷ (emit k t').1)
  unfolding emit
  emit-suc k t t' b e = ap (λ p. ((emit k p.0).0, p.1 ∷ (emit k p.0).1)) e

  get_bit_data :
      (k : ℕ) (t : Tx)
      → k < 8
      → t.buf_bit ≡ 2 ^ k
      → get_or t.buf t.buf_pos 0 < 256
      → get_bit c t ≡ (
        record t {
          buf_bit = mask k;
          last_bit = push_last c t.last_bit (bit_at (get_or t.buf t.buf_pos 0) k);
        },
        bit_at (get_or t.buf t.buf_pos 0) k,
      )
  unfolding get_bit
  get_bit_data k t h e hx =
      ground (arith, e, mask_half k, one-le-pow k 2, byte_bit k (get_or t.buf t.buf_pos 0) h hx)

  emit_data :
      (k : ℕ) (t : Tx)
      → k ≤ 8
      → t.buf_bit ≡ mask k
      → get_or t.buf t.buf_pos 0 < 256
      → emit k t ≡ (
        record t {
          buf_bit = 0;
          last_bit = push_all t.last_bit (bits_from k (get_or t.buf t.buf_pos 0));
        },
        bits_from k (get_or t.buf t.buf_pos 0),
      )
  unfolding mask emit
  emit_data zero t h e hx = ground arith
  emit_data (suc k) t h e hx =
      emit-suc k t _ _ (get_bit_data k t h e hx)
      ∙ ap (λ p. (p.0, bit_at (get_or t.buf t.buf_pos 0) k ∷ p.1))
          (emit_data k
            (record t {
              buf_bit = mask k;
              last_bit = push_last c t.last_bit (bit_at (get_or t.buf t.buf_pos 0) k);
            })
            (omega arith) refl hx)

  -- After a frame: the state for the next byte, or the end of the message.
  unfoldable pub next_frame : Tx → ℕ → Tx
  next_frame t l =
      if t.buf_end == t.buf_pos
      then record t {
        buf_bit = 0;
        last_bit = l;
        state = wait_for_ack;
        needed_idle = c.idle_wait present_period_wait;
      }
      else record t {
        buf_bit = 128;
        buf_pos = u8 (t.buf_pos + 1);
        last_bit = l;
        state = bit_eom;
        needed_idle = c.idle_wait present_period_wait;
      }

  abbrev pub eom_of : Tx → Bool
  eom_of t = t.buf_end == t.buf_pos && truth t.buf_end

  emit_controls :
      (t : Tx)
      → t.buf_bit ≡ 0
      → t.state ≡ bit_eom
      → emit 2 t ≡ (next_frame t (push_all t.last_bit (eom_of t ∷ true ∷ [])), eom_of t ∷ true ∷ [])
  unfolding emit get_bit next_frame
  emit_controls t e s = ground arith

  pub emit-frame :
      (t : Tx)
      → t.buf_bit ≡ 128
      → t.state ≡ bit_eom
      → get_or t.buf t.buf_pos 0 < 256
      → emit 10 t ≡ (
          let f = frame (eom_of t) (get_or t.buf t.buf_pos 0) in
          (next_frame t (push_all t.last_bit f), f))
  unfolding mask next_frame frame
  emit-frame t e s hx =
      emit_add 8 2 10 t refl
      ∙ ap (λ p. ((emit 2 p.0).0, p.1 ++ (emit 2 p.0).1)) (emit_data 8 t (omega arith) e hx)
      ∙ ap (λ p. (p.0, bits_from 8 (get_or t.buf t.buf_pos 0) ++ p.1)) (emit_controls _ refl s)
