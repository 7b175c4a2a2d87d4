-- ===== src/Transmit/Emit.antt =====
-- What `cec_transmit_get_bit` puts on the line, call after call, against the layout of a message.
use avr_cec.Common.{
  ℕ, zero, suc, ◌+◌, ◌*◌, ◌≤◌, ◌<◌, ◌≡◌, refl, ap, ap₂, slice-eq-take, length-take_le, ◌∙◌, arith,
  false, List, ◌++◌, length, get_or, take, IsBytes, slice, truth,
}
use avr_cec.Spec.{present_period_wait}
use avr_cec.Transmit.{Config, Tx, bit_eom, wait_for_ack, start}
use avr_cec.Transmit.Layout.{frame, frames, message_bits}
use avr_cec.Transmit.Frame.{emit, push_all, emit_add, next_frame, eom_of, emit-frame}

-- The transmit side once its last frame is out.
pub record IsSent (c : Config) (t u : Tx) : Type 0 where
  pub waits : u.state ≡ wait_for_ack
  pub at_end : u.buf_pos ≡ t.buf_end
  pub no_bit : u.buf_bit ≡ 0
  pub same_buf : u.buf ≡ t.buf
  pub same_end : u.buf_end ≡ t.buf_end
  pub same_retries : u.retries ≡ t.retries
  pub initiator : u.needed_idle ≡ c.idle_wait present_period_wait

module _ (c : Config) where
  next_frame_last : (t : Tx) (l : ℕ) → t.buf_end ≡ t.buf_pos → IsSent c t (next_frame c t l)
  unfolding next_frame
  next_frame_last t l e = ground arith

  -- The state in which the next byte begins.
  abbrev byte_starts : Tx → ℕ → Tx
  byte_starts t l = record t {
    buf_bit = 128;
    buf_pos = t.buf_pos + 1;
    last_bit = l;
    state = bit_eom;
    needed_idle = c.idle_wait present_period_wait;
  }

  next_frame_more :
      (t : Tx) (l : ℕ)
      → t.buf_pos < t.buf_end
      → t.buf_end < 256
      → next_frame c t l ≡ byte_starts t l
  unfolding next_frame
  next_frame_more t l h k = ground arith

  eom_of_last : (t : Tx) → t.buf_end ≡ t.buf_pos → eom_of c t ≡ truth t.buf_end
  eom_of_last t e = ground arith

  eom_of_more : (t : Tx) → t.buf_pos < t.buf_end → eom_of c t ≡ false
  eom_of_more t h = ground arith

  emit_more :
      (n : ℕ) (t : Tx)
      → t.buf_bit ≡ 128
      → t.state ≡ bit_eom
      → get_or t.buf t.buf_pos 0 < 256
      → t.buf_pos < t.buf_end
      → t.buf_end < 256
      → (l : ℕ) × (emit c (10 + n) t ≡ (
        (emit c n (byte_starts t l)).0,
        frame false (get_or t.buf t.buf_pos 0) ++ (emit c n (byte_starts t l)).1,
      ))
  emit_more n t e s hx h k =
      let x = get_or t.buf t.buf_pos 0 in
      let l = push_all c t.last_bit (frame (eom_of c t) x) in
      (
        l,
        emit_add c 10 n (10 + n) t refl
            ∙ ap (λ p. ((emit c n p.0).0, p.1 ++ (emit c n p.0).1)) (emit-frame c t e s hx)
            ∙ ap (λ u. ((emit c n u).0, frame (eom_of c t) x ++ (emit c n u).1))
                (next_frame_more t l h k)
            ∙ ap
                (λ b. ((emit c n (byte_starts t l)).0, frame b x ++ (emit c n (byte_starts t l)).1))
                (eom_of_more t h),
      )

  emit_rest :
      (j : ℕ) (t : Tx)
      → t.buf_bit ≡ 128
      → t.state ≡ bit_eom
      → t.buf_pos + j ≡ t.buf_end
      → t.buf_end < 256
      → IsBytes t.buf
      → IsSent c t (emit c (10 * suc j) t).0
        × ((emit c (10 * suc j) t).1 ≡ frames (truth t.buf_end) (slice t.buf t.buf_pos (suc j)))
  emit_rest zero t e s p h hx = rw (emit-frame c t e s (hx t.buf_pos)) (
    next_frame_last t _ (omega arith),
    ap (λ b. frame b (get_or t.buf t.buf_pos 0)) (eom_of_last t (omega arith)),
  )
  emit_rest (suc j) t e s p h hx =
      let m = emit_more (10 * suc j) t e s (hx t.buf_pos) (omega arith) h in
      let r = emit_rest j (byte_starts t m.0) refl refl (omega arith) h hx in
      let n : 10 * suc (suc j) ≡ 10 + 10 * suc j = omega arith in
      rw n (rw m.1 (sent_from m.0 r.0, ap (λ l. frame false (get_or t.buf t.buf_pos 0) ++ l) r.1))
    where
      sent_from : (l : ℕ) {u : Tx} → IsSent c (byte_starts t l) u → IsSent c t u
      sent_from l q = ground arith

  pub start_fields :
      (t : Tx)
      → ((start c t).buf_bit ≡ 128)
        × ((start c t).state ≡ bit_eom)
        × ((start c t).buf_pos ≡ 0)
        × ((start c t).buf ≡ t.buf)
        × ((start c t).buf_end ≡ t.buf_end)
  unfolding start
  start_fields t = ground arith

  eom_of_message : (l : List ℕ) (n : ℕ) → length l ≡ suc n → frames (truth n) l ≡ message_bits l
  eom_of_message l n e = rw e (ap (λ b. frames b l) (ground arith))

  -- From `cec_transmit_start` on, the calls of `cec_transmit_get_bit` return the frames of the bytes
  -- up to `transmit_buf_end`, in order, most significant bit first, the end-of-message bit set in
  -- the last frame alone and in no poll, every ack slot a one; they leave the state
  -- TRANSMIT_WAIT_FOR_ACK at the last byte, with the wait of a present initiator, and the buffer and
  -- the retry count as they were. The buffer holds bytes, at most 256, and its last index is in it.
  pub emit-start :
      (t : Tx)
      → t.buf_end < length t.buf
      → length t.buf ≤ 256
      → IsBytes t.buf
      → IsSent c (start c t) (emit c (10 * suc t.buf_end) (start c t)).0
        × ((emit c (10 * suc t.buf_end) (start c t)).1 ≡ message_bits (take (suc t.buf_end) t.buf))
  emit-start t h k hx =
      let (bit, state, pos, buf, end) = start_fields t in
      let r = emit_rest t.buf_end (start c t) bit state (omega arith) (omega arith) (rw buf hx) in
      (
        r.0,
        r.1
            ∙ ap₂ (λ e l. frames (truth e) l) end
                (ap₂ (λ l i. slice l i (suc t.buf_end)) buf pos
                  ∙ slice-eq-take t.buf (suc t.buf_end) h)
            ∙ eom_of_message _ t.buf_end (length-take_le (suc t.buf_end) t.buf h),
      )
