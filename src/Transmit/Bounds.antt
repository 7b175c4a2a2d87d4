-- ===== src/Transmit/Bounds.antt =====
-- The transmit buffer is read inside its bounds.
use avr_cec.Common.{ℕ, ◌≤◌, ◌<◌, ◌≡◌, arith, length}
use avr_cec.Transmit.{Config, Tx, start, get_bit, finish_abort, data_bit, control_bit}
use avr_cec.Common.{zero, suc}
use avr_cec.Transmit.Frame.{emit}
use avr_cec.Spec.{buffer_size}

-- The application has set `transmit_buf_end` to an index of the buffer, and leaves it so.
pub record IsValid (t : Tx) : Type 0 where
  pub size : length t.buf ≡ buffer_size
  pub end_in : t.buf_end < buffer_size
  pub pos_in : t.buf_pos ≤ t.buf_end
  pub mask_in : t.buf_bit ≤ 128

module _ (c : Config) where
  pub start-IsValid :
      (t : Tx) → length t.buf ≡ buffer_size → t.buf_end < buffer_size → IsValid (start c t)
  unfolding start
  start-IsValid t h k = ground arith

  pub get_bit-IsValid : (t : Tx) → IsValid t → IsValid (get_bit c t).0
  unfolding get_bit data_bit control_bit
  get_bit-IsValid t v = ground arith

  pub finish_abort-IsValid : (t : Tx) → IsValid t → IsValid (finish_abort c t)
  unfolding finish_abort
  finish_abort-IsValid t v = ground arith

  emit-IsValid : (k : ℕ) (t : Tx) → IsValid t → IsValid (emit c k t).0
  unfolding emit
  emit-IsValid zero t v = v
  emit-IsValid (suc k) t v = emit-IsValid k (get_bit c t).0 (get_bit-IsValid t v)

  -- From `cec_transmit_start` on, after any number of calls of `cec_transmit_get_bit`, the position
  -- from which the next one reads is an index of the buffer, and not past the message's last byte,
  -- which the application has set to an index of the buffer.
  pub emit-reads_inside :
      (k : ℕ) (t : Tx)
      → length t.buf ≡ buffer_size
      → t.buf_end < buffer_size
      → (let u = (emit c k (start c t)).0 in (u.buf_pos < length u.buf) × (u.buf_pos ≤ u.buf_end))
  emit-reads_inside k t h e =
      let v = emit-IsValid k (start c t) (start-IsValid t h e) in
      omega (arith, v.size, v.end_in, v.pos_in)
