-- ===== src/Receive/Message.antt =====
-- Reception of a whole message by the receive engine.
use avr_cec.Common.{
  ℕ, suc, ◌+◌, ◌%◌, ◌≤◌, ◌<◌, ◌≡◌, ◌≢◌, refl, sym, ap, ap₂, subst, ◌∙◌, arith, Bool, true, false,
  List, [], ◌∷◌, ◌++◌, length, get_or, set, slice, ◌==◌, length-set, get_or-set_self, get_or-set_ne,
}
use mathlib.Core.List.{append_assoc}
use avr_cec.Transmit.{Config}
use avr_cec.Receive.State.{Rx, no_flags, header, any_flag}
use avr_cec.Receive.Engine.{Driver, Node, receive_start}
use avr_cec.Receive.Frame.{
  wire_frame, wire, wire_to, IsReceiving, after_eom, next_byte, handed, slot_more, slot_last,
  slot_refused, frame_run, next_byte-IsReceiving,
}
use avr_cec.Common.{IsBytes, not}
use avr_cec.Spec.{status_nack}
use avr_cec.Receive.Decode.{rx_bit, rx_feed, feed, feed-rx}

pub rx_feed-idle :
    (own : ℕ → Bool) (bs : List Bool) (r : Rx) → r.flags ≡ no_flags → rx_feed own bs r ≡ r
unfolding rx_feed any_flag
rx_feed-idle own [] r e = refl
rx_feed-idle own (b ∷ bs) r e = rw e

-- The message `m`, whose first byte is the `j`th of a longer one, has been handed over with the status
-- `s` in the header byte.
pub record IsHanded (s j : ℕ) (m : List ℕ) (r r' : Rx) : Type 0 where
  pub done : r'.flags ≡ no_flags
  pub count : header r' ≡ s + (j + length m)
  pub bytes : slice r'.buf (j + 1 + r.hdr) (length m) ≡ m
  pub before : (i : ℕ) → i < j + 1 + r.hdr → i ≢ r.hdr → get_or r'.buf i 0 ≡ get_or r.buf i 0
  pub same_hdr : r'.hdr ≡ r.hdr
  pub same_size : length r'.buf ≡ length r.buf

module _ (own : ℕ → Bool) (bc : Bool) where
  handed_lem :
      (s j x : ℕ) (r : Rx)
      → j < 16
      → length r.buf ≡ 17 + r.hdr
      → IsHanded s j (x ∷ []) r (handed own bc s j x r)
  handed_lem s j x r h len = record {
    done = refl;
    count = get_or-set_self b r.hdr (s + (j + 1)) 0 (rw length-set (omega arith)) ∙ omega arith;
    bytes =
        ap (λ y. y ∷ [])
          (ground (
            arith,
            get_or-set_ne b r.hdr (j + 1 + r.hdr) (s + (j + 1)) 0 (omega arith),
            get_or-set_self r.buf (j + 1 + r.hdr) x 0 (omega arith),
          ));
    before = λ i p q. ground (
      arith,
      get_or-set_ne b r.hdr i (s + (j + 1)) 0,
      get_or-set_ne r.buf (j + 1 + r.hdr) i x 0 (omega arith),
    );
    same_hdr = refl;
    same_size = length-set b r.hdr (s + (j + 1)) ∙ length-set r.buf (j + 1 + r.hdr) x;
  }
    where
      b : List ℕ
      b = set r.buf (j + 1 + r.hdr) x

  pub next_byte-IsHanded :
      (s j x : ℕ) (m : List ℕ) (r r' : Rx)
      → j < 16
      → length r.buf ≡ 17 + r.hdr
      → IsHanded s (suc j) m (next_byte own bc j x r) r'
      → IsHanded s j (x ∷ m) r r'
  unfolding next_byte
  next_byte-IsHanded s j x m r r' h len v = record {
    done = v.done;
    count = omega (arith, v.count);
    bytes = ap₂ ◌∷◌ first (ap (λ i. slice r'.buf i (length m)) index ∙ v.bytes);
    before = λ i p q.
        v.before i (omega arith) q ∙ get_or-set_ne r.buf (j + 1 + r.hdr) i x 0 (omega arith);
    same_hdr = v.same_hdr;
    same_size = v.same_size ∙ length-set r.buf (j + 1 + r.hdr) x;
  }
    where
      index : j + 1 + r.hdr + 1 ≡ suc j + 1 + r.hdr
      index = omega arith

      first : get_or r'.buf (j + 1 + r.hdr) 0 ≡ x
      first =
          v.before (j + 1 + r.hdr) (omega arith) (omega arith)
          ∙ get_or-set_self r.buf (j + 1 + r.hdr) x 0 (omega arith)

  pub next_byte_size :
      (j x : ℕ) (r : Rx)
      → length r.buf ≡ 17 + r.hdr
      → length (next_byte own bc j x r).buf ≡ 17 + (next_byte own bc j x r).hdr
  unfolding next_byte
  next_byte_size j x r len = length-set r.buf (j + 1 + r.hdr) x ∙ len

  module _ (eom last : Bool) (s : ℕ)
      (ends : (j x : ℕ) (r : Rx)
        → IsReceiving bc j r
        → j < 16
        → x < 256
        → (j ≡ 0 → bc ≡ (x % 16 == 15))
        → rx_bit own last (after_eom own bc eom j x r) ≡ handed own bc s j x r) where
    receive_rest :
        (m : List ℕ) (j : ℕ) (r : Rx) (rest : List Bool)
        → 0 < length m
        → j + length m ≤ 16
        → IsBytes m
        → (j ≡ 0 → bc ≡ (get_or m 0 0 % 16 == 15))
        → length r.buf ≡ 17 + r.hdr
        → IsReceiving bc j r
        → IsHanded s j m r (rx_feed own (wire_to bc eom last m ++ rest) r)
    receive_rest [] j r rest pos h hm hb len v = absurd (omega arith)
    receive_rest (x ∷ []) j r rest pos h hm hb len v =
        subst (IsHanded s j (x ∷ []) r)
          (sym (
            frame_run own bc j x r v (omega arith) (hm 0) hb eom last rest
            ∙ ap (rx_feed own rest) (ends j x r v (omega arith) (hm 0) hb)
            ∙ rx_feed-idle own rest _ refl))
          (handed_lem s j x r (omega arith) len)
    receive_rest (x ∷ y ∷ m) j r rest pos h hm hb len v =
        subst (IsHanded s j (x ∷ y ∷ m) r)
          (sym (
            ap (λ l. rx_feed own l r)
              (append_assoc (wire_frame false bc x) (wire_to bc eom last (y ∷ m)) rest)
            ∙ frame_run own bc j x r v (omega arith) (hm 0) hb false bc
                (wire_to bc eom last (y ∷ m) ++ rest)
            ∙ ap (rx_feed own (wire_to bc eom last (y ∷ m) ++ rest))
                (slot_more own bc j x r v (omega arith) (hm 0) hb)))
          (next_byte-IsHanded s j x (y ∷ m) r _ (omega arith) len (
            receive_rest (y ∷ m) (suc j) (next_byte own bc j x r) rest (omega arith) (omega arith)
              (λ i. hm (suc i)) (λ e. absurd (omega arith)) (next_byte_size j x r len)
              (next_byte-IsReceiving own bc j x r v (omega arith) (hm 0) hb)))

module _ {D : Type 0} (c : Config) (v : Driver c D) where
  pub start-IsReceiving :
      (bc : Bool) (n : Node D) → header n.rx ≡ 0 → IsReceiving bc 0 (receive_start c v n).rx
  unfolding receive_start
  start-IsReceiving bc n h = ground arith

  pub IsHanded-start :
      (s : ℕ) (m : List ℕ) (n : Node D) (r' : Rx)
      → IsHanded s 0 m (receive_start c v n).rx r'
      → IsHanded s 0 m n.rx r'
  unfolding receive_start
  IsHanded-start s m n r' h = record {
    done = h.done;
    count = h.count;
    bytes = h.bytes;
    before = h.before;
    same_hdr = h.same_hdr;
    same_size = h.same_size;
  }

  pub start_size :
      (n : Node D)
      → length n.rx.buf ≡ 17 + n.rx.hdr
      → length (receive_start c v n).rx.buf ≡ 17 + (receive_start c v n).rx.hdr
  unfolding receive_start
  start_size n e = e

  -- Whatever the driver and the state of the transmit side: with a free buffer of its declared size,
  -- a start bit and then the frames of 1 to 16 bytes, each acknowledged (the ack slot is low for a
  -- message to one host, high for a broadcast) and the last one marked, leave the bytes in order
  -- behind the header byte, the header byte equal to their number, the application's bytes in front
  -- of it unchanged and the flags cleared; bits that follow change nothing of this.
  pub receive-message :
      (own : ℕ → Bool) (m : List ℕ) (rest : List Bool) (n : Node D)
      → 0 < length m
      → length m ≤ 16
      → IsBytes m
      → length n.rx.buf ≡ 17 + n.rx.hdr
      → header n.rx ≡ 0
      → IsHanded 0 0 m n.rx
          (feed c v own (wire (get_or m 0 0 % 16 == 15) m ++ rest) (receive_start c v n)).rx
  receive-message own m rest n pos h hm len free = IsHanded-start 0 m n _ (
      let bc = get_or m 0 0 % 16 == 15 in
      subst (IsHanded 0 0 m (receive_start c v n).rx) (sym (feed-rx c v own _ _)) (
        receive_rest own bc true bc 0 (slot_last own bc) m 0 _ rest pos (omega arith) hm (λ e. refl)
          (start_size n len) (start-IsReceiving _ n free)))

  -- Whatever the driver and the state of the transmit side: with a free buffer of its declared size,
  -- a start bit and then the frames of 1 to 16 bytes, each acknowledged but the last, which is
  -- refused, marked or not, leave the bytes in order behind the header byte, the header byte equal to
  -- their number with the NACK bit, the application's bytes in front of it unchanged and the flags
  -- cleared; bits that follow change nothing of this.
  pub receive-refused :
      (own : ℕ → Bool) (m : List ℕ) (eom : Bool) (rest : List Bool) (n : Node D)
      → 0 < length m
      → length m ≤ 16
      → IsBytes m
      → length n.rx.buf ≡ 17 + n.rx.hdr
      → header n.rx ≡ 0
      → (let bc = get_or m 0 0 % 16 == 15 in
          IsHanded status_nack 0 m n.rx
            (feed c v own (wire_to bc eom (not bc) m ++ rest) (receive_start c v n)).rx)
  receive-refused own m eom rest n pos h hm len free = IsHanded-start 128 m n _ (
      let bc = get_or m 0 0 % 16 == 15 in
      subst (IsHanded 128 0 m (receive_start c v n).rx) (sym (feed-rx c v own _ _)) (
        receive_rest own bc eom (not bc) 128
          (λ j x r w i k b. slot_refused own bc j x r w i k b eom) m 0 _ rest pos (omega arith) hm
          (λ e. refl) (start_size n len) (start-IsReceiving _ n free)))
