-- ===== src/Receive/Overrun.antt =====
-- A message that does not fit the receive buffer.
use avr_cec.Common.{
  ℕ, suc, ◌+◌, ◌%◌, ◌<◌, ◌≡◌, refl, sym, ap, ap₂, subst, ◌∙◌, arith, Bool, true, false, not, List,
  [], ◌∷◌, ◌++◌, length, get_or, set, ◌==◌, length-set, get_or-set_self, get_or-set_ne, IsBytes,
  bit_or, if◌then◌else◌,
}
use mathlib.Core.List.{append_assoc}
use avr_cec.Spec.{status_overrun, status_nack}
use avr_cec.Transmit.{Config}
use avr_cec.Transmit.Layout.{bits_from}
use avr_cec.Receive.State.{
  Rx, Flags, no_flags, header, finish_byte, judge_byte, apply_nack, eom_bit, ack_bit,
}
use avr_cec.Receive.Engine.{Driver, Node, receive_start}
use avr_cec.Receive.Decode.{rx_bit, rx_feed, feed, feed-rx, rx_bit-ack, ack_bit-over}
use avr_cec.Receive.Byte.{rx_feed-byte, rx_feed-cons, any_flag_active}
use avr_cec.Receive.Frame.{
  wire_frame, wire_to, IsReceiving, next_byte, slot_more, frame_run, next_byte-IsReceiving,
  status_bits_lem,
}
use avr_cec.Receive.Message.{
  rx_feed-idle, IsHanded, next_byte-IsHanded, next_byte_size, start-IsReceiving, IsHanded-start,
  start_size,
}

module _ (own : ℕ → Bool) (bc : Bool) where
  -- The flags when the byte behind the last one of the buffer has arrived.
  abbrev full_flags : Flags → Flags
  full_flags f = record f { overrun = true; do_ack = bc }

  full_byte :
      (x : ℕ) (r : Rx)
      → IsReceiving bc 16 r
      → finish_byte own r x ≡ record r { byte = 0; pos = 17; flags = full_flags r.flags }
  unfolding finish_byte judge_byte apply_nack
  full_byte x r v = ground (arith, v.count, v.bcast)

  full_eom :
      (e : Bool) (r : Rx)
      → IsReceiving bc 16 r
      → rx_bit own e (record r { byte = 0; pos = 17; flags = full_flags r.flags }) ≡ (
          let f = full_flags r.flags in
          record r { byte = 0; pos = 17; flags = record f { eom = e; bits_eom = false } })
  unfolding rx_bit eom_bit
  full_eom e r v = ground (arith, v.bits, v.eom)

  -- The message is over, with both status bits.
  abbrev overrun : Rx → Rx
  overrun r = record r { byte = 0; pos = 17; flags = no_flags; buf = set r.buf r.hdr 209 }

  full_slot :
      (e : Bool) (r : Rx)
      → IsReceiving bc 16 r
      → rx_bit own (not bc) (
          let f = full_flags r.flags in
          record r { byte = 0; pos = 17; flags = record f { eom = e; bits_eom = false } })
        ≡ overrun r
  full_slot e r v =
      rx_bit-ack own (not bc) s refl
      ∙ ap (λ a. ack_bit a s) refused
      ∙ ack_bit-over false s refl
      ∙ ap₂
          (λ i h. record r {
            byte = 0;
            pos = 17;
            flags = no_flags;
            buf = if i then r.buf else set r.buf r.hdr h;
          })
          v.ignore (ap (bit_or 17) (status_bits_lem (record f { nacked = true })))
    where
      f : Flags
      f = let g = full_flags r.flags in record g { eom = e; bits_eom = false }

      s : Rx
      s = record r { byte = 0; pos = 17; flags = f }

      refused : (if r.flags.bcast then not bc else not (not bc)) ≡ false
      refused = ground (arith, v.bcast)

  full_run :
      (x : ℕ) (e : Bool) (rest : List Bool) (r : Rx)
      → IsReceiving bc 16 r
      → x < 256
      → rx_feed own (wire_frame e (not bc) x ++ rest) r ≡ overrun r
  full_run x e rest r v hx =
      ap (λ l. rx_feed own l r) (append_assoc (bits_from 8 x) (e ∷ not bc ∷ []) rest)
      ∙ rx_feed-byte own x (e ∷ not bc ∷ rest) r v.bits v.fresh hx
      ∙ ap (rx_feed own (e ∷ not bc ∷ rest)) (full_byte x r v)
      ∙ rx_feed-cons own e (not bc ∷ rest) _ (any_flag_active _ v.active)
      ∙ ap (rx_feed own (not bc ∷ rest)) (full_eom e r v)
      ∙ rx_feed-cons own (not bc) rest _ (any_flag_active _ v.active)
      ∙ ap (rx_feed own rest) (full_slot e r v)
      ∙ rx_feed-idle own rest _ refl

  overrun-IsHanded : (r : Rx) → length r.buf ≡ 17 + r.hdr → IsHanded 193 16 [] r (overrun r)
  overrun-IsHanded r len = record {
    done = refl;
    count = get_or-set_self r.buf r.hdr 209 0 (omega arith);
    bytes = refl;
    before = λ i p q. get_or-set_ne r.buf r.hdr i 209 0 (λ e. q (sym e));
    same_hdr = refl;
    same_size = length-set r.buf r.hdr 209;
  }

  -- The frames of the message and one more.
  wire_to-cons :
      (eom last : Bool) (y x : ℕ) (m : List ℕ)
      → wire_to bc eom last (y ∷ (m ++ (x ∷ [])))
        ≡ wire_frame false bc y ++ wire_to bc eom last (m ++ (x ∷ []))
  wire_to-cons eom last y x [] = refl
  wire_to-cons eom last y x (z ∷ m) = refl

  module _ (x : ℕ) (hx : x < 256) (eom : Bool) (rest : List Bool) where
    receive_full :
        (m : List ℕ) (j : ℕ) (r : Rx)
        → j + length m ≡ 16
        → IsBytes m
        → (j ≡ 0 → bc ≡ (get_or m 0 0 % 16 == 15))
        → length r.buf ≡ 17 + r.hdr
        → IsReceiving bc j r
        → IsHanded 193 j m r (rx_feed own (wire_to bc eom (not bc) (m ++ (x ∷ [])) ++ rest) r)
    receive_full [] j r h hm hb len v =
        subst (λ i. IsHanded 193 i [] r (rx_feed own (wire_frame eom (not bc) x ++ rest) r))
          (sym full)
          (subst (IsHanded 193 16 [] r)
            (sym (full_run x eom rest r (subst (λ i. IsReceiving bc i r) full v) hx))
            (overrun-IsHanded r len))
      where
        full : j ≡ 16
        full = omega arith
    receive_full (y ∷ m) j r h hm hb len v =
        subst (IsHanded 193 j (y ∷ m) r)
          (sym (
            ap (λ l. rx_feed own (l ++ rest) r) (wire_to-cons eom (not bc) y x m)
            ∙ ap (λ l. rx_feed own l r)
                (append_assoc (wire_frame false bc y) (wire_to bc eom (not bc) (m ++ (x ∷ [])))
                  rest)
            ∙ frame_run own bc j y r v (omega arith) (hm 0) hb false bc
                (wire_to bc eom (not bc) (m ++ (x ∷ [])) ++ rest)
            ∙ ap (rx_feed own (wire_to bc eom (not bc) (m ++ (x ∷ [])) ++ rest))
                (slot_more own bc j y r v (omega arith) (hm 0) hb)))
          (next_byte-IsHanded own bc 193 j y m r _ (omega arith) len (
            receive_full m (suc j) (next_byte own bc j y r) (omega arith) (λ i. hm (suc i))
              (λ e. absurd (omega arith)) (next_byte_size own bc j y r len)
              (next_byte-IsReceiving own bc j y r v (omega arith) (hm 0) hb)))

module _ {D : Type 0} (c : Config) (v : Driver c D) where
  -- Whatever the driver and the state of the transmit side: with a free buffer of its declared size,
  -- a start bit, the frames of 16 bytes, each acknowledged, and the frame of a seventeenth byte, which
  -- nobody acknowledges (nor does this host), leave the first 16 bytes in order behind the header byte
  -- and the application's bytes in front of it unchanged; the header byte holds the overrun bit, the
  -- NACK bit and the number 17, one more than the bytes in the buffer; the flags are cleared, and bits
  -- that follow change nothing of this.
  pub receive-overrun :
      (own : ℕ → Bool) (m : List ℕ) (x : ℕ) (eom : Bool) (rest : List Bool) (n : Node D)
      → length m ≡ 16
      → IsBytes m
      → x < 256
      → length n.rx.buf ≡ 17 + n.rx.hdr
      → header n.rx ≡ 0
      → (let bc = get_or m 0 0 % 16 == 15 in
          IsHanded
            (bit_or status_overrun status_nack + 1)
            0
            m
            n.rx
            (feed c v own
              (wire_to bc eom (not bc) (m ++ (x ∷ [])) ++ rest)
              (receive_start c v n)).rx)
  receive-overrun own m x eom rest n size hm hx len free = IsHanded-start c v 193 m n _ (
      let bc = get_or m 0 0 % 16 == 15 in
      subst (IsHanded 193 0 m (receive_start c v n).rx) (sym (feed-rx c v own _ _)) (
        receive_full own bc x hx eom rest m 0 _ (omega (arith, size)) hm (λ e. refl)
          (start_size c v n len) (start-IsReceiving c v _ n free)))
