-- ===== src/Link/Acked.antt =====
-- The ack slots of a host's own transmission: the way to them, and what the last one does.
use avr_cec.Common.{
  ℕ, zero, suc, ◌+◌, ◌%◌, ◌≤◌, ◌<◌, ◌≡◌, refl, ◌∙◌, subst, arith, Bool, true, not, List, [], ◌∷◌,
  ◌++◌, length, get_or, ltb, if◌then◌else◌, ◌==◌, u8, IsBytes,
}
use avr_cec.Spec.{new_period_wait, nack, xmit_max_retransmit}
use avr_cec.Transmit.{
  Config, Tx, idle, failed, again, code, control_bit, start, get_bit, data_bit, count_error,
  finish_abort,
}
use avr_cec.Transmit.Frame.{emit}
use avr_cec.Transmit.Left.{IsLeft, IsLeft-step, IsLeft-last}
use avr_cec.Receive.State.{Rx}
use avr_cec.Receive.Engine.{Driver, Node, receive_ack, receive_bit, receive_start}
use avr_cec.Receive.Decode.{rx_feed, receive_bit-rx}
use avr_cec.Receive.Byte.{any_flag_active}
use avr_cec.Receive.Frame.{IsReceiving}
use avr_cec.Receive.Echo.{on_error-tx}
use avr_cec.Link.Hears.{IsAtSlot, message_heard}
use avr_cec.Link.Slots.{before_slot}
use avr_cec.Link.Own.{ahead, fetch, talk, begin_message, fetch_last, run}

module _ (c : Config) where
  pub emit-prefix :
      (k : ℕ) (t : Tx) (bs rest : List Bool)
      → (emit c k t).1 ≡ bs ++ rest
      → (emit c (length bs) t).1 ≡ bs
  unfolding emit
  emit-prefix k t [] rest o = refl
  emit-prefix zero t (b ∷ bs) rest o = absurd (cc o)
  emit-prefix (suc k) t (b ∷ bs) rest o =
      let e = emit-prefix k (get_bit c t).0 bs rest (cc o) in
      let f : (get_bit c t).1 ≡ b = cc o in cc (e, f)

  pub emit-IsLeft : (k q : ℕ) (t : Tx) → IsLeft t (suc (k + q)) → IsLeft (emit c k t).0 (suc q)
  unfolding emit
  emit-IsLeft zero q t h = subst (IsLeft t) (let s : suc (0 + q) ≡ suc q = omega arith in s) h
  emit-IsLeft (suc k) q t h =
      emit-IsLeft k q (get_bit c t).0
        (IsLeft-step c t (k + q)
          (subst (IsLeft t) (let s : suc (suc k + q) ≡ suc (suc (k + q)) = omega arith in s) h)).0

module _ {D : Type 0} (c : Config) (v : Driver c D) where
  -- The transmission as the receive side finds it when it hears the start bit.
  abbrev pub started : Tx → Tx
  started t = start c (record t { needed_idle = c.idle_wait new_period_wait })

  pub begin_message_lem :
      (n : Node D)
      → begin_message c v n ≡ record (receive_start c v n) { tx = ahead c (started n.tx) }
  unfolding begin_message receive_start ahead fetch get_bit data_bit start
  begin_message_lem n = ground arith

  pub fetch-rx : (n : Node D) → (fetch c v n).rx ≡ n.rx
  unfolding fetch
  fetch-rx n = ground arith

  pub talk-rx :
      (own : ℕ → Bool) (bs : List Bool) (n : Node D) → (talk c v own bs n).rx ≡ rx_feed own bs n.rx
  unfolding talk rx_feed
  talk-rx own [] n = refl
  talk-rx own (b ∷ bs) n = ground (
    arith,
    talk-rx own bs (receive_bit c v own b (fetch c v n)),
    receive_bit-rx c v own b (fetch c v n),
    fetch-rx n,
  )

  -- A message, or the beginning of one, up to the ack slot of its last byte, as its host hears it.
  pub heard_to_slot :
      (own : ℕ → Bool) (bc eom : Bool) (m : List ℕ) (hs rest : List Bool) (k q : ℕ) (t : Tx)
      (n : Node D)
      → n.tx ≡ ahead c t
      → t.last_bit < 256
      → IsLeft t (suc (length (before_slot true eom m) + q))
      → (emit c k t).1 ≡ before_slot true eom m ++ rest
      → 0 < length m
      → length m ≤ 16
      → IsBytes m
      → bc ≡ (get_or m 0 0 % 16 == 15)
      → IsReceiving bc 0 n.rx
      → (r' : Rx) × IsAtSlot bc r'
        × (talk c v own (before_slot bc eom m ++ hs) n
            ≡ talk c v own hs
                (record n { rx = r'; tx = ahead c (emit c (length (before_slot true eom m)) t).0 }))
  heard_to_slot own bc eom m hs rest k q t n e l i o pos h hm hb w =
      let (r', z, s) = message_heard own bc eom m 0 n.rx pos (omega arith) hm (λ _. hb) w in
      (
        r',
        s,
        run c v own (before_slot true eom m) (before_slot bc eom m) hs q t n r' e l i
            (emit-prefix c k t (before_slot true eom m) rest o) z,
      )

  -- The last ack slot of a message.
  pub last_ack :
      (own : ℕ → Bool) (bc : Bool) (t : Tx) (n : Node D)
      → n.tx ≡ ahead c t
      → IsLeft t 1
      → IsAtSlot bc n.rx
      → (talk c v own (bc ∷ []) n).tx ≡ record (get_bit c t).0 { state = idle }
  unfolding talk receive_bit receive_ack
  last_ack own bc t n e i s = rw (fetch_last c v t n e i) (
      ground
        (arith, s.slot, s.bcast, s.active, IsLeft-last c t i, any_flag_active n.rx.flags s.active))

  -- A refused frame.
  get_bit_busy :
      (t : Tx)
      → ltb 3 (code t.state) ≡ true
      → (ltb 3 (code (get_bit c t).0.state) ≡ true) × ((get_bit c t).0.retries ≡ t.retries)
  unfolding get_bit data_bit control_bit
  get_bit_busy t h = ground (arith, h)

  pub emit_busy :
      (k : ℕ) (t : Tx)
      → ltb 3 (code t.state) ≡ true
      → (let u = ahead c (emit c k t).0 in (ltb 3 (code u.state) ≡ true) × (u.retries ≡ t.retries))
  unfolding emit ahead
  emit_busy zero t h = ground (arith, get_bit_busy t h, h)
  emit_busy (suc k) t h =
      let (p, q) = get_bit_busy t h in let (p', q') = emit_busy k (get_bit c t).0 p in (p', q' ∙ q)

  pub fetch_busy :
      (n : Node D)
      → ltb 3 (code n.tx.state) ≡ true
      → (ltb 3 (code (fetch c v n).tx.state) ≡ true) × ((fetch c v n).tx.retries ≡ n.tx.retries)
  unfolding fetch
  fetch_busy n h = ground (arith, h, get_bit_busy n.tx h)

  pub refused_ack :
      (own : ℕ → Bool) (bc : Bool) (n : Node D)
      → ltb 3 (code n.tx.state) ≡ true
      → IsAtSlot bc n.rx
      → (talk c v own (not bc ∷ []) n).tx ≡ finish_abort c (count_error c nack (fetch c v n).tx)
  unfolding talk receive_bit receive_ack
  refused_ack own bc n h s = ground (
    arith,
    s.slot,
    s.bcast,
    any_flag_active n.rx.flags s.active,
    fetch_busy n h,
    fetch-rx n,
    on_error-tx c v nack (fetch c v n),
  )

  pub aborted :
      (t : Tx)
      → (let u = finish_abort c (count_error c nack t) in
          (u.retries ≡ u8 (t.retries + 1))
          × (u.state ≡ (if u8 (t.retries + 1) == xmit_max_retransmit then failed else again)))
  unfolding finish_abort count_error
  aborted t = ground arith
