-- ===== src/Link/Own.antt =====
-- A host hears itself: the receive engine follows the transmission of its own host, bit by bit, as
-- the hardware drivers interleave the calls.
use avr_cec.Common.{
  ℕ, suc, ◌+◌, ◌<◌, ◌≡◌, inl, inr, refl, ap, ◌∙◌, subst, sym, arith, Bool, true, false, not, List,
  [], ◌∷◌, ◌++◌, length, if◌then◌else◌, to_ℕ,
}
use avr_cec.Transmit.{Config, Tx, wait_for_ack, is, start, get_bit, push_last, expected_bit}
use avr_cec.Transmit.Frame.{emit}
use avr_cec.Transmit.Left.{IsLeft, IsLeft-step, IsLeft-last, is_wait_for_ack}
use avr_cec.Transmit.Echo.{echo_of, after_two, expected-after_two, get_bit-last, push_last-lt}
use avr_cec.Receive.State.{Rx, any_flag}
use avr_cec.Link.Hears.{IsHeard, Hears}
use avr_cec.Receive.Engine.{Driver, Node, check_tx_bit, receive_ack, receive_bit, receive_start}
use avr_cec.Receive.Decode.{rx_bit}

module _ (c : Config) where
  -- With CHECK_BIT_DELAY the driver is a bit ahead of the line.
  unfoldable pub ahead : Tx → Tx
  ahead t = if c.bit_delay then (get_bit c t).0 else t

  expected-ahead :
      (t : Tx) → t.last_bit < 256 → expected_bit c (ahead (get_bit c t).0) ≡ to_ℕ (get_bit c t).1
  unfolding ahead expected_bit after_two echo_of push_last
  expected-ahead t h = ground (arith, expected-after_two c t h, get_bit-last c t)

  get_bit-last_byte : (t : Tx) → (get_bit c t).0.last_bit < 256
  get_bit-last_byte t = rw (get_bit-last c t) (push_last-lt c t.last_bit (get_bit c t).1)

module _ {D : Type 0} (c : Config) (v : Driver c D) where
  -- The driver takes the next bit of the message, if there is one.
  unfoldable pub fetch : Node D → Node D
  fetch n = if is n.tx.state wait_for_ack then n else (record n { tx = (get_bit c n.tx).0 })

  -- The driver takes a bit to send, and then the receive side hears one, as long as it is active.
  unfoldable pub talk : (ℕ → Bool) → List Bool → Node D → Node D
  talk own [] n = n
  talk own (b ∷ bs) n =
      if any_flag n.rx.flags then talk own bs (receive_bit c v own b (fetch n)) else n

  -- A transmission begins, and the receive side hears its start bit.
  unfoldable pub begin_message : Node D → Node D
  begin_message n =
      let n' = record n { tx = start c n.tx } in
      receive_start c v (if c.bit_delay then fetch n' else n')

  pub busy : (t : Tx) (r : ℕ) → IsLeft t r → is t.state wait_for_ack ≡ false
  busy t r v = ground (arith, v.place)

  pub fetch_next :
      (t : Tx) (q : ℕ) (n : Node D)
      → n.tx ≡ ahead c t
      → IsLeft t (suc (suc q))
      → fetch n ≡ record n { tx = ahead c (get_bit c t).0 }
  unfolding fetch ahead
  fetch_next t q n e v =
      let w = is_wait_for_ack (get_bit c t).0.state (IsLeft-step c t q v).1 in
      ground (arith, e, busy t (suc (suc q)) v, w)

  pub fetch_last :
      (t : Tx) (n : Node D)
      → n.tx ≡ ahead c t
      → IsLeft t 1
      → fetch n ≡ record n { tx = (get_bit c t).0 }
  unfolding fetch ahead
  fetch_last t n e v = ground (arith, e, busy t 1 v, IsLeft-last c t v)

  -- What the receive side hears is what was sent, or the acknowledgement of a frame before the last.
  hear_own :
      (own : ℕ → Bool) (b : Bool) (n : Node D)
      → n.rx.flags.bits_eom ≡ true
      → expected_bit c n.tx ≡ to_ℕ b
      → receive_bit c v own b n ≡ record n { rx = rx_bit own b n.rx }
  unfolding receive_bit check_tx_bit rx_bit
  hear_own own b n e h = ground (arith, e, h)

  hear_ack :
      (own : ℕ → Bool) (b : Bool) (n : Node D)
      → n.rx.flags.bits_eom ≡ false
      → (if n.rx.flags.bcast then b else not b) ≡ true
      → is n.tx.state wait_for_ack ≡ false
      → receive_bit c v own b n ≡ record n { rx = rx_bit own b n.rx }
  unfolding receive_bit receive_ack rx_bit
  hear_ack own b n e h w = ground (arith, e, h, w)

  pub talk-cons :
      (own : ℕ → Bool) (b : Bool) (bs : List Bool) (n : Node D)
      → any_flag n.rx.flags ≡ true
      → talk own (b ∷ bs) n ≡ talk own bs (receive_bit c v own b (fetch n))
  unfolding talk
  talk-cons own b bs n e = rw e

  ahead_busy : (t : Tx) (q : ℕ) → IsLeft t (suc (suc q)) → is (ahead c t).state wait_for_ack ≡ false
  unfolding ahead
  ahead_busy t q k =
      let w = is_wait_for_ack (get_bit c t).0.state (IsLeft-step c t q k).1 in
      ground (arith, busy t (suc (suc q)) k, w)

  -- One bit of a message that is not yet at its end.
  talk_bit :
      (own : ℕ → Bool) (b h : Bool) (bs rest : List Bool) (q : ℕ) (t : Tx) (n : Node D)
      → n.tx ≡ ahead c t
      → t.last_bit < 256
      → IsLeft t (suc (suc (length bs + q)))
      → (get_bit c t).1 ≡ b
      → any_flag n.rx.flags ≡ true
      → IsHeard b h bs n.rx
      → talk own (h ∷ rest) n
        ≡ talk own rest (record n { rx = rx_bit own h n.rx; tx = ahead c (get_bit c t).0 })
  talk_bit own b h bs rest q t n e l k o a w =
      talk-cons own h rest n a
      ∙ ap (λ m. talk own rest (receive_bit c v own h m)) (fetch_next t (length bs + q) n e k)
      ∙ ap (talk own rest) (heard bs w k)
    where
      n' : Node D
      n' = record n { tx = ahead c (get_bit c t).0 }

      heard :
          (bs : List Bool)
          → IsHeard b h bs n.rx
          → IsLeft t (suc (suc (length bs + q)))
          → receive_bit c v own h n' ≡ record n' { rx = rx_bit own h n.rx }
      heard bs (inl w) k = hear_own own h n' w.0 (expected-ahead c t l ∙ ap to_ℕ (o ∙ sym w.1))
      heard [] (inr w) k = absurd (omega (arith, w.2))
      heard (b' ∷ bs) (inr w) k = hear_ack own h n' w.0 w.1 (
          ahead_busy (get_bit c t).0 (length bs + q)
            (IsLeft-step c t (suc (length bs + q)) (
              subst (IsLeft t)
                (let s : suc (suc (length (b' ∷ bs) + q)) ≡ suc (suc (suc (length bs + q))) =
                    omega arith in
                  s)
                k)).0)

  pub run :
      (own : ℕ → Bool) (bs hs rest : List Bool) (q : ℕ) (t : Tx) (n : Node D) (r' : Rx)
      → n.tx ≡ ahead c t
      → t.last_bit < 256
      → IsLeft t (suc (length bs + q))
      → (emit c (length bs) t).1 ≡ bs
      → Hears own bs hs n.rx r'
      → talk own (hs ++ rest) n
        ≡ talk own rest (record n { rx = r'; tx = ahead c (emit c (length bs) t).0 })
  unfolding Hears emit
  run own [] [] rest q t n r' e l k o w = ap (talk own rest) (cc (e, w))
  run own [] (h ∷ hs) rest q t n r' e l k o w = absurd w
  run own (b ∷ bs) [] rest q t n r' e l k o w = absurd w
  run own (b ∷ bs) (h ∷ hs) rest q t n r' e l k o w =
      talk_bit own b h bs (hs ++ rest) q t n e l k' (cc o) w.0 w.1
      ∙ run own bs hs rest q (get_bit c t).0
          (record n { rx = rx_bit own h n.rx; tx = ahead c (get_bit c t).0 }) r' refl
          (get_bit-last_byte c t) (IsLeft-step c t (length bs + q) k').0 (cc o) w.2
    where
      k' : IsLeft t (suc (suc (length bs + q)))
      k' =
          subst (IsLeft t)
            (let s : suc (length (b ∷ bs) + q) ≡ suc (suc (length bs + q)) = omega arith in s) k
