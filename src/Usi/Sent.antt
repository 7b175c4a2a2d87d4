-- ===== src/Usi/Sent.antt =====
-- The bytes that `cec_usi_next_bit` gives while a message is sent.
use avr_cec.Common.{
  ℕ, zero, suc, ◌+◌, ◌*◌, ◌≤◌, ◌<◌, ◌≡◌, ◌⊎◌, inl, inr, refl, ap, ap₂, ◌∙◌, sym, subst, arith, true,
  truth, bit_and, leb, List, [], ◌∷◌, length, take, IsBytes, if◌then◌else◌,
}
use avr_cec.Transmit.{Config, Tx, pend, again, wait_for_ack, code, is, start, get_bit}
use avr_cec.Transmit.Layout.{message_bits}
use avr_cec.Transmit.Left.{is_wait_for_ack}
use avr_cec.Transmit.Sender.{Sender, sends, sends-start}
use avr_cec.Receive.Engine.{Node}
use avr_cec.Usi.{Usi, usi_xmit_idle, usi_xmit_start, usi_xmit_bits, pat_start0, pat_start1}
use avr_cec.Usi.Queue.{next_bit, xmit_pattern, idle_pattern, start_pattern, bit_pattern}
use avr_cec.Usi.Wave.{patterns, pattern_of}

-- What happens between two calls, while the receive side reports no error: anything but a change of the
-- transmit side, except for the wait.
pub record IsAside (between : ℕ → Node Usi → Node Usi) : Type 0 where
  pub wait : ℕ → Node Usi → ℕ
  pub tx_kept :
      (j : ℕ) (n : Node Usi)
      → (between j n).tx ≡ (let t = n.tx in record t { needed_idle = wait j n })
  pub state_kept : (j : ℕ) (n : Node Usi) → (between j n).drv.usi_xmit_state ≡ n.drv.usi_xmit_state

module _ (c : Config) (between : ℕ → Node Usi → Node Usi) where
  -- `j` calls and the bytes given; `between i` comes before the call that `i` others follow.
  unfoldable pub writes : ℕ → Node Usi → Node Usi × List ℕ
  writes zero n = (n, [])
  writes (suc j) n =
      let (n', x) = next_bit c (between j n) in let (m, l) = writes j n' in (m, x ∷ l)

  bit_call :
      (n : Node Usi)
      → n.drv.usi_xmit_state ≡ usi_xmit_bits
      → ((next_bit c n).0.tx ≡ (get_bit c n.tx).0)
        × ((next_bit c n).1 ≡ pattern_of (get_bit c n.tx).1)
        × ((next_bit c n).0.drv.usi_xmit_state
            ≡ (if is (get_bit c n.tx).0.state wait_for_ack then usi_xmit_idle else usi_xmit_bits))
  unfolding next_bit xmit_pattern bit_pattern
  bit_call n s = rw s (refl, refl, refl)

  idle_call :
      (n : Node Usi)
      → n.drv.usi_xmit_state ≡ usi_xmit_idle
      → (n.tx.state ≡ pend) ⊎ (n.tx.state ≡ again)
      → n.tx.needed_idle ≤ n.drv.idle_frames
      → ((next_bit c n).0.tx ≡ start c n.tx)
        × ((next_bit c n).1 ≡ pat_start0)
        × ((next_bit c n).0.drv.usi_xmit_state ≡ usi_xmit_start)
  unfolding next_bit xmit_pattern idle_pattern
  idle_call n s q h =
      let enough : leb n.tx.needed_idle n.drv.idle_frames ≡ true = ground (arith, h) in
      rw (s, queued n q, enough) (refl, refl, refl)
    where
      queued :
          (n : Node Usi)
          → (n.tx.state ≡ pend) ⊎ (n.tx.state ≡ again)
          → truth (bit_and (code n.tx.state) 2) ≡ true
      queued n (inl e) = rw e
      queued n (inr e) = rw e

  start_call :
      (n : Node Usi)
      → n.drv.usi_xmit_state ≡ usi_xmit_start
      → ((next_bit c n).0.tx ≡ n.tx)
        × ((next_bit c n).1 ≡ pat_start1)
        × ((next_bit c n).0.drv.usi_xmit_state ≡ usi_xmit_bits)
  unfolding next_bit xmit_pattern start_pattern
  start_call n s = rw s (refl, refl, refl)

  start_wait :
      (t : Tx) (w w' : ℕ)
      → (let u = start c (record t { needed_idle = w }) in record u { needed_idle = w' })
        ≡ start c (record t { needed_idle = w' })
  unfolding start
  start_wait t w w' = ground arith

  module _ (aside : IsAside between) where
    bit_asked :
        (j : ℕ) (n : Node Usi)
        → n.drv.usi_xmit_state ≡ usi_xmit_bits
        → (let t = n.tx in
            let g = get_bit c (record t { needed_idle = aside.wait j n }) in
            ((next_bit c (between j n)).0.tx ≡ g.0)
            × ((next_bit c (between j n)).1 ≡ pattern_of g.1)
            × ((next_bit c (between j n)).0.drv.usi_xmit_state
                ≡ (if is g.0.state wait_for_ack then usi_xmit_idle else usi_xmit_bits)))
    bit_asked j n s =
        let q = bit_call (between j n) (aside.state_kept j n ∙ s) in
        (
          q.0 ∙ ap (λ t. (get_bit c t).0) (aside.tx_kept j n),
          q.1 ∙ ap (λ t. pattern_of (get_bit c t).1) (aside.tx_kept j n),
          q.2
              ∙ ap
                  (λ t.
                    if is (get_bit c t).0.state wait_for_ack then usi_xmit_idle else usi_xmit_bits)
                  (aside.tx_kept j n),
        )

    usi_sender : Sender c (Node Usi)
    usi_sender = record {
      tx = λ n. n.tx;
      show = pattern_of;
      step = λ j n. next_bit c (between j n);
      Going = λ j n. n.drv.usi_xmit_state ≡ usi_xmit_bits;
      Done = λ n. n.drv.usi_xmit_state ≡ usi_xmit_idle;
      wait = aside.wait;
      asks = λ j n g. let q = bit_asked j n g in (q.0, q.1);
      goes_on = λ j n g w.
          let q = bit_asked (suc j) n g in
          q.2
          ∙ ap (λ b. if b then usi_xmit_idle else usi_xmit_bits)
              (is_wait_for_ack _ (λ e. w (ap (λ t. t.state) q.0 ∙ e)));
      ends = λ n g e.
          let q = bit_asked 0 n g in
          q.2
          ∙ ap (λ u. if is u wait_for_ack then usi_xmit_idle else usi_xmit_bits)
              (ap (λ t. t.state) (sym q.0) ∙ e);
    }

    writes-sends : (j : ℕ) (n : Node Usi) → writes j n ≡ sends usi_sender j n
    unfolding writes sends usi_sender
    writes-sends zero n = refl
    writes-sends (suc j) n =
        ap (λ p. (p.0, (next_bit c (between j n)).1 ∷ p.1))
          (writes-sends j (next_bit c (between j n)).0)

    -- With a message queued, the transmission idle and the line idle for as many frames as the bus
    -- requires, the calls of `cec_usi_next_bit` give the two bytes of a start bit and then, in order,
    -- the bytes of the bits of the message that the layout of a message gives; they leave the driver
    -- idle and the transmit side at the end of the message. Between the calls the driver and the
    -- receive side may do anything but report an error: they change the wait alone of the transmit
    -- side. The buffer holds bytes, at most 256, and its last index is in it.
    pub writes-queued :
        (n : Node Usi)
        → n.tx.buf_end < length n.tx.buf
        → length n.tx.buf ≤ 256
        → IsBytes n.tx.buf
        → n.drv.usi_xmit_state ≡ usi_xmit_idle
        → (n.tx.state ≡ pend) ⊎ (n.tx.state ≡ again)
        → (let m = between (suc (suc (9 + 10 * n.tx.buf_end))) n in
            m.tx.needed_idle ≤ m.drv.idle_frames)
        → (let p = writes (suc (suc (suc (9 + 10 * n.tx.buf_end)))) n in
            (p.1
              ≡ pat_start0
                ∷ pat_start1
                ∷ patterns (message_bits (take (suc n.tx.buf_end) n.tx.buf)))
            × (p.0.drv.usi_xmit_state ≡ usi_xmit_idle)
            × (p.0.tx.state ≡ wait_for_ack))
    unfolding writes usi_sender
    writes-queued n h b m s q w = (ap₂ ◌∷◌ one.1 (ap₂ ◌∷◌ two.1 bits.0), bits.1, bits.2)
      where
        last : ℕ
        last = 9 + 10 * n.tx.buf_end

        t : Tx
        t = n.tx

        n₁ : Node Usi
        n₁ = between (suc (suc last)) n

        n₂ : Node Usi
        n₂ = between (suc last) (next_bit c n₁).0

        n₃ : Node Usi
        n₃ = (next_bit c n₂).0

        w₂ : ℕ
        w₂ = aside.wait (suc last) (next_bit c n₁).0

        still_queued :
            (n.tx.state ≡ pend) ⊎ (n.tx.state ≡ again)
            → (n₁.tx.state ≡ pend) ⊎ (n₁.tx.state ≡ again)
        still_queued (inl e) = inl (ap (λ u. u.state) (aside.tx_kept (suc (suc last)) n) ∙ e)
        still_queued (inr e) = inr (ap (λ u. u.state) (aside.tx_kept (suc (suc last)) n) ∙ e)

        one :
            ((next_bit c n₁).0.tx ≡ start c n₁.tx)
            × ((next_bit c n₁).1 ≡ pat_start0)
            × ((next_bit c n₁).0.drv.usi_xmit_state ≡ usi_xmit_start)
        one = idle_call n₁ (aside.state_kept (suc (suc last)) n ∙ s) (still_queued q) w

        two :
            (n₃.tx ≡ n₂.tx)
            × ((next_bit c n₂).1 ≡ pat_start1)
            × (n₃.drv.usi_xmit_state ≡ usi_xmit_bits)
        two = start_call n₂ (aside.state_kept (suc last) (next_bit c n₁).0 ∙ one.2)

        begun : n₃.tx ≡ start c (record t { needed_idle = w₂ })
        begun =
            two.0
            ∙ aside.tx_kept (suc last) (next_bit c n₁).0
            ∙ ap (λ (u : Tx). record u { needed_idle = w₂ })
                (one.0 ∙ ap (start c) (aside.tx_kept (suc (suc last)) n))
            ∙ start_wait t (aside.wait (suc (suc last)) n) w₂

        bits :
            ((writes (suc last) n₃).1 ≡ patterns (message_bits (take (suc t.buf_end) t.buf)))
            × ((writes (suc last) n₃).0.drv.usi_xmit_state ≡ usi_xmit_idle)
            × ((writes (suc last) n₃).0.tx.state ≡ wait_for_ack)
        bits =
            let r = sends-start usi_sender (record t { needed_idle = w₂ }) n₃ h b m begun two.2 in
            subst
              (λ p.
                (p.1 ≡ patterns (message_bits (take (suc t.buf_end) t.buf)))
                × (p.0.drv.usi_xmit_state ≡ usi_xmit_idle)
                × (p.0.tx.state ≡ wait_for_ack))
              (sym (writes-sends (suc last) n₃)) r
