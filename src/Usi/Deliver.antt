-- ===== src/Usi/Deliver.antt =====
-- Two hosts with USI drivers: the bytes that one of them shifts out, as the other one shifts them in.
use avr_cec.Common.{
  ℕ, suc, ◌+◌, ◌*◌, ◌%◌, ◌≤◌, ◌<◌, ◌≡◌, ◌⊎◌, refl, ap, ap₂, ◌∙◌, sym, subst, arith, bit_or, Bool,
  true, false, ◌==◌, List, ◌∷◌, ◌++◌, length, get_or, take, IsBytes, length-take_le, if◌then◌else◌,
}
use avr_cec.Transmit.{Config, pend, again}
use avr_cec.Receive.State.{no_flags, header}
use avr_cec.Receive.Engine.{Node, receive_start}
use avr_cec.Receive.Decode.{feed}
use avr_cec.Receive.Frame.{wire}
use avr_cec.Receive.Message.{IsHanded, receive-message}
use avr_cec.Link.Slots.{followed, followed-frames, shown-append, wire_pos}
use avr_cec.Link.{message_bits_long, get_or-take, take-IsBytes}
use avr_cec.Usi.{
  Usi, usi_recv_idle, usi_xmit_idle, usi_driver, pat_0, pat_1, pat_start0, pat_start1,
}
use avr_cec.Usi.Wave.{patterns, pattern_of}
use avr_cec.Usi.Calls.{Call, arrived, calls, IsHook, calls-feed}
use avr_cec.Usi.Sent.{IsAside, writes, writes-queued}

-- Where the followers drive the line in the ack slots, it is low for as long as for a zero.
abbrev pub pull : Bool → ℕ → ℕ
pull slot ack = bit_or ack (if slot then 0 else pat_0)

-- The line with the followers on it, behind the two bytes of the start bit.
abbrev pub on_line : Bool → List ℕ → List ℕ
on_line slot (x ∷ y ∷ l) = x ∷ y ∷ followed (pull slot) l
on_line slot l = l

pull_pattern : (slot : Bool) → pull slot pat_1 ≡ pattern_of slot
pull_pattern true = refl
pull_pattern false = refl

module _ (ct c : Config) (tcnt0 : ℕ) (hook : Node Usi → Node Usi) (own : ℕ → Bool)
    (between : ℕ → Node Usi → Node Usi) (is_hook : IsHook hook) (aside : IsAside between) where
  -- The bytes that one host's calls of `cec_usi_next_bit` give for a queued message of 2 to 16 bytes,
  -- with the ack slots driven if it goes to one host and left alone if it is a broadcast, are heard by
  -- the calls of another host's driver as that message: it is handed over as the bytes up to
  -- `transmit_buf_end` in order, behind a header byte that is their number, whatever bits follow. The
  -- conditions: at the sender an idle driver, a line that has been idle for as long as the bus
  -- requires, buffers of their declared sizes that hold bytes, and no error reported meanwhile; at
  -- the receiver a free buffer, no message in reception, and a hook that leaves it alone.
  pub writes-calls :
      (s n : Node Usi) (rest : List Bool) (l : List Call)
      → 0 < s.tx.buf_end
      → s.tx.buf_end < length s.tx.buf
      → length s.tx.buf ≡ 16
      → IsBytes s.tx.buf
      → s.drv.usi_xmit_state ≡ usi_xmit_idle
      → (s.tx.state ≡ pend) ⊎ (s.tx.state ≡ again)
      → (let m = between (suc (suc (9 + 10 * s.tx.buf_end))) s in
          m.tx.needed_idle ≤ m.drv.idle_frames)
      → length n.rx.buf ≡ 17 + n.rx.hdr
      → header n.rx ≡ 0
      → n.rx.flags ≡ no_flags
      → n.drv.usi_recv_state ≡ usi_recv_idle
      → n.drv.recv_last_bit ≡ true
      → (let sent = (writes ct between (suc (suc (suc (9 + 10 * s.tx.buf_end)))) s).1 in
          arrived l ≡ on_line (get_or s.tx.buf 0 0 % 16 == 15) sent ++ patterns rest)
      → IsHanded 0 0 (take (suc s.tx.buf_end) s.tx.buf) n.rx (calls c tcnt0 hook own l n).rx
  writes-calls s n rest l long fits size ht xidle queued enough len free none idle high e =
      subst (IsHanded 0 0 m n.rx) (sym heard) (
        receive-message c (usi_driver c tcnt0) own m rest n pos (omega (arith, count))
          (take-IsBytes (suc s.tx.buf_end) s.tx.buf ht) len free)
    where
      m : List ℕ
      m = take (suc s.tx.buf_end) s.tx.buf

      count : length m ≡ suc s.tx.buf_end
      count = length-take_le (suc s.tx.buf_end) s.tx.buf fits

      pos : 0 < length m
      pos = omega (arith, count)

      slot : Bool
      slot = get_or m 0 0 % 16 == 15

      first : get_or s.tx.buf 0 0 ≡ get_or m 0 0
      first = sym (get_or-take (suc s.tx.buf_end) 0 s.tx.buf (omega arith))

      line : arrived l ≡ pat_start0 ∷ pat_start1 ∷ patterns (wire slot m ++ rest)
      line =
          e
          ∙ ap₂ (λ a q. on_line (a % 16 == 15) q ++ patterns rest) first
              (writes-queued ct between aside s fits (omega arith) ht xidle queued enough).0
          ∙ ap (λ q. pat_start0 ∷ pat_start1 ∷ (followed (pull slot) (patterns q) ++ patterns rest))
              (message_bits_long m (omega (arith, count)))
          ∙ ap (λ q. pat_start0 ∷ pat_start1 ∷ (q ++ patterns rest))
              (followed-frames pattern_of (pull slot) slot m (pull_pattern slot))
          ∙ ap (λ q. pat_start0 ∷ pat_start1 ∷ q) (sym (shown-append pattern_of (wire slot m) rest))

      heard :
          (calls c tcnt0 hook own l n).rx
          ≡ (let v = usi_driver c tcnt0 in
              feed c v own (wire slot m ++ rest) (receive_start c v n)).rx
      heard =
          calls-feed c tcnt0 hook own is_hook (wire slot m ++ rest) l n (wire_pos slot m rest pos)
            none idle high line
