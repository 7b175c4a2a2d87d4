-- ===== src/Receive/Bounds.antt =====
-- The receive engine writes inside its buffer. The list of a receive side may go on behind the 17 bytes that
-- the engine declares: what stands there in memory.
use avr_cec.Common.{
  ℕ, ◌+◌, ◌<◌, ◌≤◌, ◌≡◌, ◌⊎◌, inl, inr, refl, ◌∙◌, ap, arith, bit_and, Bool, true, false, ◌&&◌,
  ◌||◌, not, List, [], ◌∷◌, set, get_or, get_or-set_ne, if◌then◌else◌, truth, Bool-cases,
}
use avr_cec.Receive.State.{
  Rx, any_flag, data_bit, eom_bit, ack_bit, finish_byte, judge_byte, apply_nack,
}
use avr_cec.Transmit.{Config}
use avr_cec.Receive.Engine.{Driver, Node, receive_start}
use avr_cec.Receive.Decode.{
  rx_bit, rx_feed, feed, feed-rx, rx_bit-data, rx_bit-eom, rx_bit-ack, ack_bit-more, ack_bit-over,
  final_header,
}

-- A place that is not the engine's: in front of the header byte, or behind the 16 bytes that follow it.
abbrev pub IsOutside : ℕ → ℕ → Type 0
IsOutside hdr i = (i < hdr) ⊎ (17 + hdr ≤ i)

-- Past the end of its buffer the engine has marked the message as ignored or overrun.
abbrev IsMarked : Rx → Type 0
IsMarked r =
    (any_flag r.flags ≡ false) ⊎ ((r.flags.ignore || r.flags.overrun) ≡ true) ⊎ (r.pos ≤ 16)

-- The byte is stored.
stores : (ℕ → Bool) → Rx → ℕ → Bool
stores own r b = let (f, nack) = judge_byte own r b in not nack && not (f.ignore || f.overrun)

finish_byte-buf :
    (own : ℕ → Bool) (b : ℕ) (r : Rx)
    → (finish_byte own r b).buf
      ≡ (if stores own r b then set r.buf (r.pos + 1 + r.hdr) b else r.buf)
unfolding finish_byte stores
finish_byte-buf own b r = ground arith

stores-in :
    (own : ℕ → Bool) (b : ℕ) (r : Rx)
    → IsMarked r
    → any_flag r.flags ≡ true
    → stores own r b ≡ true
    → r.pos < 16
unfolding stores judge_byte
stores-in own b r s a e = ground (arith, s)

finish_byte-IsMarked :
    (own : ℕ → Bool) (b : ℕ) (r : Rx)
    → IsMarked r
    → any_flag r.flags ≡ true
    → IsMarked (finish_byte own r b)
unfolding finish_byte judge_byte apply_nack
finish_byte-IsMarked own b r s a = ground (arith, s)

finish_byte-hdr : (own : ℕ → Bool) (b : ℕ) (r : Rx) → (finish_byte own r b).hdr ≡ r.hdr
unfolding finish_byte
finish_byte-hdr own b r = ground arith

-- A write at a place of the engine's leaves the others alone.
set_inside :
    (l : List ℕ) (hdr i j y : ℕ)
    → IsOutside hdr i
    → hdr ≤ j
    → j < 17 + hdr
    → get_or (set l j y) i 0 ≡ get_or l i 0
set_inside l hdr i j y (inl h) low high = get_or-set_ne l j i y 0 (λ e. omega (arith, e))
set_inside l hdr i j y (inr h) low high = get_or-set_ne l j i y 0 (λ e. omega (arith, e))

-- One bit is received safely.
record IsStep (r r' : Rx) : Type 0 where
  hdr : r'.hdr ≡ r.hdr
  marked : IsMarked r'
  kept : (i : ℕ) → IsOutside r.hdr i → get_or r'.buf i 0 ≡ get_or r.buf i 0

module _ (own : ℕ → Bool) (b : Bool) (r : Rx) (s : IsMarked r) (a : any_flag r.flags ≡ true) where
  active_marked : ((r.flags.ignore || r.flags.overrun) ≡ true) ⊎ (r.pos ≤ 16)
  active_marked = ground (arith, s, a)

  finish_byte-kept :
      (x i : ℕ) → IsOutside r.hdr i → get_or (finish_byte own r x).buf i 0 ≡ get_or r.buf i 0
  finish_byte-kept x i o = rw (finish_byte-buf own x r) (elim (Bool-cases (stores own r x)) [
    | inl t ↦
        let p = stores-in own x r s a t in
        rw t (set_inside r.buf r.hdr i (r.pos + 1 + r.hdr) x o (omega arith) (omega (arith, p)))
    | inr f ↦ rw f refl
  ])

  data_bit-IsStep : IsStep r (data_bit own b r)
  unfolding data_bit
  data_bit-IsStep = elim (Bool-cases (truth (bit_and r.byte 128))) [
    | inl full ↦ rw full (record {
      hdr = finish_byte-hdr own _ r;
      marked = finish_byte-IsMarked own _ r s a;
      kept = finish_byte-kept _;
    })
    | inr more ↦ rw more (record { hdr = refl; marked = s; kept = λ i o. refl })
  ]

  eom_bit-IsStep : IsStep r (eom_bit b r)
  unfolding eom_bit
  eom_bit-IsStep = record { hdr = refl; marked = inr active_marked; kept = λ i o. refl }

  header_kept :
      (keep : Bool) (y i : ℕ)
      → IsOutside r.hdr i
      → get_or (if keep then r.buf else set r.buf r.hdr y) i 0 ≡ get_or r.buf i 0
  header_kept true y i o = refl
  header_kept false y i o = set_inside r.buf r.hdr i r.hdr y o (omega arith) (omega arith)

  ack_bit-IsStep : (acked : Bool) → IsStep r (ack_bit acked r)
  unfolding any_flag
  ack_bit-IsStep acked = elim (Bool-cases (not acked || r.flags.eom)) [
    | inl over ↦ rw (ack_bit-over acked r over) (record {
      hdr = refl;
      marked = inl refl;
      kept = header_kept r.flags.ignore (final_header acked r);
    })
    | inr more ↦
        rw (ack_bit-more acked r more)
          (record { hdr = refl; marked = inr active_marked; kept = λ i o. refl })
  ]

  rx_bit-IsStep : IsStep r (rx_bit own b r)
  rx_bit-IsStep = elim (Bool-cases r.flags.bits_eom) [
    | inl bits ↦ elim (Bool-cases (truth r.byte)) [
      | inl p ↦ rw (rx_bit-data own b r bits p) data_bit-IsStep
      | inr z ↦ rw (rx_bit-eom own b r bits z) eom_bit-IsStep
    ]
    | inr slot ↦ rw (rx_bit-ack own b r slot) (ack_bit-IsStep _)
  ]

rx_feed-kept :
    (own : ℕ → Bool) (bs : List Bool) (r : Rx)
    → IsMarked r
    → (i : ℕ) → IsOutside r.hdr i
    → get_or (rx_feed own bs r).buf i 0 ≡ get_or r.buf i 0
unfolding rx_feed
rx_feed-kept own [] r s i o = refl
rx_feed-kept own (b ∷ bs) r s i o = elim (Bool-cases (any_flag r.flags)) [
  | inl on ↦
      let p = rx_bit-IsStep own b r s on in
      let o' : IsOutside (rx_bit own b r).hdr i = rw p.hdr o in
      rw on (rx_feed-kept own bs (rx_bit own b r) p.marked i o' ∙ p.kept i o)
  | inr off ↦ rw off refl
]

module _ {D : Type 0} (c : Config) (v : Driver c D) where
  -- Whatever bits follow a start bit, of messages of any length, what stands in memory in front of the
  -- header byte and behind the 16 bytes that follow it is not changed, whatever the driver and the
  -- state of the transmit side.
  pub feed-outside_kept :
      (own : ℕ → Bool) (bs : List Bool) (n : Node D) (i : ℕ)
      → IsOutside n.rx.hdr i
      → get_or (feed c v own bs (receive_start c v n)).rx.buf i 0 ≡ get_or n.rx.buf i 0
  unfolding receive_start
  feed-outside_kept own bs n i o =
      ap (λ r. get_or r.buf i 0) (feed-rx c v own bs (receive_start c v n))
      ∙ rx_feed-kept own bs (receive_start c v n).rx (inr (inr (omega arith))) i o
