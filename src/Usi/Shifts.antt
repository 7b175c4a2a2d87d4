-- ===== src/Usi/Shifts.antt =====
-- What an abort and an ack do to the shift register.
use avr_cec.Common.{
  ℕ, zero, suc, ◌-◌, ◌/◌, ◌%◌, ◌^◌, ◌<◌, ◌≡◌, refl, ap, ◌∙◌, arith, bit_and, bit_or, Bool, true,
  ◌&&◌, if◌then◌else◌, leb, ◌==◌, ==_iff, none, some, holds_below, holds_below_lem, Bool-cases, inl,
  inr,
}
use avr_cec.Transmit.{Config, Tx, finish_abort}
use avr_cec.Usi.{Usi, Shift, usi_xmit_idle, clear_bits, abort_rounds, abort}
use avr_cec.Usi.Ack.{skip_low, fill_bits, fill_buffer, put_acks, do_ack}

-- The loop of an abort, for `k` bits shifted in.
clears_all :
    holds_below (λ k. holds_below (λ dr. clear_bits (8 - k) 0x7f dr == dr % 2 ^ k) 256) 8 ≡ true
unfolding holds_below clear_bits
clears_all = refl

clear_bits_lem : (k dr : ℕ) → k < 8 → dr < 256 → clear_bits (8 - k) 0x7f dr ≡ dr % 2 ^ k
clear_bits_lem k dr h l = (==_iff _ _).0 (
    holds_below_lem (λ d. clear_bits (8 - k) 0x7f d == d % 2 ^ k) 256
      (holds_below_lem (λ i. holds_below (λ d. clear_bits (8 - i) 0x7f d == d % 2 ^ i) 256) 8
        clears_all k h)
      dr l)

low_three : (count : ℕ) → count < 16 → bit_and count 7 ≡ count % 8
unfolding holds_below
low_three count h = (==_iff _ _).0 (holds_below_lem (λ y. bit_and y 7 == y % 8) 16 refl count h)

abort_rounds_lem : (count : ℕ) → count < 16 → abort_rounds count ≡ 8 - count % 8
unfolding abort_rounds
abort_rounds_lem count h = rw (low_three count h) (ground arith)

-- An abort ends the transmission of the driver and of the engine, and leaves the timer running; of the
-- shift register, a byte, it keeps the bits that have been shifted in, as many as the counter tells,
-- and clears those still to be shifted out, so that the line is let go.
pub abort_releases :
    (c : Config) (tcnt0 : ℕ) (t : Tx) (d : Usi)
    → d.shift.count < 16
    → d.shift.usidr < 256
    → (let (t', d') = abort c tcnt0 t d in
        (t' ≡ finish_abort c t)
        × (d'.usi_xmit_state ≡ usi_xmit_idle)
        × (d'.shift.usidr ≡ d.shift.usidr % 2 ^ (d.shift.count % 8))
        × (d'.tccr0b ≡ tcnt0))
unfolding abort
abort_releases c tcnt0 t d h l = (
  refl,
  refl,
  ap (λ r. clear_bits r 0x7f d.shift.usidr) (abort_rounds_lem d.shift.count h)
      ∙ clear_bits_lem (d.shift.count % 8) d.shift.usidr (omega arith) l,
  refl,
)

-- The ticks for which the line has been low, of the last `left` ones: the ones at the right end.
pub low_ticks : ℕ → ℕ → ℕ
low_ticks zero dr = 0
low_ticks (suc left) dr = let rest = low_ticks left (dr / 2) in if dr % 2 == 0 then 0 else suc rest

skip_low_lem :
    (left dr acks : ℕ)
    → 0 < acks
    → skip_low left dr acks
      ≡ (if leb acks (low_ticks left dr) then none else some (acks - low_ticks left dr))
unfolding skip_low low_ticks
skip_low_lem zero dr acks h = ground arith
skip_low_lem (suc left) dr acks h = ground (arith, skip_low_lem left (dr / 2) (acks - 1))

-- A byte with its `k` highest bits set.
abbrev pub top_bits : ℕ → ℕ
top_bits k = 256 - 2 ^ (8 - k)

-- The bits for USIDR and the acks that are left, and the bits for USIBR.
abbrev fills : ℕ → ℕ → Bool
fills room acks =
    let (left, bits) = fill_bits (suc room) (suc acks) 0x80 in
    if leb (suc acks) (suc room)
    then left == 0 && bits == top_bits (suc acks)
    else left == acks - room && bits == top_bits (suc room)

fills_all : holds_below (λ room. holds_below (fills room) 5) 8 ≡ true
unfolding holds_below fill_bits
fills_all = refl

fills_lem : (room acks : ℕ) → room < 8 → acks < 5 → fills room acks ≡ true
fills_lem room acks h l =
    holds_below_lem (fills room) 5
      (holds_below_lem (λ r. holds_below (fills r) 5) 8 fills_all room h) acks l

buffer_all : holds_below (λ acks. fill_buffer (suc acks) 0x80 == top_bits (suc acks)) 5 ≡ true
unfolding holds_below fill_buffer
buffer_all = refl

buffer_lem : (acks : ℕ) → acks < 5 → fill_buffer (suc acks) 0x80 ≡ top_bits (suc acks)
buffer_lem acks h =
    (==_iff _ _).0
      (holds_below_lem (λ a. fill_buffer (suc a) 0x80 == top_bits (suc a)) 5 buffer_all acks h)

fill_bits_lem :
    (room acks : ℕ)
    → room < 8
    → acks < 5
    → ((fill_bits (suc room) (suc acks) 0x80).0 ≡ (if leb acks room then 0 else acks - room))
      × ((fill_bits (suc room) (suc acks) 0x80).1
          ≡ top_bits (if leb acks room then suc acks else suc room))
fill_bits_lem room acks h l = ground (arith, fills_lem room acks h l)

-- The register and the buffer with `left` bits of an ack, `room` of which the register takes.
abbrev pub acked : ℕ → ℕ → Shift → Shift
acked left room s =
    if leb left room
    then record s { usidr = bit_or s.usidr (top_bits left) }
    else record s { usidr = bit_or s.usidr (top_bits room); usibr = top_bits (left - room) }

buffer_pos : (acks : ℕ) → 0 < acks → acks < 6 → fill_buffer acks 0x80 ≡ top_bits acks
buffer_pos zero h l = absurd (omega arith)
buffer_pos (suc acks) h l = buffer_lem acks (omega arith)

put_acks-suc :
    (room acks : ℕ) (s : Shift)
    → room < 8
    → acks < 5
    → put_acks (7 - room) (suc acks) s ≡ acked (suc acks) (suc room) s
unfolding put_acks
put_acks-suc room acks s h l =
    let e : 8 - (7 - room) ≡ suc room = omega arith in
    let f = fill_bits_lem room acks h l in
    rw (e, f.0, f.1) (ground (arith, buffer_pos (acks - room)))

put_acks_lem :
    (k acks : ℕ) (s : Shift)
    → k < 8
    → 0 < acks
    → acks < 6
    → put_acks k acks s ≡ acked acks (8 - k) s
put_acks_lem k zero s h p l = absurd (omega arith)
put_acks_lem k (suc acks) s h p l =
    ap (λ i. put_acks i (suc acks) s) back
    ∙ put_acks-suc (7 - k) acks s (omega arith) (omega arith)
    ∙ ap (λ r. acked (suc acks) r s) there
  where
    back : k ≡ 7 - (7 - k)
    back = omega arith

    there : suc (7 - k) ≡ 8 - k
    there = omega arith

-- An ack of 1 to 5 ticks: the ticks for which the line has been low already count, up to those that
-- are in the shift register; if they use it up, nothing is written. Otherwise the rest is set as ones,
-- first in the bits of the shift register that are still to go, from the highest on, and what does not
-- fit there in the highest bits of the buffer register.
pub do_ack_ticks :
    (acks : ℕ) (s : Shift)
    → 0 < acks
    → acks < 6
    → s.count < 16
    → (let k = s.count % 8 in
        let low = low_ticks k s.usidr in
        do_ack acks s ≡ (if leb acks low then s else acked (acks - low) (8 - k) s))
unfolding do_ack
do_ack_ticks acks s p l h = rw (low_three s.count h) (
    rw (skip_low_lem (s.count % 8) s.usidr acks p)
      (elim (Bool-cases (leb acks (low_ticks (s.count % 8) s.usidr))) [
        | inl late ↦ rw late
        | inr soon ↦ rw soon (
            put_acks_lem (s.count % 8) (acks - low_ticks (s.count % 8) s.usidr) s (omega arith)
              (ground (arith, soon)) (omega arith))
      ]))
