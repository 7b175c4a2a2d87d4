-- ===== src/Usi/Ack.antt =====
-- `cec_receive_do_ack`: the assembly that puts the bits of an ack into the shift register and the
-- buffer register while the timer stands. Left out are the instructions around it, which stop the timer
-- (TCCR0B) and block interrupts (SREG), and undo both at the end.
use avr_cec.Common.{
  ℕ, zero, suc, ◌+◌, ◌-◌, ◌/◌, ◌%◌, if◌then◌else◌, ◌==◌, bit_and, bit_or, Option, none, some,
}
use avr_cec.Usi.{Shift}

-- `asr` on a byte: the top bit stays.
abbrev pub asr : ℕ → ℕ
asr x = x / 2 + bit_and x 128

-- The count of the ticks since the line fell, from `lsr` on: `left` bits of the register `reg1` are to
-- be looked at. `none` is the jump to `done`; the acks left are the result.
unfoldable pub skip_low : ℕ → ℕ → ℕ → Option ℕ
skip_low zero reg1 acks = some acks
skip_low (suc left) reg1 acks =
    let rest = skip_low left (reg1 / 2) (acks - 1) in
    if reg1 % 2 == 0 then some acks else (if acks - 1 == 0 then none else rest)

-- The loop at `ack_dr`: `room` bits of USIDR are still to be shifted out. Its results are the acks
-- left and the bits to set.
unfoldable pub fill_bits : ℕ → ℕ → ℕ → ℕ × ℕ
fill_bits zero acks bits = (acks, bits)
fill_bits (suc room) acks bits =
    let rest = fill_bits room (acks - 1) (asr bits) in
    if acks - 1 == 0 then (0, bits) else (if room == 0 then (acks - 1, bits) else rest)

-- The loop for USIBR: as many bits as acks are left.
unfoldable pub fill_buffer : ℕ → ℕ → ℕ
fill_buffer zero bits = bits
fill_buffer (suc acks) bits =
    let rest = fill_buffer acks (asr bits) in if acks == 0 then bits else rest

-- The part from `ack_dr` on, for a counter of `count` bits shifted in.
unfoldable pub put_acks : ℕ → ℕ → Shift → Shift
unfolding fill_bits fill_buffer
put_acks count acks s =
    let (left, bits) = fill_bits (8 - count) acks 0x80 in
    let s' = record s { usidr = bit_or s.usidr bits } in
    if left == 0 then s' else record s' { usibr = fill_buffer left 0x80 }

-- What follows the count: the jump to `done`, or `ack_dr`.
abbrev pub resume : ℕ → Shift → Option ℕ → Shift
resume count s none = s
resume count s (some acks) = put_acks count acks s

-- The whole; `acks` is 1 to 5.
unfoldable pub do_ack : ℕ → Shift → Shift
do_ack acks s = let count = bit_and s.count 7 in resume count s (skip_low count s.usidr acks)
