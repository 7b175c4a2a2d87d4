-- ===== src/Receive/State.antt =====
-- The variables of cec_receive.c. `cec_receive_flags` is a byte whose eight bits are all named, so
-- it is a record of eight conditions; `flags_byte` is its value.
use avr_cec.Common.{
  ℕ, ◌+◌, ◌*◌, bit_and, bit_or, Bool, true, false, ◌||◌, not, List, get_or, set, if◌then◌else◌,
  ◌==◌, truth, to_ℕ, u8,
}
use avr_cec.Spec.{addr, broadcast, buffer_size, status_nack, status_overrun}

-- `CEC_RECV_*`, lowest bit first.
pub record Flags : Type 0 where
  pub active : Bool
  pub bcast : Bool
  pub do_ack : Bool
  pub bits_eom : Bool
  pub eom : Bool
  pub ignore : Bool
  pub overrun : Bool
  pub nacked : Bool

-- The value of the flags byte.
abbrev pub flags_byte : Flags → ℕ
flags_byte f =
    to_ℕ f.active
    + to_ℕ f.bcast * 2
    + to_ℕ f.do_ack * 4
    + to_ℕ f.bits_eom * 8
    + to_ℕ f.eom * 16
    + to_ℕ f.ignore * 32
    + to_ℕ f.overrun * 64
    + to_ℕ f.nacked * 128

-- `cec_receive_flags = 0`.
abbrev pub no_flags : Flags
no_flags = record {
  active = false;
  bcast = false;
  do_ack = false;
  bits_eom = false;
  eom = false;
  ignore = false;
  overrun = false;
  nacked = false;
}

-- `CEC_RECV_ACTIVE | CEC_RECV_BITS_EOM`.
abbrev pub start_flags : Flags
start_flags = record no_flags { active = true; bits_eom = true }

-- The condition `if (cec_receive_flags)`.
unfoldable pub any_flag : Flags → Bool
any_flag f = truth (flags_byte f)

-- `hdr` is the build's CEC_RECEIVE_BUF_HDR, kept with the buffer that it shifts.
pub record Rx : Type 0 where
  pub hdr : ℕ
  pub buf : List ℕ
  pub byte : ℕ
  pub pos : ℕ
  pub flags : Flags

-- `cec_receive_buf[CEC_RECEIVE_BUF_HDR]`: not 0 while a message waits for the application.
abbrev pub header : Rx → ℕ
header r = get_or r.buf r.hdr 0

-- `(receive_byte << 1) | bit`.
unfoldable pub shift_in : ℕ → Bool → ℕ
shift_in b bit = bit_or (u8 (b * 2)) (to_ℕ bit)

-- The flags after a byte is complete, and `nack`: the target address of the first byte, a full
-- buffer at byte 16, and nothing for the others. `own` is `cec_addr_match`.
unfoldable pub judge_byte : (ℕ → Bool) → Rx → ℕ → Flags × Bool
judge_byte own r b =
    let f = r.flags in
    let target = bit_and b 15 in
    let f' =
      (if target == addr broadcast
        then record f { bcast = true }
        else (if own target then record f { do_ack = true } else f)) in
    if r.pos == 0
    then (if truth (header r) then (record f' { ignore = true }, true) else (f', false))
    else (if r.pos == buffer_size then (record f { overrun = true }, true) else (f, false))

-- What `nack` does to the flags: pull the ack bit of a broadcast, withhold that of a follower.
unfoldable pub apply_nack : Flags → Flags
apply_nack f = if f.bcast then record f { do_ack = true } else record f { do_ack = false }

-- The branch of `cec_receive_bit` that completes the byte `b`.
unfoldable pub finish_byte : (ℕ → Bool) → Rx → ℕ → Rx
finish_byte own r b =
    let (f, nack) = judge_byte own r b in
    let r' = record r { byte = 0; pos = u8 (r.pos + 1) } in
    if nack
    then record r' { flags = apply_nack f }
    else (if f.ignore || f.overrun
        then record r' { flags = f }
        else record r' { flags = f; buf = set r.buf (r.pos + 1 + r.hdr) b })

-- A data bit: `done` is the preloaded bit's arrival at the top.
unfoldable pub data_bit : (ℕ → Bool) → Bool → Rx → Rx
data_bit own bit r =
    if truth (bit_and r.byte 128)
    then finish_byte own r (shift_in r.byte bit)
    else record r { byte = shift_in r.byte bit }

-- The EOM bit.
unfoldable pub eom_bit : Bool → Rx → Rx
eom_bit bit r =
    let f = r.flags in record r { flags = record f { eom = f.eom || bit; bits_eom = false } }

-- `flags & (CEC_STATUS_NACK | CEC_STATUS_OVERRUN)`.
unfoldable pub status_bits : Flags → ℕ
status_bits f = bit_and (flags_byte f) (bit_or status_nack status_overrun)

-- The ack bit, `bit` already turned so that true means acknowledged: the end of the message, or the
-- next frame.
unfoldable pub ack_bit : Bool → Rx → Rx
ack_bit bit r =
    let f = (if bit then r.flags else (let g = r.flags in record g { nacked = true })) in
    if not bit || f.eom
    then (if f.ignore
        then record r { flags = no_flags }
        else record r { flags = no_flags; buf = set r.buf r.hdr (bit_or r.pos (status_bits f)) })
    else record r { byte = 1; flags = record f { bits_eom = true } }
