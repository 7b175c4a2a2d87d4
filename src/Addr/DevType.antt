-- ===== src/Addr/DevType.antt =====
-- cec_addr_dev_type.c: a logical address for a device type, by polling the addresses it may have.
pub mod Claim
pub mod Table
pub mod Empties
use avr_cec.Common.{
  ℕ, ◌+◌, ◌*◌, ◌/◌, ◌%◌, bit_and, bit_or, Bool, not, List, length, get_or, set, if◌then◌else◌, ◌==◌,
  u8,
}
use avr_cec.Spec.{addr, unregistered}
use avr_cec.Transmit.{Tx, State, idle, pend, failed, is}
use avr_cec.Receive.State.{Rx}

-- `logical_address` and `cec_dev_idx`, and the engines' variables that the module uses.
pub record Host : Type 0 where
  pub logical : ℕ
  pub idx : ℕ
  pub rx : Rx
  pub tx : Tx

-- The `swap` instruction: the nibbles of a byte change places.
abbrev pub swap_nibbles : ℕ → ℕ
swap_nibbles x = x % 16 * 16 + x / 16 % 16

-- `cec_addr_build`; the source is not looked at.
unfoldable pub addr_build : Host → ℕ → ℕ → ℕ
addr_build h source target = bit_or (swap_nibbles h.logical) target

unfoldable pub addr_ready : Host → Bool
addr_ready h = not (h.logical == 0xff)

unfoldable pub addr_match : Host → ℕ → Bool
addr_match h a = a == h.logical

-- `cec_addr_init`.
unfoldable pub addr_init : Host → Host
addr_init h = let t = h.tx in record h { logical = 0xff; idx = 0; tx = record t { state = idle } }

-- `cec_receive_buf[CEC_RECEIVE_BUF_HDR] = 0`.
abbrev pub drop_message : Host → Host
drop_message h = let r = h.rx in record h { rx = record r { buf = set r.buf r.hdr 0 } }

-- `cec_addr_periodic`, over the table `cec_dev_addrs`.
unfoldable pub addr_periodic : List ℕ → Host → Host
unfolding addr_ready
addr_periodic addrs h =
    if addr_ready h
    then h
    else (let g = drop_message h in
        if is g.tx.state idle
        then (if g.idx == length addrs
            then record g { logical = addr unregistered }
            else (let t = g.tx in
                record g {
                  idx = u8 (g.idx + 1);
                  tx = record t {
                    buf = set t.buf 0 (get_or addrs g.idx 0);
                    buf_end = 0;
                    state = pend;
                  };
                }))
        else (if is g.tx.state failed
            then record g { logical = bit_and (get_or g.tx.buf 0 0) 0xf }
            else g))
