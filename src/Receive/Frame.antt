-- ===== src/Receive/Frame.antt =====
-- Reception of one frame by the receive engine: a byte, its end-of-message bit and its ack slot.
use avr_cec.Common.{
  ℕ, zero, suc, ◌+◌, ◌*◌, ◌%◌, ◌<◌, ◌≡◌, refl, ap, ◌∙◌, arith, Bool, true, false, ◌||◌, List, [],
  ◌∷◌, ◌++◌, set, if◌then◌else◌, ◌==◌, to_ℕ, get_or-set_ne, get_or-set_self, length, bit_and-nibble,
  bit_and_top, bit_or-zero, bit_or_high, bit_or, ap₂, not, to_ℕ-le_one, Bool-cases,
}
use mathlib.Core.List.{append_assoc}
use avr_cec.Transmit.Layout.{bits_from}
use avr_cec.Receive.State.{
  Rx, Flags, no_flags, header, eom_bit, ack_bit, finish_byte, judge_byte, flags_byte, status_bits,
}
use avr_cec.Receive.Decode.{rx_bit, rx_bit-ack, ack_bit-over, rx_feed, final_header}
use avr_cec.Receive.Byte.{rx_feed-byte, rx_feed-cons, any_flag_active}

pub status_bits_lem : (f : Flags) → status_bits f ≡ to_ℕ f.overrun * 64 + to_ℕ f.nacked * 128
unfolding status_bits
status_bits_lem f =
    omega (arith, bit_and_top (flags_byte f) (omega (arith, to_ℕ-le_one)), to_ℕ-le_one)

-- A receive side that is not active, and a bit that comes all the same.
pub idle_bit :
    (own : ℕ → Bool) (r : Rx)
    → r.flags ≡ no_flags
    → r.hdr < length r.buf
    → header (rx_bit own true r) ≡ bit_or r.pos 128
idle_bit own r e h = ground (
  arith,
  e,
  rx_bit-ack own true r (ap (λ f. f.bits_eom) e),
  ack_bit-over false r refl,
  status_bits_lem (record r.flags { nacked = true }),
  get_or-set_self r.buf r.hdr (final_header false r) 0 h,
)

-- A byte on the line as every host sees it: the end-of-message bit, and the ack slot.
abbrev pub wire_frame : Bool → Bool → ℕ → List Bool
wire_frame eom slot x = bits_from 8 x ++ (eom ∷ slot ∷ [])

-- A message whose frames have the given ack slot, but the last one, which has the given
-- end-of-message bit and the slot `last`.
abbrev pub wire_to : Bool → Bool → Bool → List ℕ → List Bool
wire_to slot eom last [] = []
wire_to slot eom last (x ∷ []) = wire_frame eom last x
wire_to slot eom last (x ∷ y ∷ l) = wire_frame false slot x ++ wire_to slot eom last (y ∷ l)

-- A message whose frames all have the given ack slot, with the end-of-message bit in the last one.
abbrev pub wire : Bool → List ℕ → List Bool
wire slot l = wire_to slot true slot l

-- Between two frames of a message of which `j` bytes are stored.
pub record IsReceiving (bc : Bool) (j : ℕ) (r : Rx) : Type 0 where
  pub active : r.flags.active ≡ true
  pub bits : r.flags.bits_eom ≡ true
  pub bcast : r.flags.bcast ≡ (if j == 0 then false else bc)
  pub eom : r.flags.eom ≡ false
  pub ignore : r.flags.ignore ≡ false
  pub overrun : r.flags.overrun ≡ false
  pub nacked : r.flags.nacked ≡ false
  pub fresh : r.byte ≡ 1
  pub count : r.pos ≡ j
  pub free : header r ≡ 0

module _ (own : ℕ → Bool) (bc : Bool) where
  -- The flags after the byte `x`, the `j`th.
  unfoldable pub after_byte : ℕ → ℕ → Flags → Flags
  after_byte j x f =
      if j == 0
      then (if bc
          then record f { bcast = true }
          else record f { do_ack = f.do_ack || own (x % 16) })
      else f

  judge_byte_lem :
      (j x : ℕ) (r : Rx)
      → IsReceiving bc j r
      → j < 16
      → x < 256
      → (j ≡ 0 → bc ≡ (x % 16 == 15))
      → judge_byte own r x ≡ (after_byte j x r.flags, false)
  unfolding judge_byte after_byte
  judge_byte_lem zero x r v h hx hb =
      ground (arith, bit_and-nibble x hx, hb refl, Bool-cases (own (x % 16)), v.free, v.count)
  judge_byte_lem (suc j) x r v h hx hb = ground (arith, v.count)

  pub after_byte_clear :
      (j x : ℕ) (f : Flags)
      → ((after_byte j x f).ignore ≡ f.ignore)
        × ((after_byte j x f).overrun ≡ f.overrun)
        × ((after_byte j x f).active ≡ f.active)
        × ((after_byte j x f).bits_eom ≡ f.bits_eom)
        × ((after_byte j x f).eom ≡ f.eom)
        × ((after_byte j x f).nacked ≡ f.nacked)
        × ((after_byte j x f).bcast ≡ (if j == 0 then bc || f.bcast else f.bcast))
  unfolding after_byte
  after_byte_clear j x f = ground arith

  pub finish_byte_lem :
      (j x : ℕ) (r : Rx)
      → IsReceiving bc j r
      → j < 16
      → x < 256
      → (j ≡ 0 → bc ≡ (x % 16 == 15))
      → finish_byte own r x ≡ record r {
        byte = 0;
        pos = j + 1;
        flags = after_byte j x r.flags;
        buf = set r.buf (j + 1 + r.hdr) x;
      }
  unfolding finish_byte
  finish_byte_lem j x r v h hx hb =
      rw (judge_byte_lem j x r v h hx hb)
        (ground (arith, v.count, v.ignore, v.overrun, after_byte_clear j x r.flags))

  -- The receive side after the data bits of the byte `x`, and with it the end-of-message bit.
  abbrev pub after_data : ℕ → ℕ → Rx → Rx
  after_data j x r = record r {
    byte = 0;
    pos = j + 1;
    flags = after_byte j x r.flags;
    buf = set r.buf (j + 1 + r.hdr) x;
  }

  abbrev pub after_eom : Bool → ℕ → ℕ → Rx → Rx
  after_eom e j x r =
      let f = after_byte j x r.flags in
      record (after_data j x r) { flags = record f { eom = e; bits_eom = false } }

  -- The next byte can begin.
  unfoldable pub next_byte : ℕ → ℕ → Rx → Rx
  next_byte j x r =
      let f = after_byte j x r.flags in
      record (after_data j x r) { byte = 1; flags = record f { eom = false; bits_eom = true } }

  -- The message is handed to the application, with the given status.
  abbrev pub handed : ℕ → ℕ → ℕ → Rx → Rx
  handed s j x r = record (after_data j x r) {
    flags = no_flags;
    buf = set (set r.buf (j + 1 + r.hdr) x) r.hdr (s + (j + 1));
  }

  module _ (j x : ℕ) (r : Rx) (v : IsReceiving bc j r) (h : j < 16) (hx : x < 256)
      (hb : j ≡ 0 → bc ≡ (x % 16 == 15)) where
    pub eom_step : (e : Bool) → rx_bit own e (after_data j x r) ≡ after_eom e j x r
    unfolding rx_bit eom_bit
    eom_step e = ground (arith, v.bits, v.eom, after_byte_clear j x r.flags)

    pub slot_more : rx_bit own bc (after_eom false j x r) ≡ next_byte j x r
    unfolding rx_bit ack_bit next_byte
    slot_more = ground (arith, v.bcast, after_byte_clear j x r.flags)

    pub slot_last : rx_bit own bc (after_eom true j x r) ≡ handed 0 j x r
    unfolding rx_bit ack_bit
    slot_last = ground (
      arith,
      v.bcast,
      v.overrun,
      v.nacked,
      status_bits_lem (after_byte j x r.flags),
      status_bits_lem (record (after_byte j x r.flags) { eom = true; bits_eom = false }),
      bit_or-zero (j + 1) (omega arith),
      after_byte_clear j x r.flags,
    )

    pub slot_refused : (e : Bool) → rx_bit own (not bc) (after_eom e j x r) ≡ handed 128 j x r
    slot_refused e =
        rx_bit-ack own (not bc) (after_eom e j x r) refl
        ∙ ap (λ a. ack_bit a (after_eom e j x r)) refused
        ∙ ack_bit-over false (after_eom e j x r) refl
        ∙ ap₂
            (λ i h. record (after_data j x r) {
              flags = no_flags;
              buf = if i then (after_data j x r).buf else set (after_data j x r).buf r.hdr h;
            })
            taken status
      where
        refused : (if (after_byte j x r.flags).bcast then not bc else not (not bc)) ≡ false
        refused = ground (arith, v.bcast, after_byte_clear j x r.flags)

        taken : (after_byte j x r.flags).ignore ≡ false
        taken = ground (arith, v.ignore, after_byte_clear j x r.flags)

        f : Flags
        f = record (after_byte j x r.flags) { eom = e; bits_eom = false; nacked = true }

        status : bit_or (j + 1) (status_bits f) ≡ 128 + (j + 1)
        status = ground (
          arith,
          v.overrun,
          status_bits_lem f,
          bit_or_high (j + 1) (omega arith),
          after_byte_clear j x r.flags,
        )

    pub data_active : (after_byte j x r.flags).active ≡ true
    data_active = (after_byte_clear j x r.flags).2 ∙ v.active

    pub frame_run :
        (e slot : Bool) (rest : List Bool)
        → rx_feed own (wire_frame e slot x ++ rest) r
          ≡ rx_feed own rest (rx_bit own slot (after_eom e j x r))
    frame_run e slot rest =
        ap (λ l. rx_feed own l r) (append_assoc (bits_from 8 x) (e ∷ slot ∷ []) rest)
        ∙ rx_feed-byte own x (e ∷ slot ∷ rest) r v.bits v.fresh hx
        ∙ ap (rx_feed own (e ∷ slot ∷ rest)) (finish_byte_lem j x r v h hx hb)
        ∙ rx_feed-cons own e (slot ∷ rest) _ (any_flag_active _ data_active)
        ∙ ap (rx_feed own (slot ∷ rest)) (eom_step e)
        ∙ rx_feed-cons own slot rest _ (any_flag_active _ data_active)

    pub next_byte-IsReceiving : IsReceiving bc (suc j) (next_byte j x r)
    unfolding next_byte
    next_byte-IsReceiving = ground (
      arith,
      after_byte_clear j x r.flags,
      v.active,
      v.bits,
      v.bcast,
      v.ignore,
      v.overrun,
      v.nacked,
      v.count,
      v.free,
      get_or-set_ne r.buf (j + 1 + r.hdr) r.hdr x 0 (omega arith),
    )
