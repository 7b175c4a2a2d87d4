-- ===== src/Receive/Decode.antt =====
-- The receive side alone: `cec_receive_bit` changes the receive variables in a way that does not
-- depend on the transmit side.
use avr_cec.Common.{ℕ, ◌≡◌, refl, arith, Bool, true, not, List, [], ◌∷◌, if◌then◌else◌, truth}
use avr_cec.Common.{false, ◌||◌, bit_or, set}
use avr_cec.Receive.State.{no_flags, start_flags, status_bits}
use avr_cec.Spec.{Err}
use avr_cec.Transmit.{Config}
use avr_cec.Receive.State.{Rx, any_flag, data_bit, eom_bit, ack_bit}
use avr_cec.Receive.Engine.{Driver, Node, on_error, receive_bit}

-- `cec_receive_bit` without its calls into the transmit side.
unfoldable pub rx_bit : (ℕ → Bool) → Bool → Rx → Rx
rx_bit own bit r =
    if r.flags.bits_eom
    then (if truth r.byte then data_bit own bit r else eom_bit bit r)
    else ack_bit (if r.flags.bcast then bit else not bit) r

-- `cec_receive_error` and `cec_receive_start` on the receive side alone.
unfoldable pub rx_error : Rx → Rx
rx_error r = if any_flag r.flags then record r { flags = no_flags } else r

abbrev pub rx_start : Rx → Rx
rx_start r = record r { pos = 0; byte = 1; flags = start_flags }

pub rx_bit-data :
    (own : ℕ → Bool) (b : Bool) (r : Rx)
    → r.flags.bits_eom ≡ true
    → truth r.byte ≡ true
    → rx_bit own b r ≡ data_bit own b r
unfolding rx_bit
rx_bit-data own b r e p = ground arith

pub rx_bit-eom :
    (own : ℕ → Bool) (b : Bool) (r : Rx)
    → r.flags.bits_eom ≡ true
    → truth r.byte ≡ false
    → rx_bit own b r ≡ eom_bit b r
unfolding rx_bit
rx_bit-eom own b r e p = ground arith

pub rx_bit-ack :
    (own : ℕ → Bool) (b : Bool) (r : Rx)
    → r.flags.bits_eom ≡ false
    → rx_bit own b r ≡ ack_bit (if r.flags.bcast then b else not b) r
unfolding rx_bit
rx_bit-ack own b r e = ground arith

pub ack_bit-more :
    (b : Bool) (s : Rx)
    → (not b || s.flags.eom) ≡ false
    → ack_bit b s ≡ (let f = s.flags in record s { byte = 1; flags = record f { bits_eom = true } })
unfolding ack_bit
ack_bit-more true s e = rw e
ack_bit-more false s e = ground arith

-- The header byte that a finished message gets.
abbrev pub final_header : Bool → Rx → ℕ
final_header b s =
    bit_or s.pos
      (status_bits (if b then s.flags else (let f = s.flags in record f { nacked = true })))

pub ack_bit-over :
    (b : Bool) (s : Rx)
    → (not b || s.flags.eom) ≡ true
    → ack_bit b s ≡ record s {
      flags = no_flags;
      buf = if s.flags.ignore then s.buf else set s.buf s.hdr (final_header b s);
    }
unfolding ack_bit
ack_bit-over true s e = rw e (ground arith)
ack_bit-over false s e = ground arith

-- The drivers hand bits over while `cec_receive_flags` is not 0.
unfoldable pub rx_feed : (ℕ → Bool) → List Bool → Rx → Rx
rx_feed own [] r = r
rx_feed own (b ∷ bs) r = if any_flag r.flags then rx_feed own bs (rx_bit own b r) else r

module _ {D : Type 0} (c : Config) (v : Driver c D) where
  unfoldable pub feed : (ℕ → Bool) → List Bool → Node D → Node D
  feed own [] n = n
  feed own (b ∷ bs) n = if any_flag n.rx.flags then feed own bs (receive_bit c v own b n) else n

  pub on_error-rx : (e : Err) (n : Node D) → (on_error c v e n).rx ≡ n.rx
  unfolding on_error
  on_error-rx e n = ground arith

  pub receive_bit-rx :
      (own : ℕ → Bool) (bit : Bool) (n : Node D)
      → (receive_bit c v own bit n).rx ≡ rx_bit own bit n.rx
  unfolding receive_bit rx_bit
  receive_bit-rx own bit n = ground arith

  pub feed-rx :
      (own : ℕ → Bool) (bs : List Bool) (n : Node D) → (feed own bs n).rx ≡ rx_feed own bs n.rx
  unfolding feed rx_feed
  feed-rx own [] n = refl
  feed-rx own (b ∷ bs) n =
      ground (arith, feed-rx own bs (receive_bit c v own b n), receive_bit-rx own b n)
