-- ===== src/Link.antt =====
-- The two engines across the line: what one host transmits is what another one receives.
pub mod Slots
pub mod Hears
pub mod Own
pub mod Acked
pub mod Begun
pub mod Refused
pub mod Busy
pub mod Outcome
use avr_cec.Common.{
  ℕ, zero, suc, ◌*◌, ◌%◌, ◌<◌, ◌≡◌, refl, ap, ◌∙◌, subst, sym, arith, Bool, true, false, ◌&&◌, List,
  [], ◌∷◌, ◌++◌, ◌+◌, length, get_or, take, IsBytes, ◌==◌, length-take_le,
}
use avr_cec.Transmit.{Config, Tx, start}
use avr_cec.Transmit.Layout.{bits_from, frame, frames, message_bits}
use avr_cec.Transmit.Frame.{emit}
use avr_cec.Transmit.Emit.{emit-start}
use avr_cec.Receive.State.{header}
use avr_cec.Receive.Engine.{Driver, Node, receive_start}
use avr_cec.Receive.Decode.{feed}
use avr_cec.Receive.Frame.{wire, wire_to}
use avr_cec.Receive.Message.{IsHanded, receive-message}

-- The line with the followers on it: they can turn the one of an ack slot into a zero, which lasts
-- longer, and leave every other bit to the initiator.
abbrev pub acknowledge : Bool → List Bool → List Bool
acknowledge slot [] = []
acknowledge slot (a ∷ b ∷ c ∷ d ∷ e ∷ f ∷ g ∷ h ∷ eom ∷ ack ∷ rest) =
    a ∷ b ∷ c ∷ d ∷ e ∷ f ∷ g ∷ h ∷ eom ∷ (ack && slot) ∷ acknowledge slot rest
acknowledge slot l = l

pub wire-acknowledge :
    (slot eom : Bool) (l : List ℕ) → wire_to slot eom slot l ≡ acknowledge slot (frames eom l)
unfolding frame
wire-acknowledge slot eom [] = refl
wire-acknowledge slot eom (x ∷ []) = refl
wire-acknowledge slot eom (x ∷ y ∷ l) =
    ap (λ r. bits_from 8 x ++ (false ∷ slot ∷ r)) (wire-acknowledge slot eom (y ∷ l))

pub message_bits_long : (l : List ℕ) → 1 < length l → message_bits l ≡ frames true l
message_bits_long l h = ap (λ b. frames b l) (ground arith)

pub get_or-take : (n i : ℕ) (l : List ℕ) → i < n → get_or (take n l) i 0 ≡ get_or l i 0
get_or-take zero i l h = absurd (omega arith)
get_or-take (suc n) i [] h = refl
get_or-take (suc n) zero (x ∷ l) h = refl
get_or-take (suc n) (suc i) (x ∷ l) h = get_or-take n i l (omega arith)

pub take-IsBytes : (n : ℕ) (l : List ℕ) → IsBytes l → IsBytes (take n l)
take-IsBytes zero l h i = omega arith
take-IsBytes (suc n) [] h i = omega arith
take-IsBytes (suc n) (x ∷ l) h zero = h 0
take-IsBytes (suc n) (x ∷ l) h (suc i) = take-IsBytes n l (λ k. h (suc k)) i

module _ {D : Type 0} (ct c : Config) (v : Driver c D) where
  -- A message of 2 to 16 bytes that `cec_transmit_get_bit` sends, acknowledged by its target or, if
  -- it is a broadcast, by nobody's zero, is handed over by another host with a free buffer: the
  -- bytes up to `transmit_buf_end` in order, behind a header byte that is their number, whatever
  -- that host's build, driver, address and transmit state, and whatever bits follow. Both buffers have
  -- their declared sizes, and the transmit buffer holds bytes.
  pub deliver :
      (own : ℕ → Bool) (t : Tx) (rest : List Bool) (n : Node D)
      → 0 < t.buf_end
      → t.buf_end < length t.buf
      → length t.buf ≡ 16
      → IsBytes t.buf
      → length n.rx.buf ≡ 17 + n.rx.hdr
      → header n.rx ≡ 0
      → (let sent = (emit ct (10 * suc t.buf_end) (start ct t)).1 in
          IsHanded 0 0
            (take (suc t.buf_end) t.buf)
            n.rx
            (feed c v own
              (acknowledge (get_or t.buf 0 0 % 16 == 15) sent ++ rest)
              (receive_start c v n)).rx)
  deliver own t rest n long fits size ht len free =
      subst (λ l. IsHanded 0 0 m n.rx (feed c v own (l ++ rest) (receive_start c v n)).rx) line
        (receive-message c v own m rest n (omega (arith, length-take_le (suc t.buf_end) t.buf fits))
          (omega (arith, length-take_le (suc t.buf_end) t.buf fits))
          (take-IsBytes (suc t.buf_end) t.buf ht) len free)
    where
      m : List ℕ
      m = take (suc t.buf_end) t.buf

      line :
          wire (get_or m 0 0 % 16 == 15) m
          ≡ acknowledge (get_or t.buf 0 0 % 16 == 15) (emit ct (10 * suc t.buf_end) (start ct t)).1
      line =
          wire-acknowledge (get_or m 0 0 % 16 == 15) true m
          ∙ ap (λ a. acknowledge (a % 16 == 15) (frames true m))
              (get_or-take (suc t.buf_end) 0 t.buf (omega arith))
          ∙ ap (acknowledge (get_or t.buf 0 0 % 16 == 15)) (
              sym (message_bits_long m (omega (arith, length-take_le (suc t.buf_end) t.buf fits)))
              ∙ sym (emit-start ct t fits (omega arith) ht).1)
