-- ===== src/Transmit/Echo.antt =====
-- The transmit side's memory of its own bits, against which the receive side checks the line.
use avr_cec.Common.{
  ℕ, ◌*◌, ◌/◌, ◌<◌, ◌≡◌, arith, bit_and, bit_or, Bool, to_ℕ, u8, if◌then◌else◌, bit_or-bit,
  bit_and-one, to_ℕ-le_one,
}
use avr_cec.Transmit.{Config, Tx, get_bit, push_last, expected_bit, data_bit, control_bit}

module _ (c : Config) where
  pub get_bit-last : (t : Tx) → (get_bit c t).0.last_bit ≡ push_last c t.last_bit (get_bit c t).1
  unfolding get_bit data_bit control_bit
  get_bit-last t = ground arith

  pub push_last-lt : (l : ℕ) (b : Bool) → push_last c l b < 256
  unfolding push_last
  push_last-lt l b = ground (arith, bit_or-bit (u8 l) b)

  two_pushes :
      (l : ℕ) (b b' : Bool)
      → l < 256
      → (let l' = push_last c (push_last c l b) b' in
          (if c.bit_delay then bit_and (l' / 2) 1 else l') ≡ to_ℕ (if c.bit_delay then b else b'))
  unfolding push_last
  two_pushes l b b' h = ground (
    arith,
    bit_or-bit l b h,
    bit_or-bit (bit_or (u8 (l * 2)) (to_ℕ b)) b',
    to_ℕ-le_one b,
    to_ℕ-le_one b',
    bit_and-one (bit_or (u8 (bit_or (u8 (l * 2)) (to_ℕ b) * 2)) (to_ℕ b') / 2),
  )

  -- The bit that the receive side is to see after two calls of `cec_transmit_get_bit`.
  unfoldable pub echo_of : Tx → Bool
  echo_of t = if c.bit_delay then (get_bit c t).1 else (get_bit c (get_bit c t).0).1

  unfoldable pub after_two : Tx → Tx
  after_two t = (get_bit c (get_bit c t).0).0

  pub expected-after_two :
      (t : Tx) → t.last_bit < 256 → expected_bit c (after_two t) ≡ to_ℕ (echo_of t)
  unfolding expected_bit after_two echo_of
  expected-after_two t h =
      rw (get_bit-last (get_bit c t).0, get_bit-last t)
        (two_pushes t.last_bit (get_bit c t).1 (get_bit c (get_bit c t).0).1 h)
