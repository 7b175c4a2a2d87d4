-- ===== src/Transmit.antt =====
-- The transmit engine, cec_transmit.c: the transmit buffer, its state byte and the calls that the
-- hardware driver, the receive engine and the application make.
pub mod Layout
pub mod Frame
pub mod Emit
pub mod Left
pub mod Sender
pub mod Attempts
pub mod Echo
pub mod Bounds
use avr_cec.Common.{
  ℕ, ◌+◌, ◌*◌, ◌/◌, bit_and, bit_or, Bool, true, ◌&&◌, List, get_or, set, if◌then◌else◌, ◌==◌,
  truth, to_ℕ, u8,
}
use avr_cec.Spec.{
  Err, err_code, new_period_wait, prev_period_wait, present_period_wait, xmit_max_retransmit,
}

-- The build's choices: `CHECK_BIT_DELAY` (set for the USI and the PWM driver), `CEC_ERR_STATS`, and
-- how a wait in bit periods is stored (`needed_idle_frames` under CEC_USI, `needed_idle_time` else).
pub record Config : Type 0 where
  pub bit_delay : Bool
  pub err_stats : Bool
  pub idle_wait : ℕ → ℕ

-- `TRANSMIT_*`.
pub data State : Type 0 where
  idle failed pend again bit_eom ack wait_for_ack : State

-- The value of the state byte.
abbrev pub code : State → ℕ
code idle = 0
code failed = 1
code pend = 2
code again = 3
code bit_eom = 4
code ack = 8
code wait_for_ack = 16

abbrev pub is : State → State → Bool
is s u = code s == code u

-- The file's variables. `needed_idle` is `needed_idle_frames` or `needed_idle_time`; `err_counts` is
-- `transmit_state_buf`, whose element 0 is `state`.
pub record Tx : Type 0 where
  pub buf : List ℕ
  pub buf_end : ℕ
  pub buf_bit : ℕ
  pub buf_pos : ℕ
  pub last_bit : ℕ
  pub state : State
  pub err_counts : List ℕ
  pub retries : ℕ
  pub needed_idle : ℕ

module _ (c : Config) where
  -- `cec_transmit_finish_abort`; `++transmit_retries` is on an unsigned char.
  unfoldable pub finish_abort : Tx → Tx
  finish_abort t =
      let r = u8 (t.retries + 1) in
      if r == xmit_max_retransmit
      then record t { retries = r; state = failed }
      else record t { retries = r; needed_idle = c.idle_wait prev_period_wait; state = again }

  -- The statistics part of `cec_transmit_on_error`.
  unfoldable pub count_error : Err → Tx → Tx
  count_error e t =
      if c.err_stats
      then record t {
        err_counts = set t.err_counts (err_code e) (u8 (get_or t.err_counts (err_code e) 0 + 1));
      }
      else t

  -- `delayed` of `cec_check_tx_bit`: the bit that the receive side should see now.
  unfoldable pub expected_bit : Tx → ℕ
  expected_bit t = if c.bit_delay then bit_and (t.last_bit / 2) 1 else t.last_bit

  -- `memset(transmit_state_buf + 1, 0, 6)`.
  unfoldable pub clear_counts : List ℕ → List ℕ
  clear_counts l = set (set (set (set (set (set l 1 0) 2 0) 3 0) 4 0) 5 0) 6 0

  -- `cec_transmit_start`.
  unfoldable pub start : Tx → Tx
  unfolding clear_counts
  start t =
      let t' =
        (if is t.state pend
          then record t {
            retries = 0;
            err_counts = if c.err_stats then clear_counts t.err_counts else t.err_counts;
          }
          else t) in
      record t' { buf_bit = 128; buf_pos = 0; state = bit_eom }

  -- The data branch of `cec_transmit_get_bit`.
  unfoldable pub data_bit : Tx → Tx × Bool
  data_bit t =
      (record t { buf_bit = t.buf_bit / 2 }, truth (bit_and (get_or t.buf t.buf_pos 0) t.buf_bit))

  -- Its other branch: the EOM bit, or the ack bit that ends a frame.
  unfoldable pub control_bit : Tx → Tx × Bool
  control_bit t =
      let is_last = t.buf_end == t.buf_pos in
      if is t.state bit_eom then (record t { state = ack }, is_last && truth t.buf_end) else (
        if is_last
            then record t { state = wait_for_ack; needed_idle = c.idle_wait present_period_wait }
            else record t {
              buf_bit = 128;
              buf_pos = u8 (t.buf_pos + 1);
              state = bit_eom;
              needed_idle = c.idle_wait present_period_wait;
            },
        true,
      )

  -- The update of `transmit_last_bit`.
  unfoldable pub push_last : ℕ → Bool → ℕ
  push_last l b = if c.bit_delay then bit_or (u8 (l * 2)) (to_ℕ b) else to_ℕ b

  -- `cec_transmit_get_bit`.
  unfoldable pub get_bit : Tx → Tx × Bool
  unfolding data_bit control_bit push_last
  get_bit t =
      let (t', b) = (if truth t.buf_bit then data_bit t else control_bit t) in
      (record t' { last_bit = push_last t'.last_bit b }, b)

  -- `cec_transmit_init`, but for the driver's `cec_transmit_init_hw`; the assignment of the state
  -- stands under CEC_TRANSMIT_STATE_REG, and elsewhere the variable starts as 0, which is IDLE.
  unfoldable pub init : Tx → Tx
  init t = record t { needed_idle = c.idle_wait new_period_wait }
