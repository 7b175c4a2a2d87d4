-- ===== src/Usi.antt =====
-- cec_usi.c: the driver that sends and receives by the Universal Serial Interface, eight ticks of 300
-- microseconds to a bit period. Here: its variables, the registers that it writes, its constants, and
-- what it gives the engines.
pub mod Tick
pub mod View
pub mod Wave
pub mod Queue
pub mod Ack
pub mod AtRest
pub mod Periodic
pub mod Calls
pub mod Sent
pub mod Deliver
pub mod Synced
pub mod Shifts
use avr_cec.Common.{
  ℕ, zero, suc, ◌+◌, ◌-◌, ◌*◌, ◌/◌, ◌%◌, ◌^◌, ◌≡◌, refl, Bool, true, false, bit_and, bit_or, u8,
  if◌then◌else◌, ◌==◌,
}
use avr_cec.Spec.{
  period, nom_sample, t6_late0, t7_early_end, t8_late_end, start_low, start_low_early,
  start_low_late, start_high_early, start_high_late, zero_low, one_low, max_rise_time,
}
use avr_cec.Macros.Div.{div_round_up}
use avr_cec.Transmit.{Config, Tx, finish_abort}
use avr_cec.Receive.Engine.{Driver, Node}

-- The enums of `usi_recv_state` and `usi_xmit_state`.
pub data RecvState : Type 0 where
  usi_recv_idle usi_recv_start usi_recv_bits : RecvState

pub data XmitState : Type 0 where
  usi_xmit_idle usi_xmit_start usi_xmit_bits : XmitState

-- The registers of the interface: USIDR, USIBR, and of USISR the overflow flag USIOIF and the counter.
-- The hardware shifts and counts between the driver's accesses.
pub record Shift : Type 0 where
  pub usidr : ℕ
  pub usibr : ℕ
  pub oif : Bool
  pub count : ℕ

-- The variables of cec_usi.c; `nacking` and `ack_done` are the bits of GPIOR1, `driven` says that
-- CEC_PBOUT is an input, which pulls the line low, and `tccr0b` is the timer's clock selection.
pub record Usi : Type 0 where
  pub recv_frame_tick : ℕ
  pub recv_frame : ℕ
  pub min_frame_ticks : ℕ
  pub max_frame_ticks : ℕ
  pub idle_frames : ℕ
  pub usi_recv_state : RecvState
  pub usi_xmit_state : XmitState
  pub float_ticks_max : ℕ
  pub float_ticks_max_next : ℕ
  pub recv_last_bit : Bool
  pub nacking : Bool
  pub ack_done : Bool
  pub driven : Bool
  pub tccr0b : ℕ
  pub shift : Shift

-- `SAMPLE_US`, of the type unsigned long long, and the numbers of ticks for a time.
abbrev pub sample_us : ℕ
sample_us = period / 8

abbrev pub min_ticks : ℕ → ℕ
min_ticks n = (n - 5) / sample_us

abbrev pub max_ticks : ℕ → ℕ
max_ticks n = 1 + (n + 5) / sample_us

-- `DIV_ROUND_UP(n, SAMPLE_US)`.
abbrev pub ticks_up : ℕ → ℕ
unfolding div_round_up
ticks_up n = div_round_up (2 ^ 64) n sample_us

-- `CEC_PAT_*`: a one pulls the line low for one tick.
abbrev pub pat_start0 : ℕ
pat_start0 = 0x7f

abbrev pub pat_start1 : ℕ
pat_start1 = 0xf8

abbrev pub pat_1 : ℕ
pat_1 = 0xc0

abbrev pub pat_0 : ℕ
pat_0 = 0xf8

abbrev pub pat_idle : ℕ
pat_idle = 0x00

-- `CHECK_BIT_DELAY` is set for the USI; waits are numbers of frames.
unfoldable pub usi_config : Bool → Config
usi_config stats = record { bit_delay = true; err_stats = stats; idle_wait = λ periods. periods }

-- The loop of `cec_transmit_abort`, `rounds` times: `bit` is the mask of the next bit to go.
unfoldable pub clear_bits : ℕ → ℕ → ℕ → ℕ
clear_bits zero bit dr = dr
clear_bits (suc rounds) bit dr = clear_bits rounds (bit / 2) (bit_and dr bit)

-- The loop counts `sr` up to 0, modulo 256, and is entered before the first test.
unfoldable pub abort_rounds : ℕ → ℕ
abort_rounds count = let sr = u8 (bit_and count 7 + 256 - 8) in if sr == 0 then 256 else 256 - sr

-- `cec_transmit_abort`; `tcnt0` is TCNT0_PRESCALER_VAL, with which the timer goes on.
unfoldable pub abort : (c : Config) (tcnt0 : ℕ) → Tx → Usi → Tx × Usi
abort c tcnt0 t d =
    let s = d.shift in
    (
      finish_abort c t,
      record d {
        usi_xmit_state = usi_xmit_idle;
        shift = record s { usidr = clear_bits (abort_rounds s.count) 0x7f s.usidr };
        tccr0b = tcnt0;
      },
    )

-- `cec_receive_nack_frame`.
unfoldable pub nack_frame : Usi → Usi
nack_frame d = record d { driven = true; nacking = true }

pub abort_finishes :
    (c : Config) (tcnt0 : ℕ) (t : Tx) (d : Usi) → (abort c tcnt0 t d).0 ≡ finish_abort c t
unfolding abort
abort_finishes c tcnt0 t d = refl

abbrev pub usi_driver : (c : Config) (tcnt0 : ℕ) → Driver c Usi
usi_driver c tcnt0 = record {
  nack_frame = nack_frame;
  abort = abort c tcnt0;
  abort_finishes = abort_finishes c tcnt0;
}

-- Writes to the driver's variables.
abbrev pub with_usi : (Usi → Usi) → Node Usi → Node Usi
with_usi f n = record n { drv = f n.drv }
