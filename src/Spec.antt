-- ===== src/Spec.antt =====
-- Constants of cec_spec.h and cec.h: logical addresses, bit timings in microseconds, waits in bit
-- periods, error codes, and the device types with their address tables.
use avr_cec.Common.{ℕ, ◌*◌, List, [], ◌∷◌, bit_or}

-- The anonymous enum of logical addresses.
pub data Address : Type 0 where
  tv recording_device_1 recording_device_2 tuner_1 playback_device_1 audio_system : Address
  tuner_2 tuner_3 playback_device_2 recording_device_3 tuner_4 playback_device_3 : Address
  reserved_1 reserved_2 specific_use unregistered broadcast : Address

-- The enumerators count up from 0; `CEC_ADDR_BROADCAST` is given as 0xf.
abbrev pub addr : Address → ℕ
addr tv = 0
addr recording_device_1 = 1
addr recording_device_2 = 2
addr tuner_1 = 3
addr playback_device_1 = 4
addr audio_system = 5
addr tuner_2 = 6
addr tuner_3 = 7
addr playback_device_2 = 8
addr recording_device_3 = 9
addr tuner_4 = 10
addr playback_device_3 = 11
addr reserved_1 = 12
addr reserved_2 = 13
addr specific_use = 14
addr unregistered = 15
addr broadcast = 0xf

-- `_A(n)`: the header of a poll from an address to itself.
abbrev pub self_poll : Address → ℕ
self_poll a = bit_or (addr a) (addr a * 16)

-- `CEC_DEV_*`.
pub data DevType : Type 0 where
  dev_tv dev_recording_device dev_tuner dev_playback_device dev_audio_system : DevType
  dev_switch dev_video_processor : DevType

abbrev pub dev_code : DevType → ℕ
dev_code dev_tv = 0
dev_code dev_recording_device = 1
dev_code dev_tuner = 3
dev_code dev_playback_device = 4
dev_code dev_audio_system = 5
dev_code dev_switch = 6
dev_code dev_video_processor = 7

-- `CEC_DEV_*_ADDRS`.
abbrev pub dev_addrs : DevType → List ℕ
dev_addrs dev_tv = self_poll tv ∷ self_poll specific_use ∷ []
dev_addrs dev_recording_device =
    self_poll recording_device_1 ∷ self_poll recording_device_2 ∷ self_poll recording_device_3 ∷ []
dev_addrs dev_tuner =
    self_poll tuner_1 ∷ self_poll tuner_2 ∷ self_poll tuner_3 ∷ self_poll tuner_4 ∷ []
dev_addrs dev_playback_device =
    self_poll playback_device_1 ∷ self_poll playback_device_2 ∷ self_poll playback_device_3 ∷ []
dev_addrs dev_audio_system = self_poll audio_system ∷ []
dev_addrs dev_switch = []
dev_addrs dev_video_processor = self_poll specific_use ∷ []

-- Error types of cec.h.
pub data Err : Type 0 where
  err_none arb_lost nack no_eom low_drive halt hw : Err

abbrev pub err_code : Err → ℕ
err_code err_none = 0
err_code arb_lost = 1
err_code nack = 2
err_code no_eom = 3
err_code low_drive = 4
err_code halt = 5
err_code hw = 6

abbrev pub buffer_size : ℕ
buffer_size = 16

abbrev pub status_overrun : ℕ
status_overrun = 64

abbrev pub status_nack : ℕ
status_nack = 128

-- Waits of the free-bus rule, in bit periods, and the limit on attempts.
abbrev pub present_period_wait : ℕ
present_period_wait = 7

abbrev pub new_period_wait : ℕ
new_period_wait = 5

abbrev pub prev_period_wait : ℕ
prev_period_wait = 3

abbrev pub xmit_max_retransmit : ℕ
xmit_max_retransmit = 5

-- Bit timings.
abbrev pub t3 : ℕ
t3 = 850

abbrev pub nom_sample : ℕ
nom_sample = 1050

abbrev pub t4 : ℕ
t4 = 1250

abbrev pub t5_early0 : ℕ
t5_early0 = 1300

abbrev pub t6_late0 : ℕ
t6_late0 = 1700

abbrev pub t7_early_end : ℕ
t7_early_end = 2050

abbrev pub period : ℕ
period = 2400

abbrev pub t8_late_end : ℕ
t8_late_end = 2750

abbrev pub start_low_early : ℕ
start_low_early = 3500

abbrev pub start_low : ℕ
start_low = 3700

abbrev pub start_low_late : ℕ
start_low_late = 3900

abbrev pub start_high_early : ℕ
start_high_early = 4300

abbrev pub start_high : ℕ
start_high = 4500

abbrev pub start_high_late : ℕ
start_high_late = 4700

abbrev pub zero_low : ℕ
zero_low = 1500

abbrev pub one_low : ℕ
one_low = 600

abbrev pub max_rise_time : ℕ
max_rise_time = 250

abbrev pub max_fall_time : ℕ
max_fall_time = 50

abbrev pub pres_init_time : ℕ
pres_init_time = 1000000
