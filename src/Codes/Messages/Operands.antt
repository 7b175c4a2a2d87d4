-- ===== src/Codes/Messages/Operands.antt =====
-- cec_msg.h: the operands of messages, one data type for each enum.
use avr_cec.Common.{ℕ}

pub data AbortReason : Type 0 where
  abort_reason_opcode abort_reason_mode abort_reason_source abort_reason_operand
        abort_reason_refused abort_reason_unable :
      AbortReason

unfoldable pub abort_reason : AbortReason → ℕ
abort_reason abort_reason_opcode = 0x0
abort_reason abort_reason_mode = 0x1
abort_reason abort_reason_source = 0x2
abort_reason abort_reason_operand = 0x3
abort_reason abort_reason_refused = 0x4
abort_reason abort_reason_unable = 0x5

pub data StatusRequest : Type 0 where
  status_request_on status_request_off status_request_once : StatusRequest

unfoldable pub status_request : StatusRequest → ℕ
status_request status_request_on = 0x1
status_request status_request_off = 0x2
status_request status_request_once = 0x3

pub data DeckInfo : Type 0 where
  deck_info_play deck_info_record deck_info_play_reverse deck_info_still deck_info_slow
        deck_info_slow_reverse deck_info_fast_foward deck_info_fast_reverse deck_info_no_media
        deck_info_stop deck_info_wind deck_info_rewind deck_info_idx_forward deck_info_idx_reverse
        deck_info_other :
      DeckInfo

unfoldable pub deck_info : DeckInfo → ℕ
deck_info deck_info_play = 0x11
deck_info deck_info_record = 0x12
deck_info deck_info_play_reverse = 0x13
deck_info deck_info_still = 0x14
deck_info deck_info_slow = 0x15
deck_info deck_info_slow_reverse = 0x16
deck_info deck_info_fast_foward = 0x17
deck_info deck_info_fast_reverse = 0x18
deck_info deck_info_no_media = 0x19
deck_info deck_info_stop = 0x1a
deck_info deck_info_wind = 0x1b
deck_info deck_info_rewind = 0x1c
deck_info deck_info_idx_forward = 0x1d
deck_info deck_info_idx_reverse = 0x1e
deck_info deck_info_other = 0x1f

pub data PlayMode : Type 0 where
  play_mode_fast_forward_min_speed play_mode_fast_forward_medium_speed
        play_mode_fast_forward_max_speed play_mode_slow_forward_min_speed
        play_mode_slow_forward_medium_speed play_mode_slow_forward_max_speed
        play_mode_fast_reverse_min_speed play_mode_fast_reverse_medium_speed
        play_mode_fast_reverse_max_speed play_mode_slow_reverse_min_speed
        play_mode_slow_reverse_medium_speed play_mode_slow_reverse_max_speed play_mode_play_reverse
        play_mode_play_forward play_mode_play_still :
      PlayMode

unfoldable pub play_mode : PlayMode → ℕ
play_mode play_mode_fast_forward_min_speed = 0x5
play_mode play_mode_fast_forward_medium_speed = 0x6
play_mode play_mode_fast_forward_max_speed = 0x7
play_mode play_mode_slow_forward_min_speed = 0x15
play_mode play_mode_slow_forward_medium_speed = 0x16
play_mode play_mode_slow_forward_max_speed = 0x17
play_mode play_mode_fast_reverse_min_speed = 0x9
play_mode play_mode_fast_reverse_medium_speed = 0xa
play_mode play_mode_fast_reverse_max_speed = 0xb
play_mode play_mode_slow_reverse_min_speed = 0x19
play_mode play_mode_slow_reverse_medium_speed = 0x1a
play_mode play_mode_slow_reverse_max_speed = 0x1b
play_mode play_mode_play_reverse = 0x20
play_mode play_mode_play_forward = 0x24
play_mode play_mode_play_still = 0x25

pub data DeckControl : Type 0 where
  deck_control_mode_skip_forward deck_control_mode_skip_reverse deck_control_mode_stop
        deck_control_mode_eject :
      DeckControl

unfoldable pub deck_control : DeckControl → ℕ
deck_control deck_control_mode_skip_forward = 0x1
deck_control deck_control_mode_skip_reverse = 0x2
deck_control deck_control_mode_stop = 0x3
deck_control deck_control_mode_eject = 0x4

pub data DispControl : Type 0 where
  disp_control_default disp_control_cleared disp_control_clear_prev : DispControl

unfoldable pub disp_control : DispControl → ℕ
disp_control disp_control_default = 0x0
disp_control disp_control_cleared = 0x40
disp_control disp_control_clear_prev = 0x80

pub data DeviceKind : Type 0 where
  device_type_tv device_type_rec device_type_reserved device_type_tuner device_type_play
        device_type_audio device_type_switch device_type_video :
      DeviceKind

unfoldable pub device_kind : DeviceKind → ℕ
device_kind device_type_tv = 0x0
device_kind device_type_rec = 0x1
device_kind device_type_reserved = 0x2
device_kind device_type_tuner = 0x3
device_kind device_type_play = 0x4
device_kind device_type_audio = 0x5
device_kind device_type_switch = 0x6
device_kind device_type_video = 0x7

pub data MenuRequest : Type 0 where
  menu_request_type_activate menu_request_type_deactivate menu_request_type_query : MenuRequest

unfoldable pub menu_request : MenuRequest → ℕ
menu_request menu_request_type_activate = 0x0
menu_request menu_request_type_deactivate = 0x1
menu_request menu_request_type_query = 0x2

pub data MenuState : Type 0 where
  menu_state_activated menu_state_deactivated : MenuState

unfoldable pub menu_state : MenuState → ℕ
menu_state menu_state_activated = 0x0
menu_state menu_state_deactivated = 0x1

pub data PowerStatus : Type 0 where
  power_status_on power_status_standby power_status_2on power_status_2standby : PowerStatus

unfoldable pub power_status : PowerStatus → ℕ
power_status power_status_on = 0x0
power_status power_status_standby = 0x1
power_status power_status_2on = 0x2
power_status power_status_2standby = 0x3

pub data CecVersion : Type 0 where
  cec_version_1_1 cec_version_1_2 cec_version_1_2a cec_version_1_3 cec_version_1_3a
        cec_version_1_4 :
      CecVersion

unfoldable pub cec_version : CecVersion → ℕ
cec_version cec_version_1_1 = 0x0
cec_version cec_version_1_2 = 0x1
cec_version cec_version_1_2a = 0x2
cec_version cec_version_1_3 = 0x3
cec_version cec_version_1_3a = 0x4
cec_version cec_version_1_4 = 0x5

-- The parts of a play mode.
abbrev pub play_mode_min_speed : ℕ
play_mode_min_speed = 0x01

abbrev pub play_mode_medium_speed : ℕ
play_mode_medium_speed = 0x02

abbrev pub play_mode_max_speed : ℕ
play_mode_max_speed = 0x03

abbrev pub play_mode_forward : ℕ
play_mode_forward = 0x04

abbrev pub play_mode_reverse : ℕ
play_mode_reverse = 0x08

abbrev pub play_mode_fast : ℕ
play_mode_fast = 0x00

abbrev pub play_mode_slow : ℕ
play_mode_slow = 0x10

abbrev pub play_mode_play : ℕ
play_mode_play = 0x20
