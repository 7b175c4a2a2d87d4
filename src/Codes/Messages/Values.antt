-- ===== src/Codes/Messages/Values.antt =====
-- The tables of operands.
use avr_cec.Common.{◌≡◌, refl, [], ◌∷◌, some}
use avr_cec.Codes.{lookup, AreDistinct, found_distinct}
use avr_cec.Codes.Messages.Operands.{
  AbortReason, abort_reason, abort_reason_opcode, abort_reason_mode, abort_reason_source,
  abort_reason_operand, abort_reason_refused, abort_reason_unable, StatusRequest, status_request,
  status_request_on, status_request_off, status_request_once, DeckInfo, deck_info, deck_info_play,
  deck_info_record, deck_info_play_reverse, deck_info_still, deck_info_slow, deck_info_slow_reverse,
  deck_info_fast_foward, deck_info_fast_reverse, deck_info_no_media, deck_info_stop, deck_info_wind,
  deck_info_rewind, deck_info_idx_forward, deck_info_idx_reverse, deck_info_other, PlayMode,
  play_mode, play_mode_fast_forward_min_speed, play_mode_fast_forward_medium_speed,
  play_mode_fast_forward_max_speed, play_mode_slow_forward_min_speed,
  play_mode_slow_forward_medium_speed, play_mode_slow_forward_max_speed,
  play_mode_fast_reverse_min_speed, play_mode_fast_reverse_medium_speed,
  play_mode_fast_reverse_max_speed, play_mode_slow_reverse_min_speed,
  play_mode_slow_reverse_medium_speed, play_mode_slow_reverse_max_speed, play_mode_play_reverse,
  play_mode_play_forward, play_mode_play_still, DeckControl, deck_control,
  deck_control_mode_skip_forward, deck_control_mode_skip_reverse, deck_control_mode_stop,
  deck_control_mode_eject, DispControl, disp_control, disp_control_default, disp_control_cleared,
  disp_control_clear_prev, DeviceKind, device_kind, device_type_tv, device_type_rec,
  device_type_reserved, device_type_tuner, device_type_play, device_type_audio, device_type_switch,
  device_type_video, MenuRequest, menu_request, menu_request_type_activate,
  menu_request_type_deactivate, menu_request_type_query, MenuState, menu_state,
  menu_state_activated, menu_state_deactivated, PowerStatus, power_status, power_status_on,
  power_status_standby, power_status_2on, power_status_2standby, CecVersion, cec_version,
  cec_version_1_1, cec_version_1_2, cec_version_1_2a, cec_version_1_3, cec_version_1_3a,
  cec_version_1_4,
}

abort_reason-found :
    (x : AbortReason)
    → lookup abort_reason
        (abort_reason_opcode ∷ abort_reason_mode ∷ abort_reason_source ∷ abort_reason_operand
          ∷ abort_reason_refused ∷ abort_reason_unable ∷ [])
        (abort_reason x)
      ≡ some x
unfolding lookup abort_reason
abort_reason-found abort_reason_opcode = refl
abort_reason-found abort_reason_mode = refl
abort_reason-found abort_reason_source = refl
abort_reason-found abort_reason_operand = refl
abort_reason-found abort_reason_refused = refl
abort_reason-found abort_reason_unable = refl

status_request-found :
    (x : StatusRequest)
    → lookup status_request
        (status_request_on ∷ status_request_off ∷ status_request_once ∷ [])
        (status_request x)
      ≡ some x
unfolding lookup status_request
status_request-found status_request_on = refl
status_request-found status_request_off = refl
status_request-found status_request_once = refl

deck_info-found :
    (x : DeckInfo)
    → lookup deck_info
        (deck_info_play ∷ deck_info_record ∷ deck_info_play_reverse ∷ deck_info_still
          ∷ deck_info_slow ∷ deck_info_slow_reverse ∷ deck_info_fast_foward ∷ deck_info_fast_reverse
          ∷ deck_info_no_media ∷ deck_info_stop ∷ deck_info_wind ∷ deck_info_rewind
          ∷ deck_info_idx_forward ∷ deck_info_idx_reverse ∷ deck_info_other ∷ [])
        (deck_info x)
      ≡ some x
unfolding lookup deck_info
deck_info-found deck_info_play = refl
deck_info-found deck_info_record = refl
deck_info-found deck_info_play_reverse = refl
deck_info-found deck_info_still = refl
deck_info-found deck_info_slow = refl
deck_info-found deck_info_slow_reverse = refl
deck_info-found deck_info_fast_foward = refl
deck_info-found deck_info_fast_reverse = refl
deck_info-found deck_info_no_media = refl
deck_info-found deck_info_stop = refl
deck_info-found deck_info_wind = refl
deck_info-found deck_info_rewind = refl
deck_info-found deck_info_idx_forward = refl
deck_info-found deck_info_idx_reverse = refl
deck_info-found deck_info_other = refl

play_mode-found :
    (x : PlayMode)
    → lookup play_mode
        (play_mode_fast_forward_min_speed ∷ play_mode_fast_forward_medium_speed
          ∷ play_mode_fast_forward_max_speed ∷ play_mode_slow_forward_min_speed
          ∷ play_mode_slow_forward_medium_speed ∷ play_mode_slow_forward_max_speed
          ∷ play_mode_fast_reverse_min_speed ∷ play_mode_fast_reverse_medium_speed
          ∷ play_mode_fast_reverse_max_speed ∷ play_mode_slow_reverse_min_speed
          ∷ play_mode_slow_reverse_medium_speed ∷ play_mode_slow_reverse_max_speed
          ∷ play_mode_play_reverse ∷ play_mode_play_forward ∷ play_mode_play_still ∷ [])
        (play_mode x)
      ≡ some x
unfolding lookup play_mode
play_mode-found play_mode_fast_forward_min_speed = refl
play_mode-found play_mode_fast_forward_medium_speed = refl
play_mode-found play_mode_fast_forward_max_speed = refl
play_mode-found play_mode_slow_forward_min_speed = refl
play_mode-found play_mode_slow_forward_medium_speed = refl
play_mode-found play_mode_slow_forward_max_speed = refl
play_mode-found play_mode_fast_reverse_min_speed = refl
play_mode-found play_mode_fast_reverse_medium_speed = refl
play_mode-found play_mode_fast_reverse_max_speed = refl
play_mode-found play_mode_slow_reverse_min_speed = refl
play_mode-found play_mode_slow_reverse_medium_speed = refl
play_mode-found play_mode_slow_reverse_max_speed = refl
play_mode-found play_mode_play_reverse = refl
play_mode-found play_mode_play_forward = refl
play_mode-found play_mode_play_still = refl

deck_control-found :
    (x : DeckControl)
    → lookup deck_control
        (deck_control_mode_skip_forward ∷ deck_control_mode_skip_reverse ∷ deck_control_mode_stop
          ∷ deck_control_mode_eject ∷ [])
        (deck_control x)
      ≡ some x
unfolding lookup deck_control
deck_control-found deck_control_mode_skip_forward = refl
deck_control-found deck_control_mode_skip_reverse = refl
deck_control-found deck_control_mode_stop = refl
deck_control-found deck_control_mode_eject = refl

disp_control-found :
    (x : DispControl)
    → lookup disp_control
        (disp_control_default ∷ disp_control_cleared ∷ disp_control_clear_prev ∷ [])
        (disp_control x)
      ≡ some x
unfolding lookup disp_control
disp_control-found disp_control_default = refl
disp_control-found disp_control_cleared = refl
disp_control-found disp_control_clear_prev = refl

device_kind-found :
    (x : DeviceKind)
    → lookup device_kind
        (device_type_tv ∷ device_type_rec ∷ device_type_reserved ∷ device_type_tuner
          ∷ device_type_play ∷ device_type_audio ∷ device_type_switch ∷ device_type_video ∷ [])
        (device_kind x)
      ≡ some x
unfolding lookup device_kind
device_kind-found device_type_tv = refl
device_kind-found device_type_rec = refl
device_kind-found device_type_reserved = refl
device_kind-found device_type_tuner = refl
device_kind-found device_type_play = refl
device_kind-found device_type_audio = refl
device_kind-found device_type_switch = refl
device_kind-found device_type_video = refl

menu_request-found :
    (x : MenuRequest)
    → lookup menu_request
        (menu_request_type_activate ∷ menu_request_type_deactivate ∷ menu_request_type_query ∷ [])
        (menu_request x)
      ≡ some x
unfolding lookup menu_request
menu_request-found menu_request_type_activate = refl
menu_request-found menu_request_type_deactivate = refl
menu_request-found menu_request_type_query = refl

menu_state-found :
    (x : MenuState)
    → lookup menu_state (menu_state_activated ∷ menu_state_deactivated ∷ []) (menu_state x) ≡ some x
unfolding lookup menu_state
menu_state-found menu_state_activated = refl
menu_state-found menu_state_deactivated = refl

power_status-found :
    (x : PowerStatus)
    → lookup power_status
        (power_status_on ∷ power_status_standby ∷ power_status_2on ∷ power_status_2standby ∷ [])
        (power_status x)
      ≡ some x
unfolding lookup power_status
power_status-found power_status_on = refl
power_status-found power_status_standby = refl
power_status-found power_status_2on = refl
power_status-found power_status_2standby = refl

cec_version-found :
    (x : CecVersion)
    → lookup cec_version
        (cec_version_1_1 ∷ cec_version_1_2 ∷ cec_version_1_2a ∷ cec_version_1_3 ∷ cec_version_1_3a
          ∷ cec_version_1_4 ∷ [])
        (cec_version x)
      ≡ some x
unfolding lookup cec_version
cec_version-found cec_version_1_1 = refl
cec_version-found cec_version_1_2 = refl
cec_version-found cec_version_1_2a = refl
cec_version-found cec_version_1_3 = refl
cec_version-found cec_version_1_3a = refl
cec_version-found cec_version_1_4 = refl

-- In each of the tables of operands, two names have one value exactly if they are the same.
pub operands_distinct :
    AreDistinct abort_reason
    × AreDistinct status_request
    × AreDistinct deck_info
    × AreDistinct play_mode
    × AreDistinct deck_control
    × AreDistinct disp_control
    × AreDistinct device_kind
    × AreDistinct menu_request
    × AreDistinct menu_state
    × AreDistinct power_status
    × AreDistinct cec_version
operands_distinct = (
  found_distinct abort_reason _ abort_reason-found,
  found_distinct status_request _ status_request-found,
  found_distinct deck_info _ deck_info-found,
  found_distinct play_mode _ play_mode-found,
  found_distinct deck_control _ deck_control-found,
  found_distinct disp_control _ disp_control-found,
  found_distinct device_kind _ device_kind-found,
  found_distinct menu_request _ menu_request-found,
  found_distinct menu_state _ menu_state-found,
  found_distinct power_status _ power_status-found,
  found_distinct cec_version _ cec_version-found,
)
