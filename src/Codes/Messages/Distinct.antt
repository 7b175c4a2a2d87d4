-- ===== src/Codes/Messages/Distinct.antt =====
-- No two opcodes, and no two operands of one kind, are the same.
use avr_cec.Common.{◌≡◌, ◌↔◌, refl, List, [], ◌∷◌, some}
use avr_cec.Codes.{lookup, found_distinct}
use avr_cec.Codes.Messages.{
  Opcode, opcode, msg_feature_abort, msg_image_view_on, msg_tuner_step_increment,
  msg_tuner_step_decrement, msg_tuner_device_status, msg_give_tuner_device_status, msg_record_on,
  msg_record_status, msg_record_off, msg_text_view_on, msg_record_tv_screen, msg_give_deck_status,
  msg_deck_status, msg_set_menu_language, msg_clear_analogue_timer, msg_set_analogue_timer,
  msg_timer_status, msg_standby, msg_play, msg_deck_control, msg_timer_cleared_status,
  msg_user_control_pressed, msg_user_control_released, msg_give_osd_name, msg_set_osd_name,
  msg_set_osd_string, msg_set_timer_program_title, msg_system_audio_mode_request, msg_give_audio,
  msg_set_system_audio_mode, msg_report_audio_status, msg_give_system_audio_mode_status,
  msg_system_audio_mode_status, msg_routing_change, msg_routing_information, msg_active_source,
  msg_give_physical_address, msg_report_physical_address, msg_request_active_source,
  msg_set_stream_path, msg_device_vendor_id, msg_vendor_command, msg_vendor_remote_button_down,
  msg_vendor_remote_button_up, msg_give_device_vendor_id, msg_menu_request, msg_menu_status,
  msg_give_device_power_status, msg_report_power_status, msg_get_menu_language,
  msg_select_analogue_service, msg_select_digital_service, msg_set_digital_timer,
  msg_clear_digital_timer, msg_set_audio_rate, msg_inactive_source, msg_cec_version,
  msg_get_cec_version, msg_vendor_command_with_id, msg_clear_external_timer, msg_set_external_timer,
  msg_abort,
}

opcodes : List Opcode
opcodes =
    msg_feature_abort ∷ msg_image_view_on ∷ msg_tuner_step_increment ∷ msg_tuner_step_decrement
    ∷ msg_tuner_device_status ∷ msg_give_tuner_device_status ∷ msg_record_on ∷ msg_record_status
    ∷ msg_record_off ∷ msg_text_view_on ∷ msg_record_tv_screen ∷ msg_give_deck_status
    ∷ msg_deck_status ∷ msg_set_menu_language ∷ msg_clear_analogue_timer ∷ msg_set_analogue_timer
    ∷ msg_timer_status ∷ msg_standby ∷ msg_play ∷ msg_deck_control ∷ msg_timer_cleared_status
    ∷ msg_user_control_pressed ∷ msg_user_control_released ∷ msg_give_osd_name ∷ msg_set_osd_name
    ∷ msg_set_osd_string ∷ msg_set_timer_program_title ∷ msg_system_audio_mode_request
    ∷ msg_give_audio ∷ msg_set_system_audio_mode ∷ msg_report_audio_status
    ∷ msg_give_system_audio_mode_status ∷ msg_system_audio_mode_status ∷ msg_routing_change
    ∷ msg_routing_information ∷ msg_active_source ∷ msg_give_physical_address
    ∷ msg_report_physical_address ∷ msg_request_active_source ∷ msg_set_stream_path
    ∷ msg_device_vendor_id ∷ msg_vendor_command ∷ msg_vendor_remote_button_down
    ∷ msg_vendor_remote_button_up ∷ msg_give_device_vendor_id ∷ msg_menu_request ∷ msg_menu_status
    ∷ msg_give_device_power_status ∷ msg_report_power_status ∷ msg_get_menu_language
    ∷ msg_select_analogue_service ∷ msg_select_digital_service ∷ msg_set_digital_timer
    ∷ msg_clear_digital_timer ∷ msg_set_audio_rate ∷ msg_inactive_source ∷ msg_cec_version
    ∷ msg_get_cec_version ∷ msg_vendor_command_with_id ∷ msg_clear_external_timer
    ∷ msg_set_external_timer ∷ msg_abort ∷ []

opcode-found : (m : Opcode) → lookup opcode opcodes (opcode m) ≡ some m
unfolding lookup opcode opcodes
opcode-found msg_feature_abort = refl
opcode-found msg_image_view_on = refl
opcode-found msg_tuner_step_increment = refl
opcode-found msg_tuner_step_decrement = refl
opcode-found msg_tuner_device_status = refl
opcode-found msg_give_tuner_device_status = refl
opcode-found msg_record_on = refl
opcode-found msg_record_status = refl
opcode-found msg_record_off = refl
opcode-found msg_text_view_on = refl
opcode-found msg_record_tv_screen = refl
opcode-found msg_give_deck_status = refl
opcode-found msg_deck_status = refl
opcode-found msg_set_menu_language = refl
opcode-found msg_clear_analogue_timer = refl
opcode-found msg_set_analogue_timer = refl
opcode-found msg_timer_status = refl
opcode-found msg_standby = refl
opcode-found msg_play = refl
opcode-found msg_deck_control = refl
opcode-found msg_timer_cleared_status = refl
opcode-found msg_user_control_pressed = refl
opcode-found msg_user_control_released = refl
opcode-found msg_give_osd_name = refl
opcode-found msg_set_osd_name = refl
opcode-found msg_set_osd_string = refl
opcode-found msg_set_timer_program_title = refl
opcode-found msg_system_audio_mode_request = refl
opcode-found msg_give_audio = refl
opcode-found msg_set_system_audio_mode = refl
opcode-found msg_report_audio_status = refl
opcode-found msg_give_system_audio_mode_status = refl
opcode-found msg_system_audio_mode_status = refl
opcode-found msg_routing_change = refl
opcode-found msg_routing_information = refl
opcode-found msg_active_source = refl
opcode-found msg_give_physical_address = refl
opcode-found msg_report_physical_address = refl
opcode-found msg_request_active_source = refl
opcode-found msg_set_stream_path = refl
opcode-found msg_device_vendor_id = refl
opcode-found msg_vendor_command = refl
opcode-found msg_vendor_remote_button_down = refl
opcode-found msg_vendor_remote_button_up = refl
opcode-found msg_give_device_vendor_id = refl
opcode-found msg_menu_request = refl
opcode-found msg_menu_status = refl
opcode-found msg_give_device_power_status = refl
opcode-found msg_report_power_status = refl
opcode-found msg_get_menu_language = refl
opcode-found msg_select_analogue_service = refl
opcode-found msg_select_digital_service = refl
opcode-found msg_set_digital_timer = refl
opcode-found msg_clear_digital_timer = refl
opcode-found msg_set_audio_rate = refl
opcode-found msg_inactive_source = refl
opcode-found msg_cec_version = refl
opcode-found msg_get_cec_version = refl
opcode-found msg_vendor_command_with_id = refl
opcode-found msg_clear_external_timer = refl
opcode-found msg_set_external_timer = refl
opcode-found msg_abort = refl

-- Two messages have one opcode exactly if they are the same message.
pub opcode-distinct : (x y : Opcode) → (opcode x ≡ opcode y) ↔ (x ≡ y)
opcode-distinct = found_distinct opcode opcodes opcode-found
