-- ===== src/Codes/Messages.antt =====
-- cec_msg.h: the opcodes of the messages, and in Messages/Operands the operands.
pub mod Operands
pub mod Distinct
pub mod Values
pub mod Modes
use avr_cec.Common.{ℕ}

pub data Opcode : Type 0 where
  msg_feature_abort msg_image_view_on msg_tuner_step_increment msg_tuner_step_decrement
        msg_tuner_device_status msg_give_tuner_device_status msg_record_on msg_record_status
        msg_record_off msg_text_view_on msg_record_tv_screen msg_give_deck_status msg_deck_status
        msg_set_menu_language msg_clear_analogue_timer msg_set_analogue_timer msg_timer_status
        msg_standby msg_play msg_deck_control msg_timer_cleared_status msg_user_control_pressed
        msg_user_control_released msg_give_osd_name msg_set_osd_name msg_set_osd_string
        msg_set_timer_program_title msg_system_audio_mode_request msg_give_audio
        msg_set_system_audio_mode msg_report_audio_status msg_give_system_audio_mode_status
        msg_system_audio_mode_status msg_routing_change msg_routing_information msg_active_source
        msg_give_physical_address msg_report_physical_address msg_request_active_source
        msg_set_stream_path msg_device_vendor_id msg_vendor_command msg_vendor_remote_button_down
        msg_vendor_remote_button_up msg_give_device_vendor_id msg_menu_request msg_menu_status
        msg_give_device_power_status msg_report_power_status msg_get_menu_language
        msg_select_analogue_service msg_select_digital_service msg_set_digital_timer
        msg_clear_digital_timer msg_set_audio_rate msg_inactive_source msg_cec_version
        msg_get_cec_version msg_vendor_command_with_id msg_clear_external_timer
        msg_set_external_timer msg_abort :
      Opcode

unfoldable pub opcode : Opcode → ℕ
opcode msg_feature_abort = 0x00
opcode msg_image_view_on = 0x04
opcode msg_tuner_step_increment = 0x05
opcode msg_tuner_step_decrement = 0x06
opcode msg_tuner_device_status = 0x07
opcode msg_give_tuner_device_status = 0x08
opcode msg_record_on = 0x09
opcode msg_record_status = 0x0a
opcode msg_record_off = 0x0b
opcode msg_text_view_on = 0x0d
opcode msg_record_tv_screen = 0x0f
opcode msg_give_deck_status = 0x1a
opcode msg_deck_status = 0x1b
opcode msg_set_menu_language = 0x32
opcode msg_clear_analogue_timer = 0x33
opcode msg_set_analogue_timer = 0x34
opcode msg_timer_status = 0x35
opcode msg_standby = 0x36
opcode msg_play = 0x41
opcode msg_deck_control = 0x42
opcode msg_timer_cleared_status = 0x43
opcode msg_user_control_pressed = 0x44
opcode msg_user_control_released = 0x45
opcode msg_give_osd_name = 0x46
opcode msg_set_osd_name = 0x47
opcode msg_set_osd_string = 0x64
opcode msg_set_timer_program_title = 0x67
opcode msg_system_audio_mode_request = 0x70
opcode msg_give_audio = 0x71
opcode msg_set_system_audio_mode = 0x72
opcode msg_report_audio_status = 0x7a
opcode msg_give_system_audio_mode_status = 0x7d
opcode msg_system_audio_mode_status = 0x7e
opcode msg_routing_change = 0x80
opcode msg_routing_information = 0x81
opcode msg_active_source = 0x82
opcode msg_give_physical_address = 0x83
opcode msg_report_physical_address = 0x84
opcode msg_request_active_source = 0x85
opcode msg_set_stream_path = 0x86
opcode msg_device_vendor_id = 0x87
opcode msg_vendor_command = 0x89
opcode msg_vendor_remote_button_down = 0x8a
opcode msg_vendor_remote_button_up = 0x8b
opcode msg_give_device_vendor_id = 0x8c
opcode msg_menu_request = 0x8d
opcode msg_menu_status = 0x8e
opcode msg_give_device_power_status = 0x8f
opcode msg_report_power_status = 0x90
opcode msg_get_menu_language = 0x91
opcode msg_select_analogue_service = 0x92
opcode msg_select_digital_service = 0x93
opcode msg_set_digital_timer = 0x97
opcode msg_clear_digital_timer = 0x99
opcode msg_set_audio_rate = 0x9a
opcode msg_inactive_source = 0x9d
opcode msg_cec_version = 0x9e
opcode msg_get_cec_version = 0x9f
opcode msg_vendor_command_with_id = 0xa0
opcode msg_clear_external_timer = 0xa1
opcode msg_set_external_timer = 0xa2
opcode msg_abort = 0xff
