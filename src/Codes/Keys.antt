-- ===== src/Codes/Keys.antt =====
-- cec_keys.h: the keys of a remote control.
pub mod Table
pub mod Shared
use avr_cec.Common.{ℕ}

pub data Key : Type 0 where
  key_select key_up key_down key_left key_right key_right_up key_right_down key_left_up
        key_left_down key_root_menu key_setup_menu key_contents_menu key_favorite_menu key_exit
        key_media_top_menu key_media_context_sensitive_menu key_num_entry key_11 key_12 key_0 key_1
        key_2 key_3 key_4 key_5 key_6 key_7 key_8 key_9 key_dot key_enter key_clear
        key_next_favorite key_channel_up key_channel_down key_previous_channel key_sound_select
        key_input_select key_display_information key_help key_page_up key_page_down key_power
        key_volume_up key_volume_down key_mute key_play key_stop key_pause key_record key_rewind
        key_fast_forward key_eject key_forward key_backward key_stop_record key_pause_record
        key_angle key_sub_picture key_video_on_demand key_electronic_program_guide
        key_timer_programming key_initial_configuration key_select_broadcast_type
        key_select_sound_presentation key_play_function key_pause_play_function key_record_function
        key_pause_record_function key_stop_function key_mute_function key_restore_volume_function
        key_tune_function key_select_media_function key_select_av_input_function
        key_select_audio_input_function key_power_toggle_function key_power_off_function
        key_power_on_function key_f1 key_blue key_f2 key_red key_f3 key_green key_f4 key_yellow
        key_f5 key_data :
      Key

-- The codes of the keys.
unfoldable pub key_code : Key → ℕ
key_code key_select = 0x00
key_code key_up = 0x01
key_code key_down = 0x02
key_code key_left = 0x03
key_code key_right = 0x04
key_code key_right_up = 0x05
key_code key_right_down = 0x06
key_code key_left_up = 0x07
key_code key_left_down = 0x08
key_code key_root_menu = 0x09
key_code key_setup_menu = 0x0a
key_code key_contents_menu = 0x0b
key_code key_favorite_menu = 0x0c
key_code key_exit = 0x0d
key_code key_media_top_menu = 0x10
key_code key_media_context_sensitive_menu = 0x11
key_code key_num_entry = 0x1d
key_code key_11 = 0x1e
key_code key_12 = 0x1f
key_code key_0 = 0x20
key_code key_1 = 0x21
key_code key_2 = 0x22
key_code key_3 = 0x23
key_code key_4 = 0x24
key_code key_5 = 0x25
key_code key_6 = 0x26
key_code key_7 = 0x27
key_code key_8 = 0x28
key_code key_9 = 0x29
key_code key_dot = 0x2a
key_code key_enter = 0x2b
key_code key_clear = 0x2c
key_code key_next_favorite = 0x2f
key_code key_channel_up = 0x30
key_code key_channel_down = 0x31
key_code key_previous_channel = 0x32
key_code key_sound_select = 0x33
key_code key_input_select = 0x34
key_code key_display_information = 0x35
key_code key_help = 0x36
key_code key_page_up = 0x37
key_code key_page_down = 0x38
key_code key_power = 0x40
key_code key_volume_up = 0x41
key_code key_volume_down = 0x42
key_code key_mute = 0x43
key_code key_play = 0x44
key_code key_stop = 0x45
key_code key_pause = 0x46
key_code key_record = 0x47
key_code key_rewind = 0x48
key_code key_fast_forward = 0x49
key_code key_eject = 0x4a
key_code key_forward = 0x4b
key_code key_backward = 0x4c
key_code key_stop_record = 0x4d
key_code key_pause_record = 0x4e
key_code key_angle = 0x50
key_code key_sub_picture = 0x51
key_code key_video_on_demand = 0x52
key_code key_electronic_program_guide = 0x53
key_code key_timer_programming = 0x54
key_code key_initial_configuration = 0x55
key_code key_select_broadcast_type = 0x56
key_code key_select_sound_presentation = 0x67
key_code key_play_function = 0x60
key_code key_pause_play_function = 0x61
key_code key_record_function = 0x62
key_code key_pause_record_function = 0x63
key_code key_stop_function = 0x64
key_code key_mute_function = 0x65
key_code key_restore_volume_function = 0x66
key_code key_tune_function = 0x67
key_code key_select_media_function = 0x68
key_code key_select_av_input_function = 0x69
key_code key_select_audio_input_function = 0x6a
key_code key_power_toggle_function = 0x6b
key_code key_power_off_function = 0x6c
key_code key_power_on_function = 0x6d
key_code key_f1 = 0x71
key_code key_blue = 0x71
key_code key_f2 = 0x72
key_code key_red = 0x72
key_code key_f3 = 0x73
key_code key_green = 0x73
key_code key_f4 = 0x74
key_code key_yellow = 0x74
key_code key_f5 = 0x75
key_code key_data = 0x76
