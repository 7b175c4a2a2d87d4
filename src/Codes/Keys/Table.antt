-- ===== src/Codes/Keys/Table.antt =====
-- The table of the keys, and what is found in it.
use avr_cec.Common.{◌≡◌, refl, List, [], ◌∷◌, some}
use avr_cec.Codes.{lookup}
use avr_cec.Codes.Keys.{
  Key, key_code, key_select, key_up, key_down, key_left, key_right, key_right_up, key_right_down,
  key_left_up, key_left_down, key_root_menu, key_setup_menu, key_contents_menu, key_favorite_menu,
  key_exit, key_media_top_menu, key_media_context_sensitive_menu, key_num_entry, key_11, key_12,
  key_0, key_1, key_2, key_3, key_4, key_5, key_6, key_7, key_8, key_9, key_dot, key_enter,
  key_clear, key_next_favorite, key_channel_up, key_channel_down, key_previous_channel,
  key_sound_select, key_input_select, key_display_information, key_help, key_page_up, key_page_down,
  key_power, key_volume_up, key_volume_down, key_mute, key_play, key_stop, key_pause, key_record,
  key_rewind, key_fast_forward, key_eject, key_forward, key_backward, key_stop_record,
  key_pause_record, key_angle, key_sub_picture, key_video_on_demand, key_electronic_program_guide,
  key_timer_programming, key_initial_configuration, key_select_broadcast_type,
  key_select_sound_presentation, key_play_function, key_pause_play_function, key_record_function,
  key_pause_record_function, key_stop_function, key_mute_function, key_restore_volume_function,
  key_tune_function, key_select_media_function, key_select_av_input_function,
  key_select_audio_input_function, key_power_toggle_function, key_power_off_function,
  key_power_on_function, key_f1, key_blue, key_f2, key_red, key_f3, key_green, key_f4, key_yellow,
  key_f5, key_data,
}

-- The name under which a key is found: of the four colours, that of the function key, and for the tune
-- function that of the key whose code it has.
abbrev pub first_name : Key → Key
first_name key_tune_function = key_select_sound_presentation
first_name key_blue = key_f1
first_name key_red = key_f2
first_name key_green = key_f3
first_name key_yellow = key_f4
first_name k = k

pub keys : List Key
keys =
    key_select ∷ key_up ∷ key_down ∷ key_left ∷ key_right ∷ key_right_up ∷ key_right_down
    ∷ key_left_up ∷ key_left_down ∷ key_root_menu ∷ key_setup_menu ∷ key_contents_menu
    ∷ key_favorite_menu ∷ key_exit ∷ key_media_top_menu ∷ key_media_context_sensitive_menu
    ∷ key_num_entry ∷ key_11 ∷ key_12 ∷ key_0 ∷ key_1 ∷ key_2 ∷ key_3 ∷ key_4 ∷ key_5 ∷ key_6
    ∷ key_7 ∷ key_8 ∷ key_9 ∷ key_dot ∷ key_enter ∷ key_clear ∷ key_next_favorite ∷ key_channel_up
    ∷ key_channel_down ∷ key_previous_channel ∷ key_sound_select ∷ key_input_select
    ∷ key_display_information ∷ key_help ∷ key_page_up ∷ key_page_down ∷ key_power ∷ key_volume_up
    ∷ key_volume_down ∷ key_mute ∷ key_play ∷ key_stop ∷ key_pause ∷ key_record ∷ key_rewind
    ∷ key_fast_forward ∷ key_eject ∷ key_forward ∷ key_backward ∷ key_stop_record ∷ key_pause_record
    ∷ key_angle ∷ key_sub_picture ∷ key_video_on_demand ∷ key_electronic_program_guide
    ∷ key_timer_programming ∷ key_initial_configuration ∷ key_select_broadcast_type
    ∷ key_select_sound_presentation ∷ key_play_function ∷ key_pause_play_function
    ∷ key_record_function ∷ key_pause_record_function ∷ key_stop_function ∷ key_mute_function
    ∷ key_restore_volume_function ∷ key_tune_function ∷ key_select_media_function
    ∷ key_select_av_input_function ∷ key_select_audio_input_function ∷ key_power_toggle_function
    ∷ key_power_off_function ∷ key_power_on_function ∷ key_f1 ∷ key_blue ∷ key_f2 ∷ key_red ∷ key_f3
    ∷ key_green ∷ key_f4 ∷ key_yellow ∷ key_f5 ∷ key_data ∷ []

pub found : (k : Key) → lookup key_code keys (key_code k) ≡ some (first_name k)
unfolding lookup key_code keys
found key_select = refl
found key_up = refl
found key_down = refl
found key_left = refl
found key_right = refl
found key_right_up = refl
found key_right_down = refl
found key_left_up = refl
found key_left_down = refl
found key_root_menu = refl
found key_setup_menu = refl
found key_contents_menu = refl
found key_favorite_menu = refl
found key_exit = refl
found key_media_top_menu = refl
found key_media_context_sensitive_menu = refl
found key_num_entry = refl
found key_11 = refl
found key_12 = refl
found key_0 = refl
found key_1 = refl
found key_2 = refl
found key_3 = refl
found key_4 = refl
found key_5 = refl
found key_6 = refl
found key_7 = refl
found key_8 = refl
found key_9 = refl
found key_dot = refl
found key_enter = refl
found key_clear = refl
found key_next_favorite = refl
found key_channel_up = refl
found key_channel_down = refl
found key_previous_channel = refl
found key_sound_select = refl
found key_input_select = refl
found key_display_information = refl
found key_help = refl
found key_page_up = refl
found key_page_down = refl
found key_power = refl
found key_volume_up = refl
found key_volume_down = refl
found key_mute = refl
found key_play = refl
found key_stop = refl
found key_pause = refl
found key_record = refl
found key_rewind = refl
found key_fast_forward = refl
found key_eject = refl
found key_forward = refl
found key_backward = refl
found key_stop_record = refl
found key_pause_record = refl
found key_angle = refl
found key_sub_picture = refl
found key_video_on_demand = refl
found key_electronic_program_guide = refl
found key_timer_programming = refl
found key_initial_configuration = refl
found key_select_broadcast_type = refl
found key_select_sound_presentation = refl
found key_play_function = refl
found key_pause_play_function = refl
found key_record_function = refl
found key_pause_record_function = refl
found key_stop_function = refl
found key_mute_function = refl
found key_restore_volume_function = refl
found key_tune_function = refl
found key_select_media_function = refl
found key_select_av_input_function = refl
found key_select_audio_input_function = refl
found key_power_toggle_function = refl
found key_power_off_function = refl
found key_power_on_function = refl
found key_f1 = refl
found key_blue = refl
found key_f2 = refl
found key_red = refl
found key_f3 = refl
found key_green = refl
found key_f4 = refl
found key_yellow = refl
found key_f5 = refl
found key_data = refl
