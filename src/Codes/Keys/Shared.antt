-- ===== src/Codes/Keys/Shared.antt =====
-- The keys that share a code.
use avr_cec.Common.{◌≡◌, ◌↔◌, refl, ap, ◌∙◌, sym}
use avr_cec.Codes.{found_same}
use avr_cec.Codes.Keys.{
  Key, key_code, key_select, key_up, key_down, key_left, key_right, key_right_up, key_right_down,
  key_left_up, key_left_down, key_root_menu, key_setup_menu, key_contents_menu, key_favorite_menu,
  key_exit, key_media_top_menu, key_media_context_sensitive_menu, key_num_entry, key_11, key_12,
  key_0, key_1, key_2, key_3, key_4, key_5, key_6, key_7, key_8, key_9, key_dot, key_enter,
  key_clear, key_next_favorite, key_channel_up, key_channel_down, key_previous_channel,
  key_sound_select, key_input_select, key_display_information, key_help, key_page_up, key_page_down,
  key_power, key_volume_up, key_volume_down, key_mute, key_play, key_stop, key_pause, key_record,
  key_rewind, key_fast_forward, key_eject, key_forward, key_backward, key_stop_record,
  key_pause_record, key_angle, key_sub_picture, key_video_on_demand, key_electronic_program_guide,
  key_timer_programming, key_initial_configuration, key_select_broadcast_type,
  key_select_sound_presentation, key_play_function, key_pause_play_function, key_record_function,
  key_pause_record_function, key_stop_function, key_mute_function, key_restore_volume_function,
  key_tune_function, key_select_media_function, key_select_av_input_function,
  key_select_audio_input_function, key_power_toggle_function, key_power_off_function,
  key_power_on_function, key_f1, key_blue, key_f2, key_red, key_f3, key_green, key_f4, key_yellow,
  key_f5, key_data,
}
use avr_cec.Codes.Keys.Table.{first_name, keys, found}

first_code : (k : Key) → key_code (first_name k) ≡ key_code k
unfolding key_code
first_code key_select = refl
first_code key_up = refl
first_code key_down = refl
first_code key_left = refl
first_code key_right = refl
first_code key_right_up = refl
first_code key_right_down = refl
first_code key_left_up = refl
first_code key_left_down = refl
first_code key_root_menu = refl
first_code key_setup_menu = refl
first_code key_contents_menu = refl
first_code key_favorite_menu = refl
first_code key_exit = refl
first_code key_media_top_menu = refl
first_code key_media_context_sensitive_menu = refl
first_code key_num_entry = refl
first_code key_11 = refl
first_code key_12 = refl
first_code key_0 = refl
first_code key_1 = refl
first_code key_2 = refl
first_code key_3 = refl
first_code key_4 = refl
first_code key_5 = refl
first_code key_6 = refl
first_code key_7 = refl
first_code key_8 = refl
first_code key_9 = refl
first_code key_dot = refl
first_code key_enter = refl
first_code key_clear = refl
first_code key_next_favorite = refl
first_code key_channel_up = refl
first_code key_channel_down = refl
first_code key_previous_channel = refl
first_code key_sound_select = refl
first_code key_input_select = refl
first_code key_display_information = refl
first_code key_help = refl
first_code key_page_up = refl
first_code key_page_down = refl
first_code key_power = refl
first_code key_volume_up = refl
first_code key_volume_down = refl
first_code key_mute = refl
first_code key_play = refl
first_code key_stop = refl
first_code key_pause = refl
first_code key_record = refl
first_code key_rewind = refl
first_code key_fast_forward = refl
first_code key_eject = refl
first_code key_forward = refl
first_code key_backward = refl
first_code key_stop_record = refl
first_code key_pause_record = refl
first_code key_angle = refl
first_code key_sub_picture = refl
first_code key_video_on_demand = refl
first_code key_electronic_program_guide = refl
first_code key_timer_programming = refl
first_code key_initial_configuration = refl
first_code key_select_broadcast_type = refl
first_code key_select_sound_presentation = refl
first_code key_play_function = refl
first_code key_pause_play_function = refl
first_code key_record_function = refl
first_code key_pause_record_function = refl
first_code key_stop_function = refl
first_code key_mute_function = refl
first_code key_restore_volume_function = refl
first_code key_tune_function = refl
first_code key_select_media_function = refl
first_code key_select_av_input_function = refl
first_code key_select_audio_input_function = refl
first_code key_power_toggle_function = refl
first_code key_power_off_function = refl
first_code key_power_on_function = refl
first_code key_f1 = refl
first_code key_blue = refl
first_code key_f2 = refl
first_code key_red = refl
first_code key_f3 = refl
first_code key_green = refl
first_code key_f4 = refl
first_code key_yellow = refl
first_code key_f5 = refl
first_code key_data = refl

-- Two keys of the table have one code exactly if they are the same key, where a colour is the same key as
-- its function key, and the key for the tune function counts as the one that selects a sound
-- presentation.
pub key_code-shared : (k l : Key) → (key_code k ≡ key_code l) ↔ (first_name k ≡ first_name l)
key_code-shared k l = (
  found_same key_code keys first_name found k l,
  λ e. sym (first_code k) ∙ ap key_code e ∙ first_code l,
)
