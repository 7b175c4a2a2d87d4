-- ===== src/Codes/Messages/Modes.antt =====
-- The play modes as unions of their parts.
use avr_cec.Common.{ℕ, ◌≡◌, refl, bit_or}
use avr_cec.Codes.Messages.Operands.{
  PlayMode, play_mode, play_mode_fast_forward_min_speed, play_mode_fast_forward_medium_speed,
  play_mode_fast_forward_max_speed, play_mode_slow_forward_min_speed,
  play_mode_slow_forward_medium_speed, play_mode_slow_forward_max_speed,
  play_mode_fast_reverse_min_speed, play_mode_fast_reverse_medium_speed,
  play_mode_fast_reverse_max_speed, play_mode_slow_reverse_min_speed,
  play_mode_slow_reverse_medium_speed, play_mode_slow_reverse_max_speed, play_mode_play_reverse,
  play_mode_play_forward, play_mode_play_still, play_mode_min_speed, play_mode_medium_speed,
  play_mode_max_speed, play_mode_forward, play_mode_reverse, play_mode_fast, play_mode_slow,
  play_mode_play,
}

-- How a mode plays, in which direction and how fast, as its name says; playing in reverse has no bit for
-- the direction, and standing still is playing forward at the least speed.
abbrev pub kind_of : PlayMode → ℕ
kind_of play_mode_fast_forward_min_speed = play_mode_fast
kind_of play_mode_fast_forward_medium_speed = play_mode_fast
kind_of play_mode_fast_forward_max_speed = play_mode_fast
kind_of play_mode_slow_forward_min_speed = play_mode_slow
kind_of play_mode_slow_forward_medium_speed = play_mode_slow
kind_of play_mode_slow_forward_max_speed = play_mode_slow
kind_of play_mode_fast_reverse_min_speed = play_mode_fast
kind_of play_mode_fast_reverse_medium_speed = play_mode_fast
kind_of play_mode_fast_reverse_max_speed = play_mode_fast
kind_of play_mode_slow_reverse_min_speed = play_mode_slow
kind_of play_mode_slow_reverse_medium_speed = play_mode_slow
kind_of play_mode_slow_reverse_max_speed = play_mode_slow
kind_of play_mode_play_reverse = play_mode_play
kind_of play_mode_play_forward = play_mode_play
kind_of play_mode_play_still = play_mode_play

abbrev pub direction_of : PlayMode → ℕ
direction_of play_mode_fast_forward_min_speed = play_mode_forward
direction_of play_mode_fast_forward_medium_speed = play_mode_forward
direction_of play_mode_fast_forward_max_speed = play_mode_forward
direction_of play_mode_slow_forward_min_speed = play_mode_forward
direction_of play_mode_slow_forward_medium_speed = play_mode_forward
direction_of play_mode_slow_forward_max_speed = play_mode_forward
direction_of play_mode_fast_reverse_min_speed = play_mode_reverse
direction_of play_mode_fast_reverse_medium_speed = play_mode_reverse
direction_of play_mode_fast_reverse_max_speed = play_mode_reverse
direction_of play_mode_slow_reverse_min_speed = play_mode_reverse
direction_of play_mode_slow_reverse_medium_speed = play_mode_reverse
direction_of play_mode_slow_reverse_max_speed = play_mode_reverse
direction_of play_mode_play_reverse = 0
direction_of play_mode_play_forward = play_mode_forward
direction_of play_mode_play_still = play_mode_forward

abbrev pub speed_of : PlayMode → ℕ
speed_of play_mode_fast_forward_min_speed = play_mode_min_speed
speed_of play_mode_fast_forward_medium_speed = play_mode_medium_speed
speed_of play_mode_fast_forward_max_speed = play_mode_max_speed
speed_of play_mode_slow_forward_min_speed = play_mode_min_speed
speed_of play_mode_slow_forward_medium_speed = play_mode_medium_speed
speed_of play_mode_slow_forward_max_speed = play_mode_max_speed
speed_of play_mode_fast_reverse_min_speed = play_mode_min_speed
speed_of play_mode_fast_reverse_medium_speed = play_mode_medium_speed
speed_of play_mode_fast_reverse_max_speed = play_mode_max_speed
speed_of play_mode_slow_reverse_min_speed = play_mode_min_speed
speed_of play_mode_slow_reverse_medium_speed = play_mode_medium_speed
speed_of play_mode_slow_reverse_max_speed = play_mode_max_speed
speed_of play_mode_play_reverse = 0
speed_of play_mode_play_forward = 0
speed_of play_mode_play_still = play_mode_min_speed

-- Every play mode is the union of the bits of its kind, of its direction and of its speed; playing in
-- reverse has those of its kind alone, and standing still has those of playing forward at the least
-- speed.
pub play_mode-parts :
    (m : PlayMode) → play_mode m ≡ bit_or (bit_or (kind_of m) (direction_of m)) (speed_of m)
unfolding play_mode
play_mode-parts play_mode_fast_forward_min_speed = refl
play_mode-parts play_mode_fast_forward_medium_speed = refl
play_mode-parts play_mode_fast_forward_max_speed = refl
play_mode-parts play_mode_slow_forward_min_speed = refl
play_mode-parts play_mode_slow_forward_medium_speed = refl
play_mode-parts play_mode_slow_forward_max_speed = refl
play_mode-parts play_mode_fast_reverse_min_speed = refl
play_mode-parts play_mode_fast_reverse_medium_speed = refl
play_mode-parts play_mode_fast_reverse_max_speed = refl
play_mode-parts play_mode_slow_reverse_min_speed = refl
play_mode-parts play_mode_slow_reverse_medium_speed = refl
play_mode-parts play_mode_slow_reverse_max_speed = refl
play_mode-parts play_mode_play_reverse = refl
play_mode-parts play_mode_play_forward = refl
play_mode-parts play_mode_play_still = refl
