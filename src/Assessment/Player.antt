-- ===== src/Assessment/Player.antt =====
-- LockedAssessmentAudioPlayer: the position of the audio cannot be moved by the learner. Times are
-- milliseconds of the audio.
use ai_agentic_english.Prelude.{
  ℕ, ◌+◌, ◌-◌, Bool, true, false, not, ◌&&◌, ◌||◌, ltb, leb, if◌then◌else◌,
}

-- `element_time` and `seeking` are the audio element's, the others the component's.
pub record Player : Type 0 where
  pub element_time : ℕ
  pub seeking : Bool
  pub last_known_time : ℕ
  pub is_restoring_time : Bool
  pub current_time : ℕ

unfoldable pub update_playback_time : Player → Player
update_playback_time p =
    let next_time = p.element_time in
    record p {
      current_time = next_time;
      last_known_time =
          if not p.seeking && leb p.last_known_time next_time then next_time else p.last_known_time;
    }

abbrev pub distance : ℕ → ℕ → ℕ
distance a b = (a - b) + (b - a)

unfoldable pub keep_playback_position_locked : Player → Player
keep_playback_position_locked p =
    if p.is_restoring_time || ltb (distance p.element_time p.last_known_time) 1000
    then p
    else record p {
      is_restoring_time = true;
      element_time = p.last_known_time;
      current_time = p.last_known_time;
    }

-- The timer that ends a restoration, and the start of the audio once it is loaded.
unfoldable pub end_restoring : Player → Player
end_restoring p = record p { is_restoring_time = false }

unfoldable pub start_audio : Player → Player
start_audio p = record p { is_restoring_time = true; element_time = 0 }
