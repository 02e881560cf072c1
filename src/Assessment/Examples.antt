-- ===== src/Assessment/Examples.antt =====
-- A bank with a question of each skill, and a learner who takes the test.
use ai_agentic_english.Prelude.{◌<◌, false, none, some, List, [], ◌∷◌, ◌≡◌, refl, All, get_or}
use ai_agentic_english.Shared.Skill.{reading, writing, listening, speaking}
use ai_agentic_english.Shared.Json.{null, text, object, Fields, no_fields, field}
use ai_agentic_english.Shared.Trim.{trim}
use ai_agentic_english.Shared.Cefr.{a1, b1}
use ai_agentic_english.Onboarding.Request.{in_listening, level_of}
use ai_agentic_english.Assessment.Prompt.{
  Question, select_assessment_questions, parse_prompt, audio_source,
}
use ai_agentic_english.Assessment.Test.{
  new_test, result, api_error, AssessmentResult, graded_profile, load_finish,
}
use ai_agentic_english.Assessment.Player.{Player, keep_playback_position_locked, distance}
use ai_agentic_english.Assessment.Positions.{Distinct}
use ai_agentic_english.Assessment.Flow.{Input, answered, next, back, scored, run, IsInTest}
use ai_agentic_english.Assessment.Submission.{IsComplete, run-IsComplete}
use ai_agentic_english.Assessment.Grading.{graded_profile-level}
use ai_agentic_english.Assessment.Completion.{answer_each, pair_up, run-answers}
use ai_agentic_english.Assessment.PlayerLaws.{seek, keep_playback_position_locked-seek}

abbrev listening_prompt : Fields
listening_prompt =
    field "audioKey" (text "bus.mp3") (field "question" (text "Where does the bus go?") no_fields)

abbrev read_a : Question
read_a = record { id = "q1"; skill = reading; prompt = null }

abbrev say_b : Question
say_b = record { id = "q2"; skill = speaking; prompt = null }

abbrev hear_c : Question
hear_c = record { id = "q3"; skill = listening; prompt = object listening_prompt }

abbrev write_d : Question
write_d = record { id = "q4"; skill = writing; prompt = null }

abbrev bank : List Question
bank = read_a ∷ say_b ∷ hear_c ∷ write_d ∷ []

abbrev asked : List Question
asked = read_a ∷ hear_c ∷ write_d ∷ []

bank-Distinct : Distinct bank
bank-Distinct = ((refl, (refl, (refl, tt))), ((refl, (refl, tt)), ((refl, tt), (tt, tt))))

selection : select_assessment_questions bank ≡ some asked
unfolding select_assessment_questions
selection = refl

-- The learner clears an answer on the way, and the scorer fails once.
abbrev inputs : List Input
inputs =
    answered "a"
    ∷ next
    ∷ answered " b "
    ∷ back
    ∷ answered " "
    ∷ next
    ∷ answered "c"
    ∷ next
    ∷ next
    ∷ answered "d"
    ∷ next
    ∷ scored (api_error "down")
    ∷ next
    ∷ []

run-IsComplete_example :
    IsInTest asked (run asked (load_finish (result bank) new_test) inputs).0
    × All (IsComplete asked) (run asked (load_finish (result bank) new_test) inputs).1
run-IsComplete_example = run-IsComplete bank asked new_test inputs bank-Distinct selection

run-answers_example :
    (run asked (load_finish (result bank) new_test) (answer_each ("a" ∷ " b" ∷ "c" ∷ []))).1
    ≡ pair_up asked ("a" ∷ " b" ∷ "c" ∷ []) ∷ []
unfolding trim
run-answers_example =
    run-answers bank asked new_test ("a" ∷ " b" ∷ "c" ∷ []) bank-Distinct selection refl refl
      (refl, (refl, (refl, tt)))

abbrev scores : AssessmentResult
scores = record {
  levels = record { listening = none; speaking = none; reading = some b1; writing = some a1 };
  correct_answers = 2;
}

graded_profile-level_example :
    level_of (graded_profile asked scores).assessment_levels in_listening
    ≡ some (get_or (level_of scores.levels in_listening) a1)
graded_profile-level_example = graded_profile-level bank asked scores in_listening selection

abbrev playing : Player
playing = record {
  element_time = 4000;
  seeking = false;
  last_known_time = 4000;
  is_restoring_time = false;
  current_time = 4000;
}

keep_playback_position_locked-seek_example :
    (distance (keep_playback_position_locked (seek 9000 2 playing)).element_time 4000 < 1000)
    × ((keep_playback_position_locked (seek 9000 2 playing)).last_known_time ≡ 4000)
keep_playback_position_locked-seek_example = keep_playback_position_locked-seek 9000 2 playing refl

audio_of_question : (audio_source listening (parse_prompt hear_c.prompt)).1 ≡ some "bus.mp3"
unfolding audio_source parse_prompt
audio_of_question = refl
