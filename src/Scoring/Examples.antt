-- ===== src/Scoring/Examples.antt =====
-- The theorems of the scorer at an assessment of three questions.
use ai_agentic_english.Prelude.{String, some, List, [], ◌∷◌, ◌≡◌}
use ai_agentic_english.Prelude.Dict.{get}
use ai_agentic_english.Shared.Json.{text}
use ai_agentic_english.Scoring.Score.{
  ScoredQuestion, SubmittedAnswer, answer_map, passes, score_assessment,
}
use ai_agentic_english.Scoring.ScoreLaws.{
  take_while, last?, questions_at, tested, score_assessment-levels,
}

abbrev question : String → String → ScoredQuestion
question id level = record {
  id = id;
  skill = "reading";
  cefr_level_target = level;
  correct_answer = text "b";
}

abbrev questions : List ScoredQuestion
questions = question "q1" "A1" ∷ question "q2" "B1" ∷ []

abbrev answers : List SubmittedAnswer
answers =
    record { question_id = "q1"; answer = some (text "b") }
    ∷ record { question_id = "q2"; answer = some (text "b") }
    ∷ []

score_assessment-levels_example :
    get "reading" (score_assessment questions answers).levels
    ≡ last? (
        take_while
          (λ l. passes (answer_map answers []) (questions_at questions "reading" l))
          (tested questions "reading"))
score_assessment-levels_example = score_assessment-levels questions answers "reading"
