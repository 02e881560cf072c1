-- ===== src/Scoring/ScoreLaws.antt =====
-- assessmentScorer.ts against a description of the result without its loops.
use ai_agentic_english.Prelude.{
  ◌≤◌, String, Bool, true, not, Option, none, some, List, [], ◌∷◌, ◌≡◌, refl, arith, ap, ◌∙◌, any,
  filter, length, length-filter, ◌==◌, if◌then◌else◌, str_eq, All, All-filter,
}
use ai_agentic_english.Prelude.Dict.{Dict, get}
use ai_agentic_english.Shared.Effect.{ok}
use ai_agentic_english.Shared.Json.{Json}
use ai_agentic_english.Shared.Cefr.{CefrLevel, cefr_levels}
use ai_agentic_english.Scoring.Score.{
  ScoredQuestion, SubmittedAnswer, AssessmentResult, answer_map, is_correct, bucket, correct_in,
  passes, climb, highest_passing, score_assessment, post_score,
}
use ai_agentic_english.Scoring.Grouping.{of_skill, level_of_skill}

abbrev pub take_while : (CefrLevel → Bool) → List CefrLevel → List CefrLevel
take_while p [] = []
take_while p (x ∷ xs) = if p x then x ∷ take_while p xs else []

abbrev pub last_or : Option CefrLevel → List CefrLevel → Option CefrLevel
last_or o [] = o
last_or o (x ∷ xs) = last_or (some x) xs

abbrev pub last? : List CefrLevel → Option CefrLevel
last? = last_or none

climb_lem :
    (questions : CefrLevel → List ScoredQuestion) (pass : List ScoredQuestion → Bool)
    (levels : List CefrLevel) (highest : Option CefrLevel)
    → climb questions pass levels highest
      ≡ last_or highest (
          take_while
            (λ l. pass (questions l))
            (filter (λ l. not (length (questions l) == 0)) levels))
unfolding climb
climb_lem questions pass [] highest = refl
climb_lem questions pass (l ∷ ls) highest =
    ground (arith, climb_lem questions pass ls highest, climb_lem questions pass ls (some l))

-- The questions of a skill at a level.
abbrev pub questions_at : List ScoredQuestion → String → CefrLevel → List ScoredQuestion
questions_at qs skill level = bucket level (filter (of_skill skill) qs)

-- The levels of a skill that have questions, from A1 up.
abbrev pub tested : List ScoredQuestion → String → List CefrLevel
tested qs skill = filter (λ l. not (length (questions_at qs skill l) == 0)) cefr_levels

highest_passing_lem :
    (m : Dict (Option Json)) (xs : List ScoredQuestion)
    → highest_passing m xs
      ≡ last? (
          take_while
            (λ l. passes m (bucket l xs))
            (filter (λ l. not (length (bucket l xs) == 0)) cefr_levels))
unfolding highest_passing
highest_passing_lem m xs = climb_lem (λ l. bucket l xs) (passes m) cefr_levels none

-- The level of a skill is the last of the longest run of its tested levels, from the lowest up,
-- at each of which at least three fifths of the skill's questions of that level are answered
-- correctly; there is none where the lowest tested level fails or no level is tested.
pub score_assessment-levels :
    (qs : List ScoredQuestion) (answers : List SubmittedAnswer) (skill : String)
    → get skill (score_assessment qs answers).levels
      ≡ last? (
          take_while
            (λ l. passes (answer_map answers []) (questions_at qs skill l))
            (tested qs skill))
unfolding score_assessment
score_assessment-levels qs answers skill =
    level_of_skill (answer_map answers []) skill qs
    ∙ highest_passing_lem (answer_map answers []) (filter (of_skill skill) qs)

-- A submission that is an array is always scored: the count of correct answers is at most the count
-- of questions, which are those of the table that some answer names.
pub post_score-counts :
    (table : List ScoredQuestion) (answers : List SubmittedAnswer)
    → (r : AssessmentResult) × (post_score table (some answers) ≡ ok r)
      × (r.correct_answers ≤ r.total_questions)
      × (r.total_questions
          ≡ length (filter (λ q. any (λ a. str_eq a.question_id q.id) answers) table))
      × (r.total_questions ≤ length table)
unfolding post_score score_assessment correct_in
post_score-counts table answers = (
  score_assessment (filter (λ q. any (λ a. str_eq a.question_id q.id) answers) table) answers,
  refl,
  length-filter _ _,
  refl,
  length-filter _ _,
)

all_correct :
    (m : Dict (Option Json)) (qs : List ScoredQuestion)
    → All (λ q. is_correct m q ≡ true) qs
    → correct_in m qs ≡ length qs
unfolding correct_in
all_correct m [] h = refl
all_correct m (q ∷ qs) (p, h) = rw (p, all_correct m qs h) refl

take_while-all :
    (p : CefrLevel → Bool) (xs : List CefrLevel)
    → ((l : CefrLevel) → p l ≡ true)
    → take_while p xs ≡ xs
take_while-all p [] h = refl
take_while-all p (x ∷ xs) h = rw (h x, take_while-all p xs h) refl

passes-all :
    (m : Dict (Option Json)) (qs : List ScoredQuestion)
    → All (λ q. is_correct m q ≡ true) qs
    → passes m qs ≡ true
unfolding passes
passes-all m qs h = ground (arith, all_correct m qs h)

-- Where every question is answered correctly, every question counts and each skill gets the highest
-- of its tested levels.
pub score_assessment-full_marks :
    (qs : List ScoredQuestion) (answers : List SubmittedAnswer)
    → All (λ q. is_correct (answer_map answers []) q ≡ true) qs
    → ((score_assessment qs answers).correct_answers ≡ length qs)
      × ((skill : String)
          → get skill (score_assessment qs answers).levels ≡ last? (tested qs skill))
unfolding score_assessment bucket
score_assessment-full_marks qs answers h = (
  all_correct (answer_map answers []) qs h,
  λ skill.
      score_assessment-levels qs answers skill
      ∙ ap last? (
          take_while-all (λ l. passes (answer_map answers []) (questions_at qs skill l))
            (tested qs skill)
            (λ l.
              passes-all (answer_map answers []) (questions_at qs skill l)
                (All-filter _ _ _ (All-filter _ _ _ h)))),
)
