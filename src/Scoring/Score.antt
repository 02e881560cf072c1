-- ===== src/Scoring/Score.antt =====
-- services/learning-materials-service/src/scoring/assessmentScorer.ts and POST /score of
-- routes/assessment.ts. An answer is a JSON value; two answers are equal where their texts by
-- `JSON.stringify` are, which is equality of the values with the fields of objects in their order.
-- A quotient c / n of two counts is at least 0.6 exactly where 3 * n ≤ 5 * c: both quotients are
-- rounded the same way, and 0.6 is the double next to 3 / 5.
use ai_agentic_english.Prelude.{
  ℕ, ◌*◌, String, Bool, true, false, not, ◌&&◌, Option, none, some, List, [], ◌∷◌, ◌++◌, any,
  filter, length, leb, ◌==◌, if◌then◌else◌, str_eq,
}
use ai_agentic_english.Prelude.Dict.{Dict, get, set}
use ai_agentic_english.Prelude.Int.{ℤ, pos, negsuc}
use ai_agentic_english.Shared.Errors.{app, validation_error}
use ai_agentic_english.Shared.Effect.{Result, ok, err}
use ai_agentic_english.Shared.Json.{
  Json, null, boolean, whole, fraction, text, array, object, Items, no_items, item, Fields,
  no_fields, field,
}
use ai_agentic_english.Shared.Cefr.{CefrLevel, cefr_levels, cefr_text}

abbrev same_bool : Bool → Bool → Bool
same_bool true b = b
same_bool false b = not b

abbrev same_int : ℤ → ℤ → Bool
same_int (pos m) (pos n) = m == n
same_int (negsuc m) (negsuc n) = m == n
same_int _ _ = false

unfoldable mutual
  pub same_json : Json → Json → Bool
  same_json null null = true
  same_json (boolean a) (boolean b) = same_bool a b
  same_json (whole m) (whole n) = same_int m n
  same_json (fraction s) (fraction t) = str_eq s t
  same_json (text s) (text t) = str_eq s t
  same_json (array xs) (array ys) = same_items xs ys
  same_json (object xs) (object ys) = same_fields xs ys
  same_json _ _ = false

  pub same_items : Items → Items → Bool
  same_items no_items no_items = true
  same_items (item v vs) (item w ws) = same_json v w && same_items vs ws
  same_items _ _ = false

  pub same_fields : Fields → Fields → Bool
  same_fields no_fields no_fields = true
  same_fields (field k v vs) (field j w ws) = str_eq k j && same_json v w && same_fields vs ws
  same_fields _ _ = false

pub record ScoredQuestion : Type 0 where
  pub id : String
  pub skill : String
  pub cefr_level_target : String
  pub correct_answer : Json

-- An answer may be missing from its object.
pub record SubmittedAnswer : Type 0 where
  pub question_id : String
  pub answer : Option Json

pub record AssessmentResult : Type 0 where
  pub levels : Dict CefrLevel
  pub correct_answers : ℕ
  pub total_questions : ℕ

-- `new Map(answers.map((a) => [a.questionId, a.answer]))`: a later answer to a question wins.
unfoldable pub answer_map : List SubmittedAnswer → Dict (Option Json) → Dict (Option Json)
unfolding set
answer_map [] m = m
answer_map (a ∷ rest) m = answer_map rest (set a.question_id a.answer m)

-- A missing answer and an answer without a value are both `undefined`, which equals no stored one.
unfoldable pub same_answer : Option (Option Json) → Json → Bool
unfolding same_json
same_answer none correct = false
same_answer (some none) correct = false
same_answer (some (some v)) correct = same_json v correct

unfoldable pub is_correct : Dict (Option Json) → ScoredQuestion → Bool
unfolding same_answer get
is_correct answers q = same_answer (get q.id answers) q.correct_answer

-- `bySkillLevel[skill]`: the questions by skill, in order of their first occurrence.
unfoldable pub by_skill :
    List ScoredQuestion → Dict (List ScoredQuestion) → Dict (List ScoredQuestion)
unfolding set get
by_skill [] m = m
by_skill (q ∷ qs) m =
    by_skill qs (set q.skill (elim (get q.skill m) [ none ↦ q ∷ [] | some b ↦ b ++ q ∷ [] ]) m)

-- `bySkillLevel[skill][level]`.
unfoldable pub bucket : CefrLevel → List ScoredQuestion → List ScoredQuestion
bucket level = filter (λ q. str_eq q.cefr_level_target (cefr_text level))

unfoldable pub correct_in : Dict (Option Json) → List ScoredQuestion → ℕ
unfolding is_correct
correct_in answers qs = length (filter (is_correct answers) qs)

unfoldable pub passes : Dict (Option Json) → List ScoredQuestion → Bool
unfolding correct_in
passes answers qs = leb (3 * length qs) (5 * correct_in answers qs)

-- The loop over the levels: a level without questions is passed over, the first that fails stops
-- it, and `highest` is the last that passed.
unfoldable pub climb :
    (CefrLevel → List ScoredQuestion)
    → (List ScoredQuestion → Bool)
    → List CefrLevel
    → Option CefrLevel
    → Option CefrLevel
climb questions pass [] highest = highest
climb questions pass (level ∷ levels) highest =
    let next = climb questions pass levels (some level) in
    let skipped = climb questions pass levels highest in
    if length (questions level) == 0
    then skipped
    else if pass (questions level)
    then next
    else highest

unfoldable pub highest_passing : Dict (Option Json) → List ScoredQuestion → Option CefrLevel
unfolding climb bucket passes
highest_passing answers qs = climb (λ level. bucket level qs) (passes answers) cefr_levels none

unfoldable pub levels_of :
    Dict (Option Json) → Dict (List ScoredQuestion) → Dict CefrLevel → Dict CefrLevel
unfolding highest_passing set
levels_of answers [] levels = levels
levels_of answers ((skill, qs) ∷ rest) levels =
    levels_of answers rest
      (elim (highest_passing answers qs) [ none ↦ levels | some l ↦ set skill l levels ])

unfoldable pub score_assessment : List ScoredQuestion → List SubmittedAnswer → AssessmentResult
unfolding answer_map by_skill levels_of correct_in
score_assessment questions answers =
    let m = answer_map answers [] in
    record {
      levels = levels_of m (by_skill questions []) [];
      correct_answers = correct_in m questions;
      total_questions = length questions;
    }

-- POST /score: the questions of the table that the answers name.
unfoldable pub post_score :
    List ScoredQuestion → Option (List SubmittedAnswer) → Result AssessmentResult
unfolding score_assessment validation_error
post_score table none = err (app (validation_error "answers must be an array"))
post_score table (some answers) =
    ok (score_assessment (filter (λ q. any (λ a. str_eq a.question_id q.id) answers) table) answers)
