-- ===== src/Assessment/Test.antt =====
-- The state of the placement test and its handlers. The learner is signed in through Clerk, which
-- gives `is_auth_loaded` and `is_signed_in`; what the two requests of the page come back with is an argument
-- of the functions that take the answer.
use ai_agentic_english.Prelude.{
  ℕ, suc, ◌-◌, String, Bool, true, false, not, ◌||◌, Option, none, some, List, [], ◌∷◌, length,
  get_elem?, filter, ◌==◌, if◌then◌else◌, str_eq, get_or,
}
use ai_agentic_english.Prelude.Dict.{Dict, get, set}
use ai_agentic_english.Shared.Trim.{trim}
use ai_agentic_english.Onboarding.Request.{
  Levels, placement_skill_ids, normalize_assessment_levels, apply_a1_fallback_to_tested_skills,
  assessment_levels_to_score,
}
use ai_agentic_english.Assessment.Prompt.{Question, has_skill, select_assessment_questions}

pub data AssessmentState : Type 0 where
  loading : AssessmentState
  success : (questions : List Question) → AssessmentState
  failed : (message : String) → AssessmentState

pub record Test : Type 0 where
  pub state : AssessmentState
  pub current_index : ℕ
  pub answers : Dict String
  pub is_submitting : Bool
  pub submission_error : Option String

abbrev pub new_test : Test
new_test = record {
  state = loading;
  current_index = 0;
  answers = [];
  is_submitting = false;
  submission_error = none;
}

-- What a request comes back with: a result, an error of the API, or any other failure.
pub data Reply (A : Type 0) : Type 0 where
  result : A → Reply A
  api_error : (message : String) → Reply A
  other_error : Reply A

unfoldable pub load_start : Bool → Bool → Test → Test
load_start false is_signed_in t = t
load_start true false t = record t {
  state = failed "Phiên đăng nhập chưa sẵn sàng. Vui lòng đăng nhập lại rồi thử lại.";
}
load_start true true t = record t { state = loading }

abbrev load_failed : String
load_failed = "Không thể tải bài đánh giá. Vui lòng thử lại."

abbrev show_questions : Option (List Question) → AssessmentState
show_questions none = failed load_failed
show_questions (some questions) = success questions

unfoldable pub load_finish : Reply (List Question) → Test → Test
unfolding select_assessment_questions
load_finish (result []) t = record t {
  state = failed "Chưa có câu hỏi đánh giá. Vui lòng thử lại sau.";
}
load_finish (result (q ∷ qs)) t = record t {
  current_index = 0;
  answers = [];
  submission_error = none;
  state = show_questions (select_assessment_questions (q ∷ qs));
}
load_finish (api_error message) t = record t { state = failed message }
load_finish other_error t = record t { state = failed load_failed }

-- The page of a loaded test: its questions, and the one at the current index.
unfoldable pub active_question : Test → List Question → Option Question
active_question t questions = get_elem? questions t.current_index

unfoldable pub answer_of : Test → Question → String
unfolding get
answer_of t question = get_or (get question.id t.answers) ""

unfoldable pub has_answer : Test → Question → Bool
unfolding answer_of trim
has_answer t question = not (str_eq (trim (answer_of t question)) "")

unfoldable pub select_answer : Question → String → Test → Test
unfolding set
select_answer question next_answer t = record t { answers = set question.id next_answer t.answers }

-- An entry of the body: the question's id and its answer.
abbrev pub Body : Type 0
Body = List (String × String)

abbrev pub prepend {ℓ} : {A : Type ℓ} → Option A → Option (List A) → Option (List A)
prepend (some a) (some rest) = some (a ∷ rest)
prepend _ _ = none

abbrev body_entry : Question → Option String → Option (String × String)
body_entry question none = none
body_entry question (some answer) = some (question.id, trim answer)

-- None where an answer is missing, on which `.trim()` throws.
unfoldable pub body_of : Dict String → List Question → Option Body
unfolding get trim
body_of answers [] = some []
body_of answers (q ∷ qs) = prepend (body_entry q (get q.id answers)) (body_of answers qs)

abbrev score_failed : String
score_failed = "Không thể chấm bài đánh giá. Vui lòng thử lại."

abbrev pub fail_submission : String → Test → Test
fail_submission message t = record t { submission_error = some message; is_submitting = false }

-- The request that a submission sends; with no body the submission fails at once.
abbrev pub settle_submission : Option Body → Test → Test × Option Body
settle_submission none t = (fail_submission score_failed t, none)
settle_submission (some body) t = (t, some body)

unfoldable pub submit_assessment : List Question → Question → Test → Test × Option Body
unfolding has_answer body_of
submit_assessment questions question t =
    if not (has_answer t question) || t.is_submitting
    then (t, none)
    else settle_submission (body_of t.answers questions)
        (record t { is_submitting = true; submission_error = none })

unfoldable pub go_next : List Question → Question → Test → Test × Option Body
unfolding has_answer submit_assessment
go_next questions question t =
    if not (has_answer t question)
    then (t, none)
    else (if t.current_index == length questions - 1
        then submit_assessment questions question t
        else (record t { current_index = suc t.current_index }, none))

-- The two buttons of the page, which are disabled at times.
unfoldable pub press_next : List Question → Question → Test → Test × Option Body
unfolding has_answer go_next
press_next questions question t =
    if not (has_answer t question) || t.is_submitting
    then (t, none)
    else go_next questions question t

unfoldable pub press_back : Test → Test
press_back t =
    if t.current_index == 0 || t.is_submitting
    then t
    else record t { current_index = t.current_index - 1 }

pub record AssessmentResult : Type 0 where
  pub levels : Levels
  pub correct_answers : ℕ

pub record ProfileUpdate : Type 0 where
  pub assessment_levels : Levels
  pub assessment_correct_answer_count : ℕ
  pub assessment_question_count : ℕ
  pub level_score : ℕ

unfoldable pub graded_profile : List Question → AssessmentResult → ProfileUpdate
unfolding has_skill normalize_assessment_levels apply_a1_fallback_to_tested_skills
    assessment_levels_to_score
graded_profile questions r =
    let tested_skills = filter (has_skill questions) placement_skill_ids in
    let levels =
      apply_a1_fallback_to_tested_skills (normalize_assessment_levels r.levels) tested_skills in
    record {
      assessment_levels = levels;
      assessment_correct_answer_count = r.correct_answers;
      assessment_question_count = length questions;
      level_score = assessment_levels_to_score levels;
    }

-- The update of the profile, after which the page goes to the results.
unfoldable pub submit_finish :
    List Question → Reply AssessmentResult → Test → Test × Option ProfileUpdate
unfolding graded_profile
submit_finish questions (result r) t = (t, some (graded_profile questions r))
submit_finish questions (api_error message) t = (fail_submission message t, none)
submit_finish questions other_error t = (fail_submission score_failed t, none)
