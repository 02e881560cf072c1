-- ===== src/Practice/Panel.antt =====
-- _components/QuestionPanel.tsx: the answer to a question, its grade and the translation of its
-- text. A request and its answer are two steps; the panel may change in between.
use ai_agentic_english.Prelude.{
  String, Bool, true, false, not, ◌&&◌, Option, none, some, [], find, if◌then◌else◌, str_eq, get_or,
  is_some, opt_is,
}
use ai_agentic_english.Prelude.Dict.{Dict, get, set}
use ai_agentic_english.Shared.Json.{Json}
use ai_agentic_english.Shared.Trim.{trim}
use ai_agentic_english.Audio.Hook.{AudioState, failed}
use ai_agentic_english.Practice.Catalog.{QuestionType, mcq, McqOption, PracticeQuestion}

-- `score` is passed on as it came.
pub record Grade : Type 0 where
  pub correct : Bool
  pub score : Json
  pub feedback : String

pub data GradingState : Type 0 where
  not_graded : GradingState
  submitting : GradingState
  graded : Grade → GradingState
  grading_failed : (message : String) → GradingState

pub record Translation : Type 0 where
  pub translated : String
  pub zone_label : String

pub data TranslationState : Type 0 where
  not_translated : TranslationState
  translating : TranslationState
  translated : Translation → TranslationState
  translation_failed : (message : String) → TranslationState

pub record Panel : Type 0 where
  pub selected_option_id : Option String
  pub text_answer : String
  pub grading : GradingState
  pub translation_visible : Bool
  pub translations_by_question_id : Dict TranslationState

abbrev pub new_panel : Panel
new_panel = record {
  selected_option_id = none;
  text_answer = "";
  grading = not_graded;
  translation_visible = false;
  translations_by_question_id = [];
}

-- The effect of a change of the question's id.
unfoldable pub on_question_change : Panel → Panel
on_question_change p = record p { translation_visible = false }

unfoldable pub translation_of : PracticeQuestion → Panel → TranslationState
unfolding get
translation_of q p = get_or (get q.id p.translations_by_question_id) not_translated

abbrev pub set_translation : String → TranslationState → Panel → Panel
set_translation id state p = record p {
  translations_by_question_id = set id state p.translations_by_question_id;
}

-- A text to translate: not for a translation that is there or on its way, and none for an empty
-- text.
abbrev pub text_to_translate : TranslationState → Option String → Option String
text_to_translate (translated t) source = none
text_to_translate translating source = none
text_to_translate _ none = none
text_to_translate _ (some s) = if str_eq s "" then none else some s

abbrev pub request_translation : String → Option String → Panel → Panel × Option String
request_translation id none p = (p, none)
request_translation id (some source) p = (set_translation id translating p, some source)

-- The text that is sent for translation, if one is.
unfoldable pub toggle_translation : PracticeQuestion → Panel → Panel × Option String
unfolding translation_of set
toggle_translation q p =
    if p.translation_visible
    then (record p { translation_visible = false }, none)
    else request_translation q.id (text_to_translate (translation_of q p) q.source_text)
        (record p { translation_visible = true })

pub data TranslationReply : Type 0 where
  ready : Translation → TranslationReply
  refused : (message : Option String) → TranslationReply
  broken : (message : Option String) → TranslationReply

unfoldable pub translation_finish : String → TranslationReply → Panel → Panel
unfolding set
translation_finish id (ready t) p = set_translation id (translated t) p
translation_finish id (refused message) p =
    set_translation id (translation_failed (get_or message "Translation request failed.")) p
translation_finish id (broken message) p =
    set_translation id
      (translation_failed (get_or message "Unable to translate this content right now.")) p

abbrev pub label_of : Option McqOption → String
label_of none = ""
label_of (some o) = o.label

unfoldable pub selected_option : PracticeQuestion → Panel → Option McqOption
selected_option q p = find (λ o. opt_is p.selected_option_id o.id) (get_or q.options [])

abbrev pub answer_by : QuestionType → String → String → String
answer_by mcq label text = label
answer_by _ label text = text

unfoldable pub attempted_answer : PracticeQuestion → Panel → String
unfolding selected_option
attempted_answer q p = answer_by q.question_type (label_of (selected_option q p)) p.text_answer

abbrev has_failed : AudioState → Bool
has_failed (failed message) = true
has_failed _ = false

abbrev is_graded : GradingState → Bool
is_graded (graded g) = true
is_graded _ = false

unfoldable pub should_hide_source_text : PracticeQuestion → AudioState → Panel → Bool
should_hide_source_text q audio p =
    is_some q.source_text
    && is_some q.audio_bucket
    && not (has_failed audio)
    && not (is_graded p.grading)

pub record GradingRequest : Type 0 where
  pub exercise_id : String
  pub attempted_answer : String
  pub user_id : String

abbrev pub fail_grading : String → Panel → Panel
fail_grading message p = record p { grading = grading_failed message }

unfoldable pub submit_as : String → PracticeQuestion → Panel → Panel × Option GradingRequest
unfolding attempted_answer trim
submit_as user_id q p =
    if str_eq (trim (attempted_answer q p)) ""
    then (fail_grading "Enter or select an answer before checking it." p, none)
    else (
      record p { grading = submitting },
      some (record {
        exercise_id = q.id;
        attempted_answer = attempted_answer q p;
        user_id = user_id;
      }),
    )

unfoldable pub submit_answer :
    Option String → PracticeQuestion → Panel → Panel × Option GradingRequest
unfolding submit_as
submit_answer none q p =
    (fail_grading "Your sign-in session is unavailable. Please sign in again." p, none)
submit_answer (some user_id) q p =
    if str_eq user_id ""
    then (fail_grading "Your sign-in session is unavailable. Please sign in again." p, none)
    else submit_as user_id q p

pub data GradingReply : Type 0 where
  result : Grade → GradingReply
  api_error : (message : String) → GradingReply
  other_error : GradingReply

unfoldable pub submit_finish : GradingReply → Panel → Panel
submit_finish (result g) p = record p { grading = graded g }
submit_finish (api_error message) p = fail_grading message p
submit_finish other_error p =
    fail_grading "Unable to check your answer right now. Please try again." p

unfoldable pub clear_grade : Panel → Panel
clear_grade p = record p { grading = not_graded }

unfoldable pub select_option : String → Panel → Panel
unfolding clear_grade
select_option id p = clear_grade (record p { selected_option_id = some id })

unfoldable pub type_answer : String → Panel → Panel
unfolding clear_grade
type_answer text p = clear_grade (record p { text_answer = text })
