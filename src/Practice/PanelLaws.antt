-- ===== src/Practice/PanelLaws.antt =====
-- What the panel sends to be graded and to be translated.
use ai_agentic_english.Prelude.{
  String, true, false, Option, none, some, List, [], ◌∷◌, ◌≡◌, refl, arith, any, find, if_both,
  str_eq, eq_refl, get_or, opt_is,
}
use mathlib.Core.Path.{subst}
use ai_agentic_english.Shared.Trim.{trim}
use ai_agentic_english.Practice.Catalog.{
  QuestionType, mcq, short_answer, writing_prompt, McqOption, PracticeQuestion,
}
use ai_agentic_english.Practice.Panel.{
  Panel, submitting, GradingRequest, selected_option, attempted_answer, submit_as, submit_answer,
  label_of, answer_by,
}

-- The answer is one that the learner can have meant: a label on offer for a choice.
abbrev pub Offered : QuestionType → List McqOption → String → Type 0
Offered mcq options answer = any (λ o. str_eq o.label answer) options ≡ true
Offered _ options answer = Unit

pub record IsGradable (q : PracticeQuestion) (r : GradingRequest) (p : Panel) : Type 0 where
  pub exercise : r.exercise_id ≡ q.id
  pub filled : str_eq (trim r.attempted_answer) "" ≡ false
  pub offered : Offered q.question_type (get_or q.options []) r.attempted_answer
  pub waiting : p.grading ≡ submitting

find-offered :
    (id : Option String) (options : List McqOption)
    → str_eq (trim (label_of (find (λ o. opt_is id o.id) options))) "" ≡ false
    → any (λ o. str_eq o.label (label_of (find (λ o. opt_is id o.id) options))) options ≡ true
unfolding trim
find-offered id [] = λ h. absurd cc
find-offered id (o ∷ os) =
    if_both
      (λ (f : Option McqOption).
        str_eq (trim (label_of f)) "" ≡ false
        → any (λ x. str_eq x.label (label_of f)) (o ∷ os) ≡ true)
      (opt_is id o.id) (λ _ h. rw (eq_refl o.label) refl)
      (λ _ h. rw (find-offered id os h) (ground arith))

attempted_answer-Offered :
    (q : PracticeQuestion) (p : Panel)
    → str_eq (trim (attempted_answer q p)) "" ≡ false
    → Offered q.question_type (get_or q.options []) (attempted_answer q p)
unfolding attempted_answer selected_option
attempted_answer-Offered q p h = go q.question_type h
  where
    go :
        (t : QuestionType)
        → str_eq (trim (answer_by t (label_of (selected_option q p)) p.text_answer)) "" ≡ false
        → Offered t
            (get_or q.options [])
            (answer_by t (label_of (selected_option q p)) p.text_answer)
    go mcq h = find-offered p.selected_option_id (get_or q.options []) h
    go short_answer h = tt
    go writing_prompt h = tt

abbrev SendsGradable : PracticeQuestion → Panel × Option GradingRequest → Type 0
SendsGradable q done = (r : GradingRequest) → done.1 ≡ some r → IsGradable q r done.0

submit_as-SendsGradable :
    (user_id : String) (q : PracticeQuestion) (p : Panel) → SendsGradable q (submit_as user_id q p)
unfolding submit_as
submit_as-SendsGradable user_id q p =
    if_both (SendsGradable q) (str_eq (trim (attempted_answer q p)) "") (λ _ r e. absurd cc)
      (λ n r e.
        subst (λ r. IsGradable q r (record p { grading = submitting })) (some_inj e)
          (record {
            exercise = refl;
            filled = n;
            offered = attempted_answer-Offered q p n;
            waiting = refl;
          }))
  where
    some_inj : {a b : GradingRequest} → some a ≡ some b → a ≡ b
    some_inj e = cc

-- Whatever state the panel is in, an answer that it sends to be graded is for its question, is not
-- blank and is the label of an option on offer if the question is a choice, and the panel then
-- waits for the grade.
pub submit_answer-IsGradable :
    (user_id : Option String) (q : PracticeQuestion) (p : Panel) (r : GradingRequest)
    → (submit_answer user_id q p).1 ≡ some r
    → IsGradable q r (submit_answer user_id q p).0
unfolding submit_answer
submit_answer-IsGradable none q p r e = absurd cc
submit_answer-IsGradable (some user_id) q p r e =
    if_both (SendsGradable q) (str_eq user_id "") (λ _ r e. absurd cc)
      (λ _. submit_as-SendsGradable user_id q p) r e
