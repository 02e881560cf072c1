-- ===== src/Assessment/Completion.antt =====
-- A learner who answers every question comes to the scoring of the test.
use ai_agentic_english.Prelude.{
  append-nil, append_assoc, suc, ◌+◌, ◌-◌, ◌<◌, String, true, false, not, ◌||◌, Option, none, some,
  List, [], ◌∷◌, ◌++◌, map, ◌≡◌, refl, sym, ap, ◌∙◌, arith, length, take, drop, get_elem?, All,
  ◌==◌, str_eq, if_true, if_false,
}
use mathlib.Core.Path.{subst}
use ai_agentic_english.Prelude.Dict.{get-set, get-set_self}
use ai_agentic_english.Shared.Trim.{trim}
use ai_agentic_english.Assessment.Prompt.{Question, select_assessment_questions}
use ai_agentic_english.Assessment.Test.{
  Test, result, Body, answer_of, has_answer, select_answer, load_finish, settle_submission,
  submit_assessment, go_next, press_next, active_question,
}
use ai_agentic_english.Assessment.Positions.{
  get_elem?-lt, take-suc, take_all, drop-suc, Distinct, Distinct-before,
}
use ai_agentic_english.Assessment.Flow.{
  Input, answered, next, on_question, step, sent, run, IsInTest, select_answer-IsInTest,
  press_next-IsInTest,
}
use ai_agentic_english.Assessment.Submission.{
  body_with, body_of-has_answer, answered_all, load_finish-IsInTest,
  select_assessment_questions-IsSelection, Distinct-selection,
}

-- Each question is answered and left in turn.
abbrev pub answer_each : List String → List Input
answer_each [] = []
answer_each (a ∷ rest) = answered a ∷ next ∷ answer_each rest

abbrev pub pair_up : List Question → List String → Body
pair_up (q ∷ qs) (a ∷ rest) = (q.id, trim a) ∷ pair_up qs rest
pair_up _ _ = []

press_next-moves :
    (questions : List Question) (q : Question) (t : Test)
    → has_answer t q ≡ true
    → t.is_submitting ≡ false
    → suc t.current_index < length questions
    → press_next questions q t ≡ (record t { current_index = suc t.current_index }, none)
unfolding press_next go_next
press_next-moves questions q t y s l =
    if_false (not (has_answer t q) || t.is_submitting) _ _ (ground (arith, y, s))
    ∙ if_false (not (has_answer t q)) _ _ (ground (arith, y))
    ∙ if_false (t.current_index == length questions - 1) _ _ (ground (arith, l))

press_next-sends :
    (questions : List Question) (q : Question) (t : Test)
    → has_answer t q ≡ true
    → t.is_submitting ≡ false
    → suc t.current_index ≡ length questions
    → All (λ p. has_answer t p ≡ true) questions
    → press_next questions q t
      ≡ (record t { is_submitting = true; submission_error = none }, some (body_with t questions))
unfolding press_next go_next submit_assessment
press_next-sends questions q t y s l h =
    if_false (not (has_answer t q) || t.is_submitting) _ _ (ground (arith, y, s))
    ∙ if_false (not (has_answer t q)) _ _ (ground (arith, y))
    ∙ if_true (t.current_index == length questions - 1) _ _ (ground (arith, l))
    ∙ if_false (not (has_answer t q) || t.is_submitting) _ _ (ground (arith, y, s))
    ∙ ap (λ b. settle_submission b (record t { is_submitting = true; submission_error = none }))
        (body_of-has_answer t questions h)

select_answer-answered :
    (t : Test) (q : Question) (answer : String) → answer_of (select_answer q answer t) q ≡ answer
unfolding answer_of select_answer
select_answer-answered t q answer = rw (get-set_self) refl

body_with-others :
    (t : Test) (q : Question) (answer : String) (qs : List Question)
    → All (λ p. str_eq q.id p.id ≡ false) qs
    → body_with (select_answer q answer t) qs ≡ body_with t qs
unfolding answer_of select_answer
body_with-others t q answer [] h = refl
body_with-others t q answer (p ∷ qs) (h, hs) =
    rw (get-set, h, body_with-others t q answer qs hs) refl

-- The body at the end: the answers given before the current question, and those still to come.
abbrev final_body : List Question → Test → List String → Body
final_body questions t rest =
    body_with t (take t.current_index questions) ++ pair_up (drop t.current_index questions) rest

map-snoc :
    {A B : Type 0} (f : A → B) (xs : List A) (x : A) → map f (xs ++ x ∷ []) ≡ map f xs ++ f x ∷ []
map-snoc f [] x = refl
map-snoc f (y ∷ xs) x = ap (λ zs. f y ∷ zs) (map-snoc f xs x)

-- The answer to the current question moves from the answers to come to those given.
final_body-answered :
    (questions : List Question) (q : Question) (t : Test) (answer : String) (rest : List String)
    → Distinct questions
    → get_elem? questions t.current_index ≡ some q
    → final_body questions t (answer ∷ rest)
      ≡ final_body questions
          (record (select_answer q answer t) { current_index = suc t.current_index })
          rest
unfolding select_answer answer_of
final_body-answered questions q t answer rest d e =
    rw
      (
        take-suc questions t.current_index q e,
        drop-suc questions t.current_index q e,
        map-snoc,
        append_assoc,
        get-set_self,
      )
      (ap (λ b. b ++ (q.id, trim answer) ∷ pair_up (drop (suc t.current_index) questions) rest)
        (sym (
          body_with-others t q answer (take t.current_index questions)
            (Distinct-before questions t.current_index q d e))))

run-step :
    (questions : List Question) (t u : Test) (i : Input) (is : List Input) (o : Option Body)
    → step questions t i ≡ (u, o)
    → (run questions t (i ∷ is)).1 ≡ sent o (run questions u is).1
unfolding run
run-step questions t u i is o e = rw e refl

step-on_question :
    (questions : List Question) (q : Question) (t : Test) (i : Input)
    → get_elem? questions t.current_index ≡ some q
    → step questions t i ≡ on_question questions q t i
unfolding step active_question
step-on_question questions q t i e = rw e refl

step-answered :
    (questions : List Question) (q : Question) (t : Test) (a : String)
    → get_elem? questions t.current_index ≡ some q
    → step questions t (answered a) ≡ (select_answer q a t, none)
unfolding on_question
step-answered questions q t a e = step-on_question questions q t (answered a) e

step-next :
    (questions : List Question) (q : Question) (t : Test)
    → get_elem? questions t.current_index ≡ some q
    → step questions t next ≡ press_next questions q t
unfolding on_question
step-next questions q t e = step-on_question questions q t next e

select_answer-has_answer :
    (t : Test) (q : Question) (a : String)
    → str_eq (trim a) "" ≡ false
    → has_answer (select_answer q a t) q ≡ true
unfolding has_answer
select_answer-has_answer t q a h = rw (select_answer-answered, h) refl

abbrev pub IsFilled : String → Type 0
IsFilled a = str_eq (trim a) "" ≡ false

pair_up-nil : (questions : List Question) → pair_up questions [] ≡ []
pair_up-nil [] = refl
pair_up-nil (q ∷ qs) = refl

final_body-all :
    (questions : List Question) (t : Test)
    → t.current_index ≡ length questions
    → final_body questions t [] ≡ body_with t questions
final_body-all questions t e =
    rw (pair_up-nil (drop t.current_index questions), append-nil)
      (ap (body_with t) (take_all questions t.current_index e))

run-answer_each :
    (questions : List Question) (t : Test) (a : String) (rest : List String)
    → Distinct questions
    → IsInTest questions t
    → t.is_submitting ≡ false
    → length (a ∷ rest) + t.current_index ≡ length questions
    → All IsFilled (a ∷ rest)
    → (run questions t (answer_each (a ∷ rest))).1 ≡ final_body questions t (a ∷ rest) ∷ []
unfolding select_answer answer_of run
run-answer_each questions t a [] d h s l (f, _) =
    let (q, e) = get_elem?-lt questions t.current_index h.on_page in
    let u : Test = select_answer q a t in
    let y = select_answer-has_answer t q a f in
    let k = select_answer-IsInTest questions q a t d e h in
    run-step questions t u (answered a) (next ∷ []) none (step-answered questions q t a e)
    ∙ run-step questions u _ next [] _ (
        step-next questions q u e
        ∙ press_next-sends questions q u y s (omega (arith, l))
            (answered_all questions q u e (omega (arith, l)) y k.answered_before))
    ∙ ap (λ b. b ∷ [])
        (sym (
            final_body-all questions (record u { current_index = suc t.current_index })
              (omega (arith, l)))
          ∙ sym (final_body-answered questions q t a [] d e))
run-answer_each questions t a (b ∷ rest) d h s l (f, fs) =
    let (q, e) = get_elem?-lt questions t.current_index h.on_page in
    let u : Test = select_answer q a t in
    let y = select_answer-has_answer t q a f in
    let k = select_answer-IsInTest questions q a t d e h in
    let moved = press_next-moves questions q u y s (omega (arith, l)) in
    run-step questions t u (answered a) (next ∷ answer_each (b ∷ rest)) none
      (step-answered questions q t a e)
    ∙ run-step questions u _ next (answer_each (b ∷ rest)) _ (step-next questions q u e ∙ moved)
    ∙ run-answer_each questions (record u { current_index = suc t.current_index }) b rest d
        (subst (λ (r : Test × Option Body). IsInTest questions r.0) moved
          (press_next-IsInTest questions q u e k))
        s (omega (arith, l)) fs
    ∙ ap (λ b. b ∷ []) (sym (final_body-answered questions q t a (b ∷ rest) d e))

-- From the loading of questions with distinct ids on, a learner who answers each asked question with
-- a text that is not blank and goes on comes to a request for a score, the only one, which holds
-- each question with the trimmed answer to it.
pub run-answers :
    (bank questions : List Question) (t : Test) (answers : List String)
    → Distinct bank
    → select_assessment_questions bank ≡ some questions
    → t.is_submitting ≡ false
    → length answers ≡ length questions
    → All IsFilled answers
    → (run questions (load_finish (result bank) t) (answer_each answers)).1
      ≡ pair_up questions answers ∷ []
unfolding load_finish
run-answers bank questions t [] d e s l f =
    absurd
      (omega (arith, l, (select_assessment_questions-IsSelection bank questions e).some_question))
run-answers [] questions t (a ∷ rest) d e s l f =
    let asked = select_assessment_questions-IsSelection [] questions e in
    absurd (omega (arith, ap length asked.kept, asked.some_question))
run-answers (q ∷ bank) questions t (a ∷ rest) d e s l f =
    run-answer_each questions (load_finish (result (q ∷ bank)) t) a rest
      (Distinct-selection (q ∷ bank) questions d
        (select_assessment_questions-IsSelection (q ∷ bank) questions e))
      (load_finish-IsInTest (q ∷ bank) questions t e) s (omega (arith, l)) f
