-- ===== src/Assessment/Submission.antt =====
-- What a learner's inputs send to be scored, from the loading of the questions on.
use ai_agentic_english.Prelude.{
  suc, ◌-◌, ◌<◌, String, Bool, true, false, not, ◌||◌, Option, none, some, List, [], ◌∷◌, ◌++◌, map,
  ◌≡◌, refl, sym, ap, ◌∙◌, arith, length, take, get_elem?, filter, leb, All, All-append, All-filter,
  ◌==◌, if◌then◌else◌, str_eq, if_both, get_or,
}
use mathlib.Core.Path.{subst}
use ai_agentic_english.Prelude.Dict.{get}
use ai_agentic_english.Shared.Trim.{trim}
use ai_agentic_english.Onboarding.Request.{placement_skill_ids}
use ai_agentic_english.Assessment.Prompt.{
  Question, is_placement_skill, has_skill, select_assessment_questions,
}
use ai_agentic_english.Assessment.Test.{
  Test, result, Body, active_question, answer_of, has_answer, load_finish, body_of,
  settle_submission, submit_assessment, go_next, press_next,
}
use ai_agentic_english.Assessment.Positions.{get_elem?-lt, take-suc, take_all, Distinct}
use ai_agentic_english.Assessment.Flow.{
  Input, answered, next, back, scored, on_question, step, run, sent, IsInTest, step-IsInTest,
  run-IsInTest,
}

abbrev pub body_with : Test → List Question → Body
body_with t = map (λ q. (q.id, trim (answer_of t q)))

-- A body with the id of each question in order, and no blank answer.
pub record IsComplete (questions : List Question) (body : Body) : Type 0 where
  pub ids : map (λ e. e.0) body ≡ map (λ q. q.id) questions
  pub filled : All (λ (e : String × String). str_eq e.1 "" ≡ false) body

entry-has_answer :
    (t : Test) (q : Question) → has_answer t q ≡ true → get q.id t.answers ≡ some (answer_of t q)
unfolding has_answer answer_of trim
entry-has_answer t q h = go (get q.id t.answers) h
  where
    go : (o : Option String) → not (str_eq (trim (get_or o "")) "") ≡ true → o ≡ some (get_or o "")
    go none e = absurd cc
    go (some a) e = refl

pub body_of-has_answer :
    (t : Test) (questions : List Question)
    → All (λ q. has_answer t q ≡ true) questions
    → body_of t.answers questions ≡ some (body_with t questions)
unfolding body_of
body_of-has_answer t [] h = refl
body_of-has_answer t (q ∷ qs) (h, hs) = rw (entry-has_answer t q h, body_of-has_answer t qs hs) refl

body_with-IsComplete :
    (t : Test) (questions : List Question)
    → All (λ q. has_answer t q ≡ true) questions
    → IsComplete questions (body_with t questions)
unfolding has_answer
body_with-IsComplete t [] h = record { ids = refl; filled = tt }
body_with-IsComplete t (q ∷ qs) (h, hs) =
    let rest = body_with-IsComplete t qs hs in
    record { ids = ap (λ is. q.id ∷ is) rest.ids; filled = (ground (arith, h), rest.filled) }

abbrev SendsComplete : List Question → Test × Option Body → Type 0
SendsComplete questions r = (body : Body) → r.1 ≡ some body → IsComplete questions body

-- With the last question answered, and all before it, every question is.
pub answered_all :
    (questions : List Question) (question : Question) (t : Test)
    → get_elem? questions t.current_index ≡ some question
    → suc t.current_index ≡ length questions
    → has_answer t question ≡ true
    → All (λ q. has_answer t q ≡ true) (take t.current_index questions)
    → All (λ q. has_answer t q ≡ true) questions
answered_all questions question t e l y h = go (
    sym (take-suc questions t.current_index question e)
    ∙ take_all questions (suc t.current_index) l)
  where
    go :
        {xs : List Question}
        → take t.current_index questions ++ question ∷ [] ≡ xs
        → All (λ q. has_answer t q ≡ true) xs
    go d = subst (All (λ q. has_answer t q ≡ true)) d (
        All-append (λ q. has_answer t q ≡ true) (take t.current_index questions) (question ∷ []) h
          (y, tt))

settled : (o : Option Body) (t : Test) → (settle_submission o t).1 ≡ o
settled none t = refl
settled (some body) t = refl

submit_assessment-SendsComplete :
    (questions : List Question) (question : Question) (t : Test)
    → All (λ q. has_answer t q ≡ true) questions
    → SendsComplete questions (submit_assessment questions question t)
unfolding submit_assessment
submit_assessment-SendsComplete questions question t h =
    if_both (SendsComplete questions) (not (has_answer t question) || t.is_submitting)
      (λ _ body e. absurd cc)
      (λ _ body e.
        subst (IsComplete questions)
          (some_inj (
            sym (body_of-has_answer t questions h)
            ∙ sym (settled (body_of t.answers questions) _)
            ∙ e))
          (body_with-IsComplete t questions h))
  where
    some_inj : {a b : Body} → some a ≡ some b → a ≡ b
    some_inj e = cc

go_next-SendsComplete :
    (questions : List Question) (question : Question) (t : Test)
    → get_elem? questions t.current_index ≡ some question
    → IsInTest questions t
    → SendsComplete questions (go_next questions question t)
unfolding go_next
go_next-SendsComplete questions question t e h =
    if_both (SendsComplete questions) (not (has_answer t question)) (λ _ body k. absurd cc)
      (λ y.
        if_both (SendsComplete questions) (t.current_index == length questions - 1)
          (λ l. submit_assessment-SendsComplete questions question t (
            answered_all questions question t e (ground (arith, h.on_page, l)) (ground (arith, y))
              h.answered_before))
          (λ _ body k. absurd cc))

step-SendsComplete :
    (questions : List Question) (t : Test) (i : Input)
    → IsInTest questions t
    → SendsComplete questions (step questions t i)
unfolding step active_question on_question press_next
step-SendsComplete questions t i h =
    let (q, e) = get_elem?-lt questions t.current_index h.on_page in rw e (go q e i)
  where
    go :
        (q : Question)
        → get_elem? questions t.current_index ≡ some q
        → (i : Input) → SendsComplete questions (on_question questions q t i)
    go q e (answered a) = λ body k. absurd cc
    go q e next =
        if_both (SendsComplete questions) (not (has_answer t q) || t.is_submitting)
          (λ _ body k. absurd cc) (λ _. go_next-SendsComplete questions q t e h)
    go q e back = λ body k. absurd cc
    go q e (scored reply) = λ body k. absurd cc

All-sent :
    (P : Body → Type 0) (o : Option Body) (bodies : List Body)
    → ((body : Body) → o ≡ some body → P body)
    → All P bodies
    → All P (sent o bodies)
All-sent P none bodies h hs = hs
All-sent P (some body) bodies h hs = (h body refl, hs)

run-SendsComplete :
    (questions : List Question) (t : Test) (is : List Input)
    → Distinct questions
    → IsInTest questions t
    → All (IsComplete questions) (run questions t is).1
unfolding run
run-SendsComplete questions t [] d h = tt
run-SendsComplete questions t (i ∷ is) d h =
    All-sent (IsComplete questions) (step questions t i).1
      (run questions (step questions t i).0 is).1 (step-SendsComplete questions t i h)
      (run-SendsComplete questions (step questions t i).0 is d (step-IsInTest questions t i d h))

Distinct-filter :
    (p : Question → Bool) (questions : List Question)
    → Distinct questions
    → Distinct (filter p questions)
Distinct-filter p [] d = tt
Distinct-filter p (q ∷ qs) (h, d) =
    if_both Distinct (p q)
      (λ _. (All-filter (λ r. str_eq r.id q.id ≡ false) p qs h, Distinct-filter p qs d))
      (λ _. Distinct-filter p qs d)

if_none :
    {A : Type 0} (b : Bool) (x y : A)
    → (if b then none else some x) ≡ some y
    → (b ≡ false) × (x ≡ y)
if_none true x y e = absurd cc
if_none false x y e = (refl, cc)

none_missing :
    {A : Type 0} (p : A → Bool) (xs : List A)
    → leb (length (filter (λ x. not (p x)) xs)) 0 ≡ true
    → All (λ x. p x ≡ true) xs
none_missing p [] h = tt
none_missing p (x ∷ xs) h = (ground (arith, h), none_missing p xs (ground (arith, h)))

-- The asked questions are those of the placement skills, and each of these skills has one.
pub record IsSelection (bank questions : List Question) : Type 0 where
  pub kept : questions ≡ filter (λ q. is_placement_skill q.skill) bank
  pub some_question : 0 < length questions
  pub each_skill : All (λ s. has_skill questions s ≡ true) placement_skill_ids

pub select_assessment_questions-IsSelection :
    (bank questions : List Question)
    → select_assessment_questions bank ≡ some questions
    → IsSelection bank questions
unfolding select_assessment_questions
select_assessment_questions-IsSelection bank questions e =
    let selected : List Question = filter (λ q. is_placement_skill q.skill) bank in
    let (g, s) = if_none _ selected questions e in
    record {
      kept = sym s;
      some_question = subst (λ qs. 0 < length qs) s (ground (arith, g));
      each_skill =
          subst (λ qs. All (λ s. has_skill qs s ≡ true) placement_skill_ids) s
            (none_missing (has_skill selected) placement_skill_ids (ground (arith, g)));
    }

pub Distinct-selection :
    (bank questions : List Question)
    → Distinct bank
    → IsSelection bank questions
    → Distinct questions
Distinct-selection bank questions d s =
    subst Distinct (sym s.kept) (Distinct-filter (λ q. is_placement_skill q.skill) bank d)

pub load_finish-IsInTest :
    (bank questions : List Question) (t : Test)
    → select_assessment_questions bank ≡ some questions
    → IsInTest questions (load_finish (result bank) t)
unfolding load_finish
load_finish-IsInTest [] questions t e =
    let asked = select_assessment_questions-IsSelection [] questions e in
    absurd (omega (arith, ap length asked.kept, asked.some_question))
load_finish-IsInTest (q ∷ qs) questions t e = record {
  loaded = rw e refl;
  on_page = (select_assessment_questions-IsSelection (q ∷ qs) questions e).some_question;
  answered_before = tt;
}

-- Once questions with distinct ids are loaded, whatever the learner answers, steps forth and back
-- and is told by the scorer, the page stays on one of the asked questions with all before it
-- answered, and each request for a score holds every asked question once, in order, with an answer
-- that is not blank.
pub run-IsComplete :
    (bank questions : List Question) (t : Test) (is : List Input)
    → Distinct bank
    → select_assessment_questions bank ≡ some questions
    → IsInTest questions (run questions (load_finish (result bank) t) is).0
      × All (IsComplete questions) (run questions (load_finish (result bank) t) is).1
run-IsComplete bank questions t is d e =
    let start = load_finish-IsInTest bank questions t e in
    let asked =
      Distinct-selection bank questions d
        (select_assessment_questions-IsSelection bank questions e) in
    (run-IsInTest questions _ is asked start, run-SendsComplete questions _ is asked start)
