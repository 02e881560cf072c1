-- ===== src/Assessment/Flow.antt =====
-- A learner at the placement test: what the page does on each input, and that it stays well formed.
use ai_agentic_english.Prelude.{
  ℕ, suc, ◌-◌, ◌<◌, String, Bool, true, false, not, ◌||◌, Option, none, some, List, [], ◌∷◌, ◌++◌,
  ◌≡◌, refl, sym, ◌∙◌, arith, length, take, get_elem?, All, All-append, ◌==◌, str_eq, if_both,
}
use mathlib.Core.Path.{subst}
use ai_agentic_english.Prelude.Dict.{get-set}
use ai_agentic_english.Assessment.Prompt.{Question}
use ai_agentic_english.Assessment.Test.{
  Test, success, Reply, result, api_error, other_error, Body, AssessmentResult, active_question,
  answer_of, has_answer, select_answer, body_of, settle_submission, submit_assessment, go_next,
  press_next, press_back, submit_finish,
}
use ai_agentic_english.Assessment.Positions.{
  get_elem?-lt, take-suc, All-take-suc, Distinct, Distinct-before,
}

pub data Input : Type 0 where
  answered : (answer : String) → Input
  next : Input
  back : Input
  scored : Reply AssessmentResult → Input

-- What an input does while a question is on the page, with the body of the request if one is sent.
unfoldable pub on_question : List Question → Question → Test → Input → Test × Option Body
unfolding select_answer press_next press_back submit_finish
on_question questions question t (answered answer) = (select_answer question answer t, none)
on_question questions question t next = press_next questions question t
on_question questions question t back = (press_back t, none)
on_question questions question t (scored reply) = ((submit_finish questions reply t).0, none)

abbrev on_page : List Question → Option Question → Test → Input → Test × Option Body
on_page questions none t i = (t, none)
on_page questions (some question) t i = on_question questions question t i

unfoldable pub step : List Question → Test → Input → Test × Option Body
unfolding active_question on_question
step questions t i = on_page questions (active_question t questions) t i

abbrev pub sent : Option Body → List Body → List Body
sent none bodies = bodies
sent (some body) bodies = body ∷ bodies

-- The bodies that a sequence of inputs sends, in order.
unfoldable pub run : List Question → Test → List Input → Test × List Body
unfolding step
run questions t [] = (t, [])
run questions t (i ∷ is) =
    let now = step questions t i in
    let later = run questions now.0 is in (later.0, sent now.1 later.1)

pub record IsInTest (questions : List Question) (t : Test) : Type 0 where
  pub loaded : t.state ≡ success questions
  pub on_page : t.current_index < length questions
  pub answered_before : All (λ q. has_answer t q ≡ true) (take t.current_index questions)

abbrev IsInTestAfter : List Question → Test × Option Body → Type 0
IsInTestAfter questions r = IsInTest questions r.0

select_answer-others :
    (t : Test) (q : Question) (answer : String) (p : Question)
    → str_eq q.id p.id ≡ false
    → has_answer (select_answer q answer t) p ≡ has_answer t p
unfolding has_answer answer_of select_answer
select_answer-others t q answer p h = rw (get-set, h) refl

All-select_answer :
    (t : Test) (q : Question) (answer : String) (qs : List Question)
    → All (λ p. str_eq q.id p.id ≡ false) qs
    → All (λ p. has_answer t p ≡ true) qs
    → All (λ p. has_answer (select_answer q answer t) p ≡ true) qs
All-select_answer t q answer [] d h = tt
All-select_answer t q answer (p ∷ qs) (d, ds) (h, hs) =
    (select_answer-others t q answer p d ∙ h, All-select_answer t q answer qs ds hs)

-- The flags of a submission have no part in it.
flags-IsInTest :
    (questions : List Question) (t : Test) (b : Bool) (e : Option String)
    → IsInTest questions t
    → IsInTest questions (record t { is_submitting = b; submission_error = e })
unfolding has_answer answer_of
flags-IsInTest questions t b e h = record {
  loaded = h.loaded;
  on_page = h.on_page;
  answered_before = h.answered_before;
}

move-IsInTest :
    (questions : List Question) (t : Test) (i : ℕ)
    → t.state ≡ success questions
    → i < length questions
    → All (λ q. has_answer t q ≡ true) (take i questions)
    → IsInTest questions (record t { current_index = i })
unfolding has_answer answer_of
move-IsInTest questions t i e h a = record { loaded = e; on_page = h; answered_before = a }

settle_submission-IsInTest :
    (questions : List Question) (body : Option Body) (t : Test)
    → IsInTest questions t
    → IsInTest questions (settle_submission body t).0
settle_submission-IsInTest questions none t h = flags-IsInTest questions t false _ h
settle_submission-IsInTest questions (some body) t h = h

submit_assessment-IsInTest :
    (questions : List Question) (question : Question) (t : Test)
    → IsInTest questions t
    → IsInTest questions (submit_assessment questions question t).0
unfolding submit_assessment
submit_assessment-IsInTest questions question t h =
    if_both (IsInTestAfter questions) (not (has_answer t question) || t.is_submitting) (λ _. h)
      (λ _.
        settle_submission-IsInTest questions (body_of t.answers questions) _
          (flags-IsInTest questions t true none h))

go_next-IsInTest :
    (questions : List Question) (question : Question) (t : Test)
    → get_elem? questions t.current_index ≡ some question
    → IsInTest questions t
    → IsInTest questions (go_next questions question t).0
unfolding go_next
go_next-IsInTest questions question t e h =
    if_both (IsInTestAfter questions) (not (has_answer t question)) (λ _. h)
      (λ y.
        if_both (IsInTestAfter questions) (t.current_index == length questions - 1)
          (λ _. submit_assessment-IsInTest questions question t h)
          (λ l.
            move-IsInTest questions t (suc t.current_index) h.loaded (ground (arith, h.on_page, l))
              (before (sym (take-suc questions t.current_index question e)) (ground (arith, y))
                h.answered_before)))
  where
    before :
        {xs : List Question}
        → take t.current_index questions ++ question ∷ [] ≡ xs
        → has_answer t question ≡ true
        → All (λ q. has_answer t q ≡ true) (take t.current_index questions)
        → All (λ q. has_answer t q ≡ true) xs
    before d y a = subst (All (λ q. has_answer t q ≡ true)) d (
        All-append (λ q. has_answer t q ≡ true) (take t.current_index questions) (question ∷ []) a
          (y, tt))

pub press_next-IsInTest :
    (questions : List Question) (question : Question) (t : Test)
    → get_elem? questions t.current_index ≡ some question
    → IsInTest questions t
    → IsInTest questions (press_next questions question t).0
unfolding press_next
press_next-IsInTest questions question t e h =
    if_both (IsInTestAfter questions) (not (has_answer t question) || t.is_submitting) (λ _. h)
      (λ _. go_next-IsInTest questions question t e h)

back_to-IsInTest :
    (questions : List Question) (t : Test) (i : ℕ)
    → t.current_index ≡ suc i
    → IsInTest questions t
    → IsInTest questions (record t { current_index = i })
back_to-IsInTest questions t i e h =
    move-IsInTest questions t i h.loaded (omega (arith, h.on_page, e)) (
      All-take-suc (λ q. has_answer t q ≡ true) questions i
        (subst (λ n. All (λ q. has_answer t q ≡ true) (take n questions)) e h.answered_before))

press_back-IsInTest :
    (questions : List Question) (t : Test)
    → IsInTest questions t
    → IsInTest questions (press_back t)
unfolding press_back
press_back-IsInTest questions t h =
    if_both (IsInTest questions) (t.current_index == 0 || t.is_submitting) (λ _. h)
      (λ e. back_to-IsInTest questions t (t.current_index - 1) (ground (arith, e)) h)

submit_finish-IsInTest :
    (questions : List Question) (reply : Reply AssessmentResult) (t : Test)
    → IsInTest questions t
    → IsInTest questions (submit_finish questions reply t).0
unfolding submit_finish
submit_finish-IsInTest questions (result r) t h = h
submit_finish-IsInTest questions (api_error m) t h = flags-IsInTest questions t false _ h
submit_finish-IsInTest questions other_error t h = flags-IsInTest questions t false _ h

pub select_answer-IsInTest :
    (questions : List Question) (q : Question) (answer : String) (t : Test)
    → Distinct questions
    → get_elem? questions t.current_index ≡ some q
    → IsInTest questions t
    → IsInTest questions (select_answer q answer t)
unfolding select_answer
select_answer-IsInTest questions q answer t d e h = record {
  loaded = h.loaded;
  on_page = h.on_page;
  answered_before =
      All-select_answer t q answer (take t.current_index questions)
        (Distinct-before questions t.current_index q d e) h.answered_before;
}

on_question-IsInTest :
    (questions : List Question) (q : Question) (t : Test) (i : Input)
    → Distinct questions
    → get_elem? questions t.current_index ≡ some q
    → IsInTest questions t
    → IsInTest questions (on_question questions q t i).0
unfolding on_question
on_question-IsInTest questions q t (answered answer) d e h =
    select_answer-IsInTest questions q answer t d e h
on_question-IsInTest questions q t next d e h = press_next-IsInTest questions q t e h
on_question-IsInTest questions q t back d e h = press_back-IsInTest questions t h
on_question-IsInTest questions q t (scored reply) d e h = submit_finish-IsInTest questions reply t h

pub step-IsInTest :
    (questions : List Question) (t : Test) (i : Input)
    → Distinct questions
    → IsInTest questions t
    → IsInTest questions (step questions t i).0
unfolding step active_question
step-IsInTest questions t i d h =
    let (q, e) = get_elem?-lt questions t.current_index h.on_page in
    rw e (on_question-IsInTest questions q t i d e h)

pub run-IsInTest :
    (questions : List Question) (t : Test) (is : List Input)
    → Distinct questions
    → IsInTest questions t
    → IsInTest questions (run questions t is).0
unfolding run
run-IsInTest questions t [] d h = h
run-IsInTest questions t (i ∷ is) d h =
    run-IsInTest questions (step questions t i).0 is d (step-IsInTest questions t i d h)
