-- ===== src/Onboarding/Accepted.antt =====
-- The request that onboarding-request.ts makes, sent to the API route of the same application.
use ai_agentic_english.Prelude.{
  String, true, false, ◌&&◌, Option, none, some, List, [], ◌∷◌, ◌≡◌, refl, if◌then◌else◌, is_none,
  str_eq, Bool-cases, inl, inr,
}
use ai_agentic_english.Prelude.Dict.{Dict, set}
use ai_agentic_english.Prelude.Int.{ℤ, is_positive}
use ai_agentic_english.Shared.Json.{
  Json, whole, text, array, object, Items, no_items, item, Fields, no_fields, field, lookup,
}
use ai_agentic_english.Shared.Cefr.{CefrLevel, a1, a2, b1, b2, c1, c2, cefr_text}
use ai_agentic_english.Onboarding.Number.{is_number, is_positive_number}
use ai_agentic_english.Onboarding.Request.{
  Levels, SkillEstimates, assessment_levels_to_skill_estimates, OnboardingProfile,
  OnboardingRequest, to_onboarding_request,
}
use ai_agentic_english.Onboarding.Route.{
  Plan, Answer, is_cefr_level, is_skill_key, read_entries, read_skill_estimates, read_level,
  read_budget, read_texts, read_goals, respond, post_checked, post_body, present, post,
}

-- `JSON.stringify` of a request, as the route parses it.
abbrev opt_entry : String → Option ℤ → Fields → Fields
opt_entry key none fs = fs
opt_entry key (some n) fs = field key (whole n) fs

abbrev estimates_json : SkillEstimates → Fields
estimates_json e = opt_entry "R" e.r (opt_entry "L" e.l (opt_entry "W" e.w no_fields))

abbrev texts_json : List String → Items
texts_json [] = no_items
texts_json (s ∷ ss) = item (text s) (texts_json ss)

abbrev opt_estimates : Option SkillEstimates → Fields
opt_estimates none = no_fields
opt_estimates (some e) = field "skillEstimates" (object (estimates_json e)) no_fields

unfoldable pub request_json : OnboardingRequest → Json
request_json r = object (
    field "userId" (text r.user_id) (
      field "currentLevel" (text (cefr_text r.current_level)) (
        field "dailyTimeBudgetMinutes" (whole r.daily_time_budget_minutes)
          (field "goals" (array (texts_json r.goals)) (opt_estimates r.skill_estimates)))))

-- The call to the orchestrator that carries the same request.
abbrev opt_pair : String → Option ℤ → Dict Json → Dict Json
opt_pair key none d = d
opt_pair key (some n) d = (key, whole n) ∷ d

abbrev estimates_dict : SkillEstimates → Dict Json
estimates_dict e = opt_pair "R" e.r (opt_pair "L" e.l (opt_pair "W" e.w []))

abbrev opt_dict : Option SkillEstimates → Option (Dict Json)
opt_dict none = none
opt_dict (some e) = some (estimates_dict e)

abbrev pub plan_of : OnboardingRequest → Plan
plan_of r = record {
  user_id = r.user_id;
  current_level = cefr_text r.current_level;
  daily_time_budget_minutes = whole r.daily_time_budget_minutes;
  goals = r.goals;
  skill_estimates = opt_dict r.skill_estimates;
}

read_texts_lem : (ss : List String) → read_texts (texts_json ss) ≡ some ss
unfolding read_texts
read_texts_lem [] = refl
read_texts_lem (s ∷ ss) = rw (read_texts_lem ss) refl

read_level_lem : (l : CefrLevel) → read_level (some (text (cefr_text l))) ≡ some (cefr_text l)
unfolding read_level is_cefr_level
read_level_lem a1 = refl
read_level_lem a2 = refl
read_level_lem b1 = refl
read_level_lem b2 = refl
read_level_lem c1 = refl
read_level_lem c2 = refl

read_budget_lem : (n : ℤ) → is_positive n ≡ true → read_budget (some (whole n)) ≡ some (whole n)
unfolding read_budget is_positive_number
read_budget_lem n h = rw h refl

abbrev IsGiven : SkillEstimates → Type 0
IsGiven e = (is_none e.r && is_none e.l && is_none e.w) ≡ false

read_estimates_lem :
    (e : SkillEstimates) (r l w : Option ℤ)
    → e.r ≡ r
    → e.l ≡ l
    → e.w ≡ w
    → IsGiven e
    → read_skill_estimates (some (object (estimates_json e))) ≡ some (some (estimates_dict e))
unfolding read_skill_estimates read_entries is_skill_key is_number set
read_estimates_lem e (some r) (some l) (some w) er el ew h = rw (er, el, ew) refl
read_estimates_lem e (some r) (some l) none er el ew h = rw (er, el, ew) refl
read_estimates_lem e (some r) none (some w) er el ew h = rw (er, el, ew) refl
read_estimates_lem e (some r) none none er el ew h = rw (er, el, ew) refl
read_estimates_lem e none (some l) (some w) er el ew h = rw (er, el, ew) refl
read_estimates_lem e none (some l) none er el ew h = rw (er, el, ew) refl
read_estimates_lem e none none (some w) er el ew h = rw (er, el, ew) refl
read_estimates_lem e none none none er el ew h = cc

-- The estimates of a request are given, where they stand in it.
abbrev OptGiven : Option SkillEstimates → Type 0
OptGiven none = Unit
OptGiven (some e) = IsGiven e

given_if :
    (e : SkillEstimates)
    → OptGiven (if is_none e.r && is_none e.l && is_none e.w then none else some e)
given_if e = elim (Bool-cases (is_none e.r && is_none e.l && is_none e.w)) [
  | inl h ↦ rw h tt
  | inr h ↦ rw h h
]

estimates-Given : (o : Option Levels) → OptGiven (assessment_levels_to_skill_estimates o)
unfolding assessment_levels_to_skill_estimates
estimates-Given none = tt
estimates-Given (some levels) = given_if _

read_opt_estimates :
    (o : Option SkillEstimates)
    → OptGiven o
    → read_skill_estimates (lookup "skillEstimates" (opt_estimates o)) ≡ some (opt_dict o)
unfolding lookup read_skill_estimates
read_opt_estimates none h = refl
read_opt_estimates (some e) h = read_estimates_lem e e.r e.l e.w refl refl refl h

post-request_json :
    (upstream : Plan → Answer) (token : String) (r : OnboardingRequest)
    → str_eq r.user_id "" ≡ false
    → str_eq token "" ≡ false
    → is_positive r.daily_time_budget_minutes ≡ true
    → OptGiven r.skill_estimates
    → post upstream (some r.user_id) (some token) (some (request_json r))
      ≡ respond (upstream (plan_of r))
unfolding post post_body post_checked present request_json lookup read_goals
post-request_json upstream token r u t h g =
    rw
      (
        u,
        t,
        read_level_lem r.current_level,
        read_budget_lem r.daily_time_budget_minutes h,
        read_texts_lem r.goals,
        read_opt_estimates r.skill_estimates g,
      )
      refl

-- A signed-in learner's request with a positive daily budget, where neither the user id nor the token
-- is empty, passes every check of the route and reaches the orchestrator with the same level, budget,
-- goals and estimates.
pub post-to_onboarding_request :
    (upstream : Plan → Answer) (user_id token : String) (profile : OnboardingProfile)
    → str_eq user_id "" ≡ false
    → str_eq token "" ≡ false
    → is_positive (to_onboarding_request user_id profile).daily_time_budget_minutes ≡ true
    → post upstream
        (some user_id)
        (some token)
        (some (request_json (to_onboarding_request user_id profile)))
      ≡ respond (upstream (plan_of (to_onboarding_request user_id profile)))
unfolding to_onboarding_request
post-to_onboarding_request upstream user_id token profile u t h =
    post-request_json upstream token (to_onboarding_request user_id profile) u t h
      (estimates-Given profile.assessment_levels)
