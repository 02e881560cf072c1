-- ===== src/Onboarding/Examples.antt =====
-- The theorems of onboarding at a learner placed at A2 and B1.
use ai_agentic_english.Prelude.{◌≤◌, none, some, [], ◌≡◌, ◌≢◌, refl, arith}
use ai_agentic_english.Prelude.Int.{pos}
use ai_agentic_english.Shared.Json.{text}
use ai_agentic_english.Shared.Cefr.{a2, b1}
use ai_agentic_english.Onboarding.Request.{
  Levels, PlacementSkillId, in_reading, in_listening, in_writing, placement_skill_ids, level_of,
  score_by_cefr_level, scores_of, OnboardingProfile, to_onboarding_request,
}
use ai_agentic_english.Onboarding.Route.{Plan, Answer, plan, respond, post}
use ai_agentic_english.Onboarding.Placement.{OptWithin, to_onboarding_request-between}
use ai_agentic_english.Onboarding.Accepted.{request_json, plan_of, post-to_onboarding_request}

abbrev levels : Levels
levels = record { listening = none; speaking = none; reading = some a2; writing = some b1 }

abbrev profile : OnboardingProfile
profile = record {
  goal_id = some "travel";
  level_score = none;
  assessment_levels = some levels;
  daily_minutes = some (pos 20);
  priority_skills = none;
}

abbrev planner : Plan → Answer
planner p = plan (text "path")

levels-between : (s : PlacementSkillId) → OptWithin a2 b1 (level_of levels s)
unfolding level_of score_by_cefr_level
levels-between in_reading = (omega arith, omega arith)
levels-between in_listening = tt
levels-between in_writing = (omega arith, omega arith)

some_score : scores_of levels placement_skill_ids ≢ []
unfolding scores_of level_of
some_score e = cc

to_onboarding_request-between_example :
    (score_by_cefr_level a2
      ≤ score_by_cefr_level (to_onboarding_request "ann" profile).current_level)
    × (score_by_cefr_level (to_onboarding_request "ann" profile).current_level
        ≤ score_by_cefr_level b1)
to_onboarding_request-between_example =
    to_onboarding_request-between "ann" profile levels a2 b1 refl
      (record { between = levels-between; some_level = some_score })

post-to_onboarding_request_example :
    post planner
      (some "ann")
      (some "token")
      (some (request_json (to_onboarding_request "ann" profile)))
    ≡ respond (planner (plan_of (to_onboarding_request "ann" profile)))
unfolding to_onboarding_request
post-to_onboarding_request_example =
    post-to_onboarding_request planner "ann" "token" profile refl refl refl
