-- ===== src/Onboarding/Request.antt =====
-- apps/web/app/onboarding/_utils/onboarding-request.ts. Level scores are whole numbers: every
-- writer of `levelScore` takes it from `assessmentLevelsToScore` or the default. `Math.round` of a
-- quotient t / n of naturals is the quotient of 2 * t + n by 2 * n.
use ai_agentic_english.Prelude.{
  ℕ, ◌+◌, ◌*◌, ◌/◌, min, String, ◌&&◌, Option, none, some, List, [], ◌∷◌, ◌++◌, length, get_elem?,
  sum, if◌then◌else◌, get_or, is_none,
}
use ai_agentic_english.Prelude.Int.{ℤ, pos, negsuc}
use ai_agentic_english.Shared.Cefr.{CefrLevel, a1, a2, b1, b2, c1, c2}

-- `Partial<Record<SkillId, CefrLevel>>`.
pub record Levels : Type 0 where
  pub listening : Option CefrLevel
  pub speaking : Option CefrLevel
  pub reading : Option CefrLevel
  pub writing : Option CefrLevel

pub data PlacementSkillId : Type 0 where
  in_reading : PlacementSkillId
  in_listening : PlacementSkillId
  in_writing : PlacementSkillId

abbrev pub placement_skill_ids : List PlacementSkillId
placement_skill_ids = in_reading ∷ in_listening ∷ in_writing ∷ []

unfoldable pub level_of : Levels → PlacementSkillId → Option CefrLevel
level_of levels in_reading = levels.reading
level_of levels in_listening = levels.listening
level_of levels in_writing = levels.writing

unfoldable pub set_level : PlacementSkillId → CefrLevel → Levels → Levels
set_level in_reading l levels = record levels { reading = some l }
set_level in_listening l levels = record levels { listening = some l }
set_level in_writing l levels = record levels { writing = some l }

abbrev pub no_levels : Levels
no_levels = record { listening = none; speaking = none; reading = none; writing = none }

abbrev pub cefr_levels_by_score : List CefrLevel
cefr_levels_by_score = a1 ∷ a2 ∷ a2 ∷ b1 ∷ b1 ∷ b2 ∷ b2 ∷ c1 ∷ c1 ∷ c2 ∷ c2 ∷ []

unfoldable pub score_by_cefr_level : CefrLevel → ℕ
score_by_cefr_level a1 = 0
score_by_cefr_level a2 = 2
score_by_cefr_level b1 = 4
score_by_cefr_level b2 = 6
score_by_cefr_level c1 = 8
score_by_cefr_level c2 = 10

unfoldable pub skill_estimate_by_cefr_level : CefrLevel → ℤ
skill_estimate_by_cefr_level a1 = negsuc 1
skill_estimate_by_cefr_level a2 = negsuc 0
skill_estimate_by_cefr_level b1 = pos 0
skill_estimate_by_cefr_level b2 = pos 1
skill_estimate_by_cefr_level c1 = pos 2
skill_estimate_by_cefr_level c2 = pos 3

-- `Math.min(10, Math.max(0, levelScore))`.
unfoldable pub clamp_score : ℤ → ℕ
clamp_score (pos n) = min 10 n
clamp_score (negsuc n) = 0

-- The clamped score is an index of the table, so `get_or` never takes its fallback.
unfoldable pub level_score_to_cefr_level : ℤ → CefrLevel
unfolding clamp_score
level_score_to_cefr_level score = get_or (get_elem? cefr_levels_by_score (clamp_score score)) a1

unfoldable pub scores_of : Levels → List PlacementSkillId → List ℕ
unfolding level_of score_by_cefr_level
scores_of levels [] = []
scores_of levels (s ∷ ss) =
    elim (level_of levels s) [ none ↦ [] | some l ↦ score_by_cefr_level l ∷ [] ]
    ++ scores_of levels ss

unfoldable pub rounded_mean : List ℕ → ℕ
rounded_mean [] = 0
rounded_mean (x ∷ xs) = (2 * sum (x ∷ xs) + length (x ∷ xs)) / (2 * length (x ∷ xs))

unfoldable pub assessment_levels_to_score : Levels → ℕ
unfolding scores_of rounded_mean
assessment_levels_to_score levels = rounded_mean (scores_of levels placement_skill_ids)

unfoldable pub normalize_from : Levels → List PlacementSkillId → Levels → Levels
unfolding level_of set_level
normalize_from levels [] done = done
normalize_from levels (s ∷ ss) done =
    normalize_from levels ss
      (elim (level_of levels s) [ none ↦ done | some l ↦ set_level s l done ])

unfoldable pub normalize_assessment_levels : Levels → Levels
unfolding normalize_from
normalize_assessment_levels levels = normalize_from levels placement_skill_ids no_levels

-- `levels[skill] ??= 'A1'` for each tested skill.
unfoldable pub apply_a1_fallback_to_tested_skills : Levels → List PlacementSkillId → Levels
unfolding level_of set_level
apply_a1_fallback_to_tested_skills levels [] = levels
apply_a1_fallback_to_tested_skills levels (s ∷ ss) =
    apply_a1_fallback_to_tested_skills
      (elim (level_of levels s) [ none ↦ set_level s a1 levels | some _ ↦ levels ]) ss

-- The estimates by their keys R, L and W.
pub record SkillEstimates : Type 0 where
  pub r : Option ℤ
  pub l : Option ℤ
  pub w : Option ℤ

unfoldable pub set_estimate : PlacementSkillId → ℤ → SkillEstimates → SkillEstimates
set_estimate in_reading n e = record e { r = some n }
set_estimate in_listening n e = record e { l = some n }
set_estimate in_writing n e = record e { w = some n }

unfoldable pub estimates_from : Levels → List PlacementSkillId → SkillEstimates → SkillEstimates
unfolding level_of set_estimate skill_estimate_by_cefr_level
estimates_from levels [] e = e
estimates_from levels (s ∷ ss) e = estimates_from levels ss (elim (level_of levels s) [
  | none ↦ e
  | some level ↦ set_estimate s (skill_estimate_by_cefr_level level) e
])

unfoldable pub assessment_levels_to_skill_estimates : Option Levels → Option SkillEstimates
unfolding estimates_from
assessment_levels_to_skill_estimates none = none
assessment_levels_to_skill_estimates (some levels) =
    let e = estimates_from levels placement_skill_ids (record { r = none; l = none; w = none }) in
    if is_none e.r && is_none e.l && is_none e.w then none else some e

-- The parts of `Partial<OnboardingProfile>` that the request is made from; goals and skills by
-- their texts.
pub record OnboardingProfile : Type 0 where
  pub goal_id : Option String
  pub level_score : Option ℤ
  pub assessment_levels : Option Levels
  pub daily_minutes : Option ℤ
  pub priority_skills : Option (List String)

pub record OnboardingRequest : Type 0 where
  pub user_id : String
  pub current_level : CefrLevel
  pub daily_time_budget_minutes : ℤ
  pub goals : List String
  pub skill_estimates : Option SkillEstimates

unfoldable pub get_current_level_score : OnboardingProfile → ℤ
unfolding assessment_levels_to_score
get_current_level_score profile = elim profile.assessment_levels [
  | some levels ↦ pos (assessment_levels_to_score levels)
  | none ↦ get_or profile.level_score (pos 5)
]

unfoldable pub to_onboarding_request : String → OnboardingProfile → OnboardingRequest
unfolding assessment_levels_to_skill_estimates level_score_to_cefr_level get_current_level_score
to_onboarding_request user_id profile = record {
  user_id = user_id;
  current_level = level_score_to_cefr_level (get_current_level_score profile);
  daily_time_budget_minutes = get_or profile.daily_minutes (pos 15);
  goals = get_or profile.goal_id "conversation" ∷ get_or profile.priority_skills [];
  skill_estimates = assessment_levels_to_skill_estimates profile.assessment_levels;
}
