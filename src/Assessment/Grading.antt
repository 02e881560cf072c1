-- ===== src/Assessment/Grading.antt =====
-- The levels that a scored placement test puts in the profile.
use ai_agentic_english.Prelude.{
  Bool, true, false, Option, none, some, List, [], ◌∷◌, ◌≡◌, refl, sym, ap, ◌∙◌, filter, any, All,
  get_or, or_else, Bool-cases, inl, inr, ◌||◌, if◌then◌else◌,
}
use ai_agentic_english.Shared.Cefr.{CefrLevel, a1}
use ai_agentic_english.Onboarding.Request.{
  Levels, PlacementSkillId, in_reading, in_listening, in_writing, placement_skill_ids, level_of,
  set_level, no_levels, normalize_from, normalize_assessment_levels,
}
use ai_agentic_english.Onboarding.Placement.{
  same_skill, same_skill-eq, level_of-set_level, or_else-none, apply_a1_fallback_lem,
}
use ai_agentic_english.Assessment.Prompt.{Question, has_skill, select_assessment_questions}
use ai_agentic_english.Assessment.Test.{AssessmentResult, graded_profile}
use ai_agentic_english.Assessment.Submission.{select_assessment_questions-IsSelection}

normalize_step :
    (levels done : Levels) (s t : PlacementSkillId) (o : Option CefrLevel) (rest : Bool)
    → level_of levels s ≡ o
    → or_else
        (if rest then level_of levels t else none)
        (level_of (elim o [ none ↦ done | some l ↦ set_level s l done ]) t)
      ≡ or_else (if same_skill s t || rest then level_of levels t else none) (level_of done t)
normalize_step levels done s t o rest e = elim (Bool-cases (same_skill s t)) [
  | inl h ↦ same_case o rest (ap (level_of levels) (sym (same_skill-eq s t h)) ∙ e) h
  | inr h ↦ other_case o rest h
]
  where
    same_case :
        (o : Option CefrLevel) (rest : Bool)
        → level_of levels t ≡ o
        → same_skill s t ≡ true
        → or_else
            (if rest then level_of levels t else none)
            (level_of (elim o [ none ↦ done | some l ↦ set_level s l done ]) t)
          ≡ or_else (if same_skill s t || rest then level_of levels t else none) (level_of done t)
    same_case none true e h = rw (h, e) refl
    same_case none false e h = rw (h, e) refl
    same_case (some l) true e h = rw (h, e) refl
    same_case (some l) false e h = rw (h, e, level_of-set_level, h) refl

    other_case :
        (o : Option CefrLevel) (rest : Bool)
        → same_skill s t ≡ false
        → or_else
            (if rest then level_of levels t else none)
            (level_of (elim o [ none ↦ done | some l ↦ set_level s l done ]) t)
          ≡ or_else (if same_skill s t || rest then level_of levels t else none) (level_of done t)
    other_case none rest h = rw h refl
    other_case (some l) rest h = rw (h, level_of-set_level, h) refl

normalize_from-level :
    (levels done : Levels) (ss : List PlacementSkillId) (t : PlacementSkillId)
    → level_of (normalize_from levels ss done) t
      ≡ or_else (if any (λ s. same_skill s t) ss then level_of levels t else none) (level_of done t)
unfolding normalize_from
normalize_from-level levels done [] t = refl
normalize_from-level levels done (s ∷ ss) t =
    normalize_from-level levels
      (elim (level_of levels s) [ none ↦ done | some l ↦ set_level s l done ]) ss t
    ∙ normalize_step levels done s t (level_of levels s) (any (λ u. same_skill u t) ss) refl

tested_each : (s : PlacementSkillId) → any (λ t. same_skill t s) placement_skill_ids ≡ true
tested_each in_reading = refl
tested_each in_listening = refl
tested_each in_writing = refl

no_level : (s : PlacementSkillId) → level_of no_levels s ≡ none
unfolding level_of
no_level in_reading = refl
no_level in_listening = refl
no_level in_writing = refl

level_of-normalize_assessment_levels :
    (levels : Levels) (s : PlacementSkillId)
    → level_of (normalize_assessment_levels levels) s ≡ level_of levels s
unfolding normalize_assessment_levels
level_of-normalize_assessment_levels levels s =
    normalize_from-level levels no_levels placement_skill_ids s
    ∙ rw (tested_each s, no_level s) (or_else-none (level_of levels s))

filter-All : {A : Type 0} (p : A → Bool) (xs : List A) → All (λ x. p x ≡ true) xs → filter p xs ≡ xs
filter-All p [] h = refl
filter-All p (x ∷ xs) (h, hs) = rw (h, filter-All p xs hs) refl

or_a1 : (o : Option CefrLevel) → or_else o (some a1) ≡ some (get_or o a1)
or_a1 none = refl
or_a1 (some l) = refl

-- After the test of a bank that the page accepts, every placement skill has a level in the profile:
-- the one that the scorer gave, and A1 where it gave none.
pub graded_profile-level :
    (bank questions : List Question) (r : AssessmentResult) (s : PlacementSkillId)
    → select_assessment_questions bank ≡ some questions
    → level_of (graded_profile questions r).assessment_levels s
      ≡ some (get_or (level_of r.levels s) a1)
unfolding graded_profile
graded_profile-level bank questions r s e =
    rw
      (
        filter-All (has_skill questions) placement_skill_ids
            (select_assessment_questions-IsSelection bank questions e).each_skill,
        apply_a1_fallback_lem,
        tested_each s,
        level_of-normalize_assessment_levels,
      )
      (or_a1 (level_of r.levels s))
