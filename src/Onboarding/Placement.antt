-- ===== src/Onboarding/Placement.antt =====
-- onboarding-request.ts: the level that a placement result becomes, and the A1 fallback.
use ai_agentic_english.Prelude.{
  ℕ, zero, suc, ◌+◌, ◌*◌, ◌/◌, ◌≤◌, min, String, Bool, true, false, ◌||◌, Option, none, some, List,
  [], ◌∷◌, ◌++◌, ◌≡◌, refl, sym, ap, ◌∙◌, arith, length, get_elem?, if◌then◌else◌, get_or, or_else,
  any, All, All-append, ◌≢◌, Bool-cases, inl, inr,
}
use ai_agentic_english.Prelude.Int.{pos}
use ai_agentic_english.Shared.Cefr.{CefrLevel, a1, a2, b1, b2, c1, c2}
use ai_agentic_english.Onboarding.Request.{
  Levels, PlacementSkillId, in_reading, in_listening, in_writing, placement_skill_ids, level_of,
  set_level, cefr_levels_by_score, score_by_cefr_level, clamp_score, level_score_to_cefr_level,
  scores_of, rounded_mean, assessment_levels_to_score, apply_a1_fallback_to_tested_skills,
  OnboardingProfile, get_current_level_score, to_onboarding_request,
}

-- A score between two levels' scores becomes a level between the two.
abbrev Within : CefrLevel → CefrLevel → ℕ → Type 0
Within lo hi n = (score_by_cefr_level lo ≤ n) × (n ≤ score_by_cefr_level hi)

mean_one : (a b x : ℕ) → a ≤ x → x ≤ b → (a ≤ rounded_mean (x ∷ [])) × (rounded_mean (x ∷ []) ≤ b)
unfolding rounded_mean
mean_one a b x h k = (omega arith, omega arith)

mean_two :
    (a b x y : ℕ)
    → a ≤ x
    → x ≤ b
    → a ≤ y
    → y ≤ b
    → (a ≤ rounded_mean (x ∷ y ∷ [])) × (rounded_mean (x ∷ y ∷ []) ≤ b)
unfolding rounded_mean
mean_two a b x y h k h2 k2 = (omega arith, omega arith)

mean_three :
    (a b x y z : ℕ)
    → a ≤ x
    → x ≤ b
    → a ≤ y
    → y ≤ b
    → a ≤ z
    → z ≤ b
    → (a ≤ rounded_mean (x ∷ y ∷ z ∷ [])) × (rounded_mean (x ∷ y ∷ z ∷ []) ≤ b)
unfolding rounded_mean
mean_three a b x y z h k h2 k2 h3 k3 = (omega arith, omega arith)

abbrev pub OptWithin : CefrLevel → CefrLevel → Option CefrLevel → Type 0
OptWithin lo hi none = Unit
OptWithin lo hi (some l) = Within lo hi (score_by_cefr_level l)

-- A level is given for one of the three skills at least, and all those given lie between the two.
pub record IsPlaced (levels : Levels) (lo hi : CefrLevel) : Type 0 where
  pub between : (s : PlacementSkillId) → OptWithin lo hi (level_of levels s)
  pub some_level : scores_of levels placement_skill_ids ≢ []

score-All :
    (levels : Levels) (lo hi : CefrLevel)
    → ((s : PlacementSkillId) → OptWithin lo hi (level_of levels s))
    → (ss : List PlacementSkillId) → All (Within lo hi) (scores_of levels ss)
unfolding scores_of
score-All levels lo hi h [] = tt
score-All levels lo hi h (s ∷ ss) =
    All-append (Within lo hi) _ _ (go (level_of levels s) (h s)) (score-All levels lo hi h ss)
  where
    go :
        (o : Option CefrLevel)
        → OptWithin lo hi o
        → All (Within lo hi) (elim o [ none ↦ [] | some l ↦ score_by_cefr_level l ∷ [] ])
    go none k = tt
    go (some l) k = (k, tt)

length-scores_step :
    (o : Option CefrLevel) (xs : List ℕ) (n : ℕ)
    → length xs ≤ n
    → length (elim o [ none ↦ [] | some l ↦ score_by_cefr_level l ∷ [] ] ++ xs) ≤ suc n
length-scores_step none xs n h = omega (arith, h)
length-scores_step (some l) xs n h = omega (arith, h)

length-scores_of :
    (levels : Levels) (ss : List PlacementSkillId) → length (scores_of levels ss) ≤ length ss
unfolding scores_of
length-scores_of levels [] = omega arith
length-scores_of levels (s ∷ ss) =
    length-scores_step (level_of levels s) (scores_of levels ss) (length ss)
      (length-scores_of levels ss)

rounded_mean-Within :
    (lo hi : CefrLevel) (xs : List ℕ)
    → length xs ≤ 3
    → xs ≢ []
    → All (Within lo hi) xs
    → Within lo hi (rounded_mean xs)
rounded_mean-Within lo hi [] h ne all = absurd (ne refl)
rounded_mean-Within lo hi (x ∷ []) h ne ((p, q), all) = mean_one _ _ x p q
rounded_mean-Within lo hi (x ∷ y ∷ []) h ne ((p, q), ((p2, q2), all)) = mean_two _ _ x y p q p2 q2
rounded_mean-Within lo hi (x ∷ y ∷ z ∷ []) h ne ((p, q), ((p2, q2), ((p3, q3), all))) =
    mean_three _ _ x y z p q p2 q2 p3 q3
rounded_mean-Within lo hi (x ∷ y ∷ z ∷ t ∷ xs) h ne all = absurd (omega (arith, h))

-- The level of a score, as a score again: the next even number.
table_score :
    (n : ℕ)
    → n ≤ 10
    → score_by_cefr_level (get_or (get_elem? cefr_levels_by_score n) a1) ≡ 2 * ((n + 1) / 2)
unfolding score_by_cefr_level
table_score zero h = refl
table_score (suc zero) h = refl
table_score (suc (suc zero)) h = refl
table_score (suc (suc (suc zero))) h = refl
table_score (suc (suc (suc (suc zero)))) h = refl
table_score (suc (suc (suc (suc (suc zero))))) h = refl
table_score (suc (suc (suc (suc (suc (suc zero)))))) h = refl
table_score (suc (suc (suc (suc (suc (suc (suc zero))))))) h = refl
table_score (suc (suc (suc (suc (suc (suc (suc (suc zero)))))))) h = refl
table_score (suc (suc (suc (suc (suc (suc (suc (suc (suc zero))))))))) h = refl
table_score (suc (suc (suc (suc (suc (suc (suc (suc (suc (suc zero)))))))))) h = refl
table_score (suc (suc (suc (suc (suc (suc (suc (suc (suc (suc (suc n))))))))))) h =
    absurd (omega (arith, h))

even_score : (l : CefrLevel) → (k : ℕ) × (score_by_cefr_level l ≡ 2 * k) × (k ≤ 5)
unfolding score_by_cefr_level
even_score a1 = (0, refl, omega arith)
even_score a2 = (1, refl, omega arith)
even_score b1 = (2, refl, omega arith)
even_score b2 = (3, refl, omega arith)
even_score c1 = (4, refl, omega arith)
even_score c2 = (5, refl, omega arith)

level-Within :
    (lo hi : CefrLevel) (n : ℕ)
    → Within lo hi n
    → Within lo hi (score_by_cefr_level (level_score_to_cefr_level (pos n)))
unfolding level_score_to_cefr_level clamp_score
level-Within lo hi n (p, q) =
    let (k, e, small) = even_score hi in
    let (j, d, _) = even_score lo in
    (omega (arith, table_score (min 10 n)), omega (arith, table_score (min 10 n)))

-- The current level that the request of a placed learner asks for lies between the lowest and the
-- highest of the placement levels.
pub to_onboarding_request-between :
    (user_id : String) (profile : OnboardingProfile) (levels : Levels) (lo hi : CefrLevel)
    → profile.assessment_levels ≡ some levels
    → IsPlaced levels lo hi
    → (score_by_cefr_level lo
        ≤ score_by_cefr_level (to_onboarding_request user_id profile).current_level)
      × (score_by_cefr_level (to_onboarding_request user_id profile).current_level
          ≤ score_by_cefr_level hi)
unfolding to_onboarding_request get_current_level_score assessment_levels_to_score
to_onboarding_request-between user_id profile levels lo hi e p = rw e (
    level-Within lo hi _ (
      rounded_mean-Within lo hi (scores_of levels placement_skill_ids)
        (length-scores_of levels placement_skill_ids) p.some_level
        (score-All levels lo hi p.between placement_skill_ids)))

abbrev pub same_skill : PlacementSkillId → PlacementSkillId → Bool
same_skill in_reading in_reading = true
same_skill in_listening in_listening = true
same_skill in_writing in_writing = true
same_skill _ _ = false

pub level_of-set_level :
    (s t : PlacementSkillId) (l : CefrLevel) (levels : Levels)
    → level_of (set_level s l levels) t ≡ (if same_skill s t then some l else level_of levels t)
unfolding level_of set_level
level_of-set_level in_reading in_reading l levels = refl
level_of-set_level in_reading in_listening l levels = refl
level_of-set_level in_reading in_writing l levels = refl
level_of-set_level in_listening in_reading l levels = refl
level_of-set_level in_listening in_listening l levels = refl
level_of-set_level in_listening in_writing l levels = refl
level_of-set_level in_writing in_reading l levels = refl
level_of-set_level in_writing in_listening l levels = refl
level_of-set_level in_writing in_writing l levels = refl

pub same_skill-eq : (s t : PlacementSkillId) → same_skill s t ≡ true → s ≡ t
same_skill-eq in_reading in_reading h = refl
same_skill-eq in_listening in_listening h = refl
same_skill-eq in_writing in_writing h = refl
same_skill-eq in_reading in_listening h = cc
same_skill-eq in_reading in_writing h = cc
same_skill-eq in_listening in_reading h = cc
same_skill-eq in_listening in_writing h = cc
same_skill-eq in_writing in_reading h = cc
same_skill-eq in_writing in_listening h = cc

pub or_else-none : (o : Option CefrLevel) → or_else o none ≡ o
or_else-none none = refl
or_else-none (some l) = refl

fallback_step :
    (levels : Levels) (t s : PlacementSkillId) (o : Option CefrLevel) (rest : Bool)
    → level_of levels t ≡ o
    → or_else
        (level_of (elim o [ none ↦ set_level t a1 levels | some _ ↦ levels ]) s)
        (if rest then some a1 else none)
      ≡ or_else (level_of levels s) (if same_skill t s || rest then some a1 else none)
fallback_step levels t s none rest e = elim (Bool-cases (same_skill t s)) [
  | inl h ↦ rw (level_of-set_level, h, ap (level_of levels) (sym (same_skill-eq t s h)), e) refl
  | inr h ↦ rw (level_of-set_level, h) refl
]
fallback_step levels t s (some x) rest e = elim (Bool-cases (same_skill t s)) [
  | inl h ↦ rw (h, ap (level_of levels) (sym (same_skill-eq t s h)), e) refl
  | inr h ↦ rw h refl
]

-- After the fallback every level that was given is kept, a tested skill without one has A1, and a
-- skill that was not tested still has none.
pub apply_a1_fallback_lem :
    (levels : Levels) (tested : List PlacementSkillId) (s : PlacementSkillId)
    → level_of (apply_a1_fallback_to_tested_skills levels tested) s
      ≡ or_else (level_of levels s) (if any (λ t. same_skill t s) tested then some a1 else none)
unfolding apply_a1_fallback_to_tested_skills
apply_a1_fallback_lem levels [] s = sym (or_else-none (level_of levels s))
apply_a1_fallback_lem levels (t ∷ ts) s =
    apply_a1_fallback_lem
      (elim (level_of levels t) [ none ↦ set_level t a1 levels | some _ ↦ levels ]) ts s
    ∙ fallback_step levels t s (level_of levels t) (any (λ u. same_skill u s) ts) refl
