-- ===== src/Practice/ActivePath.antt =====
-- _lib/active-path.ts: the modules of the active learning path.
use ai_agentic_english.Prelude.{
  ℕ, suc, String, Bool, ◌&&◌, ◌||◌, Option, none, some, List, [], ◌∷◌, any, filter, leb, ◌==◌,
  if◌then◌else◌, str_eq, get_or, is_some,
}
use ai_agentic_english.Prelude.Dict.{Dict, get, set}
use ai_agentic_english.Prelude.Sort.{sort}
use ai_agentic_english.Shared.Skill.{Skill}
use ai_agentic_english.Onboarding.Request.{PlacementSkillId}
use ai_agentic_english.Assessment.Prompt.{is_skill}

-- What the page is given: no user, the module ids of the path's definition, or the status of an
-- error of the API.
pub data PathAnswer : Type 0 where
  no_user : PathAnswer
  definition : (module_ids : Option (List String)) → PathAnswer
  failed_with : (status : ℕ) → PathAnswer
  thrown : PathAnswer

unfoldable pub is_skipped : List String → String → Bool
is_skipped seen id = str_eq id "" || any (λ s. str_eq s id) seen

unfoldable pub distinct_from : List String → List String → List String
unfolding is_skipped
distinct_from seen [] = []
distinct_from seen (id ∷ ids) =
    let rest = distinct_from (if is_skipped seen id then seen else id ∷ seen) ids in
    if is_skipped seen id then rest else id ∷ rest

-- None where the function throws.
unfoldable pub get_active_path_module_ids : PathAnswer → Option (List String)
unfolding distinct_from
get_active_path_module_ids no_user = some []
get_active_path_module_ids (definition ids) = some (distinct_from [] (get_or ids []))
get_active_path_module_ids (failed_with status) = if status == 404 then some [] else none
get_active_path_module_ids thrown = none

pub record Module : Type 0 where
  pub id : String
  pub skill_focus : Skill

unfoldable pub order_from : ℕ → List String → Dict ℕ → Dict ℕ
unfolding set
order_from i [] order = order
order_from i (id ∷ ids) order = order_from (suc i) ids (set id i order)

-- The comparator's sign: the modules that are compared have an index.
unfoldable pub before_in : Dict ℕ → Module → Module → Bool
unfolding get
before_in order a b = leb (get_or (get a.id order) 0) (get_or (get b.id order) 0)

unfoldable pub filter_modules_for_active_path :
    List Module → PlacementSkillId → List String → List Module
unfolding order_from before_in sort get
filter_modules_for_active_path modules skill_id ids =
    let order = order_from 0 ids [] in
    sort (before_in order)
      (filter (λ m. is_skill skill_id m.skill_focus && is_some (get m.id order)) modules)

unfoldable pub is_module_in_active_path : String → List String → Bool
is_module_in_active_path module_id ids = any (λ id. str_eq id module_id) ids
