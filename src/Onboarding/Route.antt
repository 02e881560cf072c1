-- ===== src/Onboarding/Route.antt =====
-- apps/web/app/api/orchestrate/onboarding/route.ts: what is checked before the orchestrator is
-- called. The user id and the token are Clerk's answers, `none` where there is none; the body is
-- `none` where it does not parse; `upstream` is the orchestrator's answer.
use ai_agentic_english.Prelude.{
  ℕ, String, Bool, ◌&&◌, Option, none, some, List, [], ◌∷◌, any, if◌then◌else◌, str_eq,
}
use ai_agentic_english.Prelude.Dict.{Dict, set}
use ai_agentic_english.Shared.Json.{
  Json, null, text, array, object, Items, no_items, item, Fields, no_fields, field, lookup,
}
use ai_agentic_english.Onboarding.Number.{is_number, is_positive_number}

-- The body of the call to the orchestrator.
pub record Plan : Type 0 where
  pub user_id : String
  pub current_level : String
  pub daily_time_budget_minutes : Json
  pub goals : List String
  pub skill_estimates : Option (Dict Json)

pub data Answer : Type 0 where
  plan : Json → Answer
  api_error : (status : ℕ) (message : String) → Answer
  failure : Answer

-- `crashed` is an exception that the route does not catch.
pub data Response : Type 0 where
  created : Json → Response
  refused : (status : ℕ) (message : String) → Response
  crashed : Response

unfoldable pub is_cefr_level : String → Bool
is_cefr_level s = any (λ l. str_eq l s) ("A1" ∷ "A2" ∷ "B1" ∷ "B2" ∷ "C1" ∷ "C2" ∷ [])

unfoldable pub is_skill_key : String → Bool
is_skill_key s = any (λ k. str_eq k s) ("R" ∷ "L" ∷ "W" ∷ [])

unfoldable pub read_entries : Fields → Dict Json → Option (Dict Json)
unfolding is_skill_key is_number set
read_entries no_fields d = some d
read_entries (field key v fs) d =
    let rest = read_entries fs (set key v d) in
    if is_skill_key key && is_number v then rest else none

abbrev pub unless_empty : Option (Dict Json) → Option (Option (Dict Json))
unless_empty none = none
unless_empty (some []) = some none
unless_empty (some (e ∷ d)) = some (some (e ∷ d))

-- `none` is the source's null, `some none` its undefined.
unfoldable pub read_skill_estimates : Option Json → Option (Option (Dict Json))
unfolding read_entries
read_skill_estimates none = some none
read_skill_estimates (some (object fs)) = unless_empty (read_entries fs [])
read_skill_estimates (some _) = none

unfoldable pub read_level : Option Json → Option String
unfolding is_cefr_level
read_level (some (text s)) = if is_cefr_level s then some s else none
read_level _ = none

unfoldable pub read_budget : Option Json → Option Json
unfolding is_positive_number
read_budget none = none
read_budget (some v) = if is_positive_number v then some v else none

abbrev pub cons_goal : String → Option (List String) → Option (List String)
cons_goal s none = none
cons_goal s (some ss) = some (s ∷ ss)

unfoldable pub read_texts : Items → Option (List String)
read_texts no_items = some []
read_texts (item (text s) vs) = cons_goal s (read_texts vs)
read_texts (item _ vs) = none

unfoldable pub read_goals : Option Json → Option (List String)
unfolding read_texts
read_goals (some (array vs)) = read_texts vs
read_goals _ = none

abbrev pub or_refuse {ℓ} : {A : Type ℓ} → Option A → ℕ → String → (A → Response) → Response
or_refuse none status message next = refused status message
or_refuse (some a) status message next = next a

unfoldable pub respond : Answer → Response
respond (plan p) = created p
respond (api_error status message) = refused status message
respond failure = refused 502 "Unable to create your learning path right now."

-- The tests `!userId` and `!token`: an empty text counts as missing.
unfoldable pub present : Option String → Option String
present none = none
present (some s) = if str_eq s "" then none else some s

module _ (upstream : Plan → Answer) where
  unfoldable pub post_checked : String → Option String → (String → Option Json) → Response
  unfolding read_level read_budget read_goals read_skill_estimates present respond
  post_checked user_id token input =
      or_refuse (read_level (input "currentLevel")) 400 "currentLevel must be a valid CEFR level"
        (λ level.
          or_refuse (read_budget (input "dailyTimeBudgetMinutes")) 400
            "dailyTimeBudgetMinutes must be a positive number"
            (λ budget.
              or_refuse (read_goals (input "goals")) 400 "goals must be an array of strings"
                (λ goals.
                  or_refuse (read_skill_estimates (input "skillEstimates")) 400
                    "skillEstimates must contain numeric R, L, and/or W estimates"
                    (λ estimates.
                      or_refuse (present token) 401 "Unable to acquire session token" (λ _.
                        respond (
                          upstream (record {
                            user_id = user_id;
                            current_level = level;
                            daily_time_budget_minutes = budget;
                            goals = goals;
                            skill_estimates = estimates;
                          })))))))

  unfoldable pub post_body : String → Option String → Json → Response
  unfolding post_checked lookup
  post_body user_id token (object fs) = post_checked user_id token (λ key. lookup key fs)
  post_body user_id token null = crashed
  post_body user_id token _ = post_checked user_id token (λ _. none)

  unfoldable pub post : Option String → Option String → Option Json → Response
  unfolding post_body present
  post user_id token body =
      or_refuse (present user_id) 401 "Unauthorized"
        (λ id. or_refuse body 400 "Invalid JSON body" (λ v. post_body id token v))
