-- ===== src/ReviewCenter/Examples.antt =====
-- A grammar point on its page.
use ai_agentic_english.Prelude.{String, Option, true, some, none, [], ◌∷◌, ◌≡◌, refl}
use ai_agentic_english.Materials.Titles.{Locale}
use ai_agentic_english.Materials.Mappers.{GrammarDetail}
use ai_agentic_english.Materials.Review.{found, get_lesson}
use ai_agentic_english.Shared.Json.{Json, text}
use ai_agentic_english.Shared.Errors.{error_handler, unauthorized_error}
use ai_agentic_english.Shared.Auth.{extract_user_id, require_auth}
use ai_agentic_english.ReviewCenter.Api.{
  icon_for_grammar_category, get_review_grammar_lesson, get_review_grammar_category, type_error,
  or_unavailable, is_review_api_unavailable,
}
use ai_agentic_english.ReviewCenter.ApiLaws.{
  reached, server_api_fetch, lesson_page, get_review_grammar_lesson-get_lesson,
}

abbrev loc : Locale
loc = record { to_lower_case = λ s. s; to_upper_case = λ s. s; sorts_before = λ a b. true }

abbrev articles : GrammarDetail
articles = record {
  id = "g1";
  category = "articles";
  title = "a and an";
  cefr_level = "A1";
  explanation = "";
  examples = [];
  source = "";
  license = "";
  created_at = "";
  updated_at = "";
}

-- A token whose claim `sub` is its own text.
abbrev decode : String → Option (Option Json)
decode token = some (some (text token))

get_review_grammar_lesson-get_lesson_example :
    get_review_grammar_lesson loc "articles" (
      server_api_fetch reached
        (get_lesson decode (some "Bearer user_1") loc (found (articles ∷ [])) "g1"))
    ≡ lesson_page loc "articles" "g1" reached
        (extract_user_id decode (some "Bearer user_1"))
        (found (articles ∷ []))
get_review_grammar_lesson-get_lesson_example =
    get_review_grammar_lesson-get_lesson decode (some "Bearer user_1") reached loc
      (found (articles ∷ [])) "articles" "g1"

signed_out :
    get_review_grammar_lesson loc "articles"
      (server_api_fetch reached (get_lesson decode none loc (found (articles ∷ [])) "g1"))
    ≡ none
unfolding get_review_grammar_lesson get_lesson require_auth extract_user_id error_handler
    unauthorized_error or_unavailable is_review_api_unavailable
signed_out = refl

category_icon : icon_for_grammar_category loc "past tenses" ≡ "schedule"
unfolding icon_for_grammar_category
category_icon = refl

gateway_down :
    get_review_grammar_category loc
      (type_error "API request failed before reaching the gateway: fetch failed")
    ≡ some none
unfolding get_review_grammar_category
gateway_down = refl
