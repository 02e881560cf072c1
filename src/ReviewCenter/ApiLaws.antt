-- ===== src/ReviewCenter/ApiLaws.antt =====
-- The lesson page of the review center, with the route that it asks.
use Prim.Native.String
use ai_agentic_english.Prelude.{
  ℕ, String, true, Option, none, some, List, find, ◌≡◌, refl, arith, if◌then◌else◌, str_eq, is_some,
}
use ai_agentic_english.Shared.Trim.{strip_prefix}
use ai_agentic_english.Shared.Errors.{Thrown, error_handler, not_found_error, other}
use ai_agentic_english.Shared.Effect.{Result, ok, err, and_then}
use ai_agentic_english.Shared.Json.{Json}
use ai_agentic_english.Shared.Auth.{extract_user_id, require_auth}
use ai_agentic_english.Shared.AuthLaws.{nil_append, cons_append, extract_user_id-err}
use ai_agentic_english.Materials.Titles.{Locale, to_review_category_id}
use ai_agentic_english.Materials.Mappers.{GrammarDetail, to_review_grammar_lesson_dto}
use ai_agentic_english.Materials.Review.{
  Query, found, query_failed, read_lesson, get_lesson, lesson_or_error,
}
use ai_agentic_english.ReviewCenter.Api.{
  contains, Fetched, answered, api_error, type_error, is_review_api_unavailable, or_unavailable,
  lesson_in, Lesson, map_grammar_lesson, get_review_grammar_lesson,
}

-- Whether the request reaches the gateway; if not, what the error says of it.
pub data Gateway : Type 0 where
  reached : Gateway
  unreachable : (detail : String) → Gateway

-- What `serverApiFetch` makes of a route's outcome: its result, or the status of its error, or the
-- error of a request that was lost.
abbrev pub server_api_fetch : {A : Type 0} → Gateway → Result A → Fetched A
server_api_fetch reached (ok a) = answered a
server_api_fetch reached (err thrown) = api_error (error_handler thrown).status
server_api_fetch (unreachable detail) r =
    type_error (String.◌++◌ "API request failed before reaching the gateway" detail)

-- The lesson of a point, where its category has the id of the page's address.
abbrev pub shown_lesson : Locale → String → Option GrammarDetail → Option Lesson
shown_lesson loc category_id none = none
shown_lesson loc category_id (some g) =
    if str_eq (to_review_category_id loc g.category) category_id
    then some (map_grammar_lesson loc (to_review_grammar_lesson_dto loc g))
    else none

-- The page: `none` where it throws, else the lesson that it shows, if there is one.
abbrev pub lesson_page :
    Locale
    → String
    → String
    → Gateway
    → Result String
    → Query (List GrammarDetail)
    → Option (Option Lesson)
lesson_page loc category_id lesson_id (unreachable detail) user q = some none
lesson_page loc category_id lesson_id reached (err thrown) q = none
lesson_page loc category_id lesson_id reached (ok user) (query_failed message) = none
lesson_page loc category_id lesson_id reached (ok user) (found points) =
    some (shown_lesson loc category_id (find (λ g. str_eq g.id lesson_id) points))

strip_prefix-append : (p s : String) → strip_prefix p (String.◌++◌ p s) ≡ some s
unfolding strip_prefix
strip_prefix-append String.[] s = rw (nil_append s) refl
strip_prefix-append (String.◌∷◌ c p) s =
    rw (cons_append c p s) (ground (arith, strip_prefix-append p s))

contains_start : (p s : String) → is_some (strip_prefix p s) ≡ true → contains p s ≡ true
unfolding contains
contains_start p String.[] h = h
contains_start p (String.◌∷◌ c s) h = ground (arith, h)

lost_request :
    {A B : Type 0} (f : A → B) (fallback : B) (detail : String)
    → or_unavailable f fallback
        (type_error (String.◌++◌ "API request failed before reaching the gateway" detail))
      ≡ some fallback
unfolding or_unavailable
lost_request f fallback detail =
    let part : String = "API request failed before reaching the gateway" in
    let starts : is_some (strip_prefix part (String.◌++◌ part detail)) ≡ true =
      rw (strip_prefix-append part detail) refl in
    rw (contains_start part (String.◌++◌ part detail) starts) refl

read_answer :
    (loc : Locale) (category_id : String) (o : Option GrammarDetail)
    → get_review_grammar_lesson loc category_id (server_api_fetch reached (lesson_or_error loc o))
      ≡ some (shown_lesson loc category_id o)
unfolding get_review_grammar_lesson error_handler not_found_error to_review_grammar_lesson_dto
read_answer loc category_id none = refl
read_answer loc category_id (some g) = refl

refused_page :
    (loc : Locale) (category_id : String) (status : ℕ)
    → status ≡ 401
    → get_review_grammar_lesson loc category_id (api_error status) ≡ none
unfolding get_review_grammar_lesson or_unavailable is_review_api_unavailable
refused_page loc category_id status h = rw h refl

failed_page :
    (loc : Locale) (category_id message : String)
    → get_review_grammar_lesson loc category_id (api_error (error_handler (other message)).status)
      ≡ none
unfolding get_review_grammar_lesson or_unavailable is_review_api_unavailable error_handler
failed_page loc category_id message = refl

-- The lesson page, with the route that it asks. A request that does not reach the gateway gives no
-- lesson. Where it does, the page throws if the caller is not signed in or the database fails, and
-- otherwise shows the grammar point with the lesson's id where there is one and its category has
-- the id of the address, and no lesson where not.
pub get_review_grammar_lesson-get_lesson :
    (decode : String → Option (Option Json)) (authorization : Option String) (gateway : Gateway)
    (loc : Locale) (points : Query (List GrammarDetail)) (category_id lesson_id : String)
    → get_review_grammar_lesson loc category_id
        (server_api_fetch gateway (get_lesson decode authorization loc points lesson_id))
      ≡ lesson_page loc category_id lesson_id gateway (extract_user_id decode authorization) points
unfolding get_lesson require_auth
get_review_grammar_lesson-get_lesson decode authorization (unreachable detail) loc points
      category_id lesson_id =
    unfold get_review_grammar_lesson in lost_request (lesson_in loc category_id) none detail
get_review_grammar_lesson-get_lesson decode authorization reached loc points category_id lesson_id =
    go (extract_user_id decode authorization) points (extract_user_id-err decode authorization)
  where
    go :
        (r : Result String) (q : Query (List GrammarDetail))
        → ((thrown : Thrown) → r ≡ err thrown → (error_handler thrown).status ≡ 401)
        → get_review_grammar_lesson loc category_id
            (server_api_fetch reached (and_then r (λ _. read_lesson loc q lesson_id)))
          ≡ lesson_page loc category_id lesson_id reached r q
    go (err thrown) q h = refused_page loc category_id _ (h thrown refl)
    go (ok user) (query_failed message) h = failed_page loc category_id message
    go (ok user) (found points) h =
        unfold read_lesson in read_answer loc category_id (find (λ g. str_eq g.id lesson_id) points)
