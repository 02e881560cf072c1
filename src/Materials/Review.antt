-- ===== src/Materials/Review.antt =====
-- services/learning-materials-service/src/routes/review.ts. The rows come in the order that each
-- query asks for, the senses and pronunciations of a word as its `take: 1` leaves them; `Number` of
-- the limit is given, where it is a whole number. Every route stands behind `requireAuth`: `get_lesson`
-- is that whole route, the others are the handlers of theirs, as they run for a user whose queries
-- succeed.
use ai_agentic_english.Prelude.{
  ℕ, min, String, Bool, true, Option, none, some, List, find, filter, take, map, if◌then◌else◌,
  str_eq,
}
use ai_agentic_english.Prelude.Int.{ℤ, pos, negsuc, is_positive}
use ai_agentic_english.Prelude.Sort.{sort}
use ai_agentic_english.Shared.Errors.{app, other, not_found_error, validation_error}
use ai_agentic_english.Shared.Effect.{Result, ok, err, and_then}
use ai_agentic_english.Shared.Json.{Json, text}
use ai_agentic_english.Shared.Auth.{require_auth}
use ai_agentic_english.Materials.Titles.{Locale, to_review_category_id}
use ai_agentic_english.Materials.Mappers.{
  is_review_cefr_level, level_le, GrammarRow, Section, to_review_grammar_sections_dto, VocabRow,
  Flashcard, to_review_flashcard_dto, FlashcardTopic, to_review_flashcard_topic_dto, GrammarDetail,
  GrammarLesson, to_review_grammar_lesson_dto,
}

abbrev pub max_limit : ℕ
max_limit = 200

abbrev pub default_limit : ℕ
default_limit = 50

unfoldable pub parse_limit : Option ℤ → ℕ
parse_limit none = default_limit
parse_limit (some (negsuc n)) = default_limit
parse_limit (some (pos n)) = if is_positive (pos n) then min n max_limit else default_limit

unfoldable pub check_level : String → Result (Option String)
unfolding is_review_cefr_level
check_level value =
    if is_review_cefr_level value
    then ok (some value)
    else err (app (validation_error "cefrLevel must be one of A1, A2, B1, B2, C1, C2"))

unfoldable pub parse_cefr_level : Locale → Option Json → Result (Option String)
unfolding check_level
parse_cefr_level loc none = ok none
parse_cefr_level loc (some (text raw)) = check_level (loc.to_upper_case raw)
parse_cefr_level loc (some _) = err (app (validation_error "cefrLevel must be a string"))

abbrev pub of_level : Option String → VocabRow → Bool
of_level none v = true
of_level (some level) v = str_eq v.cefr_level level

-- GET /flashcards, and GET /flashcard-topics/:cefrLevel/flashcards where the level is a text.
unfoldable pub get_flashcards :
    Locale → List VocabRow → Option Json → Option ℤ → Result (List Flashcard)
unfolding parse_cefr_level parse_limit to_review_flashcard_dto
get_flashcards loc rows level limit =
    and_then (parse_cefr_level loc level)
      (λ l. ok (map to_review_flashcard_dto (take (parse_limit limit) (filter (of_level l) rows))))

abbrev topic_le : FlashcardTopic → FlashcardTopic → Bool
topic_le a b = level_le a.cefr_level b.cefr_level

-- Of the number of words of each level.
unfoldable pub get_flashcard_topics : List (String × ℕ) → List FlashcardTopic
unfolding sort level_le to_review_flashcard_topic_dto
get_flashcard_topics counts = sort topic_le (map to_review_flashcard_topic_dto counts)

unfoldable pub get_grammar_sections : Locale → List GrammarRow → Option String → List Section
unfolding to_review_grammar_sections_dto
get_grammar_sections loc rows none = to_review_grammar_sections_dto loc rows
get_grammar_sections loc rows (some category) =
    to_review_grammar_sections_dto loc
      (if str_eq category "" then rows else filter (λ g. str_eq g.category category) rows)

-- The distinct categories are in the order that the database gives them.
unfoldable pub find_category_by_category_id : Locale → List String → String → Option String
unfolding to_review_category_id
find_category_by_category_id loc categories category_id =
    find (λ c. str_eq (to_review_category_id loc c) category_id) categories

abbrev pub section_not_found {ℓ} : {A : Type ℓ} → Result A
section_not_found = err (app (not_found_error "Grammar section not found"))

abbrev pub section_or_error : Option Section → Result Section
section_or_error none = section_not_found
section_or_error (some section) = ok section

unfoldable pub get_section_of : Locale → List GrammarRow → String → Option String → Result Section
unfolding get_grammar_sections
get_section_of loc rows category_id none = section_not_found
get_section_of loc rows category_id (some category) =
    if str_eq category ""
    then section_not_found
    else section_or_error
        (find (λ s. str_eq s.id category_id) (get_grammar_sections loc rows (some category)))

unfoldable pub get_section : Locale → List String → List GrammarRow → String → Result Section
unfolding find_category_by_category_id get_section_of
get_section loc categories rows category_id =
    get_section_of loc rows category_id (find_category_by_category_id loc categories category_id)

-- How a query of the database comes out.
pub data Query {ℓ} (A : Type ℓ) : Type ℓ where
  found : A → Query A
  query_failed : (message : String) → Query A

abbrev pub lesson_or_error : Locale → Option GrammarDetail → Result GrammarLesson
lesson_or_error loc none = err (app (not_found_error "Grammar lesson not found"))
lesson_or_error loc (some point) = ok (to_review_grammar_lesson_dto loc point)

-- `grammarPoint.findUnique` among the points, and what follows it.
unfoldable pub read_lesson : Locale → Query (List GrammarDetail) → String → Result GrammarLesson
unfolding to_review_grammar_lesson_dto
read_lesson loc (found points) id = lesson_or_error loc (find (λ g. str_eq g.id id) points)
read_lesson loc (query_failed message) id = err (other message)

-- GET /grammar/lessons/:id, with the `Authorization` header of the request.
unfoldable pub get_lesson :
    (String → Option (Option Json))
    → Option String
    → Locale
    → Query (List GrammarDetail)
    → String
    → Result GrammarLesson
unfolding require_auth read_lesson
get_lesson decode authorization loc points id =
    require_auth decode authorization (λ _. read_lesson loc points id)
