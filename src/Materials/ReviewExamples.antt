-- ===== src/Materials/ReviewExamples.antt =====
-- Three grammar points in two categories, and a word with two senses.
use ai_agentic_english.Prelude.{
  ◌≤◌, String, true, Option, none, some, List, [], ◌∷◌, map, ◌≡◌, refl, length, All,
}
use mathlib.Core.List.{Perm}
use ai_agentic_english.Prelude.Int.{pos}
use ai_agentic_english.Shared.Effect.{ok}
use ai_agentic_english.Shared.Json.{text}
use ai_agentic_english.Materials.Titles.{Locale, to_review_category_id, to_title_case}
use ai_agentic_english.Materials.Mappers.{
  GrammarRow, to_review_grammar_lesson_summary_dto, to_review_grammar_sections_dto, VocabRow,
  Flashcard, to_review_flashcard_dto,
}
use ai_agentic_english.Materials.Review.{
  max_limit, parse_cefr_level, get_flashcards, find_category_by_category_id, get_section,
}
use ai_agentic_english.Materials.SectionLaws.{
  lessons_of, IsSection, to_review_grammar_sections_dto_lem,
}
use ai_agentic_english.Materials.ReviewLaws.{section_answer, get_section_lem}
use ai_agentic_english.Materials.FlashcardLaws.{IsOf, get_flashcards-ok}

-- Texts that are in lower case already, in upper case already, and in order.
abbrev loc : Locale
loc = record { to_lower_case = λ s. s; to_upper_case = λ s. s; sorts_before = λ a b. true }

abbrev point : String → String → GrammarRow
point id category = record {
  id = id;
  category = category;
  title = id;
  cefr_level = "A1";
  explanation = "";
  example_count = 0;
}

abbrev points : List GrammarRow
points = point "g1" "past tenses" ∷ point "g2" "articles" ∷ point "g3" "past tenses" ∷ []

to_review_grammar_sections_dto_lem_example :
    Perm
      (lessons_of (to_review_grammar_sections_dto loc points))
      (map (to_review_grammar_lesson_summary_dto loc) points)
    × All (IsSection loc) (to_review_grammar_sections_dto loc points)
to_review_grammar_sections_dto_lem_example = to_review_grammar_sections_dto_lem loc points

get_section_lem_example :
    get_section loc ("articles" ∷ "past tenses" ∷ []) points "past-tenses"
    ≡ section_answer loc points
        (find_category_by_category_id loc ("articles" ∷ "past tenses" ∷ []) "past-tenses")
get_section_lem_example =
    get_section_lem loc ("articles" ∷ "past tenses" ∷ []) points "past-tenses" (refl, (refl, tt))

category_found :
    find_category_by_category_id loc ("articles" ∷ "past tenses" ∷ []) "past-tenses"
    ≡ some "past tenses"
unfolding find_category_by_category_id
category_found = refl

section_title : to_title_case loc " past-tenses  of be" ≡ "past tenses of be"
unfolding to_title_case
section_title = refl

-- Two categories with one id.
same_id : to_review_category_id loc " past tenses!" ≡ to_review_category_id loc "past-tenses"
unfolding to_review_category_id
same_id = refl

abbrev run_word : VocabRow
run_word = record {
  id = "v1";
  lemma = "run";
  pos = "verb";
  cefr_level = "A1";
  domain_tag = none;
  source = "";
  license = "";
  senses =
      record { sense_rank = 2; definition = "to manage"; example = none }
      ∷ record { sense_rank = 1; definition = "to move fast"; example = none }
      ∷ [];
  pronunciations = [];
}

abbrev cards : List Flashcard
cards = to_review_flashcard_dto run_word ∷ []

get_flashcards-ok_example :
    (length cards ≤ max_limit)
    × ((level : Option String) × (parse_cefr_level loc (some (text "A1")) ≡ ok level)
        × All (IsOf level) cards)
unfolding get_flashcards
get_flashcards-ok_example =
    get_flashcards-ok loc (run_word ∷ []) (some (text "A1")) (some (pos 500)) cards refl

first_sense : (to_review_flashcard_dto run_word).definition ≡ some "to move fast"
unfolding to_review_flashcard_dto
first_sense = refl
