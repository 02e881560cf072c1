-- ===== src/Materials/Mappers.antt =====
-- services/learning-materials-service/src/lib/mappers.ts: the grammar sections and flashcards that
-- the review routes answer.
use Prim.Native.String
use ai_agentic_english.Prelude.{
  ℕ, String, suc, Bool, Option, none, some, List, [], ◌∷◌, ◌++◌, length, find, map, any, head?, leb,
  ◌==◌, if◌then◌else◌, str_eq, get_or, or_else,
}
use ai_agentic_english.Prelude.Dict.{Dict, get, set}
use ai_agentic_english.Prelude.Sort.{sort}
use ai_agentic_english.Materials.Titles.{Locale, to_review_category_id, to_title_case}

-- A grammar point as the list of sections reads it, with the number of its examples.
pub record GrammarRow : Type 0 where
  pub id : String
  pub category : String
  pub title : String
  pub cefr_level : String
  pub explanation : String
  pub example_count : ℕ

pub record LessonSummary : Type 0 where
  pub id : String
  pub category_id : String
  pub category : String
  pub title : String
  pub cefr_level : String
  pub explanation : String
  pub example_count : ℕ

pub record Section : Type 0 where
  pub id : String
  pub category : String
  pub title : String
  pub lesson_count : ℕ
  pub cefr_levels : List String
  pub lessons : List LessonSummary

abbrev pub review_cefr_levels : List String
review_cefr_levels = "A1" ∷ "A2" ∷ "B1" ∷ "B2" ∷ "C1" ∷ "C2" ∷ []

unfoldable pub is_review_cefr_level : String → Bool
is_review_cefr_level value = any (λ l. str_eq l value) review_cefr_levels

-- `indexOf` and 1, so that a text that is no level is 0.
abbrev pub place_in : ℕ → String → List String → ℕ
place_in i value [] = 0
place_in i value (l ∷ ls) = if str_eq l value then suc i else place_in (suc i) value ls

unfoldable pub level_place : String → ℕ
level_place value = place_in 0 value review_cefr_levels

-- `compareCefrLevel(a, b) <= 0`.
unfoldable pub level_le : String → String → Bool
unfolding level_place
level_le a b = leb (level_place a) (level_place b)

module _ (loc : Locale) where
  unfoldable pub to_review_grammar_lesson_summary_dto : GrammarRow → LessonSummary
  unfolding to_review_category_id
  to_review_grammar_lesson_summary_dto g = record {
    id = g.id;
    category_id = to_review_category_id loc g.category;
    category = g.category;
    title = g.title;
    cefr_level = g.cefr_level;
    explanation = g.explanation;
    example_count = g.example_count;
  }

  unfoldable pub group_lessons :
      List GrammarRow → Dict (List LessonSummary) → Dict (List LessonSummary)
  unfolding to_review_grammar_lesson_summary_dto get set
  group_lessons [] grouped = grouped
  group_lessons (row ∷ rows) grouped = group_lessons rows (
      set row.category
        (get_or (get row.category grouped) [] ++ to_review_grammar_lesson_summary_dto row ∷ [])
        grouped)

  unfoldable pub lesson_le : LessonSummary → LessonSummary → Bool
  unfolding level_place
  lesson_le a b =
      if level_place a.cefr_level == level_place b.cefr_level
      then loc.sorts_before a.title b.title
      else leb (level_place a.cefr_level) (level_place b.cefr_level)

  unfoldable pub distinct_levels : List String → List String → List String
  distinct_levels seen [] = []
  distinct_levels seen (l ∷ ls) =
      let rest = distinct_levels (l ∷ seen) ls in
      if any (λ s. str_eq s l) seen then rest else l ∷ rest

  unfoldable pub to_section : String × List LessonSummary → Section
  unfolding sort lesson_le distinct_levels level_le to_review_category_id to_title_case
  to_section (category, lessons) =
      let sorted_lessons = sort lesson_le lessons in
      record {
        id = to_review_category_id loc category;
        category = category;
        title = to_title_case loc category;
        lesson_count = length sorted_lessons;
        cefr_levels = sort level_le (distinct_levels [] (map (λ l. l.cefr_level) sorted_lessons));
        lessons = sorted_lessons;
      }

  abbrev pub category_le : String × List LessonSummary → String × List LessonSummary → Bool
  category_le a b = loc.sorts_before a.0 b.0

  unfoldable pub to_review_grammar_sections_dto : List GrammarRow → List Section
  unfolding group_lessons to_section sort
  to_review_grammar_sections_dto rows = map to_section (sort category_le (group_lessons rows []))

pub record Sense : Type 0 where
  pub sense_rank : ℕ
  pub definition : String
  pub example : Option String

pub record Pronunciation : Type 0 where
  pub ipa : String
  pub is_primary : Bool

pub record VocabRow : Type 0 where
  pub id : String
  pub lemma : String
  pub pos : String
  pub cefr_level : String
  pub domain_tag : Option String
  pub source : String
  pub license : String
  pub senses : List Sense
  pub pronunciations : List Pronunciation

pub record Flashcard : Type 0 where
  pub id : String
  pub topic_id : String
  pub term : String
  pub part_of_speech : String
  pub definition : Option String
  pub example : Option String
  pub ipa : Option String
  pub cefr_level : String
  pub domain_tag : Option String
  pub source : String
  pub license : String

abbrev definition_of : Option Sense → Option String
definition_of none = none
definition_of (some s) = some s.definition

abbrev example_of : Option Sense → Option String
example_of none = none
example_of (some s) = s.example

abbrev ipa_of : Option Pronunciation → Option String
ipa_of none = none
ipa_of (some p) = some p.ipa

unfoldable pub to_review_flashcard_dto : VocabRow → Flashcard
unfolding sort
to_review_flashcard_dto v =
    let primary_sense = head? (sort (λ a b. leb a.sense_rank b.sense_rank) v.senses) in
    let primary_pronunciation =
      or_else (find (λ p. p.is_primary) v.pronunciations) (head? v.pronunciations) in
    record {
      id = v.id;
      topic_id = v.cefr_level;
      term = v.lemma;
      part_of_speech = v.pos;
      definition = definition_of primary_sense;
      example = example_of primary_sense;
      ipa = ipa_of primary_pronunciation;
      cefr_level = v.cefr_level;
      domain_tag = v.domain_tag;
      source = v.source;
      license = v.license;
    }

pub record FlashcardTopic : Type 0 where
  pub id : String
  pub cefr_level : String
  pub title : String
  pub description : Option String
  pub total_cards : ℕ

abbrev description_in : String → List (String × String) → Option String
description_in level [] = none
description_in level ((l, text) ∷ rest) =
    if str_eq l level then some text else description_in level rest

abbrev flashcard_topic_descriptions : List (String × String)
flashcard_topic_descriptions =
    ("A1", "Starter vocabulary from the seeded learning-materials catalog.")
    ∷ ("A2", "Everyday vocabulary for building confidence in common situations.")
    ∷ ("B1", "Intermediate vocabulary for work, study, and independent reading.")
    ∷ ("B2", "Upper-intermediate vocabulary for more precise communication.")
    ∷ ("C1", "Advanced vocabulary for nuanced professional and academic English.")
    ∷ ("C2", "Expert vocabulary for fluent, highly precise expression.")
    ∷ []

-- Of a level with the number of its words.
unfoldable pub to_review_flashcard_topic_dto : String × ℕ → FlashcardTopic
to_review_flashcard_topic_dto (level, count) = record {
  id = level;
  cefr_level = level;
  title = String.◌++◌ level " Vocabulary";
  description = description_in level flashcard_topic_descriptions;
  total_cards = count;
}

pub record GrammarExample : Type 0 where
  pub id : String
  pub sentence : String
  pub note : Option String

-- A grammar point with its examples; the times are in the form of `toISOString`.
pub record GrammarDetail : Type 0 where
  pub id : String
  pub category : String
  pub title : String
  pub cefr_level : String
  pub explanation : String
  pub examples : List GrammarExample
  pub source : String
  pub license : String
  pub created_at : String
  pub updated_at : String

pub record GrammarLesson : Type 0 where
  pub summary : LessonSummary
  pub examples : List GrammarExample
  pub source : String
  pub license : String
  pub created_at : String
  pub updated_at : String

unfoldable pub to_review_grammar_lesson_dto : Locale → GrammarDetail → GrammarLesson
unfolding to_review_category_id
to_review_grammar_lesson_dto loc g = record {
  summary = record {
    id = g.id;
    category_id = to_review_category_id loc g.category;
    category = g.category;
    title = g.title;
    cefr_level = g.cefr_level;
    explanation = g.explanation;
    example_count = length g.examples;
  };
  examples = g.examples;
  source = g.source;
  license = g.license;
  created_at = g.created_at;
  updated_at = g.updated_at;
}
