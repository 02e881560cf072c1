-- ===== src/ReviewCenter/Api.antt =====
-- _lib/review-api.ts: what the pages of the review center are given. The answer of
-- `serverApiFetch` is an argument of each function.
use Prim.Native.String.{String, [], ◌∷◌}
use ai_agentic_english.Prelude.{
  ℕ, suc, ◌%◌, Bool, false, ◌||◌, Option, none, some, List, map, ◌==◌, if◌then◌else◌, str_eq,
  is_some, get_elem?, get_or,
}
use ai_agentic_english.Shared.Trim.{strip_prefix}
use ai_agentic_english.Materials.Titles.{Locale}
use ai_agentic_english.Materials.Mappers

-- `includes`.
unfoldable pub contains : String → String → Bool
unfolding strip_prefix
contains part [] = is_some (strip_prefix part [])
contains part (c ∷ s) = is_some (strip_prefix part (c ∷ s)) || contains part s

pub data Fetched {ℓ} (A : Type ℓ) : Type ℓ where
  answered : A → Fetched A
  api_error : (status : ℕ) → Fetched A
  type_error : (message : String) → Fetched A
  other_error : Fetched A

unfoldable pub is_review_api_unavailable : {A : Type 0} → Fetched A → Bool
unfolding contains
is_review_api_unavailable (answered a) = false
is_review_api_unavailable (api_error status) = status == 404
is_review_api_unavailable (type_error message) =
    contains "API request failed before reaching the gateway" message
is_review_api_unavailable other_error = false

-- The result where the request was answered, the fallback where the API is unavailable, and none
-- where the error is thrown on.
unfoldable pub or_unavailable : {A B : Type 0} → (A → B) → B → Fetched A → Option B
unfolding is_review_api_unavailable
or_unavailable f fallback (answered a) = some (f a)
or_unavailable f fallback e = if is_review_api_unavailable e then some fallback else none

pub data GrammarDifficulty : Type 0 where
  beginner : GrammarDifficulty
  intermediate : GrammarDifficulty
  advanced : GrammarDifficulty

unfoldable pub difficulty_from_cefr : String → GrammarDifficulty
difficulty_from_cefr level =
    if str_eq level "A1" || str_eq level "A2"
    then beginner
    else (if str_eq level "B1" || str_eq level "B2" then intermediate else advanced)

abbrev icon_of : String → String
icon_of normalized =
    if contains "tense" normalized || contains "verb" normalized
    then "schedule"
    else (if contains "question" normalized
        then "help"
        else (if contains "clause" normalized || contains "relative" normalized
            then "account_tree"
            else (if contains "modal" normalized
                then "tune"
                else (if contains "noun" normalized || contains "pronoun" normalized
                    then "label"
                    else (if contains "comparison" normalized
                        then "compare_arrows"
                        else "menu_book")))))

unfoldable pub icon_for_grammar_category : Locale → String → String
unfolding contains
icon_for_grammar_category loc category = icon_of (loc.to_lower_case category)

pub record LessonExample : Type 0 where
  pub id : String
  pub text : String
  pub note : Option String

pub record Lesson : Type 0 where
  pub id : String
  pub category_id : String
  pub category : String
  pub title : String
  pub description : String
  pub difficulty : GrammarDifficulty
  pub cefr_level : String
  pub example_count : ℕ
  pub icon : String
  pub examples : Option (List LessonExample)
  pub source : Option String
  pub license : Option String

-- A lesson of a section has no examples, source or license.
unfoldable pub map_lesson_summary : Locale → Mappers.LessonSummary → Lesson
unfolding difficulty_from_cefr icon_for_grammar_category
map_lesson_summary loc l = record {
  id = l.id;
  category_id = l.category_id;
  category = l.category;
  title = l.title;
  description = l.explanation;
  difficulty = difficulty_from_cefr l.cefr_level;
  cefr_level = l.cefr_level;
  example_count = l.example_count;
  icon = icon_for_grammar_category loc l.category;
  examples = none;
  source = none;
  license = none;
}

abbrev map_example : Mappers.GrammarExample → LessonExample
map_example e = record { id = e.id; text = e.sentence; note = e.note }

unfoldable pub map_grammar_lesson : Locale → Mappers.GrammarLesson → Lesson
unfolding map_lesson_summary
map_grammar_lesson loc l = record (map_lesson_summary loc l.summary) {
  examples = some (map map_example l.examples);
  source = some l.source;
  license = some l.license;
}

pub record SectionView : Type 0 where
  pub id : String
  pub category : String
  pub title : String
  pub marker_class : String
  pub cefr_levels : List String
  pub lessons : List Lesson

abbrev grammar_markers : List String
grammar_markers = List.◌∷◌ "bg-primary" (
    List.◌∷◌ "bg-secondary" (
      List.◌∷◌ "bg-tertiary"
        (List.◌∷◌ "bg-orange-700" (List.◌∷◌ "bg-error" (List.◌∷◌ "bg-outline" List.[])))))

unfoldable pub map_grammar_section : Locale → ℕ → Mappers.Section → SectionView
unfolding map_lesson_summary
map_grammar_section loc index s = record {
  id = s.id;
  category = s.category;
  title = s.title;
  marker_class = get_or (get_elem? grammar_markers (index % 6)) "";
  cefr_levels = s.cefr_levels;
  lessons = map (map_lesson_summary loc) s.lessons;
}

unfoldable pub map_sections_from : Locale → ℕ → List Mappers.Section → List SectionView
unfolding map_grammar_section
map_sections_from loc index List.[] = List.[]
map_sections_from loc index (List.◌∷◌ s ss) =
    List.◌∷◌ (map_grammar_section loc index s) (map_sections_from loc (suc index) ss)

unfoldable pub get_review_grammar_sections :
    Locale → Fetched (List Mappers.Section) → Option (List SectionView)
unfolding or_unavailable map_sections_from
get_review_grammar_sections loc = or_unavailable (map_sections_from loc 0) List.[]

abbrev some_section : Locale → Mappers.Section → Option SectionView
some_section loc s = some (map_grammar_section loc 0 s)

unfoldable pub get_review_grammar_category :
    Locale → Fetched Mappers.Section → Option (Option SectionView)
unfolding or_unavailable map_grammar_section
get_review_grammar_category loc = or_unavailable (some_section loc) none

abbrev pub lesson_in : Locale → String → Mappers.GrammarLesson → Option Lesson
lesson_in loc category_id l =
    if str_eq l.summary.category_id category_id then some (map_grammar_lesson loc l) else none

unfoldable pub get_review_grammar_lesson :
    Locale → String → Fetched Mappers.GrammarLesson → Option (Option Lesson)
unfolding or_unavailable map_grammar_lesson
get_review_grammar_lesson loc category_id = or_unavailable (lesson_in loc category_id) none
