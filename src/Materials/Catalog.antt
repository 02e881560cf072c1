-- ===== src/Materials/Catalog.antt =====
-- GET /catalog/summary of services/learning-materials-service/src/routes/internal.ts. The modules,
-- with their lessons and the ids of their exercises, come in the order the query asks for.
use ai_agentic_english.Prelude.{ℕ, ◌+◌, String, List, [], ◌∷◌, ◌++◌, map, length}

pub record Lesson : Type 0 where
  pub id : String
  pub exercise_ids : List String

pub record Module : Type 0 where
  pub id : String
  pub title : String
  pub cefr_level : String
  pub skill_focus : String
  pub lessons : List Lesson

pub record ModuleSummary : Type 0 where
  pub id : String
  pub title : String
  pub cefr_level : String
  pub skill_focus : String
  pub lesson_count : ℕ
  pub exercise_count : ℕ
  pub lessons : List Lesson

pub record CatalogSummary : Type 0 where
  pub modules : List ModuleSummary
  pub total_modules : ℕ
  pub total_lessons : ℕ
  pub total_exercises : ℕ

-- `m.lessons.reduce((sum, l) => sum + l.exercises.length, 0)`.
unfoldable pub count_exercises : ℕ → List Lesson → ℕ
count_exercises acc [] = acc
count_exercises acc (l ∷ ls) = count_exercises (acc + length l.exercise_ids) ls

unfoldable pub summarize_module : Module → ModuleSummary
unfolding count_exercises
summarize_module m = record {
  id = m.id;
  title = m.title;
  cefr_level = m.cefr_level;
  skill_focus = m.skill_focus;
  lesson_count = length m.lessons;
  exercise_count = count_exercises 0 m.lessons;
  lessons = map (λ l. record { id = l.id; exercise_ids = l.exercise_ids }) m.lessons;
}

-- The map over the modules, which adds to the two totals as it goes.
unfoldable pub summarize_from : List Module → List ModuleSummary → ℕ → ℕ → CatalogSummary
unfolding summarize_module
summarize_from [] done lessons exercises = record {
  modules = done;
  total_modules = length done;
  total_lessons = lessons;
  total_exercises = exercises;
}
summarize_from (m ∷ ms) done lessons exercises =
    summarize_from ms (done ++ summarize_module m ∷ [])
      (lessons + (summarize_module m).lesson_count)
      (exercises + (summarize_module m).exercise_count)

unfoldable pub catalog_summary : List Module → CatalogSummary
unfolding summarize_from
catalog_summary modules = summarize_from modules [] 0 0
