-- ===== src/Materials/CatalogLaws.antt =====
-- The totals of the catalogue's summary are those of what it lists.
use ai_agentic_english.Prelude.{
  ℕ, ◌+◌, List, [], ◌∷◌, ◌++◌, ◌≡◌, refl, sym, ap, ◌∙◌, arith, map, length, length-append, sum,
}
use ai_agentic_english.Materials.Catalog.{
  Lesson, Module, ModuleSummary, count_exercises, summarize_module, summarize_from, catalog_summary,
}

-- The lessons and the exercises that a list of modules holds.
abbrev pub lessons_in : List Module → ℕ
lessons_in ms = sum (map (λ m. length m.lessons) ms)

abbrev pub exercises_in : List Module → ℕ
exercises_in ms = sum (map (λ m. sum (map (λ l. length l.exercise_ids) m.lessons)) ms)

count_exercises_lem :
    (acc : ℕ) (ls : List Lesson)
    → count_exercises acc ls ≡ acc + sum (map (λ l. length l.exercise_ids) ls)
unfolding count_exercises
count_exercises_lem acc [] = omega arith
count_exercises_lem acc (l ∷ ls) =
    omega (arith, count_exercises_lem (acc + length l.exercise_ids) ls)

append-snoc :
    (done : List ModuleSummary) (x : ModuleSummary) (rest : List ModuleSummary)
    → (done ++ x ∷ []) ++ rest ≡ done ++ x ∷ rest
append-snoc [] x rest = refl
append-snoc (y ∷ done) x rest = ap (λ ys. y ∷ ys) (append-snoc done x rest)

append-nil : (xs : List ModuleSummary) → xs ++ [] ≡ xs
append-nil [] = refl
append-nil (x ∷ xs) = ap (λ ys. x ∷ ys) (append-nil xs)

modules-summarize_from :
    (ms : List Module) (done : List ModuleSummary) (a b : ℕ)
    → (summarize_from ms done a b).modules ≡ done ++ map summarize_module ms
unfolding summarize_from
modules-summarize_from [] done a b = sym (append-nil done)
modules-summarize_from (m ∷ ms) done a b =
    modules-summarize_from ms (done ++ summarize_module m ∷ []) _ _
    ∙ append-snoc done (summarize_module m) (map summarize_module ms)

totals-summarize_from :
    (ms : List Module) (done : List ModuleSummary) (a b : ℕ)
    → ((summarize_from ms done a b).total_modules ≡ length done + length ms)
      × ((summarize_from ms done a b).total_lessons ≡ a + lessons_in ms)
      × ((summarize_from ms done a b).total_exercises ≡ b + exercises_in ms)
unfolding summarize_from summarize_module
totals-summarize_from [] done a b = (omega arith, omega arith, omega arith)
totals-summarize_from (m ∷ ms) done a b =
    let (k, l, e) =
      totals-summarize_from ms (done ++ summarize_module m ∷ []) (a + length m.lessons)
        (b + count_exercises 0 m.lessons) in
    (
      omega (arith, k, length-append done (summarize_module m ∷ [])),
      omega (arith, l),
      omega (arith, e, count_exercises_lem 0 m.lessons),
    )

-- The summary lists every module in order, and its three totals are the numbers of modules, of
-- lessons and of exercises in the catalogue.
pub catalog_summary_lem :
    (ms : List Module)
    → ((catalog_summary ms).modules ≡ map summarize_module ms)
      × ((catalog_summary ms).total_modules ≡ length ms)
      × ((catalog_summary ms).total_lessons ≡ lessons_in ms)
      × ((catalog_summary ms).total_exercises ≡ exercises_in ms)
unfolding catalog_summary
catalog_summary_lem ms =
    let (k, l, e) = totals-summarize_from ms [] 0 0 in
    (modules-summarize_from ms [] 0 0, omega (arith, k), omega (arith, l), omega (arith, e))
