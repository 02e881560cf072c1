-- ===== src/Materials/ReviewLaws.antt =====
-- The routes of one grammar section and of flashcards.
use ai_agentic_english.Prelude.{
  append-nil, append_assoc, ◌<◌, String, Bool, true, Option, none, some, List, [], ◌∷◌, ◌++◌, map,
  any, find, filter, ◌≡◌, refl, sym, ap, ◌∙◌, arith, length, All, if◌then◌else◌, if_both, if_false,
  if_true, str_eq, eq_iff, Bool-cases, inl, inr,
}
use mathlib.Core.Path.{subst}
use ai_agentic_english.Prelude.Dict.{get, set}
use ai_agentic_english.Prelude.Sort.{sort}
use ai_agentic_english.Shared.Effect.{Result, ok}
use ai_agentic_english.Materials.Titles.{Locale, to_review_category_id}
use ai_agentic_english.Materials.Mappers.{
  GrammarRow, LessonSummary, Section, to_review_grammar_lesson_summary_dto, group_lessons,
  category_le, to_section, to_review_grammar_sections_dto,
}
use ai_agentic_english.Materials.SectionLaws.{add_here}
use ai_agentic_english.Materials.Review.{
  get_grammar_sections, find_category_by_category_id, get_section_of, get_section, section_or_error,
  section_not_found,
}

-- Points of one category make one group.
group_lessons-same :
    (loc : Locale) (c : String) (ls : List LessonSummary) (rows : List GrammarRow)
    → All (λ g. g.category ≡ c) rows
    → group_lessons loc rows ((c, ls) ∷ [])
      ≡ (c, ls ++ map (to_review_grammar_lesson_summary_dto loc) rows) ∷ []
unfolding group_lessons
group_lessons-same loc c ls [] h = ap (λ xs. (c, xs) ∷ []) (sym (append-nil ls))
group_lessons-same loc c ls (g ∷ rows) (e, h) =
    let l : LessonSummary = to_review_grammar_lesson_summary_dto loc g in
    ap (group_lessons loc rows)
      (sym (add_here c g.category ls [] l ((eq_iff c g.category).1 (sym e))))
    ∙ group_lessons-same loc c (ls ++ l ∷ []) rows h
    ∙ ap (λ xs. (c, xs) ∷ [])
        (append_assoc ls (l ∷ []) (map (to_review_grammar_lesson_summary_dto loc) rows))

filter-category :
    (c : String) (rows : List GrammarRow)
    → All (λ g. g.category ≡ c) (filter (λ g. str_eq g.category c) rows)
filter-category c [] = tt
filter-category c (g ∷ rows) =
    if_both (All (λ g. g.category ≡ c)) (str_eq g.category c)
      (λ e. ((eq_iff g.category c).0 e, filter-category c rows)) (λ _. filter-category c rows)

sections-same :
    (loc : Locale) (c : String) (g : GrammarRow) (rows : List GrammarRow)
    → All (λ g. g.category ≡ c) (g ∷ rows)
    → to_review_grammar_sections_dto loc (g ∷ rows)
      ≡ to_section loc (c, map (to_review_grammar_lesson_summary_dto loc) (g ∷ rows)) ∷ []
unfolding to_review_grammar_sections_dto group_lessons get set sort
sections-same loc c g rows (e, h) =
    let l : LessonSummary = to_review_grammar_lesson_summary_dto loc g in
    ap (λ m. map (to_section loc) (sort (category_le loc) m))
      (ap (λ k. group_lessons loc rows ((k, l ∷ []) ∷ [])) e
        ∙ group_lessons-same loc c (l ∷ []) rows h)

length-filter-any :
    {A : Type 0} (p : A → Bool) (xs : List A) → any p xs ≡ true → 0 < length (filter p xs)
length-filter-any p [] h = absurd cc
length-filter-any p (x ∷ xs) h = ground (arith, h, length-filter-any p xs)

-- The only section of one category's points is found under its id.
section_of :
    (loc : Locale) (c category_id : String) (rows : List GrammarRow)
    → any (λ g. str_eq g.category c) rows ≡ true
    → str_eq (to_review_category_id loc c) category_id ≡ true
    → find
        (λ s. str_eq s.id category_id)
        (to_review_grammar_sections_dto loc (filter (λ g. str_eq g.category c) rows))
      ≡ some (
          to_section loc (
            c,
            map (to_review_grammar_lesson_summary_dto loc) (filter (λ g. str_eq g.category c) rows),
          ))
unfolding to_section
section_of loc c category_id rows h e =
    go (filter (λ g. str_eq g.category c) rows) (filter-category c rows)
      (length-filter-any (λ g. str_eq g.category c) rows h)
  where
    go :
        (own : List GrammarRow)
        → All (λ g. g.category ≡ c) own
        → 0 < length own
        → find (λ s. str_eq s.id category_id) (to_review_grammar_sections_dto loc own)
          ≡ some (to_section loc (c, map (to_review_grammar_lesson_summary_dto loc) own))
    go [] a l = absurd (omega (arith, l))
    go (g ∷ own) a l =
        ap (find (λ s. str_eq s.id category_id)) (sections-same loc c g own a)
        ∙ if_true (str_eq (to_review_category_id loc c) category_id) _ _ e

find-All :
    {A : Type 0} (P : A → Type 0) (p : A → Bool) (xs : List A) (x : A)
    → All P xs
    → find p xs ≡ some x
    → P x × (p x ≡ true)
find-All P p [] x h = λ e. absurd cc
find-All P p (y ∷ xs) x (q, h) =
    if_both (λ (o : Option _). o ≡ some x → P x × (p x ≡ true)) (p y)
      (λ t e. (subst P (some_inj e) q, subst (λ z. p z ≡ true) (some_inj e) t))
      (λ _. find-All P p xs x h)
  where
    some_inj : {A : Type 0} {a b : A} → some a ≡ some b → a ≡ b
    some_inj e = cc

-- The answer for the category of an id: its section, which holds its points and no others.
abbrev pub section_answer : Locale → List GrammarRow → Option String → Result Section
section_answer loc rows none = section_not_found
section_answer loc rows (some c) =
    if str_eq c ""
    then section_not_found
    else ok (
        to_section loc (
          c,
          map (to_review_grammar_lesson_summary_dto loc) (filter (λ g. str_eq g.category c) rows),
        ))

get_section_of-some :
    (loc : Locale) (rows : List GrammarRow) (category_id c : String)
    → any (λ g. str_eq g.category c) rows ≡ true
    → str_eq (to_review_category_id loc c) category_id ≡ true
    → get_section_of loc rows category_id (some c) ≡ section_answer loc rows (some c)
unfolding get_section_of get_grammar_sections
get_section_of-some loc rows category_id c h e = elim (Bool-cases (str_eq c "")) [
  | inl y ↦ if_true (str_eq c "") _ _ y ∙ sym (if_true (str_eq c "") _ _ y)
  | inr n ↦
      if_false (str_eq c "") _ _ n
      ∙ ap
          (λ own.
            section_or_error
              (find (λ s. str_eq s.id category_id) (to_review_grammar_sections_dto loc own)))
          (if_false (str_eq c "") rows (filter (λ g. str_eq g.category c) rows) n)
      ∙ ap section_or_error (section_of loc c category_id rows h e)
      ∙ sym (if_false (str_eq c "") _ _ n)
]

-- Where every listed category is one of a grammar point, the route of a section answers the section
-- of the first listed category with that id, made of all points of the category and no others, and
-- that it is not found if no listed category has the id or the category is the empty text.
pub get_section_lem :
    (loc : Locale) (categories : List String) (rows : List GrammarRow) (category_id : String)
    → All (λ c. any (λ g. str_eq g.category c) rows ≡ true) categories
    → get_section loc categories rows category_id
      ≡ section_answer loc rows (find_category_by_category_id loc categories category_id)
unfolding get_section get_section_of find_category_by_category_id
get_section_lem loc categories rows category_id h =
    go (find_category_by_category_id loc categories category_id) refl
  where
    go :
        (o : Option String)
        → find_category_by_category_id loc categories category_id ≡ o
        → get_section_of loc rows category_id o ≡ section_answer loc rows o
    go none e = refl
    go (some c) e =
        let (listed, same) =
          find-All (λ c. any (λ g. str_eq g.category c) rows ≡ true) _ categories c h e in
        get_section_of-some loc rows category_id c listed same
