-- ===== src/Materials/SectionLaws.antt =====
-- The grammar sections hold every grammar point once, each under its category.
use ai_agentic_english.Prelude.{
  append-nil, append_assoc, String, Bool, true, false, List, [], ◌∷◌, ◌++◌, map, ◌≡◌, refl, sym, ap,
  ◌∙◌, length, All, All-append, if_both, str_eq, eq_iff, get_or, Bool-cases, inl, inr,
}
use mathlib.Core.Path.{subst}
use mathlib.Core.List.{Perm, perm_middle}
use mathlib.Core.List.Perm
use ai_agentic_english.Prelude.Dict.{Dict, get, set}
use ai_agentic_english.Prelude.Sort.{sort, insert, sort-perm, sort-All}
use ai_agentic_english.Materials.Titles.{Locale, to_review_category_id}
use ai_agentic_english.Materials.Mappers.{
  GrammarRow, LessonSummary, Section, to_review_grammar_lesson_summary_dto, group_lessons,
  lesson_le, to_section, category_le, to_review_grammar_sections_dto,
}

module _ {A B : Type 0} (f : A → List B) where
  abbrev pub concat_map : List A → List B
  concat_map [] = []
  concat_map (x ∷ xs) = f x ++ concat_map xs

module _ {A B : Type 0} (f : A → List B) (le : A → A → Bool) where
  swap_front : (xs ys zs : List B) → Perm (xs ++ (ys ++ zs)) (ys ++ (xs ++ zs))
  swap_front [] ys zs = Perm.rfl
  swap_front (x ∷ xs) ys zs =
      Perm.trans (Perm.cons x (swap_front xs ys zs)) (Perm.symm (perm_middle ys (xs ++ zs)))

  insert-concat_map :
      (x : A) (xs : List A) → Perm (concat_map f (insert le x xs)) (f x ++ concat_map f xs)
  unfolding insert
  insert-concat_map x [] = Perm.rfl
  insert-concat_map x (y ∷ ys) =
      if_both (λ zs. Perm (concat_map f zs) (f x ++ (f y ++ concat_map f ys))) (le x y)
        (λ _. Perm.rfl)
        (λ _.
          Perm.trans (Perm.append_left (f y) (insert-concat_map x ys))
            (swap_front (f y) (f x) (concat_map f ys)))

  sort-concat_map : (xs : List A) → Perm (concat_map f (sort le xs)) (concat_map f xs)
  unfolding sort
  sort-concat_map [] = Perm.rfl
  sort-concat_map (x ∷ xs) =
      Perm.trans (insert-concat_map x (sort le xs)) (Perm.append_left (f x) (sort-concat_map xs))

abbrev values : Dict (List LessonSummary) → List LessonSummary
values = concat_map (λ e. e.1)

-- A lesson joins the entry of its category, or a new one.
abbrev pub add : String → LessonSummary → Dict (List LessonSummary) → Dict (List LessonSummary)
add k l m = set k (get_or (get k m) [] ++ l ∷ []) m

module _ (j k : String) (ls : List LessonSummary) (m : Dict (List LessonSummary)) where
  get_there : str_eq j k ≡ false → get k ((j, ls) ∷ m) ≡ get k m
  unfolding get
  get_there e = rw e refl

  set_there :
      (v : List LessonSummary) → str_eq j k ≡ false → set k v ((j, ls) ∷ m) ≡ (j, ls) ∷ set k v m
  unfolding set
  set_there v e = rw e refl

  add_there : (l : LessonSummary) → str_eq j k ≡ false → (j, ls) ∷ add k l m ≡ add k l ((j, ls) ∷ m)
  add_there l e =
      sym (ap (λ o. set k (get_or o [] ++ l ∷ []) ((j, ls) ∷ m)) (get_there e) ∙ set_there _ e)

  pub add_here :
      (l : LessonSummary) → str_eq j k ≡ true → (j, ls ++ l ∷ []) ∷ m ≡ add k l ((j, ls) ∷ m)
  unfolding get set
  add_here l e = rw e refl

values-add :
    (k : String) (l : LessonSummary) (m : Dict (List LessonSummary))
    → Perm (values (add k l m)) (l ∷ values m)
unfolding get set
values-add k l [] = Perm.rfl
values-add k l ((j, ls) ∷ m) = elim (Bool-cases (str_eq j k)) [
  | inl e ↦
      subst (λ n. Perm (values n) (l ∷ (ls ++ values m))) (add_here j k ls m l e)
        (rw append_assoc (perm_middle ls (values m)))
  | inr e ↦
      subst (λ n. Perm (values n) (l ∷ (ls ++ values m))) (add_there j k ls m l e)
        (Perm.trans (Perm.append_left ls (values-add k l m)) (perm_middle ls (values m)))
]

group_lessons-values :
    (loc : Locale) (rows : List GrammarRow) (m : Dict (List LessonSummary))
    → Perm
        (values (group_lessons loc rows m))
        (map (to_review_grammar_lesson_summary_dto loc) rows ++ values m)
unfolding group_lessons
group_lessons-values loc [] m = Perm.rfl
group_lessons-values loc (row ∷ rows) m = Perm.trans (group_lessons-values loc rows _) (
    Perm.trans
      (Perm.append_left _
        (values-add row.category (to_review_grammar_lesson_summary_dto loc row) m))
      (perm_middle (map (to_review_grammar_lesson_summary_dto loc) rows) (values m)))

abbrev pub lessons_of : List Section → List LessonSummary
lessons_of = concat_map (λ s. s.lessons)

map-to_section :
    (loc : Locale) (es : Dict (List LessonSummary))
    → Perm (lessons_of (map (to_section loc) es)) (values es)
unfolding to_section
map-to_section loc [] = Perm.rfl
map-to_section loc ((category, lessons) ∷ es) =
    Perm.append (sort-perm (lesson_le loc) lessons) (map-to_section loc es)

sections-perm :
    (loc : Locale) (rows : List GrammarRow)
    → Perm
        (lessons_of (to_review_grammar_sections_dto loc rows))
        (map (to_review_grammar_lesson_summary_dto loc) rows)
unfolding to_review_grammar_sections_dto
sections-perm loc rows =
    Perm.trans (map-to_section loc (sort (category_le loc) (group_lessons loc rows []))) (
      Perm.trans (sort-concat_map (λ e. e.1) (category_le loc) (group_lessons loc rows [])) (
        subst (Perm (values (group_lessons loc rows [])))
          (append-nil (map (to_review_grammar_lesson_summary_dto loc) rows))
          (group_lessons-values loc rows [])))

-- The lessons of an entry are of its category.
abbrev IsOwn : String × List LessonSummary → Type 0
IsOwn e = All (λ l. l.category ≡ e.0) e.1

add-IsOwn :
    (loc : Locale) (row : GrammarRow) (m : Dict (List LessonSummary))
    → All IsOwn m
    → All IsOwn (add row.category (to_review_grammar_lesson_summary_dto loc row) m)
unfolding get set to_review_grammar_lesson_summary_dto
add-IsOwn loc row [] h = ((refl, tt), tt)
add-IsOwn loc row ((j, ls) ∷ m) (h, hs) = elim (Bool-cases (str_eq j row.category)) [
  | inl e ↦
      subst (All IsOwn) (add_here j row.category ls m _ e)
        (All-append (λ l. l.category ≡ j) ls _ h (sym ((eq_iff j row.category).0 e), tt), hs)
  | inr e ↦ subst (All IsOwn) (add_there j row.category ls m _ e) (h, add-IsOwn loc row m hs)
]

group_lessons-IsOwn :
    (loc : Locale) (rows : List GrammarRow) (m : Dict (List LessonSummary))
    → All IsOwn m
    → All IsOwn (group_lessons loc rows m)
unfolding group_lessons
group_lessons-IsOwn loc [] m h = h
group_lessons-IsOwn loc (row ∷ rows) m h = group_lessons-IsOwn loc rows _ (add-IsOwn loc row m h)

-- What a section says of itself is so.
pub record IsSection (loc : Locale) (s : Section) : Type 0 where
  pub id : s.id ≡ to_review_category_id loc s.category
  pub lesson_count : s.lesson_count ≡ length s.lessons
  pub own : All (λ l. l.category ≡ s.category) s.lessons

to_section-IsSection :
    (loc : Locale) (e : String × List LessonSummary) → IsOwn e → IsSection loc (to_section loc e)
unfolding to_section
to_section-IsSection loc (category, lessons) h = record {
  id = refl;
  lesson_count = refl;
  own = sort-All (lesson_le loc) (λ l. l.category ≡ category) lessons h;
}

map-IsSection :
    (loc : Locale) (es : Dict (List LessonSummary))
    → All IsOwn es
    → All (IsSection loc) (map (to_section loc) es)
map-IsSection loc [] h = tt
map-IsSection loc (e ∷ es) (h, hs) = (to_section-IsSection loc e h, map-IsSection loc es hs)

-- The sections hold the summary of every grammar point exactly as often as it is listed, and each
-- section has the id of its category, the number of its lessons, and lessons of its category only.
pub to_review_grammar_sections_dto_lem :
    (loc : Locale) (rows : List GrammarRow)
    → Perm
        (lessons_of (to_review_grammar_sections_dto loc rows))
        (map (to_review_grammar_lesson_summary_dto loc) rows)
      × All (IsSection loc) (to_review_grammar_sections_dto loc rows)
unfolding to_review_grammar_sections_dto
to_review_grammar_sections_dto_lem loc rows = (
  sections-perm loc rows,
  map-IsSection loc _ (
      sort-All (category_le loc) IsOwn (group_lessons loc rows [])
        (group_lessons-IsOwn loc rows [] tt)),
)
