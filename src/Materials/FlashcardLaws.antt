-- ===== src/Materials/FlashcardLaws.antt =====
-- The flashcards that the review routes answer.
use ai_agentic_english.Prelude.{
  ℕ, zero, suc, ◌≤◌, String, Option, none, some, List, [], ◌∷◌, map, take, filter, ◌≡◌, arith,
  length, length-map, All, if_both, str_eq, eq_iff, ltb,
}
use mathlib.Core.Path.{subst}
use ai_agentic_english.Prelude.Int.{ℤ, pos, negsuc}
use ai_agentic_english.Shared.Json.{Json}
use ai_agentic_english.Shared.Effect.{ok, and_then-eq-ok}
use ai_agentic_english.Materials.Titles.{Locale}
use ai_agentic_english.Materials.Mappers.{VocabRow, Flashcard, to_review_flashcard_dto}
use ai_agentic_english.Materials.Review.{
  max_limit, parse_limit, parse_cefr_level, of_level, get_flashcards,
}

parse_limit-le : (raw : Option ℤ) → parse_limit raw ≤ max_limit
unfolding parse_limit
parse_limit-le none = omega arith
parse_limit-le (some (negsuc n)) = omega arith
parse_limit-le (some (pos n)) =
    if_both (λ m. m ≤ max_limit) (ltb 0 n) (λ _. omega arith) (λ _. omega arith)

length-take_le : {A : Type 0} (n : ℕ) (xs : List A) → length (take n xs) ≤ n
length-take_le zero xs = omega arith
length-take_le (suc n) [] = omega arith
length-take_le (suc n) (x ∷ xs) = omega (arith, length-take_le n xs)

All-take : {A : Type 0} (P : A → Type 0) (n : ℕ) (xs : List A) → All P xs → All P (take n xs)
All-take P zero xs h = tt
All-take P (suc n) [] h = tt
All-take P (suc n) (x ∷ xs) (p, h) = (p, All-take P n xs h)

-- A card is of the level that was asked for, if one was.
abbrev pub IsOf : Option String → Flashcard → Type 0
IsOf none card = Unit
IsOf (some level) card = card.cefr_level ≡ level

abbrev IsRowOf : Option String → VocabRow → Type 0
IsRowOf none v = Unit
IsRowOf (some level) v = v.cefr_level ≡ level

filter-IsRowOf :
    (level : Option String) (rows : List VocabRow)
    → All (IsRowOf level) (filter (of_level level) rows)
filter-IsRowOf level [] = tt
filter-IsRowOf none (v ∷ rows) = (tt, filter-IsRowOf none rows)
filter-IsRowOf (some level) (v ∷ rows) =
    if_both (All (IsRowOf (some level))) (str_eq v.cefr_level level)
      (λ e. ((eq_iff v.cefr_level level).0 e, filter-IsRowOf (some level) rows))
      (λ _. filter-IsRowOf (some level) rows)

dto-IsOf :
    (level : Option String) (v : VocabRow)
    → IsRowOf level v
    → IsOf level (to_review_flashcard_dto v)
unfolding to_review_flashcard_dto
dto-IsOf none v h = tt
dto-IsOf (some level) v h = h

map-IsOf :
    (level : Option String) (rows : List VocabRow)
    → All (IsRowOf level) rows
    → All (IsOf level) (map to_review_flashcard_dto rows)
map-IsOf level [] h = tt
map-IsOf level (v ∷ rows) (p, h) = (dto-IsOf level v p, map-IsOf level rows h)

-- Flashcards that a route answers are at most 200, whatever limit was asked for, and all of the
-- level that was asked for, which then is one that parseCefrLevel accepts.
pub get_flashcards-ok :
    (loc : Locale) (rows : List VocabRow) (raw : Option Json) (limit : Option ℤ)
    (cards : List Flashcard)
    → get_flashcards loc rows raw limit ≡ ok cards
    → (length cards ≤ max_limit)
      × ((level : Option String) × (parse_cefr_level loc raw ≡ ok level) × All (IsOf level) cards)
unfolding get_flashcards
get_flashcards-ok loc rows raw limit cards e =
    let (level, p, q) = and_then-eq-ok (parse_cefr_level loc raw) _ e in
    let shown : List VocabRow = take (parse_limit limit) (filter (of_level level) rows) in
    let all =
      map-IsOf level shown
        (All-take (IsRowOf level) (parse_limit limit) _ (filter-IsRowOf level rows)) in
    let short : length (map to_review_flashcard_dto shown) ≤ max_limit = rw length-map (
      omega (
        arith,
        length-take_le (parse_limit limit) (filter (of_level level) rows),
        parse_limit-le limit,
      )) in
    (
      subst (λ cs. length cs ≤ max_limit) (ok_inj q) short,
      (level, p, subst (All (IsOf level)) (ok_inj q) all),
    )
  where
    ok_inj : {A : Type 0} {a b : A} → ok a ≡ ok b → a ≡ b
    ok_inj e = cc
