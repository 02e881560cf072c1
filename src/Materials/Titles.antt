-- ===== src/Materials/Titles.antt =====
-- toReviewCategoryId and toTitleCase of lib/mappers.ts. The case mappings of Unicode and the order
-- of `localeCompare` come with a `Locale`.
use Prim.Native.Char.{Char, code}
use Prim.Native.String.{String, [], ◌∷◌, ◌++◌}
use ai_agentic_english.Prelude.{
  Bool, false, not, ◌&&◌, ◌||◌, List, leb, ◌==◌, filter, map, if◌then◌else◌, str_eq,
}
use ai_agentic_english.Shared.Trim.{is_space, trim}

-- `sorts_before a b` where `a.localeCompare(b)` is not positive.
pub record Locale : Type 0 where
  pub to_lower_case : String → String
  pub to_upper_case : String → String
  pub sorts_before : String → String → Bool

unfoldable pub is_slug_char : Char → Bool
is_slug_char c = leb 97 (code c) && leb (code c) 122 || leb 48 (code c) && leb (code c) 57

-- `replace(/[^a-z0-9]+/g, '-')`: within a run, and outside.
unfoldable pub dash_runs : Bool → String → String
unfolding is_slug_char
dash_runs in_run [] = []
dash_runs in_run (c ∷ s) =
    let rest = dash_runs (not (is_slug_char c)) s in
    if is_slug_char c then c ∷ rest else (if in_run then rest else "-" ++ rest)

-- `replace(/^-|-$/g, '')`.
unfoldable pub strip_first_dash : String → String
strip_first_dash [] = []
strip_first_dash (c ∷ s) = if code c == 45 then s else c ∷ s

abbrev end_at : Char → String → String
end_at c [] = if code c == 45 then [] else c ∷ []
end_at c (d ∷ s) = c ∷ d ∷ s

unfoldable pub strip_last_dash : String → String
strip_last_dash [] = []
strip_last_dash (c ∷ []) = end_at c []
strip_last_dash (c ∷ d ∷ s) = c ∷ strip_last_dash (d ∷ s)

abbrev or_grammar : String → String
or_grammar s = if str_eq s "" then "grammar" else s

unfoldable pub to_review_category_id : Locale → String → String
unfolding dash_runs strip_first_dash strip_last_dash trim
to_review_category_id loc category =
    or_grammar
      (strip_last_dash (strip_first_dash (dash_runs false (loc.to_lower_case (trim category)))))

unfoldable pub is_separator : Char → Bool
unfolding is_space
is_separator c = is_space (code c) || code c == 45

abbrev push : Char → List String → List String
push c List.[] = List.◌∷◌ (c ∷ []) List.[]
push c (List.◌∷◌ w ws) = List.◌∷◌ (c ∷ w) ws

-- `split` at each separator; the empty parts between two of them are filtered away.
unfoldable pub split_words : String → List String
unfolding is_separator
split_words [] = List.◌∷◌ [] List.[]
split_words (c ∷ s) =
    let rest = split_words s in if is_separator c then List.◌∷◌ [] rest else push c rest

abbrev capitalize : Locale → String → String
capitalize loc [] = loc.to_upper_case []
capitalize loc (c ∷ s) = loc.to_upper_case (c ∷ []) ++ s

unfoldable pub join_words : List String → String
join_words List.[] = []
join_words (List.◌∷◌ w List.[]) = w
join_words (List.◌∷◌ w (List.◌∷◌ v ws)) = w ++ " " ++ join_words (List.◌∷◌ v ws)

unfoldable pub to_title_case : Locale → String → String
unfolding split_words join_words
to_title_case loc value =
    join_words (map (capitalize loc) (filter (λ w. not (str_eq w "")) (split_words value)))
