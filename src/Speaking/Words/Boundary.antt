-- ===== src/Speaking/Words/Boundary.antt =====
-- What a speech boundary reveals, against the list of word ends: getRevealCharCountForBoundary and
-- getWordEndIndices of useSpeakingRealtimeSession.
use ai_agentic_english.Prelude.{
  ℕ, zero, suc, ◌+◌, ◌-◌, ◌≤◌, ◌<◌, Bool, true, false, not, ◌&&◌, some, [], ◌∷◌, ◌≡◌, refl, arith,
  leb, ltb, if◌then◌else◌, length, drop, get_or, find, All, All-mono, sym, ap, ◌∙◌, Bool-cases, inl,
  inr,
}
use ai_agentic_english.Prelude.Int.{ℤ, pos, negsuc}
use ai_agentic_english.Speaking.Types.{Text}
use ai_agentic_english.Speaking.Words.{
  is_whitespace, word_ends_from, get_word_end_indices, skip_while, clamp_index,
  get_reveal_char_count_for_boundary,
}

-- Every word end lies within the text.
word_ends_from-le :
    (i : ℕ) (inside : Bool) (cs : Text) → All (λ e. e ≤ i + length cs) (word_ends_from i inside cs)
unfolding word_ends_from
word_ends_from-le i true [] = (omega arith, tt)
word_ends_from-le i false [] = tt
word_ends_from-le i inside (c ∷ cs) =
    let rest : All (λ e. e ≤ i + suc (length cs))
        (word_ends_from (suc i) (not (is_whitespace c)) cs) =
      All-mono (λ e. e ≤ suc i + length cs) (λ e. e ≤ i + suc (length cs)) (λ e h. omega arith) _
        (word_ends_from-le (suc i) (not (is_whitespace c)) cs) in
    elim (Bool-cases (inside && is_whitespace c)) [
      | inl e ↦ rw e (omega arith, rest)
      | inr e ↦ rw e rest
    ]

pub get_word_end_indices-le :
    (content : Text) → All (λ e. e ≤ length content) (get_word_end_indices content)
unfolding get_word_end_indices
get_word_end_indices-le content =
    All-mono (λ e. e ≤ 0 + length content) (λ e. e ≤ length content) (λ e h. omega arith) _
      (word_ends_from-le 0 false content)

skip_while-le : (test : ℕ → Bool) (i : ℕ) (cs : Text) → skip_while test i cs ≤ i + length cs
unfolding skip_while
skip_while-le test i [] = omega arith
skip_while-le test i (c ∷ cs) = ground (arith, skip_while-le test (suc i) cs)

skip_while-ge : (test : ℕ → Bool) (i : ℕ) (cs : Text) → i ≤ skip_while test i cs
unfolding skip_while
skip_while-ge test i [] = omega arith
skip_while-ge test i (c ∷ cs) = ground (arith, skip_while-ge test (suc i) cs)

abbrev non_space : ℕ → Bool
non_space c = not (is_whitespace c)

-- Inside a word, the first word end is where the word stops.
find_inside :
    (n i : ℕ) (cs : Text)
    → n < i
    → find (λ e. ltb n e) (word_ends_from i true cs) ≡ some (skip_while non_space i cs)
unfolding word_ends_from skip_while
find_inside n i [] h = ground arith
find_inside n i (c ∷ cs) h = elim (Bool-cases (is_whitespace c)) [
  | inl e ↦ rw e (ground arith)
  | inr e ↦ rw e (find_inside n (suc i) cs (omega arith))
]

-- What is revealed when the code stops skipping at offset `i`, before the units `cs`.
reveal_from : ℕ → Text → ℕ
reveal_from i cs =
    let index = skip_while is_whitespace i cs in
    if leb (i + length cs) index
    then i + length cs
    else skip_while non_space index (drop (index - i) cs)

drop-past : (i j : ℕ) (c : ℕ) (cs : Text) → suc i ≤ j → drop (j - i) (c ∷ cs) ≡ drop (j - suc i) cs
drop-past i j c cs h = let e : j - i ≡ suc (j - suc i) = omega arith in rw e

add-suc_shift : (i n : ℕ) → i + suc n ≡ suc i + n
add-suc_shift i n = omega arith

leb-past : (i n : ℕ) → leb (i + suc n) i ≡ false
leb-past i n = ground arith

sub_self : (i : ℕ) → i - i ≡ 0
sub_self i = omega arith

find_outside :
    (n i : ℕ) (cs : Text)
    → n ≤ i
    → get_or (find (λ e. ltb n e) (word_ends_from i false cs)) (i + length cs) ≡ reveal_from i cs
unfolding word_ends_from reveal_from skip_while
find_outside n i [] h = ground arith
find_outside n i (c ∷ cs) h = elim (Bool-cases (is_whitespace c)) [
  | inl e ↦ rw e (
      rw (drop-past i (skip_while is_whitespace (suc i) cs) c cs (skip_while-ge _ (suc i) cs))
        (rw (add-suc_shift i (length cs)) (find_outside n (suc i) cs (omega arith))))
  | inr e ↦ rw e (
      rw (find_inside n (suc i) cs (omega arith))
        (rw (leb-past i (length cs)) (rw (sub_self i) (rw e refl))))
]

find_start :
    (i : ℕ) (cs : Text)
    → find (λ e. ltb i e) (word_ends_from i true cs)
      ≡ find (λ e. ltb i e) (word_ends_from i false cs)
unfolding word_ends_from
find_start i [] = ground arith
find_start i (c ∷ cs) = ground arith

find_from :
    (n d i : ℕ) (inside : Bool) (cs : Text)
    → n ≡ d + i
    → d ≤ length cs
    → get_or (find (λ e. ltb n e) (word_ends_from i inside cs)) (i + length cs)
      ≡ reveal_from n (drop d cs)
unfolding word_ends_from
find_from n zero i true cs e h =
    let same : n ≡ i = omega arith in rw (same, find_start i cs) (find_outside i i cs (omega arith))
find_from n zero i false cs e h =
    let same : n ≡ i = omega arith in rw same (find_outside i i cs (omega arith))
find_from n (suc d) i inside [] e h = absurd (omega arith)
find_from n (suc d) i inside (c ∷ cs) e h =
    let skipped : ltb n i ≡ false = ground arith in
    let later = find_from n d (suc i) (not (is_whitespace c)) cs (omega arith) (omega arith) in
    elim (Bool-cases (inside && is_whitespace c)) [
      | inl f ↦ rw (f, skipped, add-suc_shift i (length cs)) later
      | inr f ↦ rw (f, add-suc_shift i (length cs)) later
    ]

drop-drop : (a b : ℕ) (cs : Text) → drop a (drop b cs) ≡ drop (b + a) cs
drop-drop a zero cs = let q : 0 + a ≡ a = omega arith in rw q
drop-drop zero (suc b) [] = let q : suc b + 0 ≡ suc b = omega arith in rw q
drop-drop (suc a) (suc b) [] = let q : suc b + suc a ≡ suc (b + suc a) = omega arith in rw q
drop-drop a (suc b) (c ∷ cs) =
    let q : suc b + a ≡ suc (b + a) = omega arith in rw q (drop-drop a b cs)

length-drop : (a : ℕ) (cs : Text) → a ≤ length cs → a + length (drop a cs) ≡ length cs
length-drop zero cs h = omega arith
length-drop (suc a) [] h = absurd (omega arith)
length-drop (suc a) (c ∷ cs) h = omega (arith, length-drop a cs (omega arith))

clamp_index-le : (ci : ℤ) (len : ℕ) → clamp_index ci len ≤ len
unfolding clamp_index
clamp_index-le (pos n) len = omega arith
clamp_index-le (negsuc n) len = omega arith

reveal_from-boundary :
    (start : ℕ) (content : Text)
    → start ≤ length content
    → reveal_from start (drop start content) ≡ (
        let index = skip_while is_whitespace start (drop start content) in
        if leb (length content) index
        then length content
        else skip_while non_space index (drop index content))
unfolding reveal_from
reveal_from-boundary start content h =
    let index = skip_while is_whitespace start (drop start content) in
    let ge : start ≤ index = skip_while-ge is_whitespace start (drop start content) in
    let back : start + (index - start) ≡ index = omega arith in
    rw (length-drop start content h) (rw (drop-drop (index - start) start content) (rw back refl))

-- At every boundary the code reveals up to the first word end past the boundary's position, or the
-- whole text where no word ends after it; the position is brought into the text first.
pub boundary-first_word_end :
    (content : Text) (char_index : ℤ)
    → get_reveal_char_count_for_boundary content char_index
      ≡ get_or
          (find
            (λ e. ltb (clamp_index char_index (length content)) e)
            (get_word_end_indices content))
          (length content)
unfolding get_reveal_char_count_for_boundary get_word_end_indices
boundary-first_word_end content char_index =
    let start = clamp_index char_index (length content) in
    let within = clamp_index-le char_index (length content) in
    let whole : length content ≡ 0 + length content = omega arith in
    sym (
      ap (get_or (find (λ e. ltb start e) (word_ends_from 0 false content))) whole
      ∙ find_from start start 0 false content (omega arith) within
      ∙ reveal_from-boundary start content within)
