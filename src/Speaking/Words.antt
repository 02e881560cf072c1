-- ===== src/Speaking/Words.antt =====
-- The text helpers of apps/web/app/main/practice-center/_hooks/useSpeakingRealtimeSession.ts:
-- words, their ends, and how much of a reply a speech boundary reveals.
pub mod Boundary
use mathlib.Core.List.{reverse}
use ai_agentic_english.Prelude.{
  ℕ, zero, suc, ◌+◌, ◌-◌, ◌*◌, ◌/◌, min, max, Bool, true, false, not, ◌&&◌, ◌||◌, Option, none,
  some, List, [], ◌∷◌, leb, ltb, ◌==◌, if◌then◌else◌, length, drop, head?, get_or,
}
use ai_agentic_english.Prelude.Int.{ℤ, pos, negsuc}
use ai_agentic_english.Speaking.Types.{Text}

-- `/\s/` on one code unit.
unfoldable pub is_whitespace : ℕ → Bool
is_whitespace c =
    (leb 9 c && leb c 13)
    || c == 32
    || c == 160
    || c == 0x1680
    || (leb 0x2000 c && leb c 0x200a)
    || c == 0x2028
    || c == 0x2029
    || c == 0x202f
    || c == 0x205f
    || c == 0x3000
    || c == 0xfeff

-- The ends of the matches of `/\S+/g`, for a text that starts at offset `i`; `inside` tells
-- whether the unit before it belongs to a word.
pub word_ends_from : ℕ → Bool → Text → List ℕ
word_ends_from i inside [] = if inside then i ∷ [] else []
word_ends_from i inside (c ∷ cs) =
    let rest = word_ends_from (suc i) (not (is_whitespace c)) cs in
    if inside && is_whitespace c then i ∷ rest else rest

unfoldable pub get_word_end_indices : Text → List ℕ
unfolding word_ends_from is_whitespace
get_word_end_indices content = word_ends_from 0 false content

unfoldable pub get_first_word_end_char_count : Text → ℕ
get_first_word_end_char_count content =
    get_or (head? (get_word_end_indices content)) (length content)

-- `while (i < content.length && test(content[i])) i += 1`, over the units from offset `i` on.
pub skip_while : (ℕ → Bool) → ℕ → Text → ℕ
skip_while test i [] = i
skip_while test i (c ∷ cs) = if test c then skip_while test (suc i) cs else i

-- `Math.max(0, Math.min(charIndex, content.length))`.
unfoldable pub clamp_index : ℤ → ℕ → ℕ
clamp_index (pos n) len = min n len
clamp_index (negsuc n) len = 0

unfoldable pub get_reveal_char_count_for_boundary : Text → ℤ → ℕ
unfolding skip_while is_whitespace clamp_index
get_reveal_char_count_for_boundary content char_index =
    let start = clamp_index char_index (length content) in
    let index = skip_while is_whitespace start (drop start content) in
    if leb (length content) index
    then length content
    else skip_while (λ c. not (is_whitespace c)) index (drop index content)

-- `Math.round(60_000 / (165 * 0.95))`, in exact arithmetic.
unfoldable pub get_fallback_word_interval_ms : ℕ
get_fallback_word_interval_ms = (2 * 6000000 + 165 * 95) / (2 * (165 * 95))

trim_start : Text → Text
trim_start [] = []
trim_start (c ∷ cs) = if is_whitespace c then trim_start cs else c ∷ cs

-- `text.trim()`.
unfoldable pub trim : Text → Text
unfolding trim_start is_whitespace
trim s = reverse (trim_start (reverse (trim_start s)))
