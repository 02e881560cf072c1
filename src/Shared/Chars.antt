-- ===== src/Shared/Chars.antt =====
-- `length` and `slice(0, n)` of a text, counted in characters.
use Prim.Native.String.{String, [], ◌∷◌}
use ai_agentic_english.Prelude.{ℕ, zero, suc}

unfoldable pub char_count : String → ℕ
char_count [] = 0
char_count (c ∷ s) = suc (char_count s)

unfoldable pub first_chars : ℕ → String → String
first_chars zero s = []
first_chars (suc n) [] = []
first_chars (suc n) (c ∷ s) = c ∷ first_chars n s
