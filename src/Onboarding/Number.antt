-- ===== src/Onboarding/Number.antt =====
-- `typeof value === 'number' && Number.isFinite(value) && value > 0` on a JSON value: a number that
-- is not whole is positive where its printed text has no minus sign.
use Prim.Native.Char.{code}
use Prim.Native.String.{String, [], ◌∷◌}
use ai_agentic_english.Prelude.{Bool, true, false, not, ◌==◌}
use ai_agentic_english.Prelude.Int.{is_positive}
use ai_agentic_english.Shared.Json.{Json, whole, fraction}

unfoldable pub is_signed : String → Bool
is_signed [] = false
is_signed (c ∷ s) = code c == 45

unfoldable pub is_number : Json → Bool
is_number (whole n) = true
is_number (fraction s) = true
is_number _ = false

unfoldable pub is_positive_number : Json → Bool
unfolding is_signed
is_positive_number (whole n) = is_positive n
is_positive_number (fraction s) = not (is_signed s)
is_positive_number _ = false
