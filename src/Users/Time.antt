-- ===== src/Users/Time.antt =====
-- The regular expression of services/user-service/src/lib/validateSettingsUpdate.ts,
-- `^(\d{2}):(\d{2})$`: a text of five characters, two digits, a colon, two digits.
use Prim.Native.Char.{Char, code}
use Prim.Native.String.{String, [], ◌∷◌}
use ai_agentic_english.Prelude.{
  ℕ, ◌+◌, ◌-◌, ◌*◌, Bool, ◌&&◌, Option, none, some, leb, ◌==◌, if◌then◌else◌,
}

unfoldable pub is_digit : Char → Bool
is_digit c = leb 48 (code c) && leb (code c) 57

unfoldable pub number_of : Char → Char → ℕ
number_of a b = 10 * (code a - 48) + (code b - 48)

-- The two numbers matched.
unfoldable pub match_time : String → Option (ℕ × ℕ)
unfolding is_digit number_of
match_time (a ∷ b ∷ c ∷ d ∷ e ∷ []) =
    if is_digit a && is_digit b && code c == 58 && is_digit d && is_digit e
    then some (number_of a b, number_of d e)
    else none
match_time _ = none
