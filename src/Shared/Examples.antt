-- ===== src/Shared/Examples.antt =====
-- The guards of packages/shared at one secret and one token.
use Prim.Native.String
use ai_agentic_english.Prelude.{String, false, Option, some, ◌≡◌, refl, str_eq}
use ai_agentic_english.Shared.Json.{Json, text}
use ai_agentic_english.Shared.Trim.{trim, trim_start, trim_end, is_space, strip_prefix}
use ai_agentic_english.Shared.Auth.{
  Env, read_env, get_env, is_weak, assert_production_secret, check_secret,
  create_internal_middleware, read_sub, read_token, extract_user_id,
}
use ai_agentic_english.Shared.AuthLaws.{create_internal_middleware_lem, extract_user_id-ok}

abbrev production : Env
production key = some "production"

create_internal_middleware_lem_example :
    (◌≡◌ {A = Option String} (some "s3cret") (some "s3cret")) × (is_weak (trim "s3cret") ≡ false)
unfolding create_internal_middleware assert_production_secret get_env read_env is_weak trim
    trim_start trim_end is_space check_secret
create_internal_middleware_lem_example =
    create_internal_middleware_lem production "s3cret" (check_secret "s3cret") (some "s3cret") refl
      refl refl

abbrev decode : String → Option (Option Json)
decode token = some (some (text "ann"))

extract_user_id-ok_example :
    (rest : String) × (◌≡◌ {A = Option String}
      (some "Bearer abc")
      (some (String.◌++◌ "Bearer " rest)))
    × (decode (trim rest) ≡ some (some (text "ann")))
    × (str_eq "ann" "" ≡ false)
unfolding extract_user_id read_token read_sub strip_prefix
extract_user_id-ok_example = extract_user_id-ok decode (some "Bearer abc") "ann" refl
