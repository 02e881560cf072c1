-- ===== src/Shared/Auth.antt =====
-- packages/shared/src/env/index.ts (getEnv, assertProductionSecret), src/http/internal.ts and
-- src/auth/extractUserId.ts. The environment is a function; `decode` is what jose's decodeJwt gives
-- for a token: `none` where it throws, else the claim `sub`, if there is one.
use ai_agentic_english.Prelude.{
  String, Bool, ◌&&◌, ◌||◌, Option, none, some, if◌then◌else◌, str_eq, opt_is,
}
use Prim.Native.String
use ai_agentic_english.Shared.Errors.{other, app, unauthorized_error, ErrorResponse}
use ai_agentic_english.Shared.Effect.{Result, ok, err, and_then}
use ai_agentic_english.Shared.Json.{Json, text}
use ai_agentic_english.Shared.Trim.{trim, strip_prefix}

abbrev pub Env : Type 0
Env = String → Option String

unfoldable pub env_or : String → Option String → Result String
env_or key none = err (other (String.◌++◌ "Missing required environment variable: " key))
env_or key (some d) = ok d

unfoldable pub read_env : String → Option String → Option String → Result String
unfolding env_or
read_env key none default = env_or key default
read_env key (some value) default = if str_eq value "" then env_or key default else ok value

unfoldable pub get_env : Env → String → Option String → Result String
unfolding read_env
get_env env key default = read_env key (env key) default

unfoldable pub is_weak : String → Bool
is_weak secret = str_eq secret "" || str_eq secret "dev-internal-secret"

unfoldable pub assert_production_secret : Env → String → String → Result (Unit {0})
unfolding get_env is_weak trim
assert_production_secret env secret label =
    and_then (get_env env "DEPLOY_ENV" (some "development")) (λ deploy_env.
      if str_eq deploy_env "production" && is_weak (trim secret)
      then err (
          other (
            String.◌++◌ label
              " is unset or still the insecure dev default while DEPLOY_ENV=production. Set a real secret before running in production."))
      else ok tt)

-- What a guard does with a request: it goes on to the next handler, or is answered.
pub data Guarded : Type 0 where
  passed : Guarded
  answered : ErrorResponse → Guarded

unfoldable pub check_secret : String → Option String → Guarded
check_secret secret header =
    if opt_is header secret
    then passed
    else answered (record { status = 403; code = "FORBIDDEN"; message = "Internal endpoint" })

-- The middleware, made at start-up, from the value of the header to what it does.
unfoldable pub create_internal_middleware : Env → String → Result (Option String → Guarded)
unfolding assert_production_secret check_secret
create_internal_middleware env secret =
    and_then (assert_production_secret env secret "INTERNAL_SECRET") (λ _. ok (check_secret secret))

unfoldable pub read_sub : Option (Option Json) → Result String
unfolding unauthorized_error
read_sub none = err (app (unauthorized_error "Malformed token"))
read_sub (some (some (text s))) =
    if str_eq s "" then err (app (unauthorized_error "Token missing sub claim")) else ok s
read_sub (some _) = err (app (unauthorized_error "Token missing sub claim"))

module _ (decode : String → Option (Option Json)) where
  unfoldable pub read_token : Option String → Result String
  unfolding read_sub trim unauthorized_error
  read_token none = err (app (unauthorized_error "Missing bearer token"))
  read_token (some rest) = read_sub (decode (trim rest))

  unfoldable pub extract_user_id : Option String → Result String
  unfolding read_token strip_prefix unauthorized_error
  extract_user_id none = err (app (unauthorized_error "Missing bearer token"))
  extract_user_id (some header) = read_token (strip_prefix "Bearer " header)

  -- The middleware in front of a handler, which runs for a user only.
  unfoldable pub require_auth {ℓ} : {A : Type ℓ} → Option String → (String → Result A) → Result A
  unfolding extract_user_id
  require_auth header handler = and_then (extract_user_id header) handler
