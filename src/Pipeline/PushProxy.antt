-- ===== src/Pipeline/PushProxy.antt =====
-- apps/web/app/api/push/subscribe/route.ts. A request is two steps: what is answered at once or
-- sent on, and what is answered once the service has answered.
use ai_agentic_english.Prelude.{ℕ, String, Option, none, some}
use ai_agentic_english.Shared.Json.{Json, null, text, object, no_fields, field}
use ai_agentic_english.Notify.Subscriptions.{property}

-- What Clerk gives: no user, a user without a token, or a token.
pub data WebAuth : Type 0 where
  no_user : WebAuth
  no_token : WebAuth
  with_token : (token : String) → WebAuth

pub record Reply : Type 0 where
  pub status : ℕ
  pub message : Option String

-- An answer, a body that is sent on with the token, or an error that the route does not catch.
pub data Step : Type 0 where
  answer : Reply → Step
  forward : (token : String) → (body : Json) → Step
  throws : Step

abbrev pub refuse : ℕ → String → Step
refuse status message = answer (record { status = status; message = some message })

abbrev pub subscription_json : String → String → String → Json
subscription_json endpoint p256dh auth = object (
    field "endpoint" (text endpoint) (
      field "keys" (object (field "p256dh" (text p256dh) (field "auth" (text auth) no_fields)))
        no_fields))

unfoldable pub check_subscription : String → Option Json → Option Json → Option Json → Step
check_subscription token (some (text endpoint)) (some (text p256dh)) (some (text auth)) =
    forward token (subscription_json endpoint p256dh auth)
check_subscription token _ _ _ = refuse 400 "endpoint and keys.p256dh/keys.auth are required"

-- The body is missing where it is no JSON; a property of `null` cannot be read.
unfoldable pub read_subscription : String → Option Json → Step
unfolding check_subscription property
read_subscription token none = refuse 400 "Invalid JSON body"
read_subscription token (some null) = throws
read_subscription token (some body) =
    check_subscription token (property "endpoint" (some body))
      (property "p256dh" (property "keys" (some body)))
      (property "auth" (property "keys" (some body)))

unfoldable pub authorize : WebAuth → (String → Step) → Step
authorize no_user next = refuse 401 "Unauthorized"
authorize no_token next = refuse 401 "Unable to acquire session token"
authorize (with_token token) next = next token

unfoldable pub post_start : WebAuth → Option Json → Step
unfolding authorize read_subscription
post_start auth body = authorize auth (λ token. read_subscription token body)

unfoldable pub check_endpoint : String → Option Json → Step
check_endpoint token (some (text endpoint)) =
    forward token (object (field "endpoint" (text endpoint) no_fields))
check_endpoint token _ = refuse 400 "endpoint is required"

unfoldable pub read_endpoint_body : String → Option Json → Step
unfolding check_endpoint property
read_endpoint_body token none = refuse 400 "Invalid JSON body"
read_endpoint_body token (some null) = throws
read_endpoint_body token (some body) = check_endpoint token (property "endpoint" (some body))

unfoldable pub delete_start : WebAuth → Option Json → Step
unfolding authorize read_endpoint_body
delete_start auth body = authorize auth (λ token. read_endpoint_body token body)

-- What `apiFetch` of the service comes back with.
pub data Forwarded : Type 0 where
  done : Forwarded
  api_error : (status : ℕ) → (message : String) → Forwarded
  other_error : Forwarded

unfoldable pub finish : String → Forwarded → Reply
finish unable done = record { status = 204; message = none }
finish unable (api_error status message) = record { status = status; message = some message }
finish unable other_error = record { status = 502; message = some unable }

unfoldable pub post_finish : Forwarded → Reply
unfolding finish
post_finish = finish "Unable to save push subscription right now."

unfoldable pub delete_finish : Forwarded → Reply
unfolding finish
delete_finish = finish "Unable to remove push subscription right now."
