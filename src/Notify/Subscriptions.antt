-- ===== src/Notify/Subscriptions.antt =====
-- services/notification-service/src/routes/pushSubscriptions.ts. The user id is what `requireAuth`
-- leaves on the request; the body is a JSON value.
use ai_agentic_english.Prelude.{
  String, not, ◌&&◌, Option, none, some, List, [], ◌∷◌, filter, if◌then◌else◌, str_eq,
}
use ai_agentic_english.Shared.Errors.{app, validation_error}
use ai_agentic_english.Shared.Effect.{Result, ok, err, Effect, and_then, lift, modify, ◌>>=◌}
use ai_agentic_english.Shared.Json.{Json, text, object, lookup}
use ai_agentic_english.Notify.World.{Subscription, World}

pub record SubscribeBody : Type 0 where
  pub endpoint : String
  pub p256dh : String
  pub auth : String

-- A property of a value: missing where the value is no object.
unfoldable pub property : String → Option Json → Option Json
unfolding lookup
property key (some (object fs)) = lookup key fs
property key _ = none

unfoldable pub read_endpoint : Option Json → Result String
unfolding validation_error
read_endpoint (some (text s)) =
    if str_eq s "" then err (app (validation_error "endpoint is required")) else ok s
read_endpoint _ = err (app (validation_error "endpoint is required"))

unfoldable pub read_keys : String → Option Json → Option Json → Result SubscribeBody
unfolding validation_error
read_keys endpoint (some (text p256dh)) (some (text auth)) =
    ok (record { endpoint = endpoint; p256dh = p256dh; auth = auth })
read_keys endpoint _ _ = err (app (validation_error "keys.p256dh and keys.auth are required"))

unfoldable pub parse_subscribe_body : Option Json → Result SubscribeBody
unfolding property read_endpoint read_keys
parse_subscribe_body body = and_then (read_endpoint (property "endpoint" body)) (λ endpoint.
    read_keys endpoint (property "p256dh" (property "keys" body))
      (property "auth" (property "keys" body)))

-- `upsert({ where: { endpoint }, … })`.
unfoldable pub upsert_subscription : Subscription → List Subscription → List Subscription
upsert_subscription n [] = n ∷ []
upsert_subscription n (s ∷ ss) =
    if str_eq s.endpoint n.endpoint then n ∷ ss else s ∷ upsert_subscription n ss

unfoldable pub delete_own : String → String → List Subscription → List Subscription
delete_own endpoint clerk_user_id =
    filter (λ s. not (str_eq s.endpoint endpoint && str_eq s.clerk_user_id clerk_user_id))

unfoldable pub post_subscription : String → Option Json → Effect World (Unit {0})
unfolding parse_subscribe_body upsert_subscription
post_subscription clerk_user_id body = lift (parse_subscribe_body body) >>= λ b. modify (λ w.
    record w {
      subscriptions =
          upsert_subscription
            (record {
              endpoint = b.endpoint;
              clerk_user_id = clerk_user_id;
              p256dh = b.p256dh;
              auth = b.auth;
            })
            w.subscriptions;
    })

unfoldable pub delete_subscription_route : String → Option Json → Effect World (Unit {0})
unfolding read_endpoint property delete_own
delete_subscription_route clerk_user_id body =
    lift (read_endpoint (property "endpoint" body)) >>= λ endpoint.
    modify (λ w. record w { subscriptions = delete_own endpoint clerk_user_id w.subscriptions })
