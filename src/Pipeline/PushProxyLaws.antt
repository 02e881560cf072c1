-- ===== src/Pipeline/PushProxyLaws.antt =====
-- The route of the web application against the routes that it stands before.
use ai_agentic_english.Prelude.{
  String, Bool, Option, some, ◌≡◌, refl, str_eq, if◌then◌else◌, true, false,
}
use ai_agentic_english.Shared.Errors.{Thrown}
use ai_agentic_english.Shared.Effect.{Result, ok, err, and_then}
use ai_agentic_english.Shared.Json.{
  Json, null, boolean, whole, fraction, text, array, object, lookup,
}
use ai_agentic_english.Notify.Subscriptions.{
  SubscribeBody, property, read_endpoint, read_keys, parse_subscribe_body,
}
use ai_agentic_english.Pipeline.PushProxy.{
  with_token, Step, answer, forward, throws, check_subscription, read_subscription, post_start,
}

-- The service reads what is sent on as it would have read the body itself, and refuses every body
-- that is not sent on.
abbrev pub AgreesWith : Json → Step → Type 0
AgreesWith body (forward token sent) =
    parse_subscribe_body (some sent) ≡ parse_subscribe_body (some body)
AgreesWith body (answer r) = (e : Thrown) × (parse_subscribe_body (some body) ≡ err e)
AgreesWith body throws = (e : Thrown) × (parse_subscribe_body (some body) ≡ err e)

-- `parse_subscribe_body` over the three properties that it reads.
abbrev parse_parts : Option Json → Option Json → Option Json → Result SubscribeBody
parse_parts endpoint p256dh auth = and_then (read_endpoint endpoint) (λ e. read_keys e p256dh auth)

abbrev AgreesParts : Option Json → Option Json → Option Json → Step → Type 0
AgreesParts endpoint p256dh auth (forward token sent) =
    parse_subscribe_body (some sent) ≡ parse_parts endpoint p256dh auth
AgreesParts endpoint p256dh auth (answer r) =
    (e : Thrown) × (parse_parts endpoint p256dh auth ≡ err e)
AgreesParts endpoint p256dh auth throws = (e : Thrown) × (parse_parts endpoint p256dh auth ≡ err e)

abbrev refuse_with : Thrown → String → Result SubscribeBody
refuse_with k endpoint = err k

refused :
    (b : Bool) (endpoint : String) (t k : Thrown)
    → (e : Thrown) × (and_then (if b then err t else ok endpoint) (refuse_with k) ≡ err e)
refused true endpoint t k = (t, refl)
refused false endpoint t k = (k, refl)

check-agrees :
    (token : String) (endpoint p256dh auth : Option Json)
    → AgreesParts endpoint p256dh auth (check_subscription token endpoint p256dh auth)
unfolding check_subscription parse_subscribe_body property read_endpoint read_keys lookup
check-agrees token (some (text e)) (some (text p)) (some (text a)) = refl
check-agrees token (some (text e)) (some (text p)) _ = refused (str_eq e "") e _ _
check-agrees token (some (text e)) _ _ = refused (str_eq e "") e _ _
check-agrees token _ _ _ = (_, refl)

parts-AgreesWith :
    (body : Json) (step : Step)
    → AgreesParts
        (property "endpoint" (some body))
        (property "p256dh" (property "keys" (some body)))
        (property "auth" (property "keys" (some body)))
        step
    → AgreesWith body step
unfolding parse_subscribe_body
parts-AgreesWith body (forward token sent) h = h
parts-AgreesWith body (answer r) h = h
parts-AgreesWith body throws h = h

read_subscription-AgreesWith :
    (token : String) (body : Json) → AgreesWith body (read_subscription token (some body))
unfolding read_subscription parse_subscribe_body property read_endpoint
read_subscription-AgreesWith token null = (_, refl)
read_subscription-AgreesWith token (object fs) =
    parts-AgreesWith (object fs) _ (check-agrees token _ _ _)
read_subscription-AgreesWith token (boolean b) = (_, refl)
read_subscription-AgreesWith token (whole n) = (_, refl)
read_subscription-AgreesWith token (fraction s) = (_, refl)
read_subscription-AgreesWith token (text s) = (_, refl)
read_subscription-AgreesWith token (array vs) = (_, refl)

-- Of a signed-in user with a token, the web application's route sends on each JSON body that the
-- service accepts, as one that the service reads in the same way, and the service would refuse
-- every JSON body that the route answers or fails at itself.
pub post_start-parse_subscribe_body :
    (token : String) (body : Json) → AgreesWith body (post_start (with_token token) (some body))
unfolding post_start
post_start-parse_subscribe_body token body = read_subscription-AgreesWith token body
