-- ===== src/Pipeline/Examples.antt =====
-- An account with two subscriptions is deleted while Novu is down.
use ai_agentic_english.Prelude.{true, none, some, [], ◌∷◌, ◌++◌, ◌≡◌, refl}
use ai_agentic_english.Users.Clerk.{ClerkUserEventData}
use ai_agentic_english.Users.Accounts.{Store, Fresh, find_user}
use ai_agentic_english.Users.Routes.{user_deleted_event, clerk_webhook}
use ai_agentic_english.Users.WebhookLaws.{users_after}
use ai_agentic_english.Notify.World.{Subscription, PushPayload, World}
use ai_agentic_english.Notify.Push.{Delivery, delivered}
use ai_agentic_english.Notify.Consumers.{is_processed, on_message}
use ai_agentic_english.Shared.Json.{Json, null, text, object, no_fields, field}
use ai_agentic_english.Pipeline.PushProxy.{with_token, forward, post_start, subscription_json}
use ai_agentic_english.Pipeline.PushProxyLaws.{AgreesWith, post_start-parse_subscribe_body}
use ai_agentic_english.Pipeline.Deleted.{received, deletion, IsForgotten, clerk_webhook-on_message}

abbrev fresh : Fresh
fresh = record { id = "u1"; event_id = "e1"; now = "2026-01-01" }

abbrev ann : ClerkUserEventData
ann = record {
  id = "ann";
  email_addresses = none;
  primary_email_address_id = none;
  first_name = none;
  last_name = none;
}

abbrev store : Store
store = record { users = []; published = []; faults = [] }

abbrev world : World
world = record {
  processed_events = "e0" ∷ [];
  reminder_runs =
      record { user_id = "ann"; reminder_type = "daily-reminder"; run_date = "2026-01-01" } ∷ [];
  subscriptions =
      record { endpoint = "phone"; clerk_user_id = "ann"; p256dh = "p"; auth = "a" } ∷ [];
  novu_calls = [];
  pushes = [];
  faults = true ∷ [];
}

abbrev deliver : Subscription → PushPayload → Delivery
deliver s payload = delivered

clerk_webhook-on_message_example :
    (find_user "ann" (users_after (clerk_webhook fresh (some (user_deleted_event ann))) store)
      ≡ none)
    × ((clerk_webhook fresh (some (user_deleted_event ann)) store).1.published
        ≡ [] ++ deletion fresh "ann" ∷ [])
    × IsForgotten "ann" (on_message deliver (received (deletion fresh "ann")) world).1
unfolding clerk_webhook is_processed
clerk_webhook-on_message_example = clerk_webhook-on_message deliver fresh ann store world refl refl

abbrev browser_body : Json
browser_body = object (
    field "expirationTime" null (
      field "endpoint" (text "") (
        field "keys" (object (field "auth" (text "a") (field "p256dh" (text "p") no_fields)))
          no_fields)))

-- The route sends on an empty endpoint, which the service refuses.
post_start-parse_subscribe_body_example :
    AgreesWith browser_body (post_start (with_token "t") (some browser_body))
post_start-parse_subscribe_body_example = post_start-parse_subscribe_body "t" browser_body

sent_on :
    post_start (with_token "t") (some browser_body) ≡ forward "t" (subscription_json "" "p" "a")
unfolding post_start
sent_on = refl
