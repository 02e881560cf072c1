-- ===== src/Notify/Push.antt =====
-- services/notification-service/src/lib/webPush.ts, the live sender. What the push service answers
-- is a parameter: `deliver` tells how one send comes out.
use ai_agentic_english.Prelude.{
  ℕ, String, Bool, false, not, ◌&&◌, ◌||◌, Option, none, some, List, [], ◌∷◌, ◌++◌, filter,
  if◌then◌else◌, str_eq, ◌==◌,
}
use ai_agentic_english.Notify.World.{Subscription, PushPayload, World}

-- How `sendNotification` comes out: `failed` holds the error's `statusCode`, if it has one, and
-- whether the database carries out the delete that may follow.
pub data Delivery : Type 0 where
  delivered : Delivery
  failed : Option ℕ → (deletes : Bool) → Delivery

unfoldable pub is_gone_error : Option ℕ → Bool
is_gone_error none = false
is_gone_error (some status_code) = status_code == 404 || status_code == 410

-- `pushSubscription.delete`.
unfoldable pub delete_subscription : String → List Subscription → List Subscription
delete_subscription endpoint = filter (λ s. not (str_eq s.endpoint endpoint))

-- One round of the sender. A delete that fails is swallowed, and leaves the subscription.
unfoldable pub settle_delivery : Subscription → PushPayload → Delivery → World → World
unfolding is_gone_error delete_subscription
settle_delivery s payload delivered w = record w { pushes = w.pushes ++ (s, payload) ∷ [] }
settle_delivery s payload (failed status_code deletes) w =
    if is_gone_error status_code && deletes
    then record w { subscriptions = delete_subscription s.endpoint w.subscriptions }
    else w

module _ (deliver : Subscription → PushPayload → Delivery) where
  unfoldable pub send_each : PushPayload → List Subscription → World → World
  unfolding settle_delivery
  send_each payload [] w = w
  send_each payload (s ∷ ss) w =
      send_each payload ss (settle_delivery s payload (deliver s payload) w)

  unfoldable pub send_to_user : String → PushPayload → World → World
  unfolding send_each
  send_to_user clerk_user_id payload w =
      send_each payload (filter (λ s. str_eq s.clerk_user_id clerk_user_id) w.subscriptions) w
