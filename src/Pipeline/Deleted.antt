-- ===== src/Pipeline/Deleted.antt =====
-- A deleted account, from Clerk's webhook to the tables of the notification service.
use mathlib.Core.Path.{subst}
use ai_agentic_english.Prelude.{
  String, Bool, true, false, none, some, List, [], ◌∷◌, ◌++◌, ◌≡◌, refl, sym, any, str_eq, eq_refl,
  if_false, any-filter-not,
}
use ai_agentic_english.Shared.Effect.{Result, ok, err, continue, modify}
use ai_agentic_english.Users.Accounts.{
  UserEvent, user_upserted, user_deleted, Published, Store, Fresh, find_user, publish,
  publish_after,
}
use ai_agentic_english.Users.AccountLaws.{find_user-delete_users}
use ai_agentic_english.Users.WebhookLaws.{users_after, user_deleted-users}
use ai_agentic_english.Users.Clerk.{ClerkUserEventData}
use ai_agentic_english.Users.Routes.{user_deleted_event, clerk_webhook, publish_user_deleted}
use ai_agentic_english.Notify.World.{
  Subscription, PushPayload, World, NovuCall, novu, novu_after, delete_subscriber,
}
use ai_agentic_english.Notify.Push.{Delivery}
use ai_agentic_english.Notify.Consumers.{
  Payload, Event, is_processed, mark_processed, with_dedup, delete_user_rows, handle_user_deleted,
  handle, dispatch, on_message,
}

-- An event as the consumer reads it: `userId`, `email` and `name` of the payload.
unfoldable pub payload_of : UserEvent → Payload
payload_of (user_upserted user_id email name action) = Payload.user_upserted user_id email name
payload_of (user_deleted user_id) = Payload.user_deleted user_id

unfoldable pub received : Published → Event
unfolding payload_of
received p = record { event_id = p.event_id; payload = payload_of p.event }

-- No row of the notification service is the user's.
pub record IsForgotten (user_id : String) (w : World) : Type 0 where
  pub runs : any (λ r. str_eq r.user_id user_id) w.reminder_runs ≡ false
  pub subscriptions : any (λ s. str_eq s.clerk_user_id user_id) w.subscriptions ≡ false

delete_user_rows-IsForgotten :
    (user_id : String) (w : World) → IsForgotten user_id (delete_user_rows user_id w)
unfolding delete_user_rows
delete_user_rows-IsForgotten user_id w = record {
  runs = any-filter-not (λ r. str_eq r.user_id user_id) w.reminder_runs;
  subscriptions = any-filter-not (λ s. str_eq s.clerk_user_id user_id) w.subscriptions;
}

abbrev ForgetsAfter : String → Result (Unit {0}) × World → Type 0
ForgetsAfter user_id r = IsForgotten user_id r.1

-- A call of Novu, whether it fails or not, leaves the tables.
novu-IsForgotten :
    (user_id : String) (call : NovuCall) (w : World)
    → IsForgotten user_id w
    → ForgetsAfter user_id (novu call w)
unfolding novu novu_after
novu-IsForgotten user_id call w h = go w.faults
  where
    go : (faults : List Bool) → ForgetsAfter user_id (novu_after faults call w)
    go [] = record { runs = h.runs; subscriptions = h.subscriptions }
    go (false ∷ faults) = record { runs = h.runs; subscriptions = h.subscriptions }
    go (true ∷ faults) = record { runs = h.runs; subscriptions = h.subscriptions }

marked-IsForgotten :
    (user_id event_id : String) (r : Result (Unit {0}) × World)
    → ForgetsAfter user_id r
    → ForgetsAfter user_id (continue r (λ _. modify (mark_processed event_id)))
unfolding mark_processed
marked-IsForgotten user_id event_id (ok a, w) h = record {
  runs = h.runs;
  subscriptions = h.subscriptions;
}
marked-IsForgotten user_id event_id (err e, w) h = h

module _ (deliver : Subscription → PushPayload → Delivery) where
  on_message-IsForgotten :
      (event_id user_id : String) (w : World)
      → is_processed event_id w ≡ false
      → ForgetsAfter user_id (
          on_message deliver
            (record { event_id = event_id; payload = Payload.user_deleted user_id })
            w)
  unfolding on_message dispatch with_dedup handle handle_user_deleted
  on_message-IsForgotten event_id user_id w h =
      subst (ForgetsAfter user_id) (sym (if_false (is_processed event_id w) _ _ h)) (
        marked-IsForgotten user_id event_id
          (novu (delete_subscriber user_id) (delete_user_rows user_id w))
          (novu-IsForgotten user_id (delete_subscriber user_id) (delete_user_rows user_id w)
            (delete_user_rows-IsForgotten user_id w)))

publish-ok :
    (p : Published) (s : Store)
    → (publish p s).0 ≡ ok tt
    → (publish p s).1.published ≡ s.published ++ p ∷ []
unfolding publish publish_after
publish-ok p s = go s.faults
  where
    go :
        (faults : List Bool)
        → (publish_after faults p s).0 ≡ ok tt
        → (publish_after faults p s).1.published ≡ s.published ++ p ∷ []
    go [] e = refl
    go (false ∷ faults) e = refl
    go (true ∷ faults) e = absurd cc

-- The event that the webhook of a deleted account publishes.
abbrev pub deletion : Fresh → String → Published
deletion f user_id = record {
  topic = "user.deleted";
  key = user_id;
  event_id = f.event_id;
  occurred_at = f.now;
  event = user_deleted user_id;
}

-- Where the webhook of a deleted account is answered well, it has published one event after those
-- before, the user service has no row of the user, and once the notification service consumes that
-- event for the first time it has no push subscription and no reminder run of the user, whether
-- Novu then fails or not.
pub clerk_webhook-on_message :
    (deliver : Subscription → PushPayload → Delivery) (f : Fresh) (user : ClerkUserEventData)
    (s : Store) (w : World)
    → (clerk_webhook f (some (user_deleted_event user)) s).0 ≡ ok tt
    → is_processed f.event_id w ≡ false
    → (find_user user.id (users_after (clerk_webhook f (some (user_deleted_event user))) s) ≡ none)
      × ((clerk_webhook f (some (user_deleted_event user)) s).1.published
          ≡ s.published ++ deletion f user.id ∷ [])
      × IsForgotten user.id (on_message deliver (received (deletion f user.id)) w).1
unfolding clerk_webhook publish_user_deleted received
clerk_webhook-on_message deliver f user s w answered new = (
  rw (user_deleted-users f user s, find_user-delete_users user.id user.id s.users, eq_refl user.id)
      refl,
  publish-ok (deletion f user.id) _ answered,
  on_message-IsForgotten deliver f.event_id user.id w new,
)
