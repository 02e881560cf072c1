-- ===== src/Notify/Consumers.antt =====
-- services/notification-service/src/kafka: the events, their handlers, the deduplication by event
-- id and the dispatch by topic.
use ai_agentic_english.Prelude.{
  String, Bool, not, Option, some, [], ◌∷◌, ◌++◌, any, filter, if◌then◌else◌, str_eq,
}
use ai_agentic_english.Shared.Effect.{ok, Effect, pure, modify, ◌>>◌}
use ai_agentic_english.Notify.World.{
  Subscription, PushPayload, World, upsert_subscriber, trigger_notification, delete_subscriber,
  novu,
}
use ai_agentic_english.Notify.Push.{Delivery, send_to_user}

pub data Payload : Type 0 where
  user_upserted : (user_id email : String) (name : Option String) → Payload
  user_deleted : (user_id : String) → Payload
  learning_path_ready : (user_id path_id : String) → Payload
  achievement_unlocked : (user_id achievement_type : String) (metadata : Option String) → Payload
  unknown_topic : Payload

pub record Event : Type 0 where
  pub event_id : String
  pub payload : Payload

unfoldable pub is_processed : String → World → Bool
is_processed event_id w = any (λ e. str_eq e event_id) w.processed_events

unfoldable pub mark_processed : String → World → World
mark_processed event_id w = record w { processed_events = w.processed_events ++ event_id ∷ [] }

unfoldable pub with_dedup : String → Effect World (Unit {0}) → Effect World (Unit {0})
unfolding is_processed mark_processed
with_dedup event_id handler w =
    if is_processed event_id w then (ok tt, w) else (handler >> modify (mark_processed event_id)) w

unfoldable pub delete_user_rows : String → World → World
delete_user_rows user_id w = record w {
  reminder_runs = filter (λ r. not (str_eq r.user_id user_id)) w.reminder_runs;
  subscriptions = filter (λ s. not (str_eq s.clerk_user_id user_id)) w.subscriptions;
}

abbrev pub path_ready_push : PushPayload
path_ready_push = record {
  title = "Lộ trình học đã sẵn sàng";
  body = "Lộ trình học tập cá nhân hóa của bạn đã được tạo xong.";
  url = some "/main/homepage";
}

abbrev pub achievement_push : String → PushPayload
achievement_push achievement_type = record {
  title = "Bạn vừa đạt thành tích mới!";
  body = achievement_type;
  url = some "/main/homepage";
}

module _ (deliver : Subscription → PushPayload → Delivery) where
  -- What each consumer does for an event that was not processed before. `metadata` is an opaque
  -- value, by its JSON text.
  unfoldable pub handle_user_upserted : String → String → Option String → Effect World (Unit {0})
  unfolding novu
  handle_user_upserted user_id email name = novu (upsert_subscriber user_id email name)

  unfoldable pub handle_user_deleted : String → Effect World (Unit {0})
  unfolding novu delete_user_rows
  handle_user_deleted user_id = do
    modify (delete_user_rows user_id)
    novu (delete_subscriber user_id)

  unfoldable pub handle_learning_path_ready : String → String → Effect World (Unit {0})
  unfolding novu send_to_user
  handle_learning_path_ready user_id path_id = do
    novu (trigger_notification "learning-path-ready" user_id (("pathId", some path_id) ∷ []))
    modify (send_to_user deliver user_id path_ready_push)

  unfoldable pub handle_achievement_unlocked :
      String → String → Option String → Effect World (Unit {0})
  unfolding novu send_to_user
  handle_achievement_unlocked user_id achievement_type metadata = do
    novu (
        trigger_notification "achievement-unlocked" user_id
          (("achievementType", some achievement_type) ∷ ("metadata", metadata) ∷ []))
    modify (send_to_user deliver user_id (achievement_push achievement_type))

  unfoldable pub handle : Payload → Effect World (Unit {0})
  unfolding handle_user_upserted handle_user_deleted handle_learning_path_ready
      handle_achievement_unlocked
  handle (user_upserted user_id email name) = handle_user_upserted user_id email name
  handle (user_deleted user_id) = handle_user_deleted user_id
  handle (learning_path_ready user_id path_id) = handle_learning_path_ready user_id path_id
  handle (achievement_unlocked user_id achievement_type metadata) =
      handle_achievement_unlocked user_id achievement_type metadata
  handle unknown_topic = pure tt

  -- `onMessage`: an event of a topic that the service does not know is dropped, and not recorded.
  unfoldable pub dispatch : String → Payload → Effect World (Unit {0})
  unfolding with_dedup handle
  dispatch event_id unknown_topic = pure tt
  dispatch event_id payload = with_dedup event_id (handle payload)

  unfoldable pub on_message : Event → Effect World (Unit {0})
  unfolding dispatch
  on_message e = dispatch e.event_id e.payload
