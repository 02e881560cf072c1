-- ===== src/Notify/Examples.antt =====
-- The theorems of the notification service at one user with two subscriptions.
use ai_agentic_english.Prelude.{
  String, Bool, true, false, not, none, some, List, [], ◌∷◌, ◌++◌, ◌≡◌, refl, str_eq, filter, map,
}
use ai_agentic_english.Shared.Errors.{other}
use ai_agentic_english.Shared.Effect.{ok, modify, ◌>>◌}
use ai_agentic_english.Shared.Json.{Json, text, object, no_fields, field}
use ai_agentic_english.Notify.World.{Subscription, PushPayload, World, novu_after, novu}
use ai_agentic_english.Notify.Push.{Delivery, delivered, failed, send_to_user}
use ai_agentic_english.Notify.PushLaws.{is_dead, is_delivered, send_to_user_lem}
use ai_agentic_english.Notify.Consumers.{
  handle_user_upserted, handle_user_deleted, handle_learning_path_ready,
  handle_achievement_unlocked, Event, learning_path_ready, is_processed, mark_processed, with_dedup,
  handle, dispatch, on_message, path_ready_push,
}
use ai_agentic_english.Notify.DedupLaws.{consume, on_message_redelivered, on_message_retried}
use ai_agentic_english.Notify.Scheduler.{
  User, Vocab, Outside, is_due, already_sent, chunk_from, chunk, notify_user, process_user,
  process_batch, process_batches, with_scheduled_reminder, daily_reminder, run_daily_reminder,
  run_vocab_of_the_day,
}
use ai_agentic_english.Notify.Reminders.{run_daily_reminder_twice}
use ai_agentic_english.Notify.Subscriptions.{
  post_subscription, delete_subscription_route, parse_subscribe_body, read_endpoint, property,
}
use ai_agentic_english.Notify.SubscriptionRows.{row_at, posted_row, deleted_row, routes-row_at}

abbrev phone : Subscription
phone = record { endpoint = "phone"; clerk_user_id = "ann"; p256dh = "p"; auth = "a" }

abbrev laptop : Subscription
laptop = record { endpoint = "laptop"; clerk_user_id = "ann"; p256dh = "p"; auth = "a" }

-- The laptop's subscription is gone.
abbrev deliver : Subscription → PushPayload → Delivery
deliver s payload = elim (str_eq s.endpoint "laptop") [
  | true ↦ failed (some 410) true
  | false ↦ delivered
]

abbrev world : List Bool → World
world faults = record {
  processed_events = [];
  reminder_runs = [];
  subscriptions = phone ∷ laptop ∷ [];
  novu_calls = [];
  pushes = [];
  faults = faults;
}

abbrev path_ready : Event
path_ready = record { event_id = "e1"; payload = learning_path_ready "ann" "path" }

on_message_redelivered_example :
    on_message deliver path_ready
      (consume deliver (path_ready ∷ []) (on_message deliver path_ready (world [])).1)
    ≡ (ok tt, consume deliver (path_ready ∷ []) (on_message deliver path_ready (world [])).1)
unfolding on_message dispatch with_dedup is_processed handle handle_user_upserted
    handle_user_deleted handle_learning_path_ready handle_achievement_unlocked novu novu_after
on_message_redelivered_example =
    on_message_redelivered deliver path_ready (path_ready ∷ []) (world [])
      (on_message deliver path_ready (world [])).1 refl refl

on_message_retried_example :
    ((on_message deliver path_ready (world (true ∷ []))).1.processed_events ≡ [])
    × (on_message deliver path_ready (on_message deliver path_ready (world (true ∷ []))).1
        ≡ (handle deliver path_ready.payload >> modify (mark_processed "e1"))
            (on_message deliver path_ready (world (true ∷ []))).1)
unfolding on_message dispatch with_dedup is_processed handle handle_user_upserted
    handle_user_deleted handle_learning_path_ready handle_achievement_unlocked novu novu_after
on_message_retried_example =
    on_message_retried deliver path_ready (world (true ∷ []))
      (on_message deliver path_ready (world (true ∷ []))).1 (other "novu") refl refl

send_to_user_lem_example :
    ((send_to_user deliver "ann" path_ready_push (world [])).subscriptions
      ≡ filter
          (λ x. not (
            is_dead deliver path_ready_push
              (filter (λ s. str_eq s.clerk_user_id "ann") (world []).subscriptions)
              x))
          (world []).subscriptions)
    × ((send_to_user deliver "ann" path_ready_push (world [])).pushes
        ≡ (world []).pushes
          ++ map
              (λ s. (s, path_ready_push))
              (filter
                (λ s. is_delivered (deliver s path_ready_push))
                (filter (λ s. str_eq s.clerk_user_id "ann") (world []).subscriptions)))
send_to_user_lem_example = send_to_user_lem deliver path_ready_push "ann" (world [])

abbrev letters : List String
letters = "a" ∷ "b" ∷ "c" ∷ []

abbrev ann : User
ann = record { clerk_user_id = "ann"; reminder_time = some "08:00"; timezone = "UTC" }

abbrev word : Vocab
word = record { vocab_item_id = "v1"; term = "apple"; meaning = "a fruit"; example_sentence = none }

-- It is eight o'clock everywhere.
abbrev outside : Outside
outside = record {
  local_time = λ _. "08:00";
  local_date = λ _. "2026-01-01";
  context_of = λ _. ok (record { due_review_count = "3"; vocab_of_the_day = some word });
  deliver = deliver;
}

abbrev after_daily : World
after_daily = (run_daily_reminder outside (ok (ann ∷ [])) (world [])).1

run_daily_reminder_twice_example :
    run_daily_reminder outside (ok (ann ∷ [])) after_daily ≡ (ok tt, after_daily)
unfolding run_daily_reminder with_scheduled_reminder is_due chunk chunk_from process_batches
    process_batch process_user already_sent notify_user daily_reminder novu novu_after
run_daily_reminder_twice_example =
    run_daily_reminder_twice outside (ok (ann ∷ [])) (world []) after_daily refl

abbrev after_vocab : World
after_vocab = (run_vocab_of_the_day outside (ok (ann ∷ [])) (world [])).1

abbrev subscribe : Json
subscribe = object (
    field "endpoint" (text "laptop") (
      field "keys" (object (field "p256dh" (text "q") (field "auth" (text "b") no_fields)))
        no_fields))

-- Bob's browser reports the endpoint of Ann's laptop: a post makes it his, a delete does nothing.
routes-row_at_example :
    (row_at "laptop" (post_subscription "bob" (some subscribe) (world [])).1.subscriptions
      ≡ posted_row "bob" "laptop"
          (parse_subscribe_body (some subscribe))
          (row_at "laptop" (world []).subscriptions))
    × (row_at "laptop" (delete_subscription_route "bob" (some subscribe) (world [])).1.subscriptions
        ≡ deleted_row "bob" "laptop"
            (read_endpoint (property "endpoint" (some subscribe)))
            (row_at "laptop" (world []).subscriptions))
routes-row_at_example = routes-row_at "bob" "laptop" (some subscribe) (world []) (refl, (refl, tt))
