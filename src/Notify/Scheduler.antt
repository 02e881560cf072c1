-- ===== src/Notify/Scheduler.antt =====
-- services/notification-service/src/scheduler: the hourly reminder jobs. The users come from the
-- user service and a user's context from the review agent, which are parameters; so are the two
-- functions of time.ts, which the Intl library computes. The requests of one batch are modelled in
-- the order of the batch; a batch runs to its end even where one of its users throws.
use Prim.Native.String
use ai_agentic_english.Prelude.{
  ℕ, zero, suc, String, Bool, true, false, not, ◌&&◌, Option, none, some, List, [], ◌∷◌, ◌++◌, any,
  filter, if◌then◌else◌, str_eq, length, take, drop,
}
use ai_agentic_english.Shared.Effect.{Result, ok, err, Effect, pure, lift, modify, ◌>>=◌, ◌>>◌}
use ai_agentic_english.Notify.World.{
  Subscription, PushPayload, ReminderRun, World, trigger_notification, novu,
}
use ai_agentic_english.Notify.Push.{Delivery, send_to_user}

pub record User : Type 0 where
  pub clerk_user_id : String
  pub reminder_time : Option String
  pub timezone : String

pub record Vocab : Type 0 where
  pub vocab_item_id : String
  pub term : String
  pub meaning : String
  pub example_sentence : Option String

-- `dueReviewCount` by the text that a template literal prints.
pub record ReminderContext : Type 0 where
  pub due_review_count : String
  pub vocab_of_the_day : Option Vocab

abbrev pub reminder_concurrency : ℕ
reminder_concurrency = 10

-- `chunk(items, size)`: a slice for each start 0, size, 2 * size, … below the length.
unfoldable pub chunk_from {ℓ} : {A : Type ℓ} → ℕ → List A → ℕ → List (List A)
chunk_from zero items size = []
chunk_from (suc fuel) [] size = []
chunk_from (suc fuel) (x ∷ xs) size = take size (x ∷ xs) ∷ chunk_from fuel (drop size (x ∷ xs)) size

unfoldable pub chunk {ℓ} : {A : Type ℓ} → List A → ℕ → List (List A)
unfolding chunk_from
chunk items size = chunk_from (length items) items size

-- What the time library, the review agent and the push services answer.
pub record Outside : Type 0 where
  pub local_time : String → String
  pub local_date : String → String
  pub context_of : String → Result ReminderContext
  pub deliver : Subscription → PushPayload → Delivery

abbrev pub Handler : Type 0
Handler = String → ReminderContext → Effect World Bool

-- `Boolean(reminderTime) && formatTimeInZone(now, timezone) === reminderTime`.
unfoldable pub is_due : Outside → User → Bool
is_due o u = elim u.reminder_time [
  | none ↦ false
  | some time ↦ not (str_eq time "") && str_eq (o.local_time u.timezone) time
]

unfoldable pub is_run : String → String → String → ReminderRun → Bool
is_run user_id reminder_type run_date r =
    str_eq r.user_id user_id && str_eq r.reminder_type reminder_type && str_eq r.run_date run_date

unfoldable pub already_sent : String → String → String → World → Bool
unfolding is_run
already_sent user_id reminder_type run_date w =
    any (is_run user_id reminder_type run_date) w.reminder_runs

unfoldable pub create_run : String → String → String → World → World
create_run user_id reminder_type run_date w = record w {
  reminder_runs =
      w.reminder_runs
      ++ record { user_id = user_id; reminder_type = reminder_type; run_date = run_date } ∷ [];
}

abbrev pub join : Result (Unit {0}) × World → Effect World (Unit {0}) → Result (Unit {0}) × World
join (ok a, t) rest = rest t
join (err e, t) rest = (err e, (rest t).1)

module _ (o : Outside) (reminder_type : String) (handler : Handler) where
  unfoldable pub notify_user : String → String → Effect World (Unit {0})
  unfolding create_run
  notify_user user_id run_date = do
    context ← lift (o.context_of user_id)
    notified ← handler user_id context
    modify (λ w. if notified then create_run user_id reminder_type run_date w else w)

  unfoldable pub process_user : User → Effect World (Unit {0})
  unfolding notify_user already_sent
  process_user u w =
      if already_sent u.clerk_user_id reminder_type (o.local_date u.timezone) w
      then (ok tt, w)
      else notify_user u.clerk_user_id (o.local_date u.timezone) w

  -- `Promise.all`: every user of the batch is processed; the first error is the outcome.
  unfoldable pub process_batch : List User → Effect World (Unit {0})
  unfolding process_user
  process_batch [] w = (ok tt, w)
  process_batch (u ∷ us) w = join (process_user u w) (process_batch us)

  unfoldable pub process_batches : List (List User) → Effect World (Unit {0})
  unfolding process_batch
  process_batches [] = pure tt
  process_batches (b ∷ bs) = do process_batch b; process_batches bs

  unfoldable pub with_scheduled_reminder : Result (List User) → Effect World (Unit {0})
  unfolding process_batches chunk is_due
  with_scheduled_reminder users = do
    all ← lift users
    process_batches (chunk (filter (is_due o) all) reminder_concurrency)

abbrev pub daily_push : String → PushPayload
daily_push due = record {
  title = "Nhắc nhở học tập";
  body = String.◌++◌ (String.◌++◌ "Bạn có " due) " từ vựng đến hạn ôn tập hôm nay.";
  url = some "/main/review-center/due";
}

unfoldable pub daily_reminder : Outside → Handler
unfolding novu send_to_user
daily_reminder o user_id context = do
  novu (
      trigger_notification "daily-reminder" user_id
        (("dueReviewCount", some context.due_review_count) ∷ []))
  modify (send_to_user o.deliver user_id (daily_push context.due_review_count))
  pure true

abbrev pub vocab_push : Vocab → PushPayload
vocab_push v = record {
  title = "Từ vựng hôm nay";
  body = String.◌++◌ (String.◌++◌ v.term " — ") v.meaning;
  url = some "/main/review-center";
}

unfoldable pub notify_vocab : Outside → String → Option Vocab → Effect World Bool
unfolding novu send_to_user
notify_vocab o user_id none = pure false
notify_vocab o user_id (some v) = do
  novu (
      trigger_notification "vocab-of-the-day" user_id (
        ("vocabItemId", some v.vocab_item_id)
        ∷ ("term", some v.term)
        ∷ ("meaning", some v.meaning)
        ∷ ("exampleSentence", v.example_sentence)
        ∷ []))
  modify (send_to_user o.deliver user_id (vocab_push v))
  pure true

unfoldable pub vocab_of_the_day : Outside → Handler
unfolding notify_vocab
vocab_of_the_day o user_id context = notify_vocab o user_id context.vocab_of_the_day

unfoldable pub run_daily_reminder : Outside → Result (List User) → Effect World (Unit {0})
unfolding with_scheduled_reminder daily_reminder
run_daily_reminder o = with_scheduled_reminder o "daily-reminder" (daily_reminder o)

unfoldable pub run_vocab_of_the_day : Outside → Result (List User) → Effect World (Unit {0})
unfolding with_scheduled_reminder vocab_of_the_day
run_vocab_of_the_day o = with_scheduled_reminder o "vocab-of-the-day" (vocab_of_the_day o)
