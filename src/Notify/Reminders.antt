-- ===== src/Notify/Reminders.antt =====
-- The two reminder handlers of services/notification-service/src/scheduler meet what the guard
-- relies on, so neither job notifies twice.
use ai_agentic_english.Prelude.{
  String, Bool, true, false, Option, none, some, List, [], ◌∷◌, ◌≡◌, refl, ◌∙◌, filter, arith,
  str_eq,
}
use ai_agentic_english.Shared.Effect.{Result, ok, continue, modify, pure, ◌>>◌}
use ai_agentic_english.Notify.World.{Subscription, PushPayload, World, NovuCall, novu_after, novu}
use ai_agentic_english.Notify.Push.{
  Delivery, delivered, failed, settle_delivery, send_each, send_to_user,
}
use ai_agentic_english.Notify.Scheduler.{
  User, Vocab, Outside, daily_reminder, daily_push, notify_vocab, vocab_push, vocab_of_the_day,
  run_daily_reminder, run_vocab_of_the_day,
}
use ai_agentic_english.Notify.OncePerDay.{IsReminder, with_scheduled_reminder_twice}

settle-runs :
    (s : Subscription) (p : PushPayload) (d : Delivery) (w : World)
    → (settle_delivery s p d w).reminder_runs ≡ w.reminder_runs
unfolding settle_delivery
settle-runs s p delivered w = refl
settle-runs s p (failed c d) w = ground arith

send_each-runs :
    (deliver : Subscription → PushPayload → Delivery) (p : PushPayload) (ss : List Subscription)
    (w : World)
    → (send_each deliver p ss w).reminder_runs ≡ w.reminder_runs
unfolding send_each
send_each-runs deliver p [] w = refl
send_each-runs deliver p (s ∷ ss) w =
    send_each-runs deliver p ss (settle_delivery s p (deliver s p) w)
    ∙ settle-runs s p (deliver s p) w

-- Both handlers that notify: a call of Novu, then a push.
abbrev notified : Outside → String → PushPayload → Result (Unit {0}) × World → Result Bool × World
notified o user push r = continue r (λ _. modify (send_to_user o.deliver user push) >> pure true)

notified-runs :
    (o : Outside) (user : String) (push : PushPayload) (call : NovuCall) (w : World)
    (faults : List Bool)
    → (notified o user push (novu_after faults call w)).1.reminder_runs ≡ w.reminder_runs
unfolding novu_after send_to_user
notified-runs o user push call w [] =
    send_each-runs o.deliver push (filter (λ s. str_eq s.clerk_user_id user) w.subscriptions)
      (novu_after [] call w).1
notified-runs o user push call w (false ∷ faults) =
    send_each-runs o.deliver push (filter (λ s. str_eq s.clerk_user_id user) w.subscriptions)
      (novu_after (false ∷ faults) call w).1
notified-runs o user push call w (true ∷ faults) = refl

-- Such a handler never answers `false`.
notified-true :
    (o : Outside) (user : String) (push : PushPayload) (call : NovuCall) (w : World)
    (faults : List Bool) (t : World)
    → notified o user push (novu_after faults call w) ≡ (ok false, t)
    → ⊥
unfolding novu_after
notified-true o user push call w [] t p = cc
notified-true o user push call w (false ∷ faults) t p = cc
notified-true o user push call w (true ∷ faults) t p = cc

pub daily_reminder-IsReminder : (o : Outside) → IsReminder (daily_reminder o)
unfolding daily_reminder novu
daily_reminder-IsReminder o = record {
  keeps_runs = λ u c w. notified-runs o u (daily_push c.due_review_count) _ w w.faults;
  silent = λ u c w t p. absurd (notified-true o u (daily_push c.due_review_count) _ w w.faults t p);
}

vocab-runs :
    (o : Outside) (u : String) (v : Option Vocab) (w : World)
    → (notify_vocab o u v w).1.reminder_runs ≡ w.reminder_runs
unfolding notify_vocab novu
vocab-runs o u none w = refl
vocab-runs o u (some v) w = notified-runs o u (vocab_push v) _ w w.faults

vocab-silent :
    (o : Outside) (u : String) (v : Option Vocab) (w t : World)
    → notify_vocab o u v w ≡ (ok false, t)
    → (x : World) → notify_vocab o u v x ≡ (ok false, x)
unfolding notify_vocab novu
vocab-silent o u none w t p x = refl
vocab-silent o u (some v) w t p x = absurd (notified-true o u (vocab_push v) _ w w.faults t p)

pub vocab_of_the_day-IsReminder : (o : Outside) → IsReminder (vocab_of_the_day o)
unfolding vocab_of_the_day
vocab_of_the_day-IsReminder o = record {
  keeps_runs = λ u c w. vocab-runs o u c.vocab_of_the_day w;
  silent = λ u c w t p. vocab-silent o u c.vocab_of_the_day w t p;
}

-- A daily reminder job that returned and runs again at the same local dates, over the same users
-- and with the same answers from outside, changes nothing: nobody is notified twice.
pub run_daily_reminder_twice :
    (o : Outside) (users : Result (List User)) (w t : World)
    → run_daily_reminder o users w ≡ (ok tt, t)
    → run_daily_reminder o users t ≡ (ok tt, t)
unfolding run_daily_reminder
run_daily_reminder_twice o users w t p =
    with_scheduled_reminder_twice o "daily-reminder" (daily_reminder o)
      (daily_reminder-IsReminder o) users w t p

-- The same of the word of the day, where a user without a word is passed over each time.
pub run_vocab_of_the_day_twice :
    (o : Outside) (users : Result (List User)) (w t : World)
    → run_vocab_of_the_day o users w ≡ (ok tt, t)
    → run_vocab_of_the_day o users t ≡ (ok tt, t)
unfolding run_vocab_of_the_day
run_vocab_of_the_day_twice o users w t p =
    with_scheduled_reminder_twice o "vocab-of-the-day" (vocab_of_the_day o)
      (vocab_of_the_day-IsReminder o) users w t p
