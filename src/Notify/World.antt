-- ===== src/Notify/World.antt =====
-- The state of services/notification-service: the tables of prisma/schema.prisma that the code
-- reads, the calls that reached Novu and the push services, and the faults to come: each call of
-- Novu takes the next one, `true` for a call that throws; past the end of the list calls succeed.
use ai_agentic_english.Prelude.{String, Bool, true, false, Option, List, [], ◌∷◌, ◌++◌}
use ai_agentic_english.Shared.Errors.{other}
use ai_agentic_english.Shared.Effect.{Result, ok, err, Effect}

pub record ReminderRun : Type 0 where
  pub user_id : String
  pub reminder_type : String
  pub run_date : String

pub record Subscription : Type 0 where
  pub endpoint : String
  pub clerk_user_id : String
  pub p256dh : String
  pub auth : String

pub record PushPayload : Type 0 where
  pub title : String
  pub body : String
  pub url : Option String

pub data NovuCall : Type 0 where
  upsert_subscriber : (subscriber_id email : String) (name : Option String) → NovuCall
  trigger_notification :
      (workflow_id subscriber_id : String) (payload : List (String × Option String)) → NovuCall
  delete_subscriber : (subscriber_id : String) → NovuCall

pub record World : Type 0 where
  pub processed_events : List String
  pub reminder_runs : List ReminderRun
  pub subscriptions : List Subscription
  pub novu_calls : List NovuCall
  pub pushes : List (Subscription × PushPayload)
  pub faults : List Bool

-- A call of the Novu client.
unfoldable pub novu_after : List Bool → NovuCall → World → Result (Unit {0}) × World
novu_after [] call w = (ok tt, record w { novu_calls = w.novu_calls ++ call ∷ [] })
novu_after (false ∷ faults) call w =
    (ok tt, record w { novu_calls = w.novu_calls ++ call ∷ []; faults = faults })
novu_after (true ∷ faults) call w = (err (other "novu"), record w { faults = faults })

unfoldable pub novu : NovuCall → Effect World (Unit {0})
unfolding novu_after
novu call w = novu_after w.faults call w
