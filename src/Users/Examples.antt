-- ===== src/Users/Examples.antt =====
-- The theorems of the user service at one user.
use ai_agentic_english.Prelude.{
  true, none, some, List, [], ◌∷◌, ◌≡◌, refl, arith, if◌then◌else◌, str_eq,
}
use ai_agentic_english.Prelude.Int.{pos}
use ai_agentic_english.Shared.Effect.{ok}
use ai_agentic_english.Shared.Json.{Json, whole, text, object, no_fields, field, lookup}
use ai_agentic_english.Users.Time.{match_time, is_digit, number_of}
use ai_agentic_english.Users.Settings.{
  SettingsUpdate, budget_value, matched_time, time_value, read_field, is_empty_update,
  require_some_field, validate_fields, validate_settings_update,
}
use ai_agentic_english.Users.SettingsLaws.{IsValid, validate_settings_update-IsValid}
use ai_agentic_english.Users.SettingsRound.{body_of, validate_settings_update-body_of}
use ai_agentic_english.Users.Clerk.{ClerkUserEventData, get_primary_email, get_full_name}
use ai_agentic_english.Users.Accounts.{Store, Fresh, find_user}
use ai_agentic_english.Users.AccountLaws.{IsAccounts, saved}
use ai_agentic_english.Users.Routes.{user_created, user_updated, clerk_webhook}
use ai_agentic_english.Users.WebhookLaws.{
  Request, webhook, patch, serve, users_after, serve-IsAccounts, clerk_webhook_saves,
}

abbrev body : Json
body = object (
    field "dailyTimeBudgetMinutes" (whole (pos 30)) (field "reminderTime" (text "07:45") no_fields))

abbrev update : SettingsUpdate
update = record {
  daily_time_budget_minutes = some (pos 30);
  preferred_language = none;
  reminder_time = some (some "07:45");
  timezone = none;
  notification_channel_hints = none;
}

validate_settings_update-IsValid_example : IsValid update
unfolding validate_settings_update validate_fields read_field budget_value time_value matched_time
    match_time is_digit number_of require_some_field is_empty_update lookup
validate_settings_update-IsValid_example = validate_settings_update-IsValid body update refl

update-IsValid : IsValid update
unfolding match_time is_digit number_of is_empty_update
update-IsValid = record {
  budget = refl;
  language = tt;
  time = (7, 45, refl, omega arith, omega arith);
  zone = tt;
  some_field = refl;
}

validate_settings_update-body_of_example :
    validate_settings_update (object (body_of update)) ≡ ok update
validate_settings_update-body_of_example = validate_settings_update-body_of update update-IsValid

abbrev ann : ClerkUserEventData
ann = record {
  id = "ann";
  email_addresses = some (record { id = "e1"; email_address = "ann@example.com" } ∷ []);
  primary_email_address_id = none;
  first_name = some "Ann";
  last_name = none;
}

abbrev fresh : Fresh
fresh = record { id = "u1"; event_id = "v1"; now = "10:00" }

abbrev empty : Store
empty = record { users = []; published = []; faults = true ∷ [] }

abbrev requests : List Request
requests = webhook fresh (some (user_created ann)) ∷ patch "ann" body ∷ webhook fresh none ∷ []

serve-IsAccounts_example : IsAccounts (serve empty requests).users
serve-IsAccounts_example = serve-IsAccounts requests empty (record { distinct = tt; filled = tt })

clerk_webhook_saves_example :
    find_user "ann" (
      users_after
        (clerk_webhook fresh (some (if true then user_created ann else user_updated ann)))
        empty)
    ≡ (if str_eq "ann" "ann"
        then some (saved fresh "ann" "ann@example.com" (get_full_name ann) (find_user "ann" []))
        else find_user "ann" [])
unfolding get_primary_email
clerk_webhook_saves_example =
    clerk_webhook_saves true fresh ann "ann@example.com" empty refl refl "ann"
