-- ===== src/Users/Settings.antt =====
-- services/user-service/src/lib/validateSettingsUpdate.ts: the fields of a settings update are
-- checked in the order of the source, and the first bad one is the error.
use ai_agentic_english.Prelude.{
  ℕ, String, Bool, ◌&&◌, ◌||◌, Option, none, some, ltb, if◌then◌else◌, str_eq, is_none,
}
use ai_agentic_english.Prelude.Int.{ℤ, is_positive}
use ai_agentic_english.Shared.Errors.{validation_error, app}
use ai_agentic_english.Shared.Effect.{Result, ok, err, and_then}
use ai_agentic_english.Shared.Json.{Json, null, whole, text, array, object, Fields, lookup}
use ai_agentic_english.Users.Time.{match_time}

-- A field that is absent stays `none`; a reminder time may be given as null.
pub record SettingsUpdate : Type 0 where
  pub daily_time_budget_minutes : Option ℤ
  pub preferred_language : Option String
  pub reminder_time : Option (Option String)
  pub timezone : Option String
  pub notification_channel_hints : Option Fields

unfoldable pub invalid {ℓ} : {A : Type ℓ} → String → Result A
unfolding validation_error
invalid message = err (app (validation_error message))

unfoldable pub budget_value : Json → Result ℤ
unfolding invalid
budget_value (whole n) =
    if is_positive n then ok n else invalid "dailyTimeBudgetMinutes must be a positive integer"
budget_value _ = invalid "dailyTimeBudgetMinutes must be a positive integer"

-- `preferredLanguage` and `timezone`: a text that is not empty.
unfoldable pub text_value : String → Json → Result String
unfolding invalid
text_value message (text s) = if str_eq s "" then invalid message else ok s
text_value message _ = invalid message

unfoldable pub matched_time : String → Option (ℕ × ℕ) → Result (Option String)
unfolding invalid
matched_time s none = invalid "reminderTime must be a \"HH:MM\" string or null"
matched_time s (some (hours, minutes)) =
    if ltb 23 hours || ltb 59 minutes
    then invalid "reminderTime must be a valid 24h time (00:00-23:59) or null"
    else ok (some s)

unfoldable pub time_value : Json → Result (Option String)
unfolding invalid matched_time match_time
time_value null = ok none
time_value (text s) = matched_time s (match_time s)
time_value _ = invalid "reminderTime must be a \"HH:MM\" string or null"

unfoldable pub hints_value : Json → Result Fields
unfolding invalid
hints_value (object fs) = ok fs
hints_value _ = invalid "notificationChannelHints must be an object"

-- `if (key in input) { check; update[key] = value; }`.
unfoldable pub read_field {ℓ} : {A : Type ℓ} → (Json → Result A) → Option Json → Result (Option A)
read_field check none = ok none
read_field check (some v) = and_then (check v) (λ a. ok (some a))

unfoldable pub is_empty_update : SettingsUpdate → Bool
is_empty_update u =
    is_none u.daily_time_budget_minutes
    && is_none u.preferred_language
    && is_none u.reminder_time
    && is_none u.timezone
    && is_none u.notification_channel_hints

unfoldable pub require_some_field : SettingsUpdate → Result SettingsUpdate
unfolding is_empty_update invalid
require_some_field u =
    if is_empty_update u then invalid "No valid settings fields provided" else ok u

unfoldable pub validate_fields : (String → Option Json) → Result SettingsUpdate
unfolding read_field budget_value text_value time_value hints_value require_some_field
validate_fields input =
    and_then (read_field budget_value (input "dailyTimeBudgetMinutes")) (λ budget.
      and_then
        (read_field (text_value "preferredLanguage must be a non-empty string")
          (input "preferredLanguage"))
        (λ language. and_then (read_field time_value (input "reminderTime")) (λ time.
          and_then
            (read_field (text_value "timezone must be a non-empty string") (input "timezone"))
            (λ zone. and_then (read_field hints_value (input "notificationChannelHints")) (λ hints.
              require_some_field (record {
                daily_time_budget_minutes = budget;
                preferred_language = language;
                reminder_time = time;
                timezone = zone;
                notification_channel_hints = hints;
              }))))))

-- An array is an object without any of these fields.
unfoldable pub validate_settings_update : Json → Result SettingsUpdate
unfolding validate_fields invalid lookup
validate_settings_update (object fs) = validate_fields (λ key. lookup key fs)
validate_settings_update (array _) = validate_fields (λ _. none)
validate_settings_update _ = invalid "Request body must be an object"
