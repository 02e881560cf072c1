-- ===== src/Users/SettingsRound.antt =====
-- Every valid update is accepted as it stands: the client's rendering of it as a JSON body is read
-- back to the same update.
use ai_agentic_english.Prelude.{
  ℕ, ◌≤◌, String, true, false, Option, none, some, str_eq, ◌≡◌, refl, arith, ◌∙◌,
}
use ai_agentic_english.Prelude.Int.{ℤ, is_positive}
use ai_agentic_english.Shared.Effect.{ok}
use ai_agentic_english.Shared.Json.{
  Json, null, whole, text, object, Fields, no_fields, field, lookup,
}
use ai_agentic_english.Users.Settings.{
  SettingsUpdate, budget_value, text_value, matched_time, time_value, hints_value, read_field,
  is_empty_update, require_some_field, validate_fields, validate_settings_update,
}
use ai_agentic_english.Users.SettingsLaws.{OptAll, IsTime, IsValid}

-- The rendering: the fields that are given, in any fixed order, `null` for a cleared reminder.
abbrev json_time : Option String → Json
json_time none = null
json_time (some s) = text s

abbrev opt_field {ℓ} : {A : Type ℓ} → String → (A → Json) → Option A → Fields → Fields
opt_field key json none fs = fs
opt_field key json (some a) fs = field key (json a) fs

abbrev opt_json {ℓ} : {A : Type ℓ} → (A → Json) → Option A → Option Json
opt_json json none = none
opt_json json (some a) = some (json a)

unfoldable pub body_of : SettingsUpdate → Fields
body_of u = opt_field "dailyTimeBudgetMinutes" whole u.daily_time_budget_minutes (
    opt_field "preferredLanguage" text u.preferred_language (
      opt_field "reminderTime" json_time u.reminder_time (
        opt_field "timezone" text u.timezone
          (opt_field "notificationChannelHints" object u.notification_channel_hints no_fields))))

lookup-opt_field_other :
    {A : Type 0} (k j : String) (json : A → Json) (o : Option A) (fs : Fields)
    → str_eq j k ≡ false
    → lookup k (opt_field j json o fs) ≡ lookup k fs
unfolding lookup
lookup-opt_field_other k j json none fs ne = refl
lookup-opt_field_other k j json (some a) fs ne = rw (ne)

lookup-opt_field_same :
    {A : Type 0} (k : String) (json : A → Json) (o : Option A) (fs : Fields)
    → str_eq k k ≡ true
    → lookup k fs ≡ none
    → lookup k (opt_field k json o fs) ≡ opt_json json o
unfolding lookup
lookup-opt_field_same k json none fs eq absent = absent
lookup-opt_field_same k json (some a) fs eq absent = rw eq

lookup-budget :
    (u : SettingsUpdate)
    → lookup "dailyTimeBudgetMinutes" (body_of u) ≡ opt_json whole u.daily_time_budget_minutes
unfolding body_of lookup
lookup-budget u =
    lookup-opt_field_same "dailyTimeBudgetMinutes" whole u.daily_time_budget_minutes _ refl (
      lookup-opt_field_other "dailyTimeBudgetMinutes" "preferredLanguage" text u.preferred_language
        _ refl
      ∙ lookup-opt_field_other "dailyTimeBudgetMinutes" "reminderTime" json_time u.reminder_time _
          refl
      ∙ lookup-opt_field_other "dailyTimeBudgetMinutes" "timezone" text u.timezone _ refl
      ∙ lookup-opt_field_other "dailyTimeBudgetMinutes" "notificationChannelHints" object
          u.notification_channel_hints no_fields refl)

lookup-language :
    (u : SettingsUpdate)
    → lookup "preferredLanguage" (body_of u) ≡ opt_json text u.preferred_language
unfolding body_of lookup
lookup-language u =
    lookup-opt_field_other "preferredLanguage" "dailyTimeBudgetMinutes" whole
      u.daily_time_budget_minutes _ refl
    ∙ lookup-opt_field_same "preferredLanguage" text u.preferred_language _ refl (
        lookup-opt_field_other "preferredLanguage" "reminderTime" json_time u.reminder_time _ refl
        ∙ lookup-opt_field_other "preferredLanguage" "timezone" text u.timezone _ refl
        ∙ lookup-opt_field_other "preferredLanguage" "notificationChannelHints" object
            u.notification_channel_hints no_fields refl)

lookup-time :
    (u : SettingsUpdate) → lookup "reminderTime" (body_of u) ≡ opt_json json_time u.reminder_time
unfolding body_of lookup
lookup-time u =
    lookup-opt_field_other "reminderTime" "dailyTimeBudgetMinutes" whole u.daily_time_budget_minutes
      _ refl
    ∙ lookup-opt_field_other "reminderTime" "preferredLanguage" text u.preferred_language _ refl
    ∙ lookup-opt_field_same "reminderTime" json_time u.reminder_time _ refl (
        lookup-opt_field_other "reminderTime" "timezone" text u.timezone _ refl
        ∙ lookup-opt_field_other "reminderTime" "notificationChannelHints" object
            u.notification_channel_hints no_fields refl)

lookup-zone : (u : SettingsUpdate) → lookup "timezone" (body_of u) ≡ opt_json text u.timezone
unfolding body_of lookup
lookup-zone u =
    lookup-opt_field_other "timezone" "dailyTimeBudgetMinutes" whole u.daily_time_budget_minutes _
      refl
    ∙ lookup-opt_field_other "timezone" "preferredLanguage" text u.preferred_language _ refl
    ∙ lookup-opt_field_other "timezone" "reminderTime" json_time u.reminder_time _ refl
    ∙ lookup-opt_field_same "timezone" text u.timezone _ refl (
        lookup-opt_field_other "timezone" "notificationChannelHints" object
          u.notification_channel_hints no_fields refl)

lookup-hints :
    (u : SettingsUpdate)
    → lookup "notificationChannelHints" (body_of u) ≡ opt_json object u.notification_channel_hints
unfolding body_of lookup
lookup-hints u =
    lookup-opt_field_other "notificationChannelHints" "dailyTimeBudgetMinutes" whole
      u.daily_time_budget_minutes _ refl
    ∙ lookup-opt_field_other "notificationChannelHints" "preferredLanguage" text
        u.preferred_language _ refl
    ∙ lookup-opt_field_other "notificationChannelHints" "reminderTime" json_time u.reminder_time _
        refl
    ∙ lookup-opt_field_other "notificationChannelHints" "timezone" text u.timezone _ refl
    ∙ lookup-opt_field_same "notificationChannelHints" object u.notification_channel_hints no_fields
        refl refl

read_budget :
    (o : Option ℤ)
    → OptAll (λ n. is_positive n ≡ true) o
    → read_field budget_value (opt_json whole o) ≡ ok o
unfolding read_field budget_value
read_budget none h = refl
read_budget (some n) h = rw h

read_text :
    (message : String) (o : Option String)
    → OptAll (λ s. str_eq s "" ≡ false) o
    → read_field (text_value message) (opt_json text o) ≡ ok o
unfolding read_field text_value
read_text message none h = refl
read_text message (some s) h = rw h

matched_time-ok :
    (s : String) (h m : ℕ) → h ≤ 23 → m ≤ 59 → matched_time s (some (h, m)) ≡ ok (some s)
unfolding matched_time
matched_time-ok s h m small_h small_m = ground arith

read_time :
    (o : Option (Option String))
    → OptAll (OptAll IsTime) o
    → read_field time_value (opt_json json_time o) ≡ ok o
unfolding read_field time_value
read_time none h = refl
read_time (some none) h = refl
read_time (some (some s)) (h, m, e, small_h, small_m) =
    rw (e, matched_time-ok s h m small_h small_m)

read_hints : (o : Option Fields) → read_field hints_value (opt_json object o) ≡ ok o
unfolding read_field hints_value
read_hints none = refl
read_hints (some n) = refl

require-full : (u : SettingsUpdate) → is_empty_update u ≡ false → require_some_field u ≡ ok u
unfolding require_some_field
require-full u e = rw e

-- A valid update, sent as a JSON object, is accepted and read back unchanged.
pub validate_settings_update-body_of :
    (u : SettingsUpdate) → IsValid u → validate_settings_update (object (body_of u)) ≡ ok u
unfolding validate_settings_update validate_fields
validate_settings_update-body_of u v = rw (
  lookup-budget u,
  read_budget u.daily_time_budget_minutes v.budget,
  lookup-language u,
  read_text "preferredLanguage must be a non-empty string" u.preferred_language v.language,
  lookup-time u,
  read_time u.reminder_time v.time,
  lookup-zone u,
  read_text "timezone must be a non-empty string" u.timezone v.zone,
  lookup-hints u,
  read_hints u.notification_channel_hints,
  require-full u v.some_field,
)
