-- ===== src/Users/SettingsLaws.antt =====
-- What validateSettingsUpdate.ts accepts: valid updates only, and every valid update.
use ai_agentic_english.Prelude.{
  ℕ, ◌≤◌, String, true, false, Option, none, some, str_eq, ◌≡◌, refl, arith, sym, ◌∙◌, ap,
}
use ai_agentic_english.Prelude.Int.{ℤ, is_positive}
use ai_agentic_english.Shared.Effect.{Result, ok, and_then-eq-ok}
use ai_agentic_english.Shared.Json.{
  Json, null, boolean, whole, fraction, text, array, object, lookup,
}
use ai_agentic_english.Users.Time.{match_time}
use ai_agentic_english.Users.Settings.{
  SettingsUpdate, invalid, budget_value, text_value, matched_time, time_value, hints_value,
  read_field, is_empty_update, require_some_field, validate_fields, validate_settings_update,
}

abbrev pub OptAll {ℓ κ} : {A : Type ℓ} → (A → Type κ) → Option A → Type κ
OptAll P none = Unit
OptAll P (some a) = P a

-- A time of the day: the two numbers of the text are below 24 and 60.
abbrev pub IsTime : String → Type 0
IsTime s = (h : ℕ) × (m : ℕ) × (match_time s ≡ some (h, m)) × (h ≤ 23) × (m ≤ 59)

pub record IsValid (u : SettingsUpdate) : Type 0 where
  pub budget : OptAll (λ n. is_positive n ≡ true) u.daily_time_budget_minutes
  pub language : OptAll (λ s. str_eq s "" ≡ false) u.preferred_language
  pub time : OptAll (OptAll IsTime) u.reminder_time
  pub zone : OptAll (λ s. str_eq s "" ≡ false) u.timezone
  pub some_field : is_empty_update u ≡ false

read_field-OptAll {κ} :
    {A : Type 0} (P : A → Type κ) (check : Json → Result A)
    → ((v : Json) (a : A) → check v ≡ ok a → P a)
    → (o : Option Json) (r : Option A) → read_field check o ≡ ok r
    → OptAll P r
unfolding read_field
read_field-OptAll P check sound none none h = tt
read_field-OptAll P check sound none (some a) h = cc
read_field-OptAll P check sound (some v) none h =
    let (a, e, k) = and_then-eq-ok (check v) (λ a. ok (some a)) h in cc
read_field-OptAll P check sound (some v) (some b) h =
    let (a, e, k) = and_then-eq-ok (check v) (λ a. ok (some a)) h in sound v b cc

budget_sound : (v : Json) (n : ℤ) → budget_value v ≡ ok n → is_positive n ≡ true
unfolding budget_value invalid
budget_sound (whole m) n h = ground arith
budget_sound null n h = cc
budget_sound (boolean b) n h = cc
budget_sound (fraction t) n h = cc
budget_sound (text t) n h = cc
budget_sound (array xs) n h = cc
budget_sound (object fs) n h = cc

text_sound :
    (message : String) (v : Json) (s : String) → text_value message v ≡ ok s → str_eq s "" ≡ false
unfolding text_value invalid
text_sound message (text t) s h = ground arith
text_sound message null s h = cc
text_sound message (boolean b) s h = cc
text_sound message (fraction t) s h = cc
text_sound message (whole t) s h = cc
text_sound message (array xs) s h = cc
text_sound message (object fs) s h = cc

matched-some :
    (s : String) (hours minutes : ℕ) (t : String)
    → matched_time s (some (hours, minutes)) ≡ ok (some t)
    → (s ≡ t) × (hours ≤ 23) × (minutes ≤ 59)
unfolding matched_time invalid
matched-some s hours minutes t h = ground arith

matched_sound :
    (s : String) (o : Option (ℕ × ℕ)) (r : Option String)
    → match_time s ≡ o
    → matched_time s o ≡ ok r
    → OptAll IsTime r
unfolding matched_time invalid
matched_sound s none r e h = cc
matched_sound s (some (hours, minutes)) none e h = tt
matched_sound s (some (hours, minutes)) (some t) e h =
    let (same, small_h, small_m) = matched-some s hours minutes t h in
    (hours, minutes, ap match_time (sym same) ∙ e, small_h, small_m)

require_sound :
    (u v : SettingsUpdate) → require_some_field u ≡ ok v → (u ≡ v) × (is_empty_update u ≡ false)
unfolding require_some_field invalid
require_sound u v h = ground arith

reminder_sound : (v : Json) (r : Option String) → time_value v ≡ ok r → OptAll IsTime r
unfolding time_value invalid
reminder_sound (text s) r h = matched_sound s (match_time s) r refl h
reminder_sound null none h = tt
reminder_sound null (some r) h = cc
reminder_sound (boolean b) r h = cc
reminder_sound (fraction t) r h = cc
reminder_sound (whole t) r h = cc
reminder_sound (array xs) r h = cc
reminder_sound (object fs) r h = cc

fields_sound :
    (input : String → Option Json) (u : SettingsUpdate) → validate_fields input ≡ ok u → IsValid u
unfolding validate_fields
fields_sound input u h0 =
    let (budget, e1, h1) =
      and_then-eq-ok (read_field budget_value (input "dailyTimeBudgetMinutes")) _ h0 in
    let (language, e2, h2) =
      and_then-eq-ok
        (read_field (text_value "preferredLanguage must be a non-empty string")
          (input "preferredLanguage"))
        _ h1 in
    let (time, e3, h3) = and_then-eq-ok (read_field time_value (input "reminderTime")) _ h2 in
    let (zone, e4, h4) =
      and_then-eq-ok
        (read_field (text_value "timezone must be a non-empty string") (input "timezone")) _ h3 in
    let (hints, e5, h5) =
      and_then-eq-ok (read_field hints_value (input "notificationChannelHints")) _ h4 in
    let (same, full) = require_sound _ u h5 in
    rw (sym same) record {
      budget =
          read_field-OptAll (λ n. is_positive n ≡ true) budget_value budget_sound
            (input "dailyTimeBudgetMinutes") budget e1;
      language =
          read_field-OptAll (λ s. str_eq s "" ≡ false)
            (text_value "preferredLanguage must be a non-empty string")
            (text_sound "preferredLanguage must be a non-empty string") (input "preferredLanguage")
            language e2;
      time =
          read_field-OptAll (OptAll IsTime) time_value reminder_sound (input "reminderTime") time
            e3;
      zone =
          read_field-OptAll (λ s. str_eq s "" ≡ false)
            (text_value "timezone must be a non-empty string")
            (text_sound "timezone must be a non-empty string") (input "timezone") zone e4;
      some_field = full;
    }

-- An update that is accepted is valid: the budget is positive, the texts are not empty, a reminder
-- time that is not null reads as hours below 24 and minutes below 60, and some field is given.
pub validate_settings_update-IsValid :
    (body : Json) (u : SettingsUpdate) → validate_settings_update body ≡ ok u → IsValid u
unfolding validate_settings_update invalid
validate_settings_update-IsValid (object fs) u h = fields_sound (λ key. lookup key fs) u h
validate_settings_update-IsValid (array xs) u h = fields_sound (λ _. none) u h
validate_settings_update-IsValid null u h = cc
validate_settings_update-IsValid (boolean b) u h = cc
validate_settings_update-IsValid (fraction t) u h = cc
validate_settings_update-IsValid (whole t) u h = cc
validate_settings_update-IsValid (text t) u h = cc
