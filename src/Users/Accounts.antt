-- ===== src/Users/Accounts.antt =====
-- services/user-service: the tables of prisma/schema.prisma with the queries the routes make, and
-- the event bus. The database gives a new row its id and its defaults and stamps each write; those
-- and the id of an event come with the request as `Fresh`. A publish takes the next fault of the
-- bus, `true` for one that throws; past the end of the list publishes succeed.
use ai_agentic_english.Prelude.{
  String, Bool, true, false, not, Option, none, some, List, [], ◌∷◌, ◌++◌, find, filter,
  if◌then◌else◌, str_eq, get_or,
}
use ai_agentic_english.Prelude.Int.{ℤ, pos}
use ai_agentic_english.Shared.Errors.{other}
use ai_agentic_english.Shared.Effect.{Result, ok, err, Effect}
use ai_agentic_english.Shared.Json.{Fields, no_fields}
use ai_agentic_english.Users.Settings.{SettingsUpdate}

pub record UserSettings : Type 0 where
  pub daily_time_budget_minutes : ℤ
  pub preferred_language : String
  pub reminder_time : Option String
  pub timezone : String
  pub notification_channel_hints : Fields

pub record User : Type 0 where
  pub id : String
  pub clerk_user_id : String
  pub email : String
  pub name : Option String
  pub created_at : String
  pub updated_at : String
  pub settings : Option UserSettings

pub data UserEvent : Type 0 where
  user_upserted : (user_id email : String) (name : Option String) (action : String) → UserEvent
  user_deleted : (user_id : String) → UserEvent

pub record Published : Type 0 where
  pub topic : String
  pub key : String
  pub event_id : String
  pub occurred_at : String
  pub event : UserEvent

pub record Store : Type 0 where
  pub users : List User
  pub published : List Published
  pub faults : List Bool

pub record Fresh : Type 0 where
  pub id : String
  pub event_id : String
  pub now : String

abbrev pub default_settings : UserSettings
default_settings = record {
  daily_time_budget_minutes = pos 20;
  preferred_language = "en";
  reminder_time = none;
  timezone = "UTC";
  notification_channel_hints = no_fields;
}

unfoldable pub is_user : String → User → Bool
is_user clerk_user_id u = str_eq u.clerk_user_id clerk_user_id

unfoldable pub find_user : String → List User → Option User
unfolding is_user
find_user clerk_user_id = find (is_user clerk_user_id)

-- `upsert({ where: { clerkUserId }, create: {…, settings: { create: {} } }, update: { email, name } })`.
unfoldable pub upsert_user : Fresh → String → String → Option String → List User → List User
unfolding is_user
upsert_user f clerk_user_id email name [] =
    record {
      id = f.id;
      clerk_user_id = clerk_user_id;
      email = email;
      name = name;
      created_at = f.now;
      updated_at = f.now;
      settings = some default_settings;
    }
    ∷ []
upsert_user f clerk_user_id email name (u ∷ us) =
    if is_user clerk_user_id u
    then record u { email = email; name = name; updated_at = f.now } ∷ us
    else u ∷ upsert_user f clerk_user_id email name us

-- `deleteMany`; the settings go with the row, by `onDelete: Cascade`.
unfoldable pub delete_users : String → List User → List User
unfolding is_user
delete_users clerk_user_id = filter (λ u. not (is_user clerk_user_id u))

-- The columns that an update gives, over the others.
unfoldable pub merge_settings : SettingsUpdate → UserSettings → UserSettings
merge_settings p s = record {
  daily_time_budget_minutes = get_or p.daily_time_budget_minutes s.daily_time_budget_minutes;
  preferred_language = get_or p.preferred_language s.preferred_language;
  reminder_time = get_or p.reminder_time s.reminder_time;
  timezone = get_or p.timezone s.timezone;
  notification_channel_hints = get_or p.notification_channel_hints s.notification_channel_hints;
}

-- `userSettings.upsert`: created over the defaults, or updated.
unfoldable pub upsert_settings : SettingsUpdate → Option UserSettings → UserSettings
unfolding merge_settings
upsert_settings p o = merge_settings p (get_or o default_settings)

unfoldable pub set_settings : String → UserSettings → List User → List User
unfolding is_user
set_settings clerk_user_id s [] = []
set_settings clerk_user_id s (u ∷ us) =
    if is_user clerk_user_id u
    then record u { settings = some s } ∷ us
    else u ∷ set_settings clerk_user_id s us

unfoldable pub publish_after : List Bool → Published → Store → Result (Unit {0}) × Store
publish_after [] p s = (ok tt, record s { published = s.published ++ p ∷ [] })
publish_after (false ∷ faults) p s =
    (ok tt, record s { published = s.published ++ p ∷ []; faults = faults })
publish_after (true ∷ faults) p s = (err (other "publish"), record s { faults = faults })

unfoldable pub publish : Published → Effect Store (Unit {0})
unfolding publish_after
publish p s = publish_after s.faults p s
