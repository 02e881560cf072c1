-- ===== src/Users/Routes.antt =====
-- services/user-service/src: routes/webhooks.ts, events/publishers.ts, routes/users.ts,
-- routes/internal.ts and lib/userMapper.ts. What svix answers for a request comes with it: `none`
-- where it refuses the signature. What `requireAuth` answers is Shared/Auth.antt's matter: the
-- routes take the user id.
use ai_agentic_english.Prelude.{String, Option, none, some, List, [], ◌∷◌, if◌then◌else◌, str_eq}
use ai_agentic_english.Shared.Errors.{app, not_found_error, unauthorized_error, AppError}
use ai_agentic_english.Shared.Effect.{
  Result, ok, err, Effect, pure, throw, lift, modify, ◌>>=◌, ◌>>◌,
}
use ai_agentic_english.Shared.Json.{Json}
use ai_agentic_english.Users.Settings.{validate_settings_update}
use ai_agentic_english.Users.Clerk.{ClerkUserEventData, get_primary_email, get_full_name}
use ai_agentic_english.Users.Accounts.{
  UserSettings, User, user_upserted, user_deleted, Store, Fresh, find_user, upsert_user,
  delete_users, upsert_settings, set_settings, publish,
}

unfoldable pub publish_user_upserted :
    Fresh → String → String → Option String → String → Effect Store (Unit {0})
unfolding publish
publish_user_upserted f clerk_user_id email name action = publish (record {
  topic = "user.upserted";
  key = clerk_user_id;
  event_id = f.event_id;
  occurred_at = f.now;
  event = user_upserted clerk_user_id email name action;
})

unfoldable pub publish_user_deleted : Fresh → String → Effect Store (Unit {0})
unfolding publish
publish_user_deleted f clerk_user_id = publish (record {
  topic = "user.deleted";
  key = clerk_user_id;
  event_id = f.event_id;
  occurred_at = f.now;
  event = user_deleted clerk_user_id;
})

pub data ClerkWebhookEvent : Type 0 where
  user_created : ClerkUserEventData → ClerkWebhookEvent
  user_updated : ClerkUserEventData → ClerkWebhookEvent
  user_deleted_event : ClerkUserEventData → ClerkWebhookEvent
  other_event : ClerkWebhookEvent

abbrev pub missing_email : AppError
missing_email = record {
  message = "Clerk user missing primary email";
  status_code = 400;
  code = "VALIDATION_ERROR";
}

unfoldable pub save_user :
    Fresh → String → Option String → Option String → String → Effect Store (Unit {0})
unfolding upsert_user publish_user_upserted
save_user f clerk_user_id none name action = throw (app missing_email)
save_user f clerk_user_id (some email) name action =
    if str_eq email ""
    then throw (app missing_email)
    else modify (λ s. record s { users = upsert_user f clerk_user_id email name s.users })
      >> publish_user_upserted f clerk_user_id email name action

unfoldable pub clerk_webhook : Fresh → Option ClerkWebhookEvent → Effect Store (Unit {0})
unfolding save_user get_primary_email get_full_name delete_users publish_user_deleted
    unauthorized_error
clerk_webhook f none = throw (app (unauthorized_error "Invalid webhook signature"))
clerk_webhook f (some (user_created user)) =
    save_user f user.id (get_primary_email user) (get_full_name user) "created"
clerk_webhook f (some (user_updated user)) =
    save_user f user.id (get_primary_email user) (get_full_name user) "updated"
clerk_webhook f (some (user_deleted_event user)) = do
  modify (λ s. record s { users = delete_users user.id s.users })
  publish_user_deleted f user.id
clerk_webhook f (some other_event) = pure tt

-- `toUserDto` and `toUserSummaryDto`, of a user with its settings.
pub record UserDto : Type 0 where
  pub id : String
  pub clerk_user_id : String
  pub email : String
  pub name : Option String
  pub created_at : String
  pub updated_at : String
  pub settings : UserSettings

unfoldable pub to_user_dto : User → UserSettings → UserDto
to_user_dto u s = record {
  id = u.id;
  clerk_user_id = u.clerk_user_id;
  email = u.email;
  name = u.name;
  created_at = u.created_at;
  updated_at = u.updated_at;
  settings = s;
}

pub record UserSummaryDto : Type 0 where
  pub clerk_user_id : String
  pub email : String
  pub name : Option String
  pub settings : UserSettings

unfoldable pub to_user_summary_dto : User → UserSettings → UserSummaryDto
to_user_summary_dto u s = record {
  clerk_user_id = u.clerk_user_id;
  email = u.email;
  name = u.name;
  settings = s;
}

abbrev pub require_user : Option User → Result User
require_user none = err (app (not_found_error "User not found"))
require_user (some u) = ok u

abbrev with_settings : User → Option UserSettings → Result UserDto
with_settings u none = err (app (not_found_error "User not found"))
with_settings u (some s) = ok (to_user_dto u s)

-- GET /me.
unfoldable pub get_me : String → Effect Store UserDto
unfolding find_user to_user_dto not_found_error
get_me clerk_user_id s =
    (lift (require_user (find_user clerk_user_id s.users)) >>= λ u.
    lift (with_settings u u.settings))
      s

-- PATCH /me/settings.
unfoldable pub patch_settings : String → Json → Effect Store UserSettings
unfolding find_user validate_settings_update upsert_settings set_settings not_found_error
patch_settings clerk_user_id body s =
    (do
      u ← lift (require_user (find_user clerk_user_id s.users))
      update ← lift (validate_settings_update body)
      let settings = upsert_settings update u.settings
      modify (λ t. record t { users = set_settings clerk_user_id settings t.users })
      pure settings)
      s

-- GET /internal/users: the users that have settings.
unfoldable pub list_users : List User → List UserSummaryDto
unfolding to_user_summary_dto
list_users [] = []
list_users (u ∷ us) = elim u.settings [
  | none ↦ list_users us
  | some s ↦ to_user_summary_dto u s ∷ list_users us
]
