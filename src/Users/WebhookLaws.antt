-- ===== src/Users/WebhookLaws.antt =====
-- What the routes of the user service keep and what the Clerk webhook leaves behind.
use ai_agentic_english.Prelude.{
  String, Bool, true, false, Option, none, some, List, [], ◌∷◌, ◌≡◌, ◌≢◌, refl, if◌then◌else◌,
  str_eq, eq_refl, str_eq-false, Bool-cases, inl, inr,
}
use ai_agentic_english.Shared.Errors.{app, not_found_error}
use ai_agentic_english.Shared.Effect.{Result, ok, err, Effect, pure, lift, modify, ◌>>=◌, ◌>>◌}
use ai_agentic_english.Shared.Json.{Json}
use ai_agentic_english.Users.Settings.{SettingsUpdate, validate_settings_update}
use ai_agentic_english.Users.Clerk.{ClerkUserEventData, get_primary_email, get_full_name}
use ai_agentic_english.Users.Accounts.{
  User, Published, Store, Fresh, find_user, upsert_user, delete_users, upsert_settings,
  set_settings, publish_after, publish,
}
use ai_agentic_english.Users.AccountLaws.{
  IsAccounts, upsert_user-IsAccounts, delete_users-IsAccounts, set_settings-IsAccounts, saved,
  find_user-upsert_user, find_user-delete_users,
}
use ai_agentic_english.Users.Routes.{
  publish_user_upserted, publish_user_deleted, ClerkWebhookEvent, user_created, user_updated,
  user_deleted_event, other_event, save_user, clerk_webhook, get_me, require_user, patch_settings,
}

publish_after-users :
    (faults : List Bool) (p : Published) (s : Store) → (publish_after faults p s).1.users ≡ s.users
unfolding publish_after
publish_after-users [] p s = refl
publish_after-users (false ∷ faults) p s = refl
publish_after-users (true ∷ faults) p s = refl

pub publish-users : (p : Published) (s : Store) → (publish p s).1.users ≡ s.users
unfolding publish
publish-users p s = publish_after-users s.faults p s

abbrev pub users_after : {A : Type 0} → Effect Store A → Store → List User
users_after m s = (m s).1.users

pub save_user-saved :
    (f : Fresh) (id email : String) (name : Option String) (action : String) (s : Store)
    → str_eq email "" ≡ false
    → users_after (save_user f id (some email) name action) s ≡ upsert_user f id email name s.users
unfolding save_user publish_user_upserted
save_user-saved f id email name action s e = rw (e, publish-users)

save_user-refused :
    (f : Fresh) (id email : String) (name : Option String) (action : String) (s : Store)
    → str_eq email "" ≡ true
    → users_after (save_user f id (some email) name action) s ≡ s.users
unfolding save_user
save_user-refused f id email name action s e = rw e

pub save_user-IsAccounts :
    (f : Fresh) (id : String) (email name : Option String) (action : String) (s : Store)
    → IsAccounts s.users
    → IsAccounts (users_after (save_user f id email name action) s)
unfolding save_user
save_user-IsAccounts f id none name action s h = h
save_user-IsAccounts f id (some email) name action s h = elim (Bool-cases (str_eq email "")) [
  | inl e ↦ rw (save_user-refused f id email name action s e) h
  | inr e ↦
      rw (save_user-saved f id email name action s e)
        (upsert_user-IsAccounts f id email name s.users e h)
]

pub user_deleted-users :
    (f : Fresh) (user : ClerkUserEventData) (s : Store)
    → users_after (clerk_webhook f (some (user_deleted_event user))) s
      ≡ delete_users user.id s.users
unfolding clerk_webhook publish_user_deleted
user_deleted-users f user s = publish-users _ _

clerk_webhook-IsAccounts :
    (f : Fresh) (e : Option ClerkWebhookEvent) (s : Store)
    → IsAccounts s.users
    → IsAccounts (users_after (clerk_webhook f e) s)
unfolding clerk_webhook
clerk_webhook-IsAccounts f none s h = h
clerk_webhook-IsAccounts f (some (user_created user)) s h =
    save_user-IsAccounts f user.id (get_primary_email user) (get_full_name user) "created" s h
clerk_webhook-IsAccounts f (some (user_updated user)) s h =
    save_user-IsAccounts f user.id (get_primary_email user) (get_full_name user) "updated" s h
clerk_webhook-IsAccounts f (some (user_deleted_event user)) s h =
    rw (user_deleted-users f user s) (delete_users-IsAccounts user.id s.users h)
clerk_webhook-IsAccounts f (some other_event) s h = h

-- The rest of PATCH once the user and the body are read.
patch_settings-IsAccounts :
    (id : String) (body : Json) (s : Store)
    → IsAccounts s.users
    → IsAccounts (users_after (patch_settings id body) s)
unfolding patch_settings
patch_settings-IsAccounts id body s h =
    go (require_user (find_user id s.users)) (validate_settings_update body)
  where
    go :
        (u : Result User) (p : Result SettingsUpdate)
        → IsAccounts (
            users_after
              (λ t.
                (lift u >>= λ v. lift p >>= λ q.
                modify
                  (λ t. record t { users = set_settings id (upsert_settings q v.settings) t.users })
                >> pure (upsert_settings q v.settings))
                  t)
              s)
    go (err e) p = h
    go (ok u) (err e) = h
    go (ok u) (ok p) = set_settings-IsAccounts id (upsert_settings p u.settings) s.users h

pub data Request : Type 0 where
  webhook : Fresh → Option ClerkWebhookEvent → Request
  patch : String → Json → Request

-- The requests that write, one after the other, whatever each answers.
unfoldable pub serve : Store → List Request → Store
unfolding clerk_webhook patch_settings
serve s [] = s
serve s (webhook f e ∷ rs) = serve (clerk_webhook f e s).1 rs
serve s (patch id body ∷ rs) = serve (patch_settings id body s).1 rs

-- Over any sequence of webhooks and settings updates, failed ones included, it stays so that no
-- two rows share a Clerk user id and that every row has an email and its settings.
pub serve-IsAccounts :
    (rs : List Request) (s : Store) → IsAccounts s.users → IsAccounts (serve s rs).users
unfolding serve
serve-IsAccounts [] s h = h
serve-IsAccounts (webhook f e ∷ rs) s h =
    serve-IsAccounts rs (clerk_webhook f e s).1 (clerk_webhook-IsAccounts f e s h)
serve-IsAccounts (patch id body ∷ rs) s h =
    serve-IsAccounts rs (patch_settings id body s).1 (patch_settings-IsAccounts id body s h)

-- A created or updated event with an email that is not empty leaves the user's row with the event's
-- email and name, also where the event bus fails, and every other user's row as it was.
pub clerk_webhook_saves :
    (created : Bool) (f : Fresh) (user : ClerkUserEventData) (email : String) (s : Store)
    → get_primary_email user ≡ some email
    → str_eq email "" ≡ false
    → (j : String)
    → find_user j (
        users_after
          (clerk_webhook f (some (if created then user_created user else user_updated user)))
          s)
      ≡ (if str_eq user.id j
          then some (saved f user.id email (get_full_name user) (find_user user.id s.users))
          else find_user j s.users)
unfolding clerk_webhook
clerk_webhook_saves true f user email s e full j =
    rw (e, save_user-saved f user.id email (get_full_name user) "created" s full)
      (find_user-upsert_user j f user.id email (get_full_name user) s.users)
clerk_webhook_saves false f user email s e full j =
    rw (e, save_user-saved f user.id email (get_full_name user) "updated" s full)
      (find_user-upsert_user j f user.id email (get_full_name user) s.users)

-- After a deleted event the user is not found, GET /me answers 404 to it, and every other user's
-- row is as it was.
pub clerk_webhook_deletes :
    (f : Fresh) (user : ClerkUserEventData) (s : Store)
    → ((get_me user.id (clerk_webhook f (some (user_deleted_event user)) s).1).0
        ≡ err (app (not_found_error "User not found")))
      × ((j : String)
          → user.id ≢ j
          → find_user j (users_after (clerk_webhook f (some (user_deleted_event user))) s)
            ≡ find_user j s.users)
unfolding get_me
clerk_webhook_deletes f user s = (
  rw (user_deleted-users f user s, find_user-delete_users user.id user.id s.users, eq_refl user.id),
  λ j ne. rw (
    user_deleted-users f user s,
    find_user-delete_users j user.id s.users,
    str_eq-false user.id j ne,
  ),
)
