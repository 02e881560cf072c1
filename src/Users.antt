-- ===== src/Users.antt =====
-- services/user-service: the Clerk webhook, settings and the routes of the signed-in user.
pub mod Time
pub mod Settings
pub mod SettingsLaws
pub mod SettingsRound
pub mod Clerk
pub mod Accounts
pub mod Routes
pub mod AccountLaws
pub mod WebhookLaws
pub mod Examples
