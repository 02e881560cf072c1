-- ===== src/Notify.antt =====
-- services/notification-service: consumers of domain events, reminders, push subscriptions.
pub mod World
pub mod Push
pub mod Consumers
pub mod PushLaws
pub mod DedupLaws
pub mod Chunks
pub mod OncePerDay
pub mod Reminders
pub mod Scheduler
pub mod Subscriptions
pub mod SubscriptionLaws
pub mod SubscriptionRows
pub mod Examples
