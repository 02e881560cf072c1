-- ===== src/Pipeline.antt =====
-- Parts that work together across services: what services/user-service/src/events publishes is what
-- services/notification-service/src/kafka consumes, and the web application's route
-- apps/web/app/api/push/subscribe/route.ts stands before the routes of push subscriptions.
pub mod Deleted
pub mod PushProxy
pub mod PushProxyLaws
pub mod Examples
