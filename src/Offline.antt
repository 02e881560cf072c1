-- ===== src/Offline.antt =====
-- apps/web/lib/offline: reviews queued while the browser is offline.
pub mod Reviews
pub mod ReviewLaws
pub mod Examples
