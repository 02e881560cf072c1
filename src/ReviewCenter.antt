-- ===== src/ReviewCenter.antt =====
-- apps/web/app/main/review-center: the client of the review routes.
pub mod Api
pub mod Cards
pub mod ApiLaws
pub mod Examples
