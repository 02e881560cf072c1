-- ===== src/Onboarding.antt =====
-- apps/web/app/onboarding and its API route: what the placement test and the profile become.
pub mod Request
pub mod Number
pub mod Route
pub mod Placement
pub mod Accepted
pub mod Examples
