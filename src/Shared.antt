-- ===== src/Shared.antt =====
-- packages/shared: what the services share.
pub mod Errors
pub mod Effect
pub mod Json
pub mod Cefr
pub mod Skill
pub mod Trim
pub mod Chars
pub mod Auth
pub mod AuthLaws
pub mod Examples
