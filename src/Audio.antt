-- ===== src/Audio.antt =====
-- apps/web/lib/audio.ts: the URLs of listening audio and the hook that loads them.
pub mod Cache
pub mod Hook
pub mod CacheLaws
pub mod Examples
