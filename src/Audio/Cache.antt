-- ===== src/Audio/Cache.antt =====
-- The cache of presigned URLs of apps/web/lib/audio.ts, which all players of a page share. Times
-- are milliseconds; where the clock was set back, the age on ℕ is 0, as young as the negative age of
-- the source.
use Prim.Native.String
use ai_agentic_english.Prelude.{ℕ, ◌-◌, ◌*◌, String, Bool, Option, none, some, ltb, if◌then◌else◌}
use ai_agentic_english.Prelude.Dict.{Dict, get, set, remove}

pub data AudioBucket : Type 0 where
  assessment_audio : AudioBucket
  passage_audio : AudioBucket

pub record CachedAudioUrl : Type 0 where
  pub url : String
  pub fetched_at : ℕ

abbrev pub presigned_audio_max_age_ms : ℕ
presigned_audio_max_age_ms = 55 * 60 * 1000

abbrev pub bucket_text : AudioBucket → String
bucket_text assessment_audio = "assessment-audio"
bucket_text passage_audio = "passage-audio"

unfoldable pub cache_key : AudioBucket → String → String
cache_key bucket key = String.◌++◌ (bucket_text bucket) (String.◌++◌ ":" key)

unfoldable pub is_stale : ℕ → CachedAudioUrl → Bool
is_stale now cached = ltb presigned_audio_max_age_ms (now - cached.fetched_at)

abbrev pub Cache : Type 0
Cache = Dict CachedAudioUrl

-- What `getCachedAudioUrl` finds, and the cache that it leaves.
abbrev pub Lookup : Type 0
Lookup = Option String × Cache

unfoldable pub read_entry : String → ℕ → Cache → Option CachedAudioUrl → Lookup
unfolding is_stale
read_entry k now cache none = (none, cache)
read_entry k now cache (some cached) =
    if is_stale now cached then (none, remove k cache) else (some cached.url, cache)

unfoldable pub get_cached_audio_url : AudioBucket → String → ℕ → Cache → Lookup
unfolding read_entry cache_key get remove
get_cached_audio_url bucket key now cache =
    read_entry (cache_key bucket key) now cache (get (cache_key bucket key) cache)

unfoldable pub set_cached_audio_url : AudioBucket → String → String → ℕ → Cache → Cache
unfolding cache_key set
set_cached_audio_url bucket key url now =
    set (cache_key bucket key) (record { url = url; fetched_at = now })

unfoldable pub forget_audio_url : AudioBucket → String → Cache → Cache
unfolding cache_key remove
forget_audio_url bucket key = remove (cache_key bucket key)
