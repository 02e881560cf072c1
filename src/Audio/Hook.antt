-- ===== src/Audio/Hook.antt =====
-- usePresignedAudioUrl of apps/web/lib/audio.ts. A load that has to ask the server is two
-- functions, before and after the answer.
use ai_agentic_english.Prelude.{
  ℕ, String, Bool, true, false, Option, none, some, if◌then◌else◌, str_eq,
}
use ai_agentic_english.Shared.Trim.{trim}
use ai_agentic_english.Audio.Cache.{
  AudioBucket, Cache, Lookup, cache_key, get_cached_audio_url, set_cached_audio_url,
  forget_audio_url,
}

pub data AudioState : Type 0 where
  idle : AudioState
  loading : AudioState
  ready : (url : String) → AudioState
  failed : (message : String) → AudioState

pub record RequestState : Type 0 where
  pub state : AudioState
  pub cache_key : Option String

-- The audio that a player is for, by its bucket and its trimmed key, if it has both.
abbrev pub Source : Type 0
Source = Option (AudioBucket × String)

unfoldable pub normalize_key : Option String → Option String
unfolding trim
normalize_key none = none
normalize_key (some key) = if str_eq (trim key) "" then none else some (trim key)

abbrev with_bucket : AudioBucket → Option String → Source
with_bucket bucket none = none
with_bucket bucket (some key) = some (bucket, key)

unfoldable pub to_source : Option AudioBucket → Option String → Source
unfolding normalize_key
to_source none key = none
to_source (some bucket) key = with_bucket bucket (normalize_key key)

unfoldable pub current_cache_key : Source → Option String
unfolding cache_key
current_cache_key none = none
current_cache_key (some (bucket, key)) = some (cache_key bucket key)

-- `if (cachedUrl)`: an empty URL counts as none.
abbrev pub truthy : Option String → Option String
truthy none = none
truthy (some s) = if str_eq s "" then none else some s

-- One player's request state and the cache that it shares.
pub record Player : Type 0 where
  pub request : RequestState
  pub cache : Cache

abbrev pub same_key : Option String → Option String → Bool
same_key none none = true
same_key none (some b) = false
same_key (some a) none = false
same_key (some a) (some b) = str_eq a b

abbrev from_cache : Option String → AudioState
from_cache none = idle
from_cache (some url) = ready url

unfoldable pub cached_url : Source → ℕ → Cache → Lookup
unfolding get_cached_audio_url
cached_url none now cache = (none, cache)
cached_url (some (bucket, key)) now cache = get_cached_audio_url bucket key now cache

-- The state that a render shows; the render also drops a stale entry.
unfoldable pub render : Source → ℕ → Player → AudioState × Player
unfolding cached_url current_cache_key
render source now p =
    let found = cached_url source now p.cache in
    (
      if same_key p.request.cache_key (current_cache_key source)
          then p.request.state
          else from_cache (truthy found.0),
      record p { cache = found.1 },
    )

abbrev pub request_of : Source → AudioState → RequestState
request_of source state = record { state = state; cache_key = current_cache_key source }

-- The answer of a load that needed no request, with `none` where the server is asked.
abbrev settle_load : Source → Player → Option String → Player × Option String
settle_load source p (some url) = (record p { request = request_of source (ready url) }, some url)
settle_load source p none = (record p { request = request_of source loading }, none)

unfoldable pub load_start : Source → ℕ → Player → Player × Option String
unfolding get_cached_audio_url current_cache_key
load_start none now p = (
  record p {
    request = record {
      state = failed "No audio is available for this listening item.";
      cache_key = none;
    };
  },
  none,
)
load_start (some (bucket, key)) now p =
    let found = get_cached_audio_url bucket key now p.cache in
    settle_load (some (bucket, key)) (record p { cache = found.1 }) (truthy found.0)

pub data UrlResponse : Type 0 where
  url_of : String → UrlResponse
  api_error : (message : String) → UrlResponse
  other_error : UrlResponse

unfoldable pub load_finish :
    AudioBucket → String → ℕ → UrlResponse → Player → Player × Option String
unfolding set_cached_audio_url current_cache_key
load_finish bucket key now (url_of url) p = (
  record {
    request = request_of (some (bucket, key)) (ready url);
    cache = set_cached_audio_url bucket key url now p.cache;
  },
  some url,
)
load_finish bucket key now (api_error message) p =
    (record p { request = request_of (some (bucket, key)) (failed message) }, none)
load_finish bucket key now other_error p = (
  record p {
    request =
        request_of (some (bucket, key))
          (failed "Unable to load audio right now. Please try again.");
  },
  none,
)

abbrev forget_source : Source → Cache → Cache
forget_source none cache = cache
forget_source (some (bucket, key)) cache = forget_audio_url bucket key cache

unfoldable pub mark_playback_failed : Source → Player → Player
unfolding forget_audio_url current_cache_key
mark_playback_failed source p = record {
  request = request_of source (failed "Audio is unavailable for this listening item.");
  cache = forget_source source p.cache;
}
