-- ===== src/Audio/CacheLaws.antt =====
-- The cache of audio.ts against what it promises: a URL is answered from it exactly while it is the
-- last one that the server gave for the audio, its playback has not failed since, and it is at most
-- 55 minutes old.
use ai_agentic_english.Prelude.{
  ℕ, ◌≤◌, String, Option, none, some, List, [], ◌∷◌, ◌≡◌, refl, sym, ap, ◌∙◌, arith, if◌then◌else◌,
  str_eq, eq_iff, Bool-cases, inl, inr,
}
use ai_agentic_english.Prelude.Dict.{get, get-set, get-remove}
use ai_agentic_english.Audio.Cache.{
  AudioBucket, CachedAudioUrl, cache_key, is_stale, Cache, read_entry, get_cached_audio_url,
  set_cached_audio_url, forget_audio_url,
}

-- What happens to the cache, whichever player it comes from, with the time of each.
pub data Event : Type 0 where
  looked_up : (now : ℕ) (bucket : AudioBucket) (key : String) → Event
  fetched : (now : ℕ) (bucket : AudioBucket) (key url : String) → Event
  playback_failed : (now : ℕ) (bucket : AudioBucket) (key : String) → Event

abbrev pub time_of : Event → ℕ
time_of (looked_up now b k) = now
time_of (fetched now b k url) = now
time_of (playback_failed now b k) = now

unfoldable pub step : Cache → Event → Cache
unfolding get_cached_audio_url set_cached_audio_url forget_audio_url
step cache (looked_up now b k) = (get_cached_audio_url b k now cache).1
step cache (fetched now b k url) = set_cached_audio_url b k url now cache
step cache (playback_failed now b k) = forget_audio_url b k cache

unfoldable pub run : Cache → List Event → Cache
unfolding step
run cache [] = cache
run cache (e ∷ es) = run (step cache e) es

-- The promise: the last URL of each audio, as a function; a lookup changes nothing.
abbrev pub Urls : Type 0
Urls = String → Option CachedAudioUrl

abbrev pub note : Urls → Event → Urls
note f (looked_up now b k) j = f j
note f (fetched now b k url) j =
    if str_eq (cache_key b k) j then some (record { url = url; fetched_at = now }) else f j
note f (playback_failed now b k) j = if str_eq (cache_key b k) j then none else f j

abbrev pub replay : Urls → List Event → Urls
replay f [] = f
replay f (e ∷ es) = replay (note f e) es

-- The events come in order of time, from `start` to `end` at the latest.
abbrev pub InOrder : ℕ → List Event → ℕ → Type 0
InOrder start [] end = start ≤ end
InOrder start (e ∷ es) end = (start ≤ time_of e) × InOrder (time_of e) es end

unfoldable pub fresh : ℕ → Option CachedAudioUrl → Option CachedAudioUrl
fresh now none = none
fresh now (some c) = if is_stale now c then none else some c

-- What is stale stays stale.
fresh_again :
    (now later : ℕ) (a : Option CachedAudioUrl)
    → now ≤ later
    → fresh later a ≡ fresh later (fresh now a)
unfolding fresh is_stale
fresh_again now later none h = refl
fresh_again now later (some c) h = ground arith

fresh_later :
    (now later : ℕ) (a b : Option CachedAudioUrl)
    → now ≤ later
    → fresh now a ≡ fresh now b
    → fresh later a ≡ fresh later b
fresh_later now later a b h e =
    fresh_again now later a h ∙ ap (fresh later) e ∙ sym (fresh_again now later b h)

-- The cache and the function agree on what is fresh.
abbrev Agrees : ℕ → Cache → Urls → Type 0
Agrees now cache f = (j : String) → fresh now (get j cache) ≡ fresh now (f j)

-- A lookup only drops what is stale.
read_entry-fresh :
    (k j : String) (now : ℕ) (cache : Cache) (found : Option CachedAudioUrl)
    → get k cache ≡ found
    → fresh now (get j (read_entry k now cache found).1) ≡ fresh now (get j cache)
unfolding read_entry fresh
read_entry-fresh k j now cache none e = refl
read_entry-fresh k j now cache (some c) e = elim (Bool-cases (is_stale now c)) [
  | inr q ↦ rw q refl
  | inl q ↦ elim (Bool-cases (str_eq k j)) [
    | inr n ↦ rw (q, get-remove k j cache, n) refl
    | inl y ↦ rw (q, get-remove k j cache, y, sym ((eq_iff k j).0 y), e, q) refl
  ]
]

step-Agrees :
    (now : ℕ) (cache : Cache) (f : Urls) (e : Event)
    → now ≤ time_of e
    → Agrees now cache f
    → Agrees (time_of e) (step cache e) (note f e)
unfolding step get_cached_audio_url set_cached_audio_url forget_audio_url
step-Agrees now cache f (looked_up t b k) h a j =
    read_entry-fresh (cache_key b k) j t cache (get (cache_key b k) cache) refl
    ∙ fresh_later now t (get j cache) (f j) h (a j)
step-Agrees now cache f (fetched t b k url) h a j = elim (Bool-cases (str_eq (cache_key b k) j)) [
  | inl y ↦ rw (get-set, y) refl
  | inr n ↦ rw (get-set, n) (fresh_later now t (get j cache) (f j) h (a j))
]
step-Agrees now cache f (playback_failed t b k) h a j =
    elim (Bool-cases (str_eq (cache_key b k) j)) [
      | inl y ↦ rw (get-remove, y) refl
      | inr n ↦ rw (get-remove, n) (fresh_later now t (get j cache) (f j) h (a j))
    ]

run-Agrees :
    (start end : ℕ) (cache : Cache) (f : Urls) (es : List Event)
    → InOrder start es end
    → Agrees start cache f
    → Agrees end (run cache es) (replay f es)
unfolding run
run-Agrees start end cache f [] h a = λ j. fresh_later start end (get j cache) (f j) h (a j)
run-Agrees start end cache f (e ∷ es) (h, t) a =
    run-Agrees (time_of e) end (step cache e) (note f e) es t (step-Agrees start cache f e h a)

abbrev pub url_of_fresh : Option CachedAudioUrl → Option String
url_of_fresh none = none
url_of_fresh (some c) = some c.url

read_entry-url :
    (k : String) (now : ℕ) (cache : Cache) (found : Option CachedAudioUrl)
    → (read_entry k now cache found).0 ≡ url_of_fresh (fresh now found)
unfolding read_entry fresh
read_entry-url k now cache none = refl
read_entry-url k now cache (some c) = elim (Bool-cases (is_stale now c)) [
  | inl q ↦ rw q refl
  | inr q ↦ rw q refl
]

abbrev pub no_urls : Urls
no_urls j = none

-- From an empty cache, after any lookups, fetches and playback failures of any players in order of
-- time, a lookup answers the last URL that was fetched for the audio if no playback of it failed
-- since and it is at most 55 minutes old, and nothing otherwise.
pub get_cached_audio_url-run :
    (start now : ℕ) (es : List Event) (b : AudioBucket) (k : String)
    → InOrder start es now
    → (get_cached_audio_url b k now (run [] es)).0
      ≡ url_of_fresh (fresh now (replay no_urls es (cache_key b k)))
unfolding get_cached_audio_url get
get_cached_audio_url-run start now es b k h =
    read_entry-url (cache_key b k) now (run [] es) (get (cache_key b k) (run [] es))
    ∙ ap url_of_fresh (run-Agrees start now [] no_urls es h (λ j. refl) (cache_key b k))
