-- ===== src/Audio/Examples.antt =====
-- A page with a fetched URL and a failed one, asked an hour later.
use ai_agentic_english.Prelude.{none, some, List, [], ◌∷◌, ◌≡◌, refl, arith}
use ai_agentic_english.Audio.Cache.{
  assessment_audio, passage_audio, cache_key, get_cached_audio_url,
}
use ai_agentic_english.Audio.CacheLaws.{
  Event, looked_up, fetched, playback_failed, step, run, replay, no_urls, fresh, url_of_fresh,
  get_cached_audio_url-run,
}

abbrev visit : List Event
visit =
    fetched 1000 assessment_audio "a.mp3" "https://old"
    ∷ looked_up 2000 assessment_audio "a.mp3"
    ∷ fetched 2500 passage_audio "a.mp3" "https://other"
    ∷ playback_failed 3000 passage_audio "a.mp3"
    ∷ fetched 5000 assessment_audio "a.mp3" "https://new"
    ∷ []

get_cached_audio_url-run_example :
    (get_cached_audio_url assessment_audio "a.mp3" 3000000 (run [] visit)).0
    ≡ url_of_fresh (fresh 3000000 (replay no_urls visit (cache_key assessment_audio "a.mp3")))
get_cached_audio_url-run_example =
    get_cached_audio_url-run 0 3000000 visit assessment_audio "a.mp3"
      (omega arith, (omega arith, (omega arith, (omega arith, (omega arith, omega arith)))))

url_in_time :
    (get_cached_audio_url assessment_audio "a.mp3" 3000000 (run [] visit)).0 ≡ some "https://new"
unfolding get_cached_audio_url run step
url_in_time = refl

url_too_old : (get_cached_audio_url assessment_audio "a.mp3" 4000000 (run [] visit)).0 ≡ none
unfolding get_cached_audio_url run step
url_too_old = refl
