-- ===== src/Speaking/Recording.antt =====
-- Recording a spoken turn: the recorder callbacks of useSpeakingRealtimeSession. A handler that
-- awaits is cut there: what stands before the await and what follows it are two functions, and
-- other handlers may run between them.
use ai_agentic_english.Prelude.{
  ltb, String, Bool, true, false, not, ◌||◌, Option, none, some, List, [], ◌∷◌, ◌++◌, if◌then◌else◌,
  is_some, length,
}
use ai_agentic_english.Speaking.Types.{Text, ready, recording, sending}
use ai_agentic_english.Speaking.Session.{
  Blob, RecorderState, inactive, active, Session, set_status, fail, stop_media_tracks,
}
use ai_agentic_english.Speaking.Turns.{Stamp, is_ready, send_audio_turn}

abbrev pub processing_audio : Text
processing_audio =
    b'P' ∷ b'r' ∷ b'o' ∷ b'c' ∷ b'e' ∷ b's' ∷ b's' ∷ b'i' ∷ b'n' ∷ b'g' ∷ b' ' ∷ b'a' ∷ b'u' ∷ b'd'
    ∷ b'i' ∷ b'o' ∷ b'.' ∷ b'.' ∷ b'.' ∷ []

-- `handleRecordingStop` up to the encoding; the result holds the chunks that are encoded next.
unfoldable pub recorded_chunks : Bool → List Blob → Session → Session × Option (List Blob)
unfolding set_status
recorded_chunks true chunks rest = (rest, none)
recorded_chunks false [] rest = (set_status ready rest, none)
recorded_chunks false (chunk ∷ chunks) rest = (rest, some (chunk ∷ chunks))

unfoldable pub handle_recording_stop : Session → Session × Option (List Blob)
unfolding stop_media_tracks recorded_chunks
handle_recording_stop s =
    recorded_chunks s.cancel_recording s.audio_chunks (record (stop_media_tracks s) {
      cancel_recording = false;
      media_recorder = none;
      audio_chunks = [];
    })

-- What `blobToBase64` came to.
pub data Encoded : Type 0 where
  base64 : String → Encoded
  unreadable : String → Encoded

-- The rest of `handleRecordingStop`.
unfoldable pub recording_encoded : Stamp → Encoded → Session → Session
unfolding send_audio_turn fail
recording_encoded stamp (base64 audio) s = send_audio_turn stamp processing_audio audio s
recording_encoded stamp (unreadable text) s = fail text s

-- `startRecording` up to `getUserMedia`; the result tells whether the microphone is asked for.
unfoldable pub start_recording : Bool → Session → Session × Bool
unfolding fail
start_recording supported s =
    if not (is_ready s.status) || is_some s.pending_turn
    then (s, false)
    else if not supported
    then (fail "Audio recording is not supported in this browser." s, false)
    else (s, true)

-- The rest of `startRecording`, where the microphone was granted, and where it was not.
unfoldable pub microphone_granted : Session → Session
microphone_granted s = record s {
  audio_chunks = [];
  cancel_recording = false;
  media_stream = true;
  media_recorder = some active;
  error_text = none;
  status = recording;
}

unfoldable pub microphone_refused : String → Session → Session
unfolding stop_media_tracks fail
microphone_refused text s = fail text (stop_media_tracks s)

unfoldable pub on_data_available : Blob → Session → Session
on_data_available chunk s =
    if ltb 0 (length chunk) then record s { audio_chunks = s.audio_chunks ++ chunk ∷ [] } else s

abbrev pub is_recording_now : Option RecorderState → Bool
is_recording_now none = false
is_recording_now (some inactive) = false
is_recording_now (some active) = true

-- `recorder.stop()` makes the recorder inactive; its "stop" event comes later.
unfoldable pub stop_recording : Session → Session
stop_recording s =
    if is_recording_now s.media_recorder
    then record s { status = sending; media_recorder = some inactive }
    else s

unfoldable pub abort_recording : Session → Session
unfolding stop_media_tracks
abort_recording s =
    let cancelled : Session = record s { cancel_recording = true; audio_chunks = [] } in
    if is_recording_now s.media_recorder
    then record cancelled { media_recorder = some inactive }
    else record (stop_media_tracks cancelled) { media_recorder = none }
