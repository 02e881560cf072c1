-- ===== src/Speaking/Discard.antt =====
-- A recording that is under way when the session ends or its effect is cleaned up: `abortRecording`
-- and the events of the recorder that follow.
use ai_agentic_english.Prelude.{
  true, false, Option, none, some, [], ◌∷◌, ◌≡◌, refl, ◌∙◌, arith, List, ℕ, Bool,
}
use ai_agentic_english.Speaking.Types.{ending}
use ai_agentic_english.Speaking.Session.{
  Blob, Socket, Session, set_status, fail, send_via, send_socket_message, stop_media_tracks,
}
use ai_agentic_english.Speaking.Speech.{stop_active_speech}
use ai_agentic_english.Speaking.Recording.{
  abort_recording, recorded_chunks, on_data_available, handle_recording_stop,
}
use ai_agentic_english.Speaking.Connection.{end_via, end_session, close_via, cleanup}
use ai_agentic_english.Speaking.Cycle.{stop_active_speech-SameLink}

-- The chunks that the recorder hands over, each by a "dataavailable" event.
abbrev pub data_arrived : List Blob → Session → Session
data_arrived [] s = s
data_arrived (chunk ∷ chunks) s = data_arrived chunks (on_data_available chunk s)

-- A recording is thrown away: nothing is handed over to be encoded, and the recorder is reset for
-- the next recording.
pub record IsDropped (before : Session) (stopped : Session × Option (List Blob)) : Type 0 where
  pub nothing_kept : stopped.1 ≡ none
  pub reset : stopped.0.cancel_recording ≡ false
  pub no_chunks : stopped.0.audio_chunks ≡ []
  pub same_status : stopped.0.status ≡ before.status

on_data_available-kept :
    (chunk : Blob) (s : Session)
    → ((on_data_available chunk s).cancel_recording ≡ s.cancel_recording)
      × ((on_data_available chunk s).status ≡ s.status)
unfolding on_data_available
on_data_available-kept chunk s = ground arith

data_arrived-kept :
    (chunks : List Blob) (s : Session)
    → ((data_arrived chunks s).cancel_recording ≡ s.cancel_recording)
      × ((data_arrived chunks s).status ≡ s.status)
data_arrived-kept [] s = (refl, refl)
data_arrived-kept (chunk ∷ chunks) s =
    let rest = data_arrived-kept chunks (on_data_available chunk s) in
    let this = on_data_available-kept chunk s in (rest.0 ∙ this.0, rest.1 ∙ this.1)

recorded_chunks-cancelled :
    (b : Bool) (chunks : List Blob) (s : Session)
    → b ≡ true
    → recorded_chunks b chunks s ≡ (s, none)
unfolding recorded_chunks
recorded_chunks-cancelled true chunks s h = refl
recorded_chunks-cancelled false chunks s h = absurd cc

handle_recording_stop-cancelled :
    (s : Session) → s.cancel_recording ≡ true → IsDropped s (handle_recording_stop s)
unfolding handle_recording_stop stop_media_tracks
handle_recording_stop-cancelled s h =
    let stopped : Session = record (stop_media_tracks s) {
      cancel_recording = false;
      media_recorder = none;
      audio_chunks = [];
    } in
    rw (recorded_chunks-cancelled s.cancel_recording s.audio_chunks stopped h)
      (record { nothing_kept = refl; reset = refl; no_chunks = refl; same_status = refl })

data_arrived-IsDropped :
    (chunks : List Blob) (s : Session)
    → s.cancel_recording ≡ true
    → IsDropped s (handle_recording_stop (data_arrived chunks s))
data_arrived-IsDropped chunks s h =
    let kept = data_arrived-kept chunks s in
    let d = handle_recording_stop-cancelled (data_arrived chunks s) (kept.0 ∙ h) in
    record {
      nothing_kept = d.nothing_kept;
      reset = d.reset;
      no_chunks = d.no_chunks;
      same_status = d.same_status ∙ kept.1;
    }

abort_recording-cancels : (s : Session) → (abort_recording s).cancel_recording ≡ true
unfolding abort_recording
abort_recording-cancels s = ground arith

end_via-recording :
    (o : Option Socket) (s : Session) → (end_via o s).cancel_recording ≡ s.cancel_recording
unfolding end_via send_socket_message send_via fail
end_via-recording none s = refl
end_via-recording (some w) s = ground arith

end_session-cancels : (s : Session) → (end_session s).cancel_recording ≡ true
unfolding end_session set_status
end_session-cancels s =
    let leaving : Session = record s { close_requested = true; status = ending } in
    end_via-recording s.socket (stop_active_speech true (abort_recording leaving))
    ∙ (stop_active_speech-SameLink true (abort_recording leaving)).cancel_recording
    ∙ abort_recording-cancels leaving

close_via-recording :
    (own : Option ℕ) (o : Option Socket) (s : Session)
    → (close_via own o s).cancel_recording ≡ s.cancel_recording
unfolding close_via
close_via-recording none o s = refl
close_via-recording (some own) none s = refl
close_via-recording (some own) (some w) s = ground arith

cleanup-cancels : (own : Option ℕ) (s : Session) → (cleanup own s).cancel_recording ≡ true
unfolding cleanup
cleanup-cancels own s =
    close_via-recording own s.socket (abort_recording (stop_active_speech false s))
    ∙ abort_recording-cancels (stop_active_speech false s)

-- Ending the session, or the cleanup of its effect, while a recording runs throws the recording away:
-- whatever chunks the recorder still hands over after it was stopped, its "stop" event hands nothing
-- over to be encoded and sent, leaves the status of the session as it is, and resets the recorder.
pub handle_recording_stop-data_arrived :
    (chunks : List Blob) (own : Option ℕ) (s : Session)
    → IsDropped (end_session s) (handle_recording_stop (data_arrived chunks (end_session s)))
      × IsDropped (cleanup own s) (handle_recording_stop (data_arrived chunks (cleanup own s)))
handle_recording_stop-data_arrived chunks own s = (
  data_arrived-IsDropped chunks (end_session s) (end_session-cancels s),
  data_arrived-IsDropped chunks (cleanup own s) (cleanup-cancels own s),
)
