-- ===== src/Speaking/Safety.antt =====
-- What holds in every run of useSpeakingRealtimeSession.
use ai_agentic_english.Speaking.Session.{Session}
use ai_agentic_english.Speaking.Invariant.{IsValid, Keeps, Keeps-refl, Keeps-trans}
use ai_agentic_english.Speaking.SpeechLaws.{
  start_fallback_reveal-Keeps, reveal_next_fallback_word-Keeps, on_speech_start-Keeps,
  on_speech_boundary-Keeps, finish_active_speech-Keeps,
}
use ai_agentic_english.Speaking.TurnLaws.{
  SameTalk-Keeps, send_text-Keeps, handle_recording_stop-SameTalk, recording_encoded-Keeps,
  start_recording-SameTalk, microphone_granted-SameTalk, microphone_refused-SameTalk,
  on_data_available-SameTalk, stop_recording-SameTalk,
}
use ai_agentic_english.Speaking.ConnectionLaws.{
  end_session-Keeps, connect-SameTalk, ticket_received-SameTalk, ticket_failed-SameTalk,
  on_open-Keeps, on_message-Keeps, on_error-SameTalk, on_close-SameTalk, cleanup-Keeps,
}
use ai_agentic_english.Speaking.Run.{
  Step, fallback_due, fallback_tick, speech_started, speech_boundary, speech_over, text_sent,
  record_asked, microphone_on, microphone_off, data_came, record_stopped, recorder_stopped, encoded,
  ended_by_user, connected, ticket_came, ticket_lost, socket_opened, message_came, socket_failed,
  socket_closed, cleaned_up, Reach, here, next,
}

pub Step-Keeps : {s t : Session} → Step s t → IsValid s → Keeps s t
Step-Keeps {s} (fallback_due mid) v = start_fallback_reveal-Keeps mid s v
Step-Keeps {s} (fallback_tick mid) v = reveal_next_fallback_word-Keeps mid s v
Step-Keeps {s} (speech_started mid reply) v = on_speech_start-Keeps mid reply s v
Step-Keeps {s} (speech_boundary mid reply index name) v =
    on_speech_boundary-Keeps mid reply index name s v
Step-Keeps {s} (speech_over mid) v = finish_active_speech-Keeps mid s v
Step-Keeps {s} (text_sent stamp text) v = send_text-Keeps stamp text s v
Step-Keeps {s} (record_asked b) v = SameTalk-Keeps s _ v (start_recording-SameTalk b s)
Step-Keeps {s} microphone_on v = SameTalk-Keeps s _ v (microphone_granted-SameTalk s)
Step-Keeps {s} (microphone_off text) v = SameTalk-Keeps s _ v (microphone_refused-SameTalk text s)
Step-Keeps {s} (data_came chunk) v = SameTalk-Keeps s _ v (on_data_available-SameTalk chunk s)
Step-Keeps {s} record_stopped v = SameTalk-Keeps s _ v (stop_recording-SameTalk s)
Step-Keeps {s} recorder_stopped v = SameTalk-Keeps s _ v (handle_recording_stop-SameTalk s)
Step-Keeps {s} (encoded stamp e) v = recording_encoded-Keeps stamp e s v
Step-Keeps {s} ended_by_user v = end_session-Keeps s v
Step-Keeps {s} connected v = SameTalk-Keeps s _ v (connect-SameTalk s)
Step-Keeps {s} (ticket_came b sid w) v = SameTalk-Keeps s _ v (ticket_received-SameTalk b sid w s)
Step-Keeps {s} (ticket_lost b text) v = SameTalk-Keeps s _ v (ticket_failed-SameTalk b text s)
Step-Keeps {s} (socket_opened w user) v = on_open-Keeps w user s v
Step-Keeps {s} (message_came browser stamp w p h) v = on_message-Keeps browser stamp w p s v h
Step-Keeps {s} (socket_failed w) v = SameTalk-Keeps s _ v (on_error-SameTalk w s)
Step-Keeps {s} (socket_closed w) v = SameTalk-Keeps s _ v (on_close-SameTalk w s)
Step-Keeps {s} (cleaned_up own) v = cleanup-Keeps own s v

-- In every run from a state that satisfies the invariant, in which the server answers no turn under
-- the id of a reply, the invariant holds at the end (no message shows more than its text, and each
-- turn sent or pending stands in the transcript as the user's), and the transcript at the end
-- extends the one at the start: the same messages in the same places, each with its id, speaker and
-- time, and none showing less of its text than before.
pub Reach-Keeps : {s t : Session} → IsValid s → Reach s t → Keeps s t
Reach-Keeps {s} v here = Keeps-refl s v
Reach-Keeps {s} v (next {t} {u} r st) =
    let k = Reach-Keeps v r in Keeps-trans s t u k (Step-Keeps st k.valid)
