-- ===== src/Speaking/Run.antt =====
-- Runs of useSpeakingRealtimeSession: the events that the browser, the user and the server can
-- cause, in any order. A handler that awaits is two events.
use ai_agentic_english.Prelude.{ℕ, String, Bool, Option, none, some, All}
use ai_agentic_english.Prelude.Int.{ℤ}
use ai_agentic_english.Speaking.Types.{Text, turn_result}
use ai_agentic_english.Speaking.Session.{Session, Blob}
use ai_agentic_english.Speaking.Speech.{
  Synthesis, start_fallback_reveal, reveal_next_fallback_word, on_speech_start, on_speech_boundary,
  finish_active_speech,
}
use ai_agentic_english.Speaking.Turns.{Stamp, answered_turn, send_text}
use ai_agentic_english.Speaking.Recording.{
  handle_recording_stop, Encoded, recording_encoded, start_recording, microphone_granted,
  microphone_refused, on_data_available, stop_recording,
}
use ai_agentic_english.Speaking.Connection.{
  end_session, connect, ticket_received, ticket_failed, on_open, Parsed, parsed, on_message,
  on_error, on_close, cleanup,
}
use ai_agentic_english.Speaking.Transcript.{IsUnrevealed}

-- The turn that the server answers is none of the assistant's replies.
abbrev pub AnswersTurn : Option String → Session → Type 0
AnswersTurn none s = Unit
AnswersTurn (some tid) s = All (IsUnrevealed tid) s.messages

abbrev pub FitsProtocol : Parsed → Session → Type 0
FitsProtocol (parsed (turn_result r)) s = AnswersTurn (answered_turn r s) s
FitsProtocol _ s = Unit

pub data Step (s : Session) : Session → Type 0 where
  fallback_due : (mid : String) → Step s (start_fallback_reveal mid s)
  fallback_tick : (mid : String) → Step s (reveal_next_fallback_word mid s)
  speech_started : (mid : String) (reply : Text) → Step s (on_speech_start mid reply s)
  speech_boundary :
      (mid : String) (reply : Text) (index : Option ℤ) (name : String)
      → Step s (on_speech_boundary mid reply index name s)
  speech_over : (mid : String) → Step s (finish_active_speech mid s)
  text_sent : (stamp : Stamp) (text : Text) → Step s (send_text stamp text s)
  record_asked : (supported : Bool) → Step s (start_recording supported s).0
  microphone_on : Step s (microphone_granted s)
  microphone_off : (text : String) → Step s (microphone_refused text s)
  data_came : (chunk : Blob) → Step s (on_data_available chunk s)
  record_stopped : Step s (stop_recording s)
  recorder_stopped : Step s (handle_recording_stop s).0
  encoded : (stamp : Stamp) (e : Encoded) → Step s (recording_encoded stamp e s)
  ended_by_user : Step s (end_session s)
  connected : Step s (connect s)
  ticket_came :
      (cancelled : Bool) (sid : String) (socket_id : ℕ)
      → Step s (ticket_received cancelled sid socket_id s)
  ticket_lost : (cancelled : Bool) (text : String) → Step s (ticket_failed cancelled text s)
  socket_opened : (socket_id : ℕ) (user_id : String) → Step s (on_open socket_id user_id s)
  message_came :
      (browser : Synthesis) (stamp : Stamp) (socket_id : ℕ) (p : Parsed)
      → FitsProtocol p s
      → Step s (on_message browser stamp socket_id p s)
  socket_failed : (socket_id : ℕ) → Step s (on_error socket_id s)
  socket_closed : (socket_id : ℕ) → Step s (on_close socket_id s)
  cleaned_up : (own : Option ℕ) → Step s (cleanup own s)

pub data Reach (s : Session) : Session → Type 0 where
  here : Reach s s
  next : {t u : Session} → Reach s t → Step t u → Reach s u
