-- ===== src/Speaking/Examples.antt =====
-- A session of useSpeakingRealtimeSession, from the ticket to the answer of the first turn, and the
-- theorems at its states.
use ai_agentic_english.Prelude.{
  String, true, false, none, some, [], ◌∷◌, ◌++◌, ◌≡◌, ◌≢◌, refl, eq_iff, str_eq, get_or, find, ltb,
  length,
}
use ai_agentic_english.Prelude.Int.{pos}
use ai_agentic_english.Speaking.Types.{
  Text, Message, Speech, TurnResult, turn_result, session_started, create_text_turn_message,
}
use ai_agentic_english.Speaking.Words.{
  trim, get_reveal_char_count_for_boundary, get_word_end_indices, clamp_index,
}
use ai_agentic_english.Speaking.Words.Boundary.{boundary-first_word_end}
use ai_agentic_english.Speaking.Session.{
  Socket, ReadyState, Session, initial, append_message, send_socket_message, send_via, set_status,
}
use ai_agentic_english.Speaking.Speech.{Synthesis, speak_assistant_reply}
use ai_agentic_english.Speaking.Turns.{
  Stamp, assistant_message, answered_turn, append_assistant_message, send_text,
}
use ai_agentic_english.Speaking.Recording.{handle_recording_stop, microphone_granted}
use ai_agentic_english.Speaking.Connection.{
  connect, ticket_received, is_socket, is_current, on_open, parsed, unparsed, receive, on_message,
  on_error, on_close, cleanup, end_session,
}
use ai_agentic_english.Speaking.Invariant.{Keeps, initial-IsValid}
use ai_agentic_english.Speaking.Run.{
  here, next, connected, ticket_came, socket_opened, message_came, text_sent, recorder_stopped,
  AnswersTurn,
}
use ai_agentic_english.Speaking.Fallback.{ticks, IsRevealed, ticks_clear}
use ai_agentic_english.Speaking.Safety.{Reach-Keeps}
use ai_agentic_english.Speaking.Outcomes.{CanSend, on_message-answers, turn_cycle, cleanup_silences}
use ai_agentic_english.Speaking.TurnCounts.{turns}
use ai_agentic_english.Speaking.Waiting.{still, later, send_text-Waiting}
use ai_agentic_english.Speaking.Discard.{
  data_arrived, IsDropped, handle_recording_stop-data_arrived,
}
use ai_agentic_english.Speaking.Shown.{ShowsWords}

-- A browser that cannot speak: replies are shown at once.
abbrev quiet : Synthesis
quiet = record { supported = false; speak_throws = false }

abbrev stamp_of : String → Stamp
stamp_of id = record { id = id; time = "10:00" }

-- "Hi", " yes " and "Good", by their code units.
abbrev greeting : Text
greeting = 72 ∷ 105 ∷ []

abbrev typed : Text
typed = 32 ∷ 121 ∷ 101 ∷ 115 ∷ 32 ∷ []

abbrev answer : TurnResult
answer = record {
  client_turn_id = "m1";
  assistant_message = 71 ∷ 111 ∷ 111 ∷ 100 ∷ [];
  transcript_text = none;
  mock_feedback = none;
  language = "en";
}

abbrev ticketed : Session
ticketed = ticket_received false "ticket" 7 (connect initial)

abbrev started : Session
started =
    on_message quiet (stamp_of "m0") 7 (parsed (session_started greeting))
      (on_open 7 "user" ticketed)

abbrev asked : Session
asked = send_text (stamp_of "m1") typed started

abbrev answered : Session
answered = on_message quiet (stamp_of "m2") 7 (parsed (turn_result answer)) asked

abbrev live : Socket
live = record { socket_id = 7; ready_state = ReadyState.open_state }

other_id : ◌≢◌ {A = String} "m0" "m1"
other_id e = let h : str_eq "m0" "m1" ≡ true = (eq_iff "m0" "m1").1 e in cc

named : ◌≢◌ {A = String} "m1" ""
named e = let h : str_eq "m1" "" ≡ true = (eq_iff "m1" "").1 e in cc

started-CanSend : CanSend started live
unfolding ticket_received connect on_open is_current is_socket send_socket_message send_via
    on_message receive append_assistant_message append_message speak_assistant_reply set_status
started-CanSend = record {
  is_ready_now = refl;
  none_pending = refl;
  has_socket = refl;
  socket_open = refl;
}

answered-fits : AnswersTurn (answered_turn answer asked) asked
unfolding ticket_received connect on_open is_current is_socket send_socket_message send_via
    on_message receive append_assistant_message append_message speak_assistant_reply set_status
    answered_turn send_text
answered-fits = (λ e. absurd (other_id e), (λ _. refl, tt))

Reach-Keeps_example : Keeps initial answered
Reach-Keeps_example = Reach-Keeps initial-IsValid (
    next
      (next
        (next
          (next (next (next here connected) (ticket_came false "ticket" 7))
            (socket_opened 7 "user"))
          (message_came quiet (stamp_of "m0") 7 (parsed (session_started greeting)) tt))
        (text_sent (stamp_of "m1") typed))
      (message_came quiet (stamp_of "m2") 7 (parsed (turn_result answer)) answered-fits))

boundary-first_word_end_example :
    get_reveal_char_count_for_boundary typed (pos 2)
    ≡ get_or
        (find (λ e. ltb (clamp_index (pos 2) (length typed)) e) (get_word_end_indices typed))
        (length typed)
boundary-first_word_end_example = boundary-first_word_end typed (pos 2)

on_message-answers_example : CanSend answered live × (answered.sent ≡ asked.sent)
unfolding ticket_received connect on_open is_current is_socket send_socket_message send_via
    on_message receive append_assistant_message append_message speak_assistant_reply set_status
    send_text
on_message-answers_example =
    on_message-answers quiet (stamp_of "m2") answer asked live "m1" refl refl refl named refl refl

turn_cycle_example :
    CanSend answered live
    × (answered.sent ≡ started.sent ++ create_text_turn_message (trim typed) "m1" ∷ [])
unfolding ticket_received connect on_open is_current is_socket send_socket_message send_via
    on_message receive append_assistant_message append_message speak_assistant_reply set_status trim
turn_cycle_example =
    turn_cycle quiet (stamp_of "m1") (stamp_of "m2") typed answer started live started-CanSend refl
      refl named refl

-- While the turn waits, a recorder stops with no chunk, which makes the session ready, and a second
-- text is typed.
send_text-Waiting_example :
    ((send_text (stamp_of "m2") greeting (handle_recording_stop asked).0).pending_turn ≡ some "m1")
    × (turns (send_text (stamp_of "m2") greeting (handle_recording_stop asked).0).sent
        ≡ turns started.sent ++ create_text_turn_message (trim typed) "m1" ∷ [])
unfolding trim
send_text-Waiting_example =
    send_text-Waiting (stamp_of "m1") typed started
      (send_text (stamp_of "m2") greeting (handle_recording_stop asked).0) live started-CanSend refl
      (later (later still recorder_stopped tt) (text_sent (stamp_of "m2") greeting) tt)

-- A session whose recorder runs, ended before the recorder hands over its one chunk.
abbrev recording_session : Session
recording_session = microphone_granted started

handle_recording_stop-data_arrived_example :
    IsDropped
      (end_session recording_session)
      (handle_recording_stop (data_arrived (greeting ∷ []) (end_session recording_session)))
    × IsDropped
        (cleanup (some 7) recording_session)
        (handle_recording_stop (data_arrived (greeting ∷ []) (cleanup (some 7) recording_session)))
handle_recording_stop-data_arrived_example =
    handle_recording_stop-data_arrived (greeting ∷ []) (some 7) recording_session

cleanup_silences_example :
    (on_open 7 "user" (cleanup (some 7) started) ≡ cleanup (some 7) started)
    × (on_message quiet (stamp_of "m3") 7 (unparsed "bad") (cleanup (some 7) started)
        ≡ cleanup (some 7) started)
    × (on_error 7 (cleanup (some 7) started) ≡ cleanup (some 7) started)
    × (on_close 7 (cleanup (some 7) started) ≡ cleanup (some 7) started)
cleanup_silences_example = cleanup_silences quiet (stamp_of "m3") 7 "user" (unparsed "bad") started

-- The reply "Good day", of which the timer has the first word to reveal.
abbrev good_day : Speech
good_day = record {
  message_id = "m2";
  content = 71 ∷ 111 ∷ 111 ∷ 100 ∷ 32 ∷ 100 ∷ 97 ∷ 121 ∷ [];
  word_end_indices = 4 ∷ 8 ∷ [];
  revealed_char_count = 0;
  fallback_word_index = some 0;
  fallback_start_timer = false;
  fallback_interval = true;
  completed = false;
}

abbrev reply : Message
reply = assistant_message (stamp_of "m2") good_day.content (some "m1")

abbrev speaking : Session
speaking = record initial { active_speech = some good_day; messages = reply ∷ [] }

ticks_clear_example :
    IsRevealed (4 ∷ 8 ∷ []) good_day (ticks 3 "m2" speaking)
    × ShowsWords "m2" good_day.content (4 ∷ 8 ∷ []) (ticks 3 "m2" speaking).messages
ticks_clear_example =
    ticks_clear "m2" speaking good_day 0 reply (record { active = refl; own = refl }) refl refl
