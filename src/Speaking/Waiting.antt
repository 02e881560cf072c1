-- ===== src/Speaking/Waiting.antt =====
-- What can happen in useSpeakingRealtimeSession while a turn waits for the server: one turn at a
-- time.
use ai_agentic_english.Prelude.{
  ℕ, true, false, none, some, [], ◌∷◌, ◌++◌, ◌≡◌, refl, ap, is_some, ◌∙◌, arith, Bool-cases, inl,
  inr,
}
use ai_agentic_english.Speaking.Types.{
  Text, turn, ServerMessage, session_started, turn_result, turn_feedback, session_ended,
  error_detail, create_text_turn_message,
}
use ai_agentic_english.Speaking.Words.{trim}
use ai_agentic_english.Speaking.Session.{Socket, Session, set_status, fail, stop_media_tracks}
use ai_agentic_english.Speaking.Speech.{Synthesis}
use ai_agentic_english.Speaking.Turns.{Stamp, is_blank, send_text}
use ai_agentic_english.Speaking.Recording.{
  start_recording, microphone_granted, microphone_refused, on_data_available, stop_recording,
}
use ai_agentic_english.Speaking.Connection.{
  connect, ticket_received, ticket_failed, is_current, Parsed, parsed, unparsed, receive,
  on_message, on_error,
}
use ai_agentic_english.Speaking.Cycle.{append_assistant_message-SameLink}
use ai_agentic_english.Speaking.SpeechLinks.{
  tick-SameLink, start_fallback_reveal-SameLink, on_speech_start-SameLink, boundary-SameLink,
  finish_active_speech-SameLink,
}
use ai_agentic_english.Speaking.TurnCounts.{
  turns, SameTurns, of_link, SameTurns-trans, turns-append, end_session-SameTurns,
  cleanup-SameTurns, on_open-SameTurns, turn_feedback-SameTurns, on_close-SameTurns,
  recorder_stopped-SameTurns, send_text-SameTurns, encoded-SameTurns,
}
use ai_agentic_english.Speaking.Run.{
  Step, fallback_due, fallback_tick, speech_started, speech_boundary, speech_over, text_sent,
  record_asked, microphone_on, microphone_off, data_came, record_stopped, recorder_stopped, encoded,
  ended_by_user, connected, ticket_came, ticket_lost, socket_opened, message_came, socket_failed,
  socket_closed, cleaned_up,
}
use ai_agentic_english.Speaking.Outcomes.{CanSend, send_text-CanSend}

-- Every message of the server but the answer to a turn and an error.
abbrev pub KeepsWaiting : Parsed → Type 0
KeepsWaiting (parsed (turn_result r)) = ⊥
KeepsWaiting (parsed (error_detail d)) = ⊥
KeepsWaiting _ = Unit

-- Every event but the receipt of an answer or an error.
abbrev pub IsUnanswered : {s t : Session} → Step s t → Type 0
IsUnanswered (message_came browser stamp socket_id p h) = KeepsWaiting p
IsUnanswered _ = Unit

pub data Waiting (s : Session) : Session → Type 0 where
  still : Waiting s s
  later : {t u : Session} → Waiting s t → (st : Step t u) → IsUnanswered st → Waiting s u

receive-SameTurns :
    (browser : Synthesis) (stamp : Stamp) (m : ServerMessage) (s : Session)
    → KeepsWaiting (parsed m)
    → SameTurns s (receive browser stamp m s)
unfolding receive set_status
receive-SameTurns browser stamp (session_started opening) s h =
    let begun : Session = record s { started = true } in
    let spoken = append_assistant_message-SameLink browser stamp opening none begun in
    record { pending_turn = spoken.pending_turn; turns_sent = rw spoken.sent refl }
receive-SameTurns browser stamp (turn_result r) s h = absurd h
receive-SameTurns browser stamp (turn_feedback f) s h = turn_feedback-SameTurns f s
receive-SameTurns browser stamp session_ended s h = record {
  pending_turn = refl;
  turns_sent = refl;
}
receive-SameTurns browser stamp (error_detail d) s h = absurd h

on_message-SameTurns :
    (browser : Synthesis) (stamp : Stamp) (own : ℕ) (p : Parsed) (s : Session)
    → KeepsWaiting p
    → SameTurns s (on_message browser stamp own p s)
unfolding on_message fail
on_message-SameTurns browser stamp own (parsed m) s h = elim (Bool-cases (is_current own s)) [
  | inl e ↦ rw e (receive-SameTurns browser stamp m s h)
  | inr e ↦ rw e (record { pending_turn = refl; turns_sent = refl })
]
on_message-SameTurns browser stamp own (unparsed text) s h = ground arith

Step-SameTurns :
    {s t : Session} (st : Step s t)
    → is_some s.pending_turn ≡ true
    → IsUnanswered st
    → SameTurns s t
unfolding start_recording fail microphone_granted microphone_refused stop_media_tracks
    on_data_available stop_recording connect ticket_received ticket_failed on_error
Step-SameTurns {s} (fallback_due mid) h q = of_link s _ (start_fallback_reveal-SameLink mid s)
Step-SameTurns {s} (fallback_tick mid) h q = of_link s _ (tick-SameLink mid s)
Step-SameTurns {s} (speech_started mid reply) h q =
    of_link s _ (on_speech_start-SameLink mid reply s)
Step-SameTurns {s} (speech_boundary mid reply index name) h q =
    of_link s _ (boundary-SameLink mid reply index name s)
Step-SameTurns {s} (speech_over mid) h q = of_link s _ (finish_active_speech-SameLink mid s)
Step-SameTurns {s} (text_sent stamp text) h q = send_text-SameTurns stamp text s h
Step-SameTurns {s} (record_asked b) h q = ground arith
Step-SameTurns {s} microphone_on h q = ground arith
Step-SameTurns {s} (microphone_off text) h q = ground arith
Step-SameTurns {s} (data_came chunk) h q = ground arith
Step-SameTurns {s} record_stopped h q = ground arith
Step-SameTurns {s} recorder_stopped h q = recorder_stopped-SameTurns s
Step-SameTurns {s} (encoded stamp e) h q = encoded-SameTurns stamp e s h
Step-SameTurns {s} ended_by_user h q = end_session-SameTurns s
Step-SameTurns {s} connected h q = ground arith
Step-SameTurns {s} (ticket_came b sid w) h q = ground arith
Step-SameTurns {s} (ticket_lost b text) h q = ground arith
Step-SameTurns {s} (socket_opened w user) h q = on_open-SameTurns w user s
Step-SameTurns {s} (message_came browser stamp w p f) h q =
    on_message-SameTurns browser stamp w p s q
Step-SameTurns {s} (socket_failed w) h q = ground arith
Step-SameTurns {s} (socket_closed w) h q = on_close-SameTurns w s
Step-SameTurns {s} (cleaned_up own) h q = cleanup-SameTurns own s

Waiting-SameTurns : {s t : Session} → is_some s.pending_turn ≡ true → Waiting s t → SameTurns s t
Waiting-SameTurns h still = record { pending_turn = refl; turns_sent = refl }
Waiting-SameTurns {s} h (later {t} {u} w st q) =
    let before = Waiting-SameTurns h w in
    SameTurns-trans s t u before (Step-SameTurns st (rw before.pending_turn h) q)

-- One turn at a time. After a text that is not blank is sent from a session that can take a turn,
-- until the server answers or reports an error, its turn stays pending and is the only one that is
-- sent, whatever else happens: further texts, recordings and their encodings, speech, other messages
-- of the server, the end or the loss of the connection and a new one.
pub send_text-Waiting :
    (stamp : Stamp) (text : Text) (s t : Session) (w : Socket)
    → CanSend s w
    → is_blank (trim text) ≡ false
    → Waiting (send_text stamp text s) t
    → (t.pending_turn ≡ some stamp.id)
      × (turns t.sent ≡ turns s.sent ++ create_text_turn_message (trim text) stamp.id ∷ [])
unfolding create_text_turn_message
send_text-Waiting stamp text s t w c b run =
    let sent = send_text-CanSend stamp text s w c b in
    let pending = ap (λ (v : Session). v.pending_turn) sent in
    let kept = Waiting-SameTurns (rw pending refl) run in
    (
      kept.pending_turn ∙ pending,
      kept.turns_sent
          ∙ ap (λ (v : Session). turns v.sent) sent
          ∙ turns-append s.sent (turn stamp.id (some (trim text)) none),
    )
