-- ===== src/Speaking/ConnectionLaws.antt =====
-- The connection handlers of useSpeakingRealtimeSession keep the session's invariant and only
-- extend the transcript.
use ai_agentic_english.Prelude.{
  ℕ, String, Bool, true, false, ◌&&◌, Option, none, some, [], ◌∷◌, refl, arith, All-append, ◌==◌,
  Bool-cases, inl, inr,
}
use ai_agentic_english.Speaking.Types.{
  ServerMessage, session_started, turn_result, turn_feedback, session_ended, error_detail,
  end_of_session, ready, ending, create_start_message,
}
use ai_agentic_english.Speaking.Session.{
  Socket, is_open, Session, set_status, fail, stop_media_tracks, send_socket_message,
}
use ai_agentic_english.Speaking.Speech.{Synthesis, stop_active_speech}
use ai_agentic_english.Speaking.Turns.{Stamp, append_assistant_message, update_pending_user_turn}
use ai_agentic_english.Speaking.Recording.{abort_recording}
use ai_agentic_english.Speaking.Connection.{
  end_via, end_session, connect, ticket_received, ticket_failed, is_current, on_open, opened,
  Parsed, parsed, unparsed, receive, on_message, on_error, on_close, close_via, cleanup,
}
use ai_agentic_english.Speaking.Transcript.{Extends-refl}
use ai_agentic_english.Speaking.Invariant.{
  IsValid, IsRecorded, Keeps, Keeps-refl, Keeps-trans, Keeps-if,
}
use ai_agentic_english.Speaking.SpeechLaws.{stop_active_speech-Keeps}
use ai_agentic_english.Speaking.TurnLaws.{
  SameTalk, SameTalk-Keeps, append_assistant_message-Keeps, update_pending_user_turn-Keeps,
  apply_turn_feedback-Keeps, send_via-Keeps, abort_recording-SameTalk,
}
use ai_agentic_english.Speaking.Run.{FitsProtocol}

-- After a step that keeps the invariant, a step that touches no talk.
then_same-Keeps : (s t u : Session) → Keeps s t → SameTalk t u → Keeps s u
then_same-Keeps s t u k h = Keeps-trans s t u k (SameTalk-Keeps t u k.valid h)

end_via-Keeps : (o : Option Socket) (s : Session) → IsValid s → Keeps s (end_via o s)
unfolding end_via send_socket_message
end_via-Keeps none s v = SameTalk-Keeps s _ v (refl, refl, refl, refl)
end_via-Keeps (some w) s v =
    Keeps-if (is_open w && s.started) s _ _ (send_via-Keeps s.socket end_of_session s v tt)
      (SameTalk-Keeps s _ v (refl, refl, refl, refl))

pub end_session-Keeps : (s : Session) → IsValid s → Keeps s (end_session s)
unfolding end_session set_status
end_session-Keeps s v =
    let leaving : Session = record s { close_requested = true; status = ending } in
    let left : Keeps s leaving = SameTalk-Keeps s leaving v (refl, refl, refl, refl) in
    let aborted =
      then_same-Keeps s leaving (abort_recording leaving) left (abort_recording-SameTalk leaving) in
    let quiet =
      Keeps-trans s (abort_recording leaving) (stop_active_speech true (abort_recording leaving))
        aborted (stop_active_speech-Keeps true (abort_recording leaving) aborted.valid) in
    Keeps-trans s (stop_active_speech true (abort_recording leaving)) _ quiet
      (end_via-Keeps s.socket _ quiet.valid)

pub connect-SameTalk : (s : Session) → SameTalk s (connect s)
unfolding connect
connect-SameTalk s = (refl, refl, refl, refl)

pub ticket_received-SameTalk :
    (b : Bool) (sid : String) (w : ℕ) (s : Session) → SameTalk s (ticket_received b sid w s)
unfolding ticket_received
ticket_received-SameTalk b sid w s = ground arith

pub ticket_failed-SameTalk :
    (b : Bool) (text : String) (s : Session) → SameTalk s (ticket_failed b text s)
unfolding ticket_failed
ticket_failed-SameTalk b text s = ground arith

pub on_open-Keeps : (w : ℕ) (user : String) (s : Session) → IsValid s → Keeps s (on_open w user s)
unfolding on_open send_socket_message create_start_message
on_open-Keeps w user s v =
    let joined : Session = record s { socket = opened w; error_text = none } in
    let k : Keeps s joined = SameTalk-Keeps s joined v (refl, refl, refl, refl) in
    Keeps-if (is_current w s) s _ s
      (Keeps-trans s joined _ k (send_via-Keeps (opened w) _ joined k.valid tt)) (Keeps-refl s v)

receive-Keeps :
    (browser : Synthesis) (stamp : Stamp) (m : ServerMessage) (s : Session)
    → IsValid s
    → FitsProtocol (parsed m) s
    → Keeps s (receive browser stamp m s)
unfolding receive set_status fail
receive-Keeps browser stamp (session_started opening) s v h =
    let begun : Session = record s { started = true } in
    let k : Keeps s begun = SameTalk-Keeps s begun v (refl, refl, refl, refl) in
    let spoken =
      Keeps-trans s begun (append_assistant_message browser stamp opening none begun) k
        (append_assistant_message-Keeps browser stamp opening none begun k.valid) in
    then_same-Keeps s _ _ spoken (refl, refl, refl, refl)
receive-Keeps browser stamp (turn_result r) s v h =
    let k = update_pending_user_turn-Keeps r s v h in
    let after : Session =
      append_assistant_message browser stamp r.assistant_message (some r.client_turn_id)
        (update_pending_user_turn r s) in
    let spoken : Keeps s after = Keeps-trans s (update_pending_user_turn r s) after k (
      append_assistant_message-Keeps browser stamp r.assistant_message (some r.client_turn_id)
        (update_pending_user_turn r s) k.valid) in
    Keeps-if after.close_requested s after (set_status ready after) spoken
      (then_same-Keeps s after (set_status ready after) spoken (refl, refl, refl, refl))
receive-Keeps browser stamp (turn_feedback f) s v h = apply_turn_feedback-Keeps f s v
receive-Keeps browser stamp session_ended s v h = SameTalk-Keeps s _ v (refl, refl, refl, refl)
receive-Keeps browser stamp (error_detail text) s v h = record {
  valid = record { shown = v.shown; speech = v.speech; recorded = v.recorded; pending = tt };
  extends = Extends-refl s.messages;
}

pub on_message-Keeps :
    (browser : Synthesis) (stamp : Stamp) (w : ℕ) (p : Parsed) (s : Session)
    → IsValid s
    → FitsProtocol p s
    → Keeps s (on_message browser stamp w p s)
unfolding on_message fail
on_message-Keeps browser stamp w (parsed m) s v h =
    Keeps-if (is_current w s) s _ s (receive-Keeps browser stamp m s v h) (Keeps-refl s v)
on_message-Keeps browser stamp w (unparsed text) s v h =
    Keeps-if (is_current w s) s _ s (SameTalk-Keeps s _ v (refl, refl, refl, refl)) (Keeps-refl s v)

pub on_error-SameTalk : (w : ℕ) (s : Session) → SameTalk s (on_error w s)
unfolding on_error fail
on_error-SameTalk w s = ground arith

pub on_close-SameTalk : (w : ℕ) (s : Session) → SameTalk s (on_close w s)
unfolding on_close fail stop_media_tracks
on_close-SameTalk w s = ground arith

close_via-Keeps :
    (own : Option ℕ) (o : Option Socket) (s : Session) → IsValid s → Keeps s (close_via own o s)
unfolding close_via
close_via-Keeps none o s v = Keeps-refl s v
close_via-Keeps (some own) none s v = Keeps-refl s v
close_via-Keeps (some own) (some w) s v =
    Keeps-if (w.socket_id == own) s _ s
      (record {
        valid = record {
          shown = v.shown;
          speech = v.speech;
          recorded = elim (Bool-cases (is_open w && s.started)) [
            | inl e ↦ rw e (
                All-append (IsRecorded s.messages) s.sent (end_of_session ∷ []) v.recorded (tt, tt))
            | inr e ↦ rw e v.recorded
          ];
          pending = v.pending;
        };
        extends = Extends-refl s.messages;
      })
      (Keeps-refl s v)

pub cleanup-Keeps : (own : Option ℕ) (s : Session) → IsValid s → Keeps s (cleanup own s)
unfolding cleanup
cleanup-Keeps own s v =
    let quiet = stop_active_speech-Keeps false s v in
    let aborted =
      then_same-Keeps s (stop_active_speech false s) (abort_recording (stop_active_speech false s))
        quiet (abort_recording-SameTalk (stop_active_speech false s)) in
    Keeps-trans s (abort_recording (stop_active_speech false s)) _ aborted
      (close_via-Keeps own s.socket _ aborted.valid)
