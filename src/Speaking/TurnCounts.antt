-- ===== src/Speaking/TurnCounts.antt =====
-- Which handlers of useSpeakingRealtimeSession leave the pending turn and the turns sent as they
-- are.
use ai_agentic_english.Prelude.{
  ℕ, String, Bool, true, false, ◌&&◌, Option, none, some, List, [], ◌∷◌, ◌++◌, ◌≡◌, refl, is_some,
  ◌∙◌, arith, filter, filter-append, Bool-cases, inl, inr,
}
use mathlib.Core.List.{append-nil}
use ai_agentic_english.Speaking.Types.{
  ending, TurnFeedback, Text, ClientMessage, turn, end_of_session, create_start_message,
}
use ai_agentic_english.Speaking.Session.{
  Socket, is_open, Blob, Session, set_status, fail, send_via, send_socket_message,
  stop_media_tracks,
}
use ai_agentic_english.Speaking.Speech.{stop_active_speech}
use ai_agentic_english.Speaking.Turns.{Stamp, apply_turn_feedback, send_text, send_audio_turn}
use ai_agentic_english.Speaking.Recording.{
  recorded_chunks, handle_recording_stop, Encoded, base64, unreadable, recording_encoded,
  abort_recording,
}
use ai_agentic_english.Speaking.Connection.{
  end_via, end_session, is_current, on_open, on_close, close_via, cleanup, opened,
}
use ai_agentic_english.Speaking.Cycle.{SameLink, stop_active_speech-SameLink}
use ai_agentic_english.Speaking.Outcomes.{send_text_refused}

abbrev is_turn : ClientMessage → Bool
is_turn (turn _ _ _) = true
is_turn _ = false

-- The turns among the messages sent.
abbrev pub turns : List ClientMessage → List ClientMessage
turns = filter is_turn

-- The pending turn and the turns sent are the same.
pub record SameTurns (s t : Session) : Type 0 where
  pub pending_turn : t.pending_turn ≡ s.pending_turn
  pub turns_sent : turns t.sent ≡ turns s.sent

pub of_link : (s t : Session) → SameLink s t → SameTurns s t
of_link s t h = record { pending_turn = h.pending_turn; turns_sent = rw h.sent refl }

pub SameTurns-trans : (s t u : Session) → SameTurns s t → SameTurns t u → SameTurns s u
SameTurns-trans s t u h k = record {
  pending_turn = k.pending_turn ∙ h.pending_turn;
  turns_sent = k.turns_sent ∙ h.turns_sent;
}

pub turns-append :
    (cs : List ClientMessage) (c : ClientMessage)
    → turns (cs ++ c ∷ []) ≡ turns cs ++ turns (c ∷ [])
turns-append cs c = filter-append is_turn cs (c ∷ [])

-- A message that is no turn.
pub send_via-SameTurns :
    (o : Option Socket) (c : ClientMessage) (s : Session)
    → is_turn c ≡ false
    → SameTurns s (send_via o c s).0
unfolding send_via fail
send_via-SameTurns none c s h = record { pending_turn = refl; turns_sent = refl }
send_via-SameTurns (some w) c s h = elim (Bool-cases (is_open w)) [
  | inl e ↦ rw e (record {
    pending_turn = refl;
    turns_sent = turns-append s.sent c ∙ rw h (append-nil (turns s.sent));
  })
  | inr e ↦ rw e (record { pending_turn = refl; turns_sent = refl })
]

pub abort_recording-SameTurns : (s : Session) → SameTurns s (abort_recording s)
unfolding abort_recording stop_media_tracks
abort_recording-SameTurns s = ground arith

pub end_via-SameTurns : (o : Option Socket) (s : Session) → SameTurns s (end_via o s)
unfolding end_via send_socket_message
end_via-SameTurns none s = record { pending_turn = refl; turns_sent = refl }
end_via-SameTurns (some w) s = elim (Bool-cases (is_open w && s.started)) [
  | inl e ↦ rw e (send_via-SameTurns s.socket end_of_session s refl)
  | inr e ↦ rw e (record { pending_turn = refl; turns_sent = refl })
]

pub end_session-SameTurns : (s : Session) → SameTurns s (end_session s)
unfolding end_session set_status
end_session-SameTurns s =
    let leaving : Session = record s { close_requested = true; status = ending } in
    let quiet : SameTurns leaving (stop_active_speech true (abort_recording leaving)) =
      SameTurns-trans leaving _ _ (abort_recording-SameTurns leaving)
        (of_link _ _ (stop_active_speech-SameLink true (abort_recording leaving))) in
    let gone =
      SameTurns-trans leaving _ _ quiet
        (end_via-SameTurns s.socket (stop_active_speech true (abort_recording leaving))) in
    record { pending_turn = gone.pending_turn; turns_sent = gone.turns_sent }

pub close_via-SameTurns :
    (own : Option ℕ) (o : Option Socket) (s : Session) → SameTurns s (close_via own o s)
unfolding close_via
close_via-SameTurns none o s = record { pending_turn = refl; turns_sent = refl }
close_via-SameTurns (some own) none s = record { pending_turn = refl; turns_sent = refl }
close_via-SameTurns (some own) (some w) s =
    ground (arith, turns-append s.sent end_of_session, append-nil (turns s.sent))

pub cleanup-SameTurns : (own : Option ℕ) (s : Session) → SameTurns s (cleanup own s)
unfolding cleanup
cleanup-SameTurns own s =
    SameTurns-trans s _ _ (of_link s _ (stop_active_speech-SameLink false s)) (
      SameTurns-trans _ _ _ (abort_recording-SameTurns (stop_active_speech false s))
        (close_via-SameTurns own s.socket (abort_recording (stop_active_speech false s))))

pub on_open-SameTurns : (own : ℕ) (user : String) (s : Session) → SameTurns s (on_open own user s)
unfolding on_open send_socket_message create_start_message
on_open-SameTurns own user s = elim (Bool-cases (is_current own s)) [
  | inl e ↦ rw e (
      let sent =
        send_via-SameTurns (opened own) (create_start_message user)
          (record s { socket = opened own; error_text = none }) refl in
      record { pending_turn = sent.pending_turn; turns_sent = sent.turns_sent })
  | inr e ↦ rw e (record { pending_turn = refl; turns_sent = refl })
]

pub turn_feedback-SameTurns :
    (f : TurnFeedback) (s : Session) → SameTurns s (apply_turn_feedback f s)
unfolding apply_turn_feedback
turn_feedback-SameTurns f s = record { pending_turn = refl; turns_sent = refl }

pub on_close-SameTurns : (own : ℕ) (s : Session) → SameTurns s (on_close own s)
unfolding on_close stop_media_tracks fail
on_close-SameTurns own s = ground arith

pub recorded-SameTurns :
    (b : Bool) (chunks : List Blob) (s : Session) → SameTurns s (recorded_chunks b chunks s).0
unfolding recorded_chunks set_status
recorded-SameTurns true chunks s = record { pending_turn = refl; turns_sent = refl }
recorded-SameTurns false [] s = record { pending_turn = refl; turns_sent = refl }
recorded-SameTurns false (c ∷ cs) s = record { pending_turn = refl; turns_sent = refl }

pub recorder_stopped-SameTurns : (s : Session) → SameTurns s (handle_recording_stop s).0
unfolding handle_recording_stop stop_media_tracks
recorder_stopped-SameTurns s =
    let kept = recorded-SameTurns s.cancel_recording s.audio_chunks (record (stop_media_tracks s) {
      cancel_recording = false;
      media_recorder = none;
      audio_chunks = [];
    }) in
    record { pending_turn = kept.pending_turn; turns_sent = kept.turns_sent }

-- While a turn is pending, a text and a recording that was encoded are not sent.
pub send_text-SameTurns :
    (stamp : Stamp) (text : Text) (s : Session)
    → is_some s.pending_turn ≡ true
    → SameTurns s (send_text stamp text s)
send_text-SameTurns stamp text s h =
    rw (send_text_refused stamp text s (inr (inl h)))
      (record { pending_turn = refl; turns_sent = refl })

pub encoded-SameTurns :
    (stamp : Stamp) (e : Encoded) (s : Session)
    → is_some s.pending_turn ≡ true
    → SameTurns s (recording_encoded stamp e s)
unfolding recording_encoded send_audio_turn fail
encoded-SameTurns stamp (base64 audio) s h = ground (arith, h)
encoded-SameTurns stamp (unreadable text) s h = record { pending_turn = refl; turns_sent = refl }
