-- ===== src/Speaking/Cycle.antt =====
-- How the handlers of useSpeakingRealtimeSession work together: a turn and its answer, the end of
-- a session, and what is left of a connection that was dropped.
use ai_agentic_english.Prelude.{
  String, Bool, true, false, not, ◌||◌, Option, none, some, List, ◌≡◌, refl, ◌∙◌, arith,
  if◌then◌else◌, ◌==◌, length,
}
use ai_agentic_english.Speaking.Types.{Text, Message, Speech}
use ai_agentic_english.Speaking.Words.{get_word_end_indices}
use ai_agentic_english.Speaking.Session.{Session, append_message}
use ai_agentic_english.Speaking.Speech.{
  finish_assistant_message_reveal, stop_speech, stop_active_speech, finish_speech,
  finish_active_speech, live_speech, Synthesis, has_no_words, speak_assistant_reply, with_speech,
  new_speech,
}
use ai_agentic_english.Speaking.Turns.{Stamp, append_assistant_message}

-- Nothing but the messages and the speech differs.
pub record SameLink (s t : Session) : Type 0 where
  pub status : t.status ≡ s.status
  pub pending_turn : t.pending_turn ≡ s.pending_turn
  pub socket : t.socket ≡ s.socket
  pub started : t.started ≡ s.started
  pub close_requested : t.close_requested ≡ s.close_requested
  pub sent : t.sent ≡ s.sent
  pub media_recorder : t.media_recorder ≡ s.media_recorder
  pub media_stream : t.media_stream ≡ s.media_stream
  pub audio_chunks : t.audio_chunks ≡ s.audio_chunks
  pub cancel_recording : t.cancel_recording ≡ s.cancel_recording

pub SameLink-refl : (s : Session) → SameLink s s
SameLink-refl s = ground arith

pub SameLink-trans : (s t u : Session) → SameLink s t → SameLink t u → SameLink s u
SameLink-trans s t u h k = record {
  status = k.status ∙ h.status;
  pending_turn = k.pending_turn ∙ h.pending_turn;
  socket = k.socket ∙ h.socket;
  started = k.started ∙ h.started;
  close_requested = k.close_requested ∙ h.close_requested;
  sent = k.sent ∙ h.sent;
  media_recorder = k.media_recorder ∙ h.media_recorder;
  media_stream = k.media_stream ∙ h.media_stream;
  audio_chunks = k.audio_chunks ∙ h.audio_chunks;
  cancel_recording = k.cancel_recording ∙ h.cancel_recording;
}

pub SameLink-if :
    (b : Bool) (s t u : Session) → SameLink s t → SameLink s u → SameLink s (if b then t else u)
SameLink-if true s t u h k = h
SameLink-if false s t u h k = k

-- Where only the messages and the speech are written, each equation is `refl`.
abbrev pub retold : (s : Session) (o : Option Speech) (ms : List Message) → Session
retold s o ms = record s { active_speech = o; messages = ms }

pub retold-SameLink :
    (s : Session) (o : Option Speech) (ms : List Message) → SameLink s (retold s o ms)
retold-SameLink s o ms = record {
  status = refl;
  pending_turn = refl;
  socket = refl;
  started = refl;
  close_requested = refl;
  sent = refl;
  media_recorder = refl;
  media_stream = refl;
  audio_chunks = refl;
  cancel_recording = refl;
}

finish-SameLink : (mid : String) (s : Session) → SameLink s (finish_assistant_message_reveal mid s)
unfolding finish_assistant_message_reveal
finish-SameLink mid s = retold-SameLink s s.active_speech _

stop_speech-SameLink :
    (full : Bool) (s : Session) (o : Option Speech) → SameLink s (stop_speech full s o)
unfolding stop_speech finish_assistant_message_reveal
stop_speech-SameLink full s none = SameLink-refl s
stop_speech-SameLink full s (some sp) =
    SameLink-if full s _ _ (retold-SameLink s none _) (retold-SameLink s none s.messages)

pub stop_active_speech-SameLink :
    (full : Bool) (s : Session) → SameLink s (stop_active_speech full s)
unfolding stop_active_speech
stop_active_speech-SameLink full s = stop_speech-SameLink full s s.active_speech

pub finish_speech-SameLink : (s : Session) (o : Option Speech) → SameLink s (finish_speech s o)
unfolding finish_speech finish_assistant_message_reveal
finish_speech-SameLink s none = SameLink-refl s
finish_speech-SameLink s (some sp) = retold-SameLink s none _

speak-SameLink :
    (browser : Synthesis) (mid : String) (reply : Text) (s : Session)
    → SameLink s (speak_assistant_reply browser mid reply s)
unfolding speak_assistant_reply finish_active_speech
speak-SameLink browser mid reply s =
    let quiet = stop_active_speech-SameLink true s in
    let finished = SameLink-trans s _ _ quiet (finish-SameLink mid (stop_active_speech true s)) in
    let speaking : Session = with_speech (new_speech mid reply) (stop_active_speech true s) in
    let spoken : SameLink s speaking =
      SameLink-trans s _ speaking quiet (retold-SameLink (stop_active_speech true s) _ _) in
    SameLink-if (not browser.supported) s _ _ finished (
      SameLink-if (length reply == 0 || has_no_words (get_word_end_indices reply)) s _ _ finished (
        SameLink-if browser.speak_throws s _ speaking
          (SameLink-trans s speaking _ spoken
            (finish_speech-SameLink speaking (live_speech mid speaking)))
          spoken))

pub append_assistant_message-SameLink :
    (browser : Synthesis) (stamp : Stamp) (content : Text) (tid : Option String) (s : Session)
    → SameLink s (append_assistant_message browser stamp content tid s)
unfolding append_assistant_message append_message
append_assistant_message-SameLink browser stamp content tid s =
    SameLink-trans s _ _ (retold-SameLink s s.active_speech _)
      (speak-SameLink browser stamp.id content _)
