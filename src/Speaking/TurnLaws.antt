-- ===== src/Speaking/TurnLaws.antt =====
-- The turn and recording handlers of useSpeakingRealtimeSession keep the session's invariant and
-- only extend the transcript.
use ai_agentic_english.Prelude.{
  String, Bool, true, false, Option, none, some, List, [], ◌∷◌, ◌++◌, ◌≡◌, refl, arith, All-append,
  All-map, eq_refl, if◌then◌else◌, opt_is, Bool-cases, inl, inr,
}
use ai_agentic_english.Speaking.Types.{Text, user, Message, TurnResult, TurnFeedback, ClientMessage}
use ai_agentic_english.Speaking.Words.{trim}
use ai_agentic_english.Speaking.Session.{
  Socket, is_open, Session, Blob, append_message, set_status, fail, stop_media_tracks, send_via,
  send_socket_message, update_message,
}
use ai_agentic_english.Speaking.Speech.{Synthesis}
use ai_agentic_english.Speaking.Turns.{
  Stamp, new_message, assistant_message, append_assistant_message, answered_turn, answer_message,
  answer_turn, update_pending_user_turn, feedback_message, apply_turn_feedback, settle_send, ask,
  send_text, send_audio_turn,
}
use ai_agentic_english.Speaking.Recording.{
  processing_audio, recorded_chunks, handle_recording_stop, Encoded, base64, unreadable,
  recording_encoded, start_recording, microphone_granted, microphone_refused, on_data_available,
  stop_recording, abort_recording,
}
use ai_agentic_english.Speaking.Transcript.{
  IsShown, Extends, Extends-refl, Extends-append, Extends-map, has_turn, is_user,
  update_message-Extends, update_unrevealed-IsShown, answer_message-IsShown, answer_message-Follows,
  feedback_message-IsShown, feedback_message-Follows,
}
use ai_agentic_english.Speaking.Invariant.{
  IsValid, IsRecorded, PendingRecorded, recorded-Extends, PendingRecorded-Extends, Keeps,
  Keeps-refl, Keeps-trans, Keeps-if, Keeps-quiet,
}
use ai_agentic_english.Speaking.SpeechLaws.{speak_assistant_reply-Keeps}
use ai_agentic_english.Speaking.Run.{AnswersTurn}

-- Fields beside the messages, the speech, the pending turn and what was sent.
abbrev pub SameTalk : Session → Session → Type 0
SameTalk s t =
    (t.messages ≡ s.messages)
    × (t.active_speech ≡ s.active_speech)
    × (t.sent ≡ s.sent)
    × (t.pending_turn ≡ s.pending_turn)

pub SameTalk-Keeps : (s t : Session) → IsValid s → SameTalk s t → Keeps s t
SameTalk-Keeps s t v (m, a, c, p) =
    Keeps-quiet s t v (rw m (Extends-refl s.messages)) (rw m v.shown) (rw a v.speech) c p

pub append_message-Keeps :
    (m : Message) (s : Session) → IsShown m → IsValid s → Keeps s (append_message m s)
unfolding append_message
append_message-Keeps m s h v =
    Keeps-quiet s (record s { messages = s.messages ++ m ∷ [] }) v
      (Extends-append s.messages (m ∷ [])) (All-append IsShown s.messages (m ∷ []) v.shown (h, tt))
      v.speech refl refl

pub append_assistant_message-Keeps :
    (browser : Synthesis) (stamp : Stamp) (content : Text) (tid : Option String) (s : Session)
    → IsValid s
    → Keeps s (append_assistant_message browser stamp content tid s)
unfolding append_assistant_message
append_assistant_message-Keeps browser stamp content tid s v =
    let shown : IsShown (assistant_message stamp content tid) = (omega arith, refl) in
    let added = append_message-Keeps (assistant_message stamp content tid) s shown v in
    Keeps-trans s (append_message (assistant_message stamp content tid) s) _ added
      (speak_assistant_reply-Keeps browser stamp.id content _ added.valid)

PendingRecorded-cleared :
    (ms : List Message) (b : Bool) (o : Option String)
    → PendingRecorded ms o
    → PendingRecorded ms (if b then none else o)
PendingRecorded-cleared ms true o h = tt
PendingRecorded-cleared ms false o h = h

answer_turn-Keeps :
    (r : TurnResult) (s : Session) (o : Option String)
    → IsValid s
    → AnswersTurn o s
    → Keeps s (answer_turn r s o)
unfolding answer_turn
answer_turn-Keeps r s none v h = Keeps-refl s v
answer_turn-Keeps r s (some tid) v h =
    let later = update_message tid (answer_message r) s.messages in
    let ext : Extends s.messages later =
      update_message-Extends tid (answer_message r) (answer_message-Follows r) s.messages v.shown in
    record {
      valid = record {
        shown =
            update_unrevealed-IsShown tid (answer_message r) (answer_message-IsShown r) s.messages
              v.shown h;
        speech = v.speech;
        recorded = recorded-Extends s.messages later ext s.sent v.recorded;
        pending =
            PendingRecorded-cleared later (opt_is s.pending_turn tid) s.pending_turn
              (PendingRecorded-Extends s.messages later ext s.pending_turn v.pending);
      };
      extends = ext;
    }

pub update_pending_user_turn-Keeps :
    (r : TurnResult) (s : Session)
    → IsValid s
    → AnswersTurn (answered_turn r s) s
    → Keeps s (update_pending_user_turn r s)
unfolding update_pending_user_turn
update_pending_user_turn-Keeps r s v h = answer_turn-Keeps r s (answered_turn r s) v h

pub apply_turn_feedback-Keeps :
    (f : TurnFeedback) (s : Session) → IsValid s → Keeps s (apply_turn_feedback f s)
unfolding apply_turn_feedback
apply_turn_feedback-Keeps f s v =
    Keeps-quiet s _ v
      (Extends-map (feedback_message f) (feedback_message-Follows f) s.messages v.shown)
      (All-map IsShown (feedback_message f) (feedback_message-IsShown f) s.messages v.shown)
      v.speech refl refl

pub has_turn-append :
    (m : Message) (ms : List Message)
    → is_user m.speaker ≡ true
    → has_turn m.id (ms ++ m ∷ []) ≡ true
has_turn-append m [] h = rw (eq_refl m.id, h)
has_turn-append m (x ∷ ms) h = ground (arith, has_turn-append m ms h)

pub ask-Keeps :
    (m : Message) (s : Session)
    → IsShown m
    → is_user m.speaker ≡ true
    → IsValid s
    → Keeps s (ask m s)
unfolding ask append_message
ask-Keeps m s shown h v =
    let added = append_message-Keeps m s shown v in
    record {
      valid = record {
        shown = added.valid.shown;
        speech = added.valid.speech;
        recorded = added.valid.recorded;
        pending = has_turn-append m s.messages h;
      };
      extends = added.extends;
    }

pub send_via-Keeps :
    (o : Option Socket) (c : ClientMessage) (s : Session)
    → IsValid s
    → IsRecorded s.messages c
    → Keeps s (send_via o c s).0
unfolding send_via fail
send_via-Keeps none c s v h = SameTalk-Keeps s _ v (refl, refl, refl, refl)
send_via-Keeps (some w) c s v h = elim (Bool-cases (is_open w)) [
  | inl e ↦ rw e (record {
    valid = record {
      shown = v.shown;
      speech = v.speech;
      recorded = All-append (IsRecorded s.messages) s.sent (c ∷ []) v.recorded (h, tt);
      pending = v.pending;
    };
    extends = Extends-refl s.messages;
  })
  | inr e ↦ rw e (SameTalk-Keeps s _ v (refl, refl, refl, refl))
]

settle_send-Keeps : (s : Session) (r : Session × Bool) → Keeps s r.0 → Keeps s (settle_send r)
unfolding settle_send set_status
settle_send-Keeps s (after, true) k =
    Keeps-trans s after _ k (SameTalk-Keeps after _ k.valid (refl, refl, refl, refl))
settle_send-Keeps s (after, false) k = Keeps-trans s after _ k (record {
  valid = record {
    shown = k.valid.shown;
    speech = k.valid.speech;
    recorded = k.valid.recorded;
    pending = tt;
  };
  extends = Extends-refl after.messages;
})

-- A turn that is recorded, then sent.
sent_turn-Keeps :
    (m : Message) (c : ClientMessage) (s : Session)
    → IsShown m
    → is_user m.speaker ≡ true
    → ((ms : List Message) → has_turn m.id ms ≡ true → IsRecorded ms c)
    → IsValid s
    → Keeps s (settle_send (send_socket_message c (ask m s)))
unfolding send_socket_message
sent_turn-Keeps m c s shown h own v =
    let asked = ask-Keeps m s shown h v in
    settle_send-Keeps s _ (
      Keeps-trans s (ask m s) _ asked (
        send_via-Keeps (ask m s).socket c (ask m s) asked.valid
          (own (ask m s).messages (unfold ask append_message in has_turn-append m s.messages h))))

pub send_text-Keeps :
    (stamp : Stamp) (text : Text) (s : Session) → IsValid s → Keeps s (send_text stamp text s)
unfolding send_text
send_text-Keeps stamp text s v =
    Keeps-if _ s s _ (Keeps-refl s v)
      (sent_turn-Keeps (new_message stamp user (trim text)) _ s tt refl (λ ms h. h) v)

pub send_audio_turn-Keeps :
    (stamp : Stamp) (placeholder : Text) (audio : String) (s : Session)
    → IsValid s
    → Keeps s (send_audio_turn stamp placeholder audio s)
unfolding send_audio_turn
send_audio_turn-Keeps stamp placeholder audio s v = Keeps-if _ s s _ (Keeps-refl s v) (
    sent_turn-Keeps (record (new_message stamp user placeholder) { pending_transcript = true }) _ s
      tt refl (λ ms h. h) v)

recorded_chunks-SameTalk :
    (b : Bool) (chunks : List Blob) (s : Session) → SameTalk s (recorded_chunks b chunks s).0
unfolding recorded_chunks set_status
recorded_chunks-SameTalk true chunks s = (refl, refl, refl, refl)
recorded_chunks-SameTalk false [] s = (refl, refl, refl, refl)
recorded_chunks-SameTalk false (c ∷ cs) s = (refl, refl, refl, refl)

pub handle_recording_stop-SameTalk : (s : Session) → SameTalk s (handle_recording_stop s).0
unfolding handle_recording_stop stop_media_tracks
handle_recording_stop-SameTalk s = recorded_chunks-SameTalk s.cancel_recording s.audio_chunks _

pub recording_encoded-Keeps :
    (stamp : Stamp) (e : Encoded) (s : Session) → IsValid s → Keeps s (recording_encoded stamp e s)
unfolding recording_encoded fail
recording_encoded-Keeps stamp (base64 audio) s v =
    send_audio_turn-Keeps stamp processing_audio audio s v
recording_encoded-Keeps stamp (unreadable text) s v = SameTalk-Keeps s _ v (refl, refl, refl, refl)

pub start_recording-SameTalk : (b : Bool) (s : Session) → SameTalk s (start_recording b s).0
unfolding start_recording fail
start_recording-SameTalk b s = ground arith

pub microphone_granted-SameTalk : (s : Session) → SameTalk s (microphone_granted s)
unfolding microphone_granted
microphone_granted-SameTalk s = (refl, refl, refl, refl)

pub microphone_refused-SameTalk :
    (text : String) (s : Session) → SameTalk s (microphone_refused text s)
unfolding microphone_refused
microphone_refused-SameTalk text s = (refl, refl, refl, refl)

pub on_data_available-SameTalk : (c : Blob) (s : Session) → SameTalk s (on_data_available c s)
unfolding on_data_available
on_data_available-SameTalk c s = ground arith

pub stop_recording-SameTalk : (s : Session) → SameTalk s (stop_recording s)
unfolding stop_recording
stop_recording-SameTalk s = ground arith

pub abort_recording-SameTalk : (s : Session) → SameTalk s (abort_recording s)
unfolding abort_recording stop_media_tracks
abort_recording-SameTalk s = ground arith
