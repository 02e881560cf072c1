-- ===== src/Speaking/Turns.antt =====
-- The turns of a conversation: the transcript updates and the sends of
-- useSpeakingRealtimeSession. Ids and timestamps, which the browser makes, are arguments.
use ai_agentic_english.Prelude.{
  String, Bool, true, false, not, ◌||◌, Option, none, some, [], ◌∷◌, map, if◌then◌else◌, is_some,
  get_or, opt_is, str_eq,
}
use ai_agentic_english.Speaking.Types.{
  Text, Status, ready, sending, receiving, Speaker, ai, user, Message, TurnResult, TurnFeedback,
  create_text_turn_message, create_audio_turn_message,
}
use ai_agentic_english.Speaking.Words.{trim}
use ai_agentic_english.Speaking.Session.{
  Session, append_message, update_message, set_status, send_socket_message,
}
use ai_agentic_english.Speaking.Speech.{Synthesis, speak_assistant_reply}

-- What the browser makes for one handler: a fresh id and the display time.
pub record Stamp : Type 0 where
  pub id : String
  pub time : String

abbrev pub new_message : Stamp → Speaker → Text → Message
new_message stamp speaker content = record {
  id = stamp.id;
  speaker = speaker;
  content = content;
  client_turn_id = none;
  display_content = none;
  revealed_char_count = none;
  is_speaking = false;
  language = none;
  timestamp = stamp.time;
  pending_transcript = false;
  grammar_feedback = none;
  mock_feedback = none;
  translated_message = none;
  translation_zone = none;
}

abbrev pub assistant_message : Stamp → Text → Option String → Message
assistant_message stamp content turn_id = record (new_message stamp ai content) {
  client_turn_id = turn_id;
  display_content = some [];
  revealed_char_count = some 0;
  is_speaking = true;
}

unfoldable pub append_assistant_message :
    Synthesis → Stamp → Text → Option String → Session → Session
unfolding append_message speak_assistant_reply
append_assistant_message browser stamp content turn_id s =
    speak_assistant_reply browser stamp.id content
      (append_message (assistant_message stamp content turn_id) s)

-- `message.client_turn_id || pendingTurnMessageIdRef.current`.
unfoldable pub answered_turn : TurnResult → Session → Option String
answered_turn result s =
    if str_eq result.client_turn_id "" then s.pending_turn else some result.client_turn_id

unfoldable pub answer_message : TurnResult → Message → Message
answer_message result m = record m {
  content = get_or result.transcript_text m.content;
  pending_transcript = false;
  mock_feedback = result.mock_feedback;
  language = some result.language;
}

unfoldable pub answer_turn : TurnResult → Session → Option String → Session
unfolding answer_message update_message
answer_turn result s none = s
answer_turn result s (some turn_id) = record s {
  messages = update_message turn_id (answer_message result) s.messages;
  pending_turn = if opt_is s.pending_turn turn_id then none else s.pending_turn;
}

unfoldable pub update_pending_user_turn : TurnResult → Session → Session
unfolding answered_turn answer_turn
update_pending_user_turn result s = answer_turn result s (answered_turn result s)

unfoldable pub feedback_message : TurnFeedback → Message → Message
feedback_message feedback m =
    if str_eq m.id feedback.client_turn_id
    then record m {
      grammar_feedback = feedback.grammar_feedback;
      translation_zone = feedback.translation_zone;
    }
    else if opt_is m.client_turn_id feedback.client_turn_id
    then record m {
      translated_message = feedback.translated_message;
      translation_zone = feedback.translation_zone;
    }
    else m

unfoldable pub apply_turn_feedback : TurnFeedback → Session → Session
unfolding feedback_message
apply_turn_feedback feedback s = record s { messages = map (feedback_message feedback) s.messages }

abbrev pub is_ready : Status → Bool
is_ready ready = true
is_ready _ = false

abbrev pub is_blank : Text → Bool
is_blank [] = true
is_blank (_ ∷ _) = false

-- The end that `sendText` and `sendAudioTurn` share.
unfoldable pub settle_send : Session × Bool → Session
unfolding set_status
settle_send (after, true) = set_status receiving after
settle_send (after, false) = record after { pending_turn = none }

-- The transcript shows the turn, which is pending until it is answered.
unfoldable pub ask : Message → Session → Session
unfolding append_message
ask m s = record (append_message m s) { pending_turn = some m.id; status = sending }

unfoldable pub send_text : Stamp → Text → Session → Session
unfolding ask settle_send send_socket_message trim create_text_turn_message
send_text stamp text s =
    let trimmed = trim text in
    if is_blank trimmed || is_some s.pending_turn || not (is_ready s.status)
    then s
    else settle_send (
        send_socket_message (create_text_turn_message trimmed stamp.id)
          (ask (new_message stamp user trimmed) s))

unfoldable pub send_audio_turn : Stamp → Text → String → Session → Session
unfolding ask settle_send send_socket_message create_audio_turn_message
send_audio_turn stamp placeholder audio_base64 s =
    if str_eq audio_base64 "" || is_some s.pending_turn
    then s
    else settle_send (
        send_socket_message (create_audio_turn_message audio_base64 stamp.id)
          (ask (record (new_message stamp user placeholder) { pending_transcript = true }) s))
