-- ===== src/Speaking/Types.antt =====
-- apps/web/app/main/practice-center/_types/speaking-realtime.ts and the types at the top of
-- _hooks/useSpeakingRealtimeSession.ts. A text that the code walks is the list of its UTF-16 code
-- units; a feedback object, which the hook only passes on, is its JSON text.
use ai_agentic_english.Prelude.{ℕ, String, Option, none, some, List, Bool}

abbrev pub Text : Type 0
Text = List ℕ

pub data Status : Type 0 where
  idle connecting ready recording sending receiving ending ended error : Status

pub data Speaker : Type 0 where
  ai user : Speaker

pub record Message : Type 0 where
  pub id : String
  pub speaker : Speaker
  pub content : Text
  pub client_turn_id : Option String
  pub display_content : Option Text
  pub revealed_char_count : Option ℕ
  pub is_speaking : Bool
  pub language : Option String
  pub timestamp : String
  pub pending_transcript : Bool
  pub grammar_feedback : Option String
  pub mock_feedback : Option String
  pub translated_message : Option String
  pub translation_zone : Option String

pub record TurnResult : Type 0 where
  pub client_turn_id : String
  pub assistant_message : Text
  pub transcript_text : Option Text
  pub mock_feedback : Option String
  pub language : String

pub record TurnFeedback : Type 0 where
  pub client_turn_id : String
  pub grammar_feedback : Option String
  pub translated_message : Option String
  pub translation_zone : Option String

pub data ServerMessage : Type 0 where
  session_started : Text → ServerMessage
  turn_result : TurnResult → ServerMessage
  turn_feedback : TurnFeedback → ServerMessage
  session_ended : ServerMessage
  error_detail : String → ServerMessage

pub data ClientMessage : Type 0 where
  start : (clerk_user_id skill_focus : String) → ClientMessage
  turn :
      (client_turn_id : String) (user_message : Option Text) (audio_base64 : Option String)
      → ClientMessage
  end_of_session : ClientMessage

unfoldable pub create_start_message : String → ClientMessage
create_start_message clerk_user_id = start clerk_user_id "SPEAKING"

unfoldable pub create_text_turn_message : Text → String → ClientMessage
create_text_turn_message user_message client_turn_id = turn client_turn_id (some user_message) none

unfoldable pub create_audio_turn_message : String → String → ClientMessage
create_audio_turn_message audio_base64 client_turn_id = turn client_turn_id none (some audio_base64)

-- The utterance that the browser is speaking. The timers are flags: set while one is scheduled.
-- `fallback_word_index` is `none` where `findIndex` gave -1.
pub record Speech : Type 0 where
  pub message_id : String
  pub content : Text
  pub word_end_indices : List ℕ
  pub revealed_char_count : ℕ
  pub fallback_word_index : Option ℕ
  pub fallback_start_timer : Bool
  pub fallback_interval : Bool
  pub completed : Bool
