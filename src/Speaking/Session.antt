-- ===== src/Speaking/Session.antt =====
-- The state that useSpeakingRealtimeSession keeps in React state and refs, and its smallest
-- updates. `pending_turn` is both the ref and the state variable: `setPendingTurnMessageId` writes
-- the two together. `sent` lists what went through `socket.send`, the oldest first. A handler is
-- one function; its state updates are applied in order when it returns.
use ai_agentic_english.Prelude.{
  ℕ, String, Bool, true, false, Option, none, some, List, [], ◌∷◌, ◌++◌, map, if◌then◌else◌, str_eq,
}
use ai_agentic_english.Speaking.Types.{Status, idle, error, Message, ClientMessage, Speech}

pub data ReadyState : Type 0 where
  connecting open_state closing closed : ReadyState

-- `socket_id` is the identity of the WebSocket object.
pub record Socket : Type 0 where
  pub socket_id : ℕ
  pub ready_state : ReadyState

-- `mediaRecorder.state`, where "paused" does not occur.
pub data RecorderState : Type 0 where
  inactive active : RecorderState

-- The bytes of a recorded chunk.
abbrev pub Blob : Type 0
Blob = List ℕ

pub record Session : Type 0 where
  pub session_id : Option String
  pub status : Status
  pub messages : List Message
  pub error_text : Option String
  pub pending_turn : Option String
  pub socket : Option Socket
  pub started : Bool
  pub close_requested : Bool
  pub media_recorder : Option RecorderState
  pub media_stream : Bool
  pub audio_chunks : List Blob
  pub cancel_recording : Bool
  pub active_speech : Option Speech
  pub sent : List ClientMessage

abbrev pub initial : Session
initial = record {
  session_id = none;
  status = idle;
  messages = [];
  error_text = none;
  pending_turn = none;
  socket = none;
  started = false;
  close_requested = false;
  media_recorder = none;
  media_stream = false;
  audio_chunks = [];
  cancel_recording = false;
  active_speech = none;
  sent = [];
}

unfoldable pub set_status : Status → Session → Session
set_status st s = record s { status = st }

-- `setError(text)` with `setStatus('error')`.
unfoldable pub fail : String → Session → Session
fail text s = record s { error_text = some text; status = error }

unfoldable pub stop_media_tracks : Session → Session
stop_media_tracks s = record s { media_stream = false }

unfoldable pub append_message : Message → Session → Session
append_message m s = record s { messages = s.messages ++ m ∷ [] }

-- `setMessages` with a map that changes the message of one id only.
unfoldable pub update_message : String → (Message → Message) → List Message → List Message
update_message mid f = map (λ m. if str_eq m.id mid then f m else m)

abbrev is_open_state : ReadyState → Bool
is_open_state open_state = true
is_open_state _ = false

abbrev pub is_open : Socket → Bool
is_open w = is_open_state w.ready_state

-- `sendSocketMessage`: the result tells whether the message was sent.
unfoldable pub send_via : Option Socket → ClientMessage → Session → Session × Bool
unfolding fail
send_via none message s = (fail "Speaking session is not connected." s, false)
send_via (some w) message s =
    if is_open w
    then (record s { sent = s.sent ++ message ∷ [] }, true)
    else (fail "Speaking session is not connected." s, false)

unfoldable pub send_socket_message : ClientMessage → Session → Session × Bool
unfolding send_via
send_socket_message message s = send_via s.socket message s
