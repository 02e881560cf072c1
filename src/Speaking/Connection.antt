-- ===== src/Speaking/Connection.antt =====
-- The life of the connection: the effect of useSpeakingRealtimeSession with its socket listeners
-- and its cleanup, and `endSession`. A listener is known by the socket that it was added to.
use ai_agentic_english.Prelude.{
  ℕ, String, Bool, true, false, not, ◌&&◌, is_none, Option, none, some, [], ◌∷◌, ◌++◌,
  if◌then◌else◌, ◌==◌,
}
use ai_agentic_english.Speaking.Types.{
  Status, idle, connecting, ready, ending, ended, error, ServerMessage, session_started,
  turn_result, turn_feedback, session_ended, error_detail, end_of_session, create_start_message,
}
use ai_agentic_english.Speaking.Session.{
  ReadyState, Socket, is_open, Session, set_status, fail, stop_media_tracks, send_socket_message,
}
use ai_agentic_english.Speaking.Speech.{Synthesis, stop_active_speech}
use ai_agentic_english.Speaking.Turns.{
  Stamp, is_ready, append_assistant_message, update_pending_user_turn, apply_turn_feedback,
}
use ai_agentic_english.Speaking.Recording.{abort_recording}

unfoldable pub end_via : Option Socket → Session → Session
unfolding send_socket_message
end_via none s = record s { started = false; status = ended }
end_via (some w) s =
    if is_open w && s.started
    then (send_socket_message end_of_session s).0
    else record s { socket = some (record w { ready_state = ReadyState.closing }) }

unfoldable pub end_session : Session → Session
unfolding set_status abort_recording stop_active_speech end_via
end_session s = end_via s.socket (
    stop_active_speech true
      (abort_recording (set_status ending (record s { close_requested = true }))))

-- The effect's start, where the user is known.
unfoldable pub connect : Session → Session
connect s = record s { close_requested = false; started = false }

-- The ticket came, or did not; `cancelled` tells whether the effect was cleaned up meanwhile.
unfoldable pub ticket_received : Bool → String → ℕ → Session → Session
ticket_received cancelled session_id socket_id s = if cancelled then s else record s {
  session_id = some session_id;
  socket = some (record { socket_id = socket_id; ready_state = ReadyState.connecting });
}

unfoldable pub ticket_failed : Bool → String → Session → Session
unfolding fail
ticket_failed cancelled text s = if cancelled then s else fail text s

-- The guard `socketRef.current !== socket`.
unfoldable pub is_socket : ℕ → Option Socket → Bool
is_socket socket_id none = false
is_socket socket_id (some w) = w.socket_id == socket_id

unfoldable pub is_current : ℕ → Session → Bool
unfolding is_socket
is_current socket_id s = is_socket socket_id s.socket

abbrev pub opened : ℕ → Option Socket
opened socket_id = some (record { socket_id = socket_id; ready_state = ReadyState.open_state })

unfoldable pub on_open : ℕ → String → Session → Session
unfolding is_current send_socket_message create_start_message
on_open socket_id user_id s =
    if is_current socket_id s
    then (send_socket_message (create_start_message user_id)
        (record s { socket = opened socket_id; error_text = none })).0
    else s

-- What `parseServerMessage` gives: a message, or the text of the error that it throws.
pub data Parsed : Type 0 where
  parsed : ServerMessage → Parsed
  unparsed : String → Parsed

unfoldable pub receive : Synthesis → Stamp → ServerMessage → Session → Session
unfolding append_assistant_message update_pending_user_turn apply_turn_feedback set_status fail
receive browser stamp (session_started opening) s =
    set_status ready
      (append_assistant_message browser stamp opening none (record s { started = true }))
receive browser stamp (turn_result result) s =
    let answered =
      append_assistant_message browser stamp result.assistant_message (some result.client_turn_id)
        (update_pending_user_turn result s) in
    if answered.close_requested then answered else set_status ready answered
receive browser stamp (turn_feedback feedback) s = apply_turn_feedback feedback s
receive browser stamp session_ended s = record s {
  started = false;
  close_requested = true;
  status = ended;
}
receive browser stamp (error_detail detail) s = fail detail (record s { pending_turn = none })

unfoldable pub on_message : Synthesis → Stamp → ℕ → Parsed → Session → Session
unfolding is_current receive fail
on_message browser stamp socket_id (parsed message) s =
    if is_current socket_id s then receive browser stamp message s else s
on_message browser stamp socket_id (unparsed text) s =
    if is_current socket_id s then fail text s else s

unfoldable pub on_error : ℕ → Session → Session
unfolding is_current fail
on_error socket_id s =
    if is_current socket_id s then fail "Speaking session connection failed." s else s

unfoldable pub on_close : ℕ → Session → Session
unfolding is_current stop_media_tracks fail
on_close socket_id s =
    if is_current socket_id s
    then (let dropped = stop_media_tracks (record s { socket = none }) in
        if dropped.close_requested
        then record dropped { started = false; status = ended }
        else fail "Speaking session disconnected unexpectedly." dropped)
    else s

-- The effect's cleanup; `own` is the socket that the effect opened, if it got so far.
unfoldable pub close_via : Option ℕ → Option Socket → Session → Session
close_via none w s = s
close_via (some own) none s = s
close_via (some own) (some w) s =
    if w.socket_id == own
    then record s {
      close_requested = true;
      sent = if is_open w && s.started then s.sent ++ end_of_session ∷ [] else s.sent;
      socket = none;
    }
    else s

unfoldable pub cleanup : Option ℕ → Session → Session
unfolding stop_active_speech abort_recording close_via
cleanup own s = close_via own s.socket (abort_recording (stop_active_speech false s))

-- What the hook returns: an idle session of a known user is about to connect.
abbrev settled : Status → Status
settled idle = connecting
settled other = other

unfoldable pub effective_status : Bool → Bool → Session → Status
effective_status is_loaded signed_in s =
    if is_loaded then (if signed_in then settled s.status else error) else s.status

abbrev unless_connecting : Status → Option String → Option String
unless_connecting connecting text = none
unless_connecting _ text = text

unfoldable pub effective_error : Bool → Bool → Session → Option String
unfolding effective_status
effective_error is_loaded signed_in s =
    if is_loaded && not signed_in
    then some "Sign in to start a speaking session."
    else unless_connecting (effective_status is_loaded signed_in s) s.error_text

unfoldable pub can_send_turn : Bool → Bool → Session → Bool
unfolding effective_status
can_send_turn is_loaded signed_in s =
    is_ready (effective_status is_loaded signed_in s) && is_none s.pending_turn
