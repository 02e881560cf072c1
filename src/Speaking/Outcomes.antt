-- ===== src/Speaking/Outcomes.antt =====
-- How the handlers of useSpeakingRealtimeSession work together: a turn and its answer, the end of
-- a session, and what is left of a connection that was dropped.
use ai_agentic_english.Prelude.{
  ℕ, String, true, false, Option, none, some, [], ◌∷◌, ◌++◌, ◌≡◌, ◌≢◌, refl, ◌∙◌, arith, eq_refl,
  str_eq-false, is_some, ◌⊎◌,
}
use ai_agentic_english.Speaking.Types.{
  Text, ready, receiving, user, TurnResult, turn_result, create_text_turn_message,
}
use ai_agentic_english.Speaking.Words.{trim}
use ai_agentic_english.Speaking.Session.{
  Socket, is_open, Session, set_status, send_socket_message, append_message, stop_media_tracks,
}
use ai_agentic_english.Speaking.Speech.{stop_active_speech, Synthesis}
use ai_agentic_english.Speaking.Turns.{
  Stamp, new_message, append_assistant_message, answered_turn, answer_turn,
  update_pending_user_turn, is_ready, is_blank, send_text,
}
use ai_agentic_english.Speaking.Recording.{abort_recording}
use ai_agentic_english.Speaking.Connection.{
  is_socket, is_current, Parsed, parsed, unparsed, on_open, on_message, on_error, on_close, receive,
  close_via, cleanup,
}
use ai_agentic_english.Speaking.Cycle.{
  SameLink, append_assistant_message-SameLink, stop_active_speech-SameLink,
}

-- The session can take a turn: the condition of `canSendTurn`, over an open socket.
pub record CanSend (s : Session) (w : Socket) : Type 0 where
  pub is_ready_now : s.status ≡ ready
  pub none_pending : s.pending_turn ≡ none
  pub has_socket : s.socket ≡ some w
  pub socket_open : is_open w ≡ true

-- A text that is not blank, typed when the session can take a turn, is sent as one turn under the
-- id of the message that the transcript gains, and is pending until it is answered.
pub send_text-CanSend :
    (stamp : Stamp) (text : Text) (s : Session) (w : Socket)
    → CanSend s w
    → is_blank (trim text) ≡ false
    → send_text stamp text s ≡ record (append_message (new_message stamp user (trim text)) s) {
      pending_turn = some stamp.id;
      status = receiving;
      sent = s.sent ++ create_text_turn_message (trim text) stamp.id ∷ [];
    }
unfolding send_text send_socket_message
send_text-CanSend stamp text s w c b =
    ground (arith, c.is_ready_now, c.none_pending, c.has_socket, c.socket_open)

-- While a turn is pending, while the session is not ready, or when the text is blank, `sendText`
-- does nothing.
pub send_text_refused :
    (stamp : Stamp) (text : Text) (s : Session)
    → (is_blank (trim text) ≡ true) ⊎ (is_some s.pending_turn ≡ true) ⊎ (is_ready s.status ≡ false)
    → send_text stamp text s ≡ s
unfolding send_text
send_text_refused stamp text s h = ground arith

-- The answer to the pending turn, received on the current socket.
answered-pending :
    (r : TurnResult) (s : Session) (tid : String)
    → r.client_turn_id ≡ tid
    → tid ≢ ""
    → s.pending_turn ≡ some tid
    → (update_pending_user_turn r s).pending_turn ≡ none
unfolding update_pending_user_turn answered_turn answer_turn
answered-pending r s tid e h p = rw (e, str_eq-false tid "" h, p, eq_refl tid) refl

update_pending-same :
    (r : TurnResult) (s : Session)
    → ((update_pending_user_turn r s).close_requested ≡ s.close_requested)
      × ((update_pending_user_turn r s).socket ≡ s.socket)
      × ((update_pending_user_turn r s).sent ≡ s.sent)
unfolding update_pending_user_turn
update_pending-same r s = go (answered_turn r s)
  where
    go :
        (o : Option String)
        → ((answer_turn r s o).close_requested ≡ s.close_requested)
          × ((answer_turn r s o).socket ≡ s.socket)
          × ((answer_turn r s o).sent ≡ s.sent)
    go none = unfold answer_turn in (refl, refl, refl)
    go (some tid) = unfold answer_turn in (refl, refl, refl)

is_current-socket : (s : Session) (w : Socket) → s.socket ≡ some w → is_current w.socket_id s ≡ true
unfolding is_current is_socket
is_current-socket s w h = ground arith

module _ (browser : Synthesis) (stamp : Stamp) (r : TurnResult) (s : Session) (w : Socket)
    (tid : String) (sock : s.socket ≡ some w) (pend : s.pending_turn ≡ some tid)
    (echo : r.client_turn_id ≡ tid) (named : tid ≢ "") (going_on : s.close_requested ≡ false) where
  abbrev base : Session
  base = update_pending_user_turn r s

  abbrev answered : Session
  answered = append_assistant_message browser stamp r.assistant_message (some r.client_turn_id) base

  link : SameLink base answered
  link =
      append_assistant_message-SameLink browser stamp r.assistant_message (some r.client_turn_id)
        base

  on_message_lem :
      on_message browser stamp w.socket_id (parsed (turn_result r)) s
      ≡ record answered { status = ready }
  unfolding on_message receive set_status
  on_message_lem =
      let going : answered.close_requested ≡ false =
        link.close_requested ∙ (update_pending-same r s).0 ∙ going_on in
      rw (is_current-socket s w sock) (rw going refl)

  -- While the session is not being closed, the answer to the pending turn, under its id, which
  -- is not empty, received on the session's open socket, makes the session ready for the next
  -- turn; nothing is sent.
  pub on_message-answers :
      is_open w ≡ true
      → CanSend (on_message browser stamp w.socket_id (parsed (turn_result r)) s) w
        × ((on_message browser stamp w.socket_id (parsed (turn_result r)) s).sent ≡ s.sent)
  on_message-answers live = rw on_message_lem (
    record {
      is_ready_now = refl;
      none_pending = link.pending_turn ∙ answered-pending r s tid echo named pend;
      has_socket = link.socket ∙ (update_pending-same r s).1 ∙ sock;
      socket_open = live;
    },
    link.sent ∙ (update_pending-same r s).2,
  )

-- A whole turn: a text that is not blank, sent when the session can take a turn and is not
-- being closed, and answered by the server under its id, which is not empty, leaves a session
-- that can take the next turn. Exactly that one turn has been sent.
pub turn_cycle :
    (browser : Synthesis) (asked replied : Stamp) (text : Text) (r : TurnResult) (s : Session)
    (w : Socket)
    → CanSend s w
    → is_blank (trim text) ≡ false
    → s.close_requested ≡ false
    → asked.id ≢ ""
    → r.client_turn_id ≡ asked.id
    → CanSend
        (on_message browser replied w.socket_id (parsed (turn_result r)) (send_text asked text s))
        w
      × ((on_message browser replied w.socket_id
            (parsed (turn_result r))
            (send_text asked text s)).sent
          ≡ s.sent ++ create_text_turn_message (trim text) asked.id ∷ [])
unfolding append_message
turn_cycle browser asked replied text r s w c b going_on named echo =
    rw (send_text-CanSend asked text s w c b) (
      on_message-answers browser replied r _ w asked.id c.has_socket refl echo named going_on
        c.socket_open)

abort_recording-socket : (s : Session) → (abort_recording s).socket ≡ s.socket
unfolding abort_recording stop_media_tracks
abort_recording-socket s = ground arith

close_via-socket :
    (own : ℕ) (o : Option Socket) (s : Session)
    → s.socket ≡ o
    → is_current own (close_via (some own) o s) ≡ false
unfolding close_via is_current is_socket
close_via-socket own none s h = ground arith
close_via-socket own (some w) s h = ground arith

cleanup-not-current : (own : ℕ) (s : Session) → is_current own (cleanup (some own) s) ≡ false
unfolding cleanup
cleanup-not-current own s =
    close_via-socket own s.socket (abort_recording (stop_active_speech false s)) (
      abort_recording-socket (stop_active_speech false s)
      ∙ (stop_active_speech-SameLink false s).socket)

stale :
    (browser : Synthesis) (stamp : Stamp) (own : ℕ) (user_id : String) (p : Parsed) (s : Session)
    → is_current own s ≡ false
    → (on_open own user_id s ≡ s)
      × (on_message browser stamp own p s ≡ s)
      × (on_error own s ≡ s)
      × (on_close own s ≡ s)
unfolding on_open on_message on_error on_close
stale browser stamp own user_id (parsed m) s h = (rw h refl, rw h refl, rw h refl, rw h refl)
stale browser stamp own user_id (unparsed t) s h = (rw h refl, rw h refl, rw h refl, rw h refl)

-- After the cleanup of an effect nothing that its socket still reports changes the session.
pub cleanup_silences :
    (browser : Synthesis) (stamp : Stamp) (own : ℕ) (user_id : String) (p : Parsed) (s : Session)
    → (on_open own user_id (cleanup (some own) s) ≡ cleanup (some own) s)
      × (on_message browser stamp own p (cleanup (some own) s) ≡ cleanup (some own) s)
      × (on_error own (cleanup (some own) s) ≡ cleanup (some own) s)
      × (on_close own (cleanup (some own) s) ≡ cleanup (some own) s)
cleanup_silences browser stamp own user_id p s =
    stale browser stamp own user_id p (cleanup (some own) s) (cleanup-not-current own s)
