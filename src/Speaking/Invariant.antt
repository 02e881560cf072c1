-- ===== src/Speaking/Invariant.antt =====
-- The invariant of the session's state, and that the speech callbacks of
-- useSpeakingRealtimeSession keep it.
use ai_agentic_english.Prelude.{
  ℕ, ◌≤◌, String, Bool, true, false, Option, none, some, List, [], ◌∷◌, ◌≡◌, refl, length, All,
  if◌then◌else◌,
}
use ai_agentic_english.Speaking.Types.{Message, Speech, ClientMessage, start, turn, end_of_session}
use ai_agentic_english.Speaking.Words.{get_word_end_indices}
use ai_agentic_english.Speaking.Session.{Session, initial}
use ai_agentic_english.Speaking.Speech.{
  finish_message, reveal_message, finish_assistant_message_reveal, reveal_assistant_message,
  with_speech,
}
use ai_agentic_english.Speaking.Transcript.{
  IsShown, Extends, Extends-refl, Extends-trans, has_turn, has_turn-Extends, finish_message-IsShown,
  reveal_message-IsShown, finish_message-Follows, reveal_message-Follows, update_message-IsShown,
  update_message-Extends,
}

-- The utterance in progress is not completed, has the word ends of its text, and has revealed no
-- more than its text.
pub record IsSpeaking (sp : Speech) : Type 0 where
  pub live : sp.completed ≡ false
  pub words : sp.word_end_indices ≡ get_word_end_indices sp.content
  pub within : sp.revealed_char_count ≤ length sp.content

abbrev pub SpeechValid : Option Speech → Type 0
SpeechValid none = Unit
SpeechValid (some sp) = IsSpeaking sp

-- A turn that was sent stands in the transcript as the user's.
abbrev pub IsRecorded : List Message → ClientMessage → Type 0
IsRecorded ms (start _ _) = Unit
IsRecorded ms (turn tid _ _) = has_turn tid ms ≡ true
IsRecorded ms end_of_session = Unit

abbrev pub PendingRecorded : List Message → Option String → Type 0
PendingRecorded ms none = Unit
PendingRecorded ms (some tid) = has_turn tid ms ≡ true

pub record IsValid (s : Session) : Type 0 where
  pub shown : All IsShown s.messages
  pub speech : SpeechValid s.active_speech
  pub recorded : All (IsRecorded s.messages) s.sent
  pub pending : PendingRecorded s.messages s.pending_turn

pub initial-IsValid : IsValid initial
initial-IsValid = record { shown = tt; speech = tt; recorded = tt; pending = tt }

pub IsRecorded-Extends :
    (xs ys : List Message) → Extends xs ys → (c : ClientMessage) → IsRecorded xs c → IsRecorded ys c
IsRecorded-Extends xs ys h (start _ _) r = tt
IsRecorded-Extends xs ys h (turn tid _ _) r = has_turn-Extends tid xs ys h r
IsRecorded-Extends xs ys h end_of_session r = tt

pub recorded-Extends :
    (xs ys : List Message)
    → Extends xs ys
    → (cs : List ClientMessage) → All (IsRecorded xs) cs
    → All (IsRecorded ys) cs
recorded-Extends xs ys h [] r = tt
recorded-Extends xs ys h (c ∷ cs) (p, r) =
    (IsRecorded-Extends xs ys h c p, recorded-Extends xs ys h cs r)

pub PendingRecorded-Extends :
    (xs ys : List Message)
    → Extends xs ys
    → (o : Option String) → PendingRecorded xs o
    → PendingRecorded ys o
PendingRecorded-Extends xs ys h none p = tt
PendingRecorded-Extends xs ys h (some tid) p = has_turn-Extends tid xs ys h p

-- A step keeps the invariant and only extends the transcript.
pub record Keeps (s t : Session) : Type 0 where
  pub valid : IsValid t
  pub extends : Extends s.messages t.messages

pub Keeps-refl : (s : Session) → IsValid s → Keeps s s
Keeps-refl s v = record { valid = v; extends = Extends-refl s.messages }

pub Keeps-trans : (s t u : Session) → Keeps s t → Keeps t u → Keeps s u
Keeps-trans s t u h k = record {
  valid = k.valid;
  extends = Extends-trans s.messages t.messages u.messages h.extends k.extends;
}

-- A change of the messages and the speech that sends nothing.
pub Keeps-quiet :
    (s t : Session)
    → IsValid s
    → Extends s.messages t.messages
    → All IsShown t.messages
    → SpeechValid t.active_speech
    → t.sent ≡ s.sent
    → t.pending_turn ≡ s.pending_turn
    → Keeps s t
Keeps-quiet s t v ext shown speech sent pending = record {
  valid = record {
    shown = shown;
    speech = speech;
    recorded = rw sent (recorded-Extends s.messages t.messages ext s.sent v.recorded);
    pending =
        rw pending (PendingRecorded-Extends s.messages t.messages ext s.pending_turn v.pending);
  };
  extends = ext;
}

-- Only the speech changes.
pub with_speech-Keeps :
    (sp : Speech) (s : Session) → IsValid s → IsSpeaking sp → Keeps s (with_speech sp s)
with_speech-Keeps sp s v h =
    Keeps-quiet s (with_speech sp s) v (Extends-refl s.messages) v.shown h refl refl

pub finish_reveal-Keeps :
    (mid : String) (s : Session) → IsValid s → Keeps s (finish_assistant_message_reveal mid s)
unfolding finish_assistant_message_reveal
finish_reveal-Keeps mid s v =
    Keeps-quiet s _ v
      (update_message-Extends mid finish_message finish_message-Follows s.messages v.shown)
      (update_message-IsShown mid finish_message (λ m _. finish_message-IsShown m) s.messages
        v.shown)
      v.speech refl refl

pub reveal-Keeps :
    (mid : String) (n : ℕ) (s : Session) → IsValid s → Keeps s (reveal_assistant_message mid n s)
unfolding reveal_assistant_message
reveal-Keeps mid n s v =
    Keeps-quiet s _ v
      (update_message-Extends mid (reveal_message n) (reveal_message-Follows n) s.messages v.shown)
      (update_message-IsShown mid (reveal_message n) (reveal_message-IsShown n) s.messages v.shown)
      v.speech refl refl

pub without_speech-Keeps : (s : Session) → IsValid s → Keeps s (record s { active_speech = none })
without_speech-Keeps s v =
    Keeps-quiet s (record s { active_speech = none }) v (Extends-refl s.messages) v.shown tt refl
      refl

pub Keeps-if : (b : Bool) (s t u : Session) → Keeps s t → Keeps s u → Keeps s (if b then t else u)
Keeps-if true s t u h k = h
Keeps-if false s t u h k = k
