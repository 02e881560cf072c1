-- ===== src/Speaking/SpeechLinks.antt =====
-- The speech callbacks and timers of useSpeakingRealtimeSession change only the messages and the
-- speech.
use ai_agentic_english.Prelude.{ℕ, String, true, false, ◌||◌, ◌&&◌, Option, none, some, str_eq}
use ai_agentic_english.Prelude.Int.{ℤ, is_positive}
use ai_agentic_english.Speaking.Types.{Text, Speech}
use ai_agentic_english.Speaking.Session.{Session}
use ai_agentic_english.Speaking.Speech.{
  live_speech, reveal_assistant_message, reveal_word, reveal_next_word, reveal_next_fallback_word,
  begin_fallback, start_fallback, start_fallback_reveal, reveal_speech, reveal_active_speech,
  finish_active_speech, on_speech_start, on_speech_boundary, stop_timers,
}
use ai_agentic_english.Speaking.Cycle.{
  SameLink, SameLink-refl, SameLink-trans, SameLink-if, retold-SameLink, finish_speech-SameLink,
}

reveal_word-SameLink : (s : Session) (sp : Speech) (o : Option ℕ) → SameLink s (reveal_word s sp o)
unfolding reveal_word reveal_assistant_message
reveal_word-SameLink s sp none = retold-SameLink s _ s.messages
reveal_word-SameLink s sp (some next) = retold-SameLink s _ _

reveal_next_word-SameLink : (s : Session) (o : Option Speech) → SameLink s (reveal_next_word s o)
unfolding reveal_next_word
reveal_next_word-SameLink s none = SameLink-refl s
reveal_next_word-SameLink s (some sp) = reveal_word-SameLink s sp _

pub tick-SameLink : (mid : String) (s : Session) → SameLink s (reveal_next_fallback_word mid s)
unfolding reveal_next_fallback_word
tick-SameLink mid s = reveal_next_word-SameLink s (live_speech mid s)

begin_fallback-SameLink :
    (mid : String) (s : Session) (sp : Speech) (o : Option ℕ)
    → SameLink s (begin_fallback mid s sp o)
unfolding begin_fallback
begin_fallback-SameLink mid s sp none = retold-SameLink s _ s.messages
begin_fallback-SameLink mid s sp (some i) =
    SameLink-trans s _ _
      (retold-SameLink s
        (some (record sp {
          fallback_start_timer = false;
          fallback_word_index = some i;
          fallback_interval = true;
        }))
        s.messages)
      (tick-SameLink mid _)

start_fallback-SameLink :
    (mid : String) (s : Session) (o : Option Speech) → SameLink s (start_fallback mid s o)
unfolding start_fallback
start_fallback-SameLink mid s none = SameLink-refl s
start_fallback-SameLink mid s (some sp) =
    SameLink-if sp.fallback_interval s _ _ (retold-SameLink s _ s.messages)
      (begin_fallback-SameLink mid s sp _)

reveal_speech-SameLink :
    (count : ℕ) (s : Session) (o : Option Speech) → SameLink s (reveal_speech count s o)
unfolding reveal_speech reveal_assistant_message
reveal_speech-SameLink count s none = SameLink-refl s
reveal_speech-SameLink count s (some sp) = retold-SameLink s _ _

stop_timers-SameLink : (s : Session) (o : Option Speech) → SameLink s (stop_timers s o)
unfolding stop_timers
stop_timers-SameLink s none = SameLink-refl s
stop_timers-SameLink s (some sp) = retold-SameLink s _ s.messages

pub reveal_active_speech-SameLink :
    (mid : String) (count : ℕ) (s : Session) → SameLink s (reveal_active_speech mid count s)
unfolding reveal_active_speech
reveal_active_speech-SameLink mid count s = reveal_speech-SameLink count s (live_speech mid s)

pub boundary-SameLink :
    (mid : String) (reply : Text) (index : Option ℤ) (name : String) (s : Session)
    → SameLink s (on_speech_boundary mid reply index name s)
unfolding on_speech_boundary
boundary-SameLink mid reply none name s = SameLink-refl s
boundary-SameLink mid reply (some i) name s =
    let shown = reveal_active_speech-SameLink mid _ s in
    SameLink-if ((str_eq name "" || str_eq name "word") && is_positive i) s _ _
      (SameLink-trans s _ _ shown (stop_timers-SameLink _ _)) shown

pub start_fallback_reveal-SameLink :
    (mid : String) (s : Session) → SameLink s (start_fallback_reveal mid s)
unfolding start_fallback_reveal
start_fallback_reveal-SameLink mid s = start_fallback-SameLink mid s (live_speech mid s)

pub on_speech_start-SameLink :
    (mid : String) (reply : Text) (s : Session) → SameLink s (on_speech_start mid reply s)
unfolding on_speech_start
on_speech_start-SameLink mid reply s = reveal_active_speech-SameLink mid _ s

pub finish_active_speech-SameLink :
    (mid : String) (s : Session) → SameLink s (finish_active_speech mid s)
unfolding finish_active_speech
finish_active_speech-SameLink mid s = finish_speech-SameLink s (live_speech mid s)
