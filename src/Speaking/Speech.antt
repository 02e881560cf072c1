-- ===== src/Speaking/Speech.antt =====
-- Speaking a reply aloud and revealing its text word by word: the speech callbacks of
-- useSpeakingRealtimeSession. An utterance is known by the id of its message, which
-- `createMessageId` makes fresh; a callback of an utterance that is no longer the active one finds
-- no live speech.
use mathlib.Core.Option
use ai_agentic_english.Prelude.{
  ℕ, suc, max, min, String, Bool, true, false, not, ◌&&◌, ◌||◌, Option, none, some, List, [], ◌∷◌,
  ltb, if◌then◌else◌, length, get_elem?, take, get_or, str_eq, ◌==◌,
}
use ai_agentic_english.Prelude.Int.{ℤ, is_positive}
use ai_agentic_english.Speaking.Types.{Text, Message, Speech}
use ai_agentic_english.Speaking.Words.{
  get_word_end_indices, get_first_word_end_char_count, get_reveal_char_count_for_boundary,
}
use ai_agentic_english.Speaking.Session.{Session, update_message}

unfoldable pub finish_message : Message → Message
finish_message m = record m {
  display_content = some m.content;
  revealed_char_count = some (length m.content);
  is_speaking = false;
}

unfoldable pub finish_assistant_message_reveal : String → Session → Session
unfolding update_message finish_message
finish_assistant_message_reveal mid s = record s {
  messages = update_message mid finish_message s.messages;
}

unfoldable pub reveal_message : ℕ → Message → Message
reveal_message count m =
    let revealed = max (get_or m.revealed_char_count 0) (min count (length m.content)) in
    record m {
      display_content = some (take revealed m.content);
      revealed_char_count = some revealed;
      is_speaking = true;
    }

unfoldable pub reveal_assistant_message : String → ℕ → Session → Session
unfolding update_message reveal_message
reveal_assistant_message mid count s = record s {
  messages = update_message mid (reveal_message count) s.messages;
}

unfoldable pub clear_speech_timers : Speech → Speech
clear_speech_timers sp = record sp { fallback_start_timer = false; fallback_interval = false }

-- `activeSpeechRef.current = null` drops the object; its timers are cleared before.
unfoldable pub stop_speech : Bool → Session → Option Speech → Session
unfolding finish_assistant_message_reveal
stop_speech reveal_full s none = s
stop_speech reveal_full s (some sp) =
    if reveal_full
    then finish_assistant_message_reveal sp.message_id (record s { active_speech = none })
    else record s { active_speech = none }

unfoldable pub stop_active_speech : Bool → Session → Session
unfolding stop_speech
stop_active_speech reveal_full s = stop_speech reveal_full s s.active_speech

-- The guard `activeSpeechRef.current !== activeSpeech || activeSpeech.completed`.
unfoldable pub only_live : String → Option Speech → Option Speech
only_live mid none = none
only_live mid (some sp) = if str_eq sp.message_id mid && not sp.completed then some sp else none

unfoldable pub live_speech : String → Session → Option Speech
unfolding only_live
live_speech mid s = only_live mid s.active_speech

unfoldable pub find_index : (ℕ → Bool) → List ℕ → Option ℕ
find_index test [] = none
find_index test (n ∷ ns) =
    let later = Option.map suc (find_index test ns) in if test n then some 0 else later

abbrev pub with_speech : Speech → Session → Session
with_speech sp s = record s { active_speech = some sp }

-- `wordEndIndices[fallbackWordIndex]`; index -1 gives `undefined`.
abbrev pub elem_at : List ℕ → Option ℕ → Option ℕ
elem_at ns none = none
elem_at ns (some i) = get_elem? ns i

-- One round of the interval timer: the end of the next word, if there is one, is revealed.
unfoldable pub reveal_word : Session → Speech → Option ℕ → Session
unfolding reveal_assistant_message
reveal_word s sp none = with_speech (record sp { fallback_interval = false }) s
reveal_word s sp (some next) =
    reveal_assistant_message sp.message_id (max sp.revealed_char_count next) (
      with_speech
        (record sp {
          fallback_word_index = some (suc (get_or sp.fallback_word_index 0));
          revealed_char_count = max sp.revealed_char_count next;
        })
        s)

unfoldable pub reveal_next_word : Session → Option Speech → Session
unfolding reveal_word
reveal_next_word s none = s
reveal_next_word s (some sp) = reveal_word s sp (elem_at sp.word_end_indices sp.fallback_word_index)

unfoldable pub reveal_next_fallback_word : String → Session → Session
unfolding live_speech reveal_next_word
reveal_next_fallback_word mid s = reveal_next_word s (live_speech mid s)

-- The fallback starts at the first word that is not revealed yet, with its interval set.
unfoldable pub begin_fallback : String → Session → Speech → Option ℕ → Session
unfolding reveal_next_fallback_word
begin_fallback mid s sp none =
    with_speech (record sp { fallback_start_timer = false; fallback_word_index = none }) s
begin_fallback mid s sp (some i) = reveal_next_fallback_word mid (
    with_speech
      (record sp {
        fallback_start_timer = false;
        fallback_word_index = some i;
        fallback_interval = true;
      })
      s)

unfoldable pub start_fallback : String → Session → Option Speech → Session
unfolding begin_fallback find_index
start_fallback mid s none = s
start_fallback mid s (some sp) =
    if sp.fallback_interval
    then with_speech (record sp { fallback_start_timer = false }) s
    else begin_fallback mid s sp
        (find_index (λ e. ltb sp.revealed_char_count e) sp.word_end_indices)

-- What the start timer runs, 900 ms after the speech began.
unfoldable pub start_fallback_reveal : String → Session → Session
unfolding live_speech start_fallback
start_fallback_reveal mid s = start_fallback mid s (live_speech mid s)

unfoldable pub reveal_speech : ℕ → Session → Option Speech → Session
unfolding reveal_assistant_message
reveal_speech count s none = s
reveal_speech count s (some sp) =
    let revealed = max sp.revealed_char_count (min count (length sp.content)) in
    reveal_assistant_message sp.message_id revealed
      (with_speech (record sp { revealed_char_count = revealed }) s)

unfoldable pub reveal_active_speech : String → ℕ → Session → Session
unfolding live_speech reveal_speech
reveal_active_speech mid count s = reveal_speech count s (live_speech mid s)

unfoldable pub finish_speech : Session → Option Speech → Session
unfolding finish_assistant_message_reveal
finish_speech s none = s
finish_speech s (some sp) =
    finish_assistant_message_reveal sp.message_id (record s { active_speech = none })

-- `utterance.onend` and `utterance.onerror`.
unfoldable pub finish_active_speech : String → Session → Session
unfolding live_speech finish_speech
finish_active_speech mid s = finish_speech s (live_speech mid s)

unfoldable pub on_speech_start : String → Text → Session → Session
unfolding reveal_active_speech get_first_word_end_char_count
on_speech_start mid reply = reveal_active_speech mid (get_first_word_end_char_count reply)

unfoldable pub stop_timers : Session → Option Speech → Session
unfolding clear_speech_timers
stop_timers s none = s
stop_timers s (some sp) = with_speech (clear_speech_timers sp) s

-- A word boundary after the first character shows that the browser reports boundaries, and stops
-- the fallback timers. `none` is a `charIndex` that is no number.
unfoldable pub on_speech_boundary : String → Text → Option ℤ → String → Session → Session
unfolding reveal_active_speech get_reveal_char_count_for_boundary stop_timers live_speech
on_speech_boundary mid reply none name s = s
on_speech_boundary mid reply (some char_index) name s =
    let shown = reveal_active_speech mid (get_reveal_char_count_for_boundary reply char_index) s in
    if (str_eq name "" || str_eq name "word") && is_positive char_index
    then stop_timers shown (live_speech mid shown)
    else shown

-- The browser: whether it can speak, and whether `speechSynthesis.speak` throws.
pub record Synthesis : Type 0 where
  pub supported : Bool
  pub speak_throws : Bool

abbrev pub new_speech : String → Text → Speech
new_speech mid reply = record {
  message_id = mid;
  content = reply;
  word_end_indices = get_word_end_indices reply;
  revealed_char_count = 0;
  fallback_word_index = some 0;
  fallback_start_timer = true;
  fallback_interval = false;
  completed = false;
}

abbrev pub has_no_words : List ℕ → Bool
has_no_words [] = true
has_no_words (_ ∷ _) = false

unfoldable pub speak_assistant_reply : Synthesis → String → Text → Session → Session
unfolding stop_active_speech finish_assistant_message_reveal finish_active_speech
    get_word_end_indices
speak_assistant_reply browser mid reply s =
    let quiet = stop_active_speech true s in
    if not browser.supported
    then finish_assistant_message_reveal mid quiet
    else if length reply == 0 || has_no_words (get_word_end_indices reply)
    then finish_assistant_message_reveal mid quiet
    else let speaking = with_speech (new_speech mid reply) quiet in
      if browser.speak_throws then finish_active_speech mid speaking else speaking
