-- ===== src/Speaking/Shown.antt =====
-- How much of a message the transcript shows, and what `revealAssistantMessage` adds to it.
use mathlib.Core.Option
use ai_agentic_english.Prelude.{
  ℕ, ◌≤◌, max, min, String, Option, some, List, [], ◌∷◌, ◌≡◌, refl, arith, ap, ◌∙◌, find, length,
  take, get_or, str_eq, Bool-cases, inl, inr, All,
}
use ai_agentic_english.Speaking.Types.{Message}
use ai_agentic_english.Speaking.Session.{Session, update_message}
use ai_agentic_english.Speaking.Speech.{reveal_message, reveal_assistant_message}

-- The message of an id.
abbrev pub message_in : String → List Message → Option Message
message_in mid = find (λ m. str_eq m.id mid)

-- The message shows its text up to a place that is not before `e`, or all of it.
pub record IsShownTo (m : Message) (e : ℕ) : Type 0 where
  pub count : ℕ
  pub counted : m.revealed_char_count ≡ some count
  pub displayed : m.display_content ≡ some (take count m.content)
  pub reached : min e (length m.content) ≤ count

-- The transcript has a message of the id, with this text, which shows it up to each of the ends.
pub record ShowsWords (mid : String) (text : List ℕ) (ends : List ℕ) (ms : List Message)
    : Type 0 where
  pub message : Message
  pub found : message_in mid ms ≡ some message
  pub same_text : message.content ≡ text
  pub shown : All (IsShownTo message) ends

reveal_message-same : (c : ℕ) (m : Message) → (reveal_message c m).content ≡ m.content
unfolding reveal_message
reveal_message-same c m = refl

reveal_message-IsShownTo : (c : ℕ) (m : Message) (e : ℕ) → e ≤ c → IsShownTo (reveal_message c m) e
unfolding reveal_message
reveal_message-IsShownTo c m e h = record {
  count = max (get_or m.revealed_char_count 0) (min c (length m.content));
  counted = refl;
  displayed = refl;
  reached = ground (arith, h);
}

reveal_message-keeps :
    (c : ℕ) (m : Message) (e : ℕ) → IsShownTo m e → IsShownTo (reveal_message c m) e
unfolding reveal_message
reveal_message-keeps c m e h = record {
  count = max (get_or m.revealed_char_count 0) (min c (length m.content));
  counted = refl;
  displayed = refl;
  reached = rw h.counted (ground (arith, h.reached));
}

reveal_message-All :
    (c : ℕ) (m : Message) (es : List ℕ)
    → All (IsShownTo m) es
    → All (IsShownTo (reveal_message c m)) es
reveal_message-All c m [] h = tt
reveal_message-All c m (e ∷ es) (p, h) = (reveal_message-keeps c m e p, reveal_message-All c m es h)

message_in-update :
    (c : ℕ) (mid : String) (ms : List Message)
    → message_in mid (update_message mid (reveal_message c) ms)
      ≡ Option.map (reveal_message c) (message_in mid ms)
unfolding update_message reveal_message
message_in-update c mid [] = refl
message_in-update c mid (m ∷ ms) = elim (Bool-cases (str_eq m.id mid)) [
  | inl e ↦ rw (e, e) refl
  | inr e ↦ rw (e, e) (message_in-update c mid ms)
]

-- Revealing up to `c` keeps what was shown, and shows the end `e` too where it is not past `c`.
pub reveal-ShowsWords :
    (c : ℕ) (mid : String) (text : List ℕ) (e : ℕ) (ends : List ℕ) (s : Session)
    → e ≤ c
    → ShowsWords mid text ends s.messages
    → ShowsWords mid text (e ∷ ends) (reveal_assistant_message mid c s).messages
unfolding reveal_assistant_message
reveal-ShowsWords c mid text e ends s le h = record {
  message = reveal_message c h.message;
  found = message_in-update c mid s.messages ∙ ap (Option.map (reveal_message c)) h.found;
  same_text = reveal_message-same c h.message ∙ h.same_text;
  shown = (reveal_message-IsShownTo c h.message e le, reveal_message-All c h.message ends h.shown);
}
