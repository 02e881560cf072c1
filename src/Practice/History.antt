-- ===== src/Practice/History.antt =====
-- _lib/speaking-history.ts: the spoken sessions of the review bundle. `JSON.parse`, the two formats
-- of a date and the time of a date are parameters; texts are measured in characters, which are
-- JavaScript's units but for those outside the basic plane.
use Prim.Native.String
use ai_agentic_english.Prelude.{
  ℕ, suc, ◌+◌, ◌-◌, ◌*◌, ◌/◌, ltb, leb, String, Bool, true, false, not, ◌&&◌, Option, none, some,
  List, [], ◌∷◌, length, find, filter, map, head?, if◌then◌else◌, str_eq, or_else,
}
use ai_agentic_english.Prelude.Dict.{Dict, get, set}
use ai_agentic_english.Prelude.Int.{pos}
use ai_agentic_english.Prelude.Sort.{sort}
use ai_agentic_english.Shared.Trim.{trim}
use ai_agentic_english.Shared.Chars.{char_count, first_chars}
use ai_agentic_english.Shared.Json.{Json, text, array, object, Items, no_items, item, lookup}
use ai_agentic_english.Practice.Decimal.{print}

pub data Speaker : Type 0 where
  ai : Speaker
  user : Speaker

pub record SpeakingMessage : Type 0 where
  pub id : String
  pub speaker : Speaker
  pub content : String

abbrev speaker_of : Option Json → Option Speaker
speaker_of (some (text role)) =
    if str_eq role "assistant" then some ai else (if str_eq role "user" then some user else none)
speaker_of _ = none

abbrev content_of : Option Json → Option String
content_of (some (text content)) = if str_eq (trim content) "" then none else some content
content_of _ = none

abbrev message_of : ℕ → Option Speaker → Option String → Option SpeakingMessage
message_of index (some speaker) (some content) =
    some (record { id = print (pos index); speaker = speaker; content = content })
message_of _ _ _ = none

unfoldable pub read_turn : ℕ → Json → Option SpeakingMessage
unfolding lookup trim print
read_turn index (object turn) =
    message_of index (speaker_of (lookup "role" turn)) (content_of (lookup "content" turn))
read_turn index _ = none

abbrev pub prepend_some {ℓ} : {A : Type ℓ} → Option A → List A → List A
prepend_some none rest = rest
prepend_some (some a) rest = a ∷ rest

unfoldable pub read_turns : ℕ → Items → List SpeakingMessage
unfolding read_turn
read_turns index no_items = []
read_turns index (item turn turns) =
    prepend_some (read_turn index turn) (read_turns (suc index) turns)

abbrev as_messages : Json → List SpeakingMessage
as_messages (array turns) = read_turns 0 turns
as_messages _ = []

abbrev parsed : Option Json → List SpeakingMessage
parsed none = []
parsed (some transcript) = as_messages transcript

unfoldable pub parse_transcript : (String → Option Json) → Json → List SpeakingMessage
unfolding read_turns
parse_transcript parse_json (text raw) = parsed (parse_json raw)
parse_transcript parse_json transcript = as_messages transcript

pub record Dates : Type 0 where
  pub format_date : String → String
  pub format_time : String → String
  pub time_of : String → ℕ

unfoldable pub duration_minutes : Dates → String → Option String → ℕ
duration_minutes dates start none = 0
duration_minutes dates start (some end) =
    if str_eq end "" then 0 else (2 * (dates.time_of end - dates.time_of start) + 60000) / 120000

abbrev starts_with_ai : SpeakingMessage → Bool
starts_with_ai m = elim m.speaker [ ai ↦ true | user ↦ false ]

unfoldable shorten : Option SpeakingMessage → String
unfolding char_count first_chars
shorten none = "Không có nội dung hội thoại."
shorten (some first) =
    if ltb 90 (char_count first.content)
    then String.◌++◌ (first_chars 90 first.content) "…"
    else first.content

unfoldable pub build_preview : List SpeakingMessage → String
unfolding shorten
build_preview messages = shorten (or_else (find starts_with_ai messages) (head? messages))

pub record ReviewSession : Type 0 where
  pub session_id : String
  pub start_time : String
  pub end_time : Option String
  pub skill_focus : String

pub record Conversation : Type 0 where
  pub conv_id : String
  pub session_id : String
  pub title : Option String
  pub transcript : Json

pub record SessionError : Type 0 where
  pub event_id : String
  pub session_id : String
  pub error_type : String
  pub severity : Json
  pub context_excerpt : Option String

pub record Bundle : Type 0 where
  pub sessions : List ReviewSession
  pub conversations : List Conversation
  pub errors : List SessionError

abbrev pub SpeakingSession : Type 0
SpeakingSession = ReviewSession × Conversation

unfoldable pub conversations_by_session : List Conversation → Dict Conversation → Dict Conversation
unfolding set
conversations_by_session [] found = found
conversations_by_session (c ∷ cs) found = conversations_by_session cs (set c.session_id c found)

abbrev has_ended : Option String → Bool
has_ended none = false
has_ended (some end) = not (str_eq end "")

abbrev with_conversation : ReviewSession → Option Conversation → Option SpeakingSession
with_conversation session none = none
with_conversation session (some c) = some (session, c)

unfoldable pub join_each : Dict Conversation → List ReviewSession → List SpeakingSession
unfolding get
join_each by_session [] = []
join_each by_session (s ∷ ss) =
    prepend_some (with_conversation s (get s.session_id by_session)) (join_each by_session ss)

unfoldable pub not_later : Dates → SpeakingSession → SpeakingSession → Bool
not_later dates a b = leb (dates.time_of b.0.start_time) (dates.time_of a.0.start_time)

unfoldable pub join_speaking_sessions : Dates → Bundle → List SpeakingSession
unfolding conversations_by_session join_each not_later sort
join_speaking_sessions dates bundle = sort (not_later dates) (
    join_each (conversations_by_session bundle.conversations [])
      (filter (λ s. str_eq s.skill_focus "SPEAKING" && has_ended s.end_time) bundle.sessions))

pub record Summary : Type 0 where
  pub id : String
  pub session_id : String
  pub date : String
  pub time : String
  pub duration_minutes : ℕ
  pub title : Option String
  pub preview : String
  pub error_count : ℕ

pub record ErrorNote : Type 0 where
  pub id : String
  pub error_type : String
  pub severity : Json
  pub context_excerpt : Option String

pub record Detail : Type 0 where
  pub summary : Summary
  pub messages : List SpeakingMessage
  pub errors : List ErrorNote

module _ (parse_json : String → Option Json) (dates : Dates) (bundle : Bundle) where
  abbrev errors_of : SpeakingSession → List SessionError
  errors_of s = filter (λ e. str_eq e.session_id s.0.session_id) bundle.errors

  unfoldable pub summarize : SpeakingSession → Summary
  unfolding parse_transcript build_preview duration_minutes
  summarize s = record {
    id = s.1.conv_id;
    session_id = s.0.session_id;
    date = dates.format_date s.0.start_time;
    time = dates.format_time s.0.start_time;
    duration_minutes = duration_minutes dates s.0.start_time s.0.end_time;
    title = s.1.title;
    preview = build_preview (parse_transcript parse_json s.1.transcript);
    error_count = length (errors_of s);
  }

  unfoldable pub build_conversation_summaries : List Summary
  unfolding join_speaking_sessions summarize
  build_conversation_summaries = map summarize (join_speaking_sessions dates bundle)

  abbrev note_of : SessionError → ErrorNote
  note_of e = record {
    id = e.event_id;
    error_type = e.error_type;
    severity = e.severity;
    context_excerpt = e.context_excerpt;
  }

  -- The detail of a session: the fields of ConversationSummary, computed again, and its own.
  unfoldable pub detail_of : SpeakingSession → Detail
  unfolding parse_transcript build_preview duration_minutes
  detail_of s =
      let messages = parse_transcript parse_json s.1.transcript in
      let errors = map note_of (errors_of s) in
      record {
        summary = record {
          id = s.1.conv_id;
          session_id = s.0.session_id;
          date = dates.format_date s.0.start_time;
          time = dates.format_time s.0.start_time;
          duration_minutes = duration_minutes dates s.0.start_time s.0.end_time;
          title = s.1.title;
          preview = build_preview messages;
          error_count = length errors;
        };
        messages = messages;
        errors = errors;
      }

  abbrev pub detail_if : Option SpeakingSession → Option Detail
  detail_if none = none
  detail_if (some s) = some (detail_of s)

  unfoldable pub build_conversation_detail : String → Option Detail
  unfolding join_speaking_sessions detail_of
  build_conversation_detail conversation_id =
      detail_if
        (find (λ s. str_eq s.1.conv_id conversation_id) (join_speaking_sessions dates bundle))
