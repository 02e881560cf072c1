-- ===== src/ReviewCenter/Cards.antt =====
-- _lib/review-api.ts: the flashcard topics and flashcards that the pages are given.
use Prim.Native.String.{String}
use ai_agentic_english.Prelude.{Option, none, some, List, map, find, if◌then◌else◌, str_eq}
use ai_agentic_english.Materials.Titles.{Locale}
use ai_agentic_english.Materials.Mappers
use ai_agentic_english.ReviewCenter.Api.{Fetched, or_unavailable}

pub record TopicView : Type 0 where
  pub topic : Mappers.FlashcardTopic
  pub icon : String
  pub tone : String

pub record TopicStyle : Type 0 where
  pub icon : String
  pub tone : String

abbrev style_of : String → Option TopicStyle
style_of level =
    if str_eq level "A1"
    then some (record { icon = "looks_one"; tone = "from-blue-100 to-blue-200 text-primary" })
    else (if str_eq level "A2"
        then some
            (record { icon = "looks_two"; tone = "from-emerald-100 to-emerald-200 text-[#0a9f5a]" })
        else (if str_eq level "B1"
            then some
                (record { icon = "looks_3"; tone = "from-orange-100 to-orange-200 text-[#e85d04]" })
            else (if str_eq level "B2"
                then some (record {
                  icon = "looks_4";
                  tone = "from-violet-100 to-violet-200 text-tertiary";
                })
                else (if str_eq level "C1"
                    then some
                        (record { icon = "looks_5"; tone = "from-red-100 to-red-200 text-error" })
                    else (if str_eq level "C2"
                        then some (record {
                          icon = "looks_6";
                          tone = "from-yellow-100 to-yellow-200 text-[#b77900]";
                        })
                        else none)))))

abbrev styled : Mappers.FlashcardTopic → Option TopicStyle → Option TopicView
styled topic none = none
styled topic (some style) = some (record { topic = topic; icon = style.icon; tone = style.tone })

-- None where the level has no style, on which `style.icon` throws.
unfoldable pub map_flashcard_topic : Mappers.FlashcardTopic → Option TopicView
map_flashcard_topic topic = styled topic (style_of topic.cefr_level)

abbrev both : Option TopicView → Option (List TopicView) → Option (List TopicView)
both (some t) (some ts) = some (List.◌∷◌ t ts)
both _ _ = none

unfoldable pub map_topics : List Mappers.FlashcardTopic → Option (List TopicView)
unfolding map_flashcard_topic
map_topics List.[] = some List.[]
map_topics (List.◌∷◌ t ts) = both (map_flashcard_topic t) (map_topics ts)

abbrev joined : {A : Type 0} → Option (Option A) → Option A
joined none = none
joined (some o) = o

-- The error of a missing style is a TypeError of another message, which is thrown on.
unfoldable pub get_review_flashcard_topics :
    Fetched (List Mappers.FlashcardTopic) → Option (List TopicView)
unfolding or_unavailable map_topics
get_review_flashcard_topics answer = joined (or_unavailable map_topics (some List.[]) answer)

abbrev found_in : String → Option (List TopicView) → Option (Option TopicView)
found_in id none = none
found_in id (some topics) = some (find (λ t. str_eq t.topic.id id) topics)

unfoldable pub get_review_flashcard_topic :
    Locale → String → Fetched (List Mappers.FlashcardTopic) → Option (Option TopicView)
unfolding get_review_flashcard_topics
get_review_flashcard_topic loc topic_id answer =
    found_in (loc.to_upper_case topic_id) (get_review_flashcard_topics answer)

-- The page's card is the route's, less its source and license.
pub record CardView : Type 0 where
  pub id : String
  pub topic_id : String
  pub term : String
  pub ipa : Option String
  pub part_of_speech : String
  pub definition : Option String
  pub example : Option String
  pub cefr_level : String
  pub domain_tag : Option String

unfoldable pub map_flashcard : Mappers.Flashcard → CardView
map_flashcard c = record {
  id = c.id;
  topic_id = c.topic_id;
  term = c.term;
  ipa = c.ipa;
  part_of_speech = c.part_of_speech;
  definition = c.definition;
  example = c.example;
  cefr_level = c.cefr_level;
  domain_tag = c.domain_tag;
}

unfoldable pub get_review_flashcards_by_topic :
    Fetched (List Mappers.Flashcard) → Option (List CardView)
unfolding or_unavailable map_flashcard
get_review_flashcards_by_topic = or_unavailable (map map_flashcard) List.[]
