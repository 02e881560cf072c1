-- ===== src/Assessment/Prompt.antt =====
-- The questions of the placement test: which are asked, and how a prompt is read. The prompt is an
-- unknown value; getText and asAudioBucket take no value of another type.
use ai_agentic_english.Prelude.{
  String, Bool, true, false, not, ◌||◌, Option, none, some, List, [], ◌∷◌, length, filter, any, leb,
  if◌then◌else◌, str_eq, get_or,
}
use ai_agentic_english.Shared.Json.{
  Json, text, array, object, Items, no_items, item, Fields, lookup,
}
use ai_agentic_english.Shared.Skill.{Skill, reading, writing, listening}
use ai_agentic_english.Audio.Cache.{AudioBucket, assessment_audio, passage_audio, bucket_text}
use ai_agentic_english.Onboarding.Request.{
  PlacementSkillId, in_reading, in_listening, in_writing, placement_skill_ids,
}

abbrev pub is_skill : PlacementSkillId → Skill → Bool
is_skill in_reading reading = true
is_skill in_listening listening = true
is_skill in_writing writing = true
is_skill _ _ = false

unfoldable pub is_placement_skill : Skill → Bool
is_placement_skill skill = any (λ s. is_skill s skill) placement_skill_ids

pub record Question : Type 0 where
  pub id : String
  pub skill : Skill
  pub prompt : Json

unfoldable pub has_skill : List Question → PlacementSkillId → Bool
has_skill questions skill = any (λ q. is_skill skill q.skill) questions

-- None where the source throws: a placement skill has no question.
unfoldable pub select_assessment_questions : List Question → Option (List Question)
unfolding is_placement_skill has_skill
select_assessment_questions questions =
    let selected = filter (λ q. is_placement_skill q.skill) questions in
    let missing_skills = filter (λ s. not (has_skill selected s)) placement_skill_ids in
    if leb (length selected) 0 || not (leb (length missing_skills) 0) then none else some selected

pub record AssessmentPrompt : Type 0 where
  pub audio_key : Option String
  pub audio_bucket : Option AudioBucket
  pub passage : Option String
  pub transcript : Option String
  pub sentence : Option String
  pub question : Option String
  pub instruction : Option String
  pub options : List String

abbrev as_text : Option Json → Option String
as_text (some (text s)) = some s
as_text _ = none

unfoldable pub get_text : Fields → String → Option String
unfolding lookup
get_text value key = as_text (lookup key value)

abbrev bucket_of : Option String → Option AudioBucket
bucket_of none = none
bucket_of (some s) =
    if str_eq s (bucket_text passage_audio)
    then some passage_audio
    else (if str_eq s (bucket_text assessment_audio) then some assessment_audio else none)

unfoldable pub as_audio_bucket : Option Json → Option AudioBucket
as_audio_bucket value = bucket_of (as_text value)

unfoldable pub texts : Items → List String
texts no_items = []
texts (item (text s) vs) = s ∷ texts vs
texts (item _ vs) = texts vs

unfoldable pub read_options : Option Json → List String
unfolding texts
read_options (some (array vs)) = texts vs
read_options _ = []

abbrev pub no_prompt : AssessmentPrompt
no_prompt = record {
  audio_key = none;
  audio_bucket = none;
  passage = none;
  transcript = none;
  sentence = none;
  question = none;
  instruction = none;
  options = [];
}

unfoldable pub parse_prompt : Json → AssessmentPrompt
unfolding get_text as_audio_bucket read_options lookup
parse_prompt (object value) = record {
  audio_key = get_text value "audioKey";
  audio_bucket = as_audio_bucket (lookup "audioBucket" value);
  passage = get_text value "passage";
  transcript = get_text value "transcript";
  sentence = get_text value "sentence";
  question = get_text value "question";
  instruction = get_text value "instruction";
  options = read_options (lookup "options" value);
}
parse_prompt _ = no_prompt

-- The bucket and key of the audio that the player is given, for a listening question.
unfoldable pub audio_source : Skill → AssessmentPrompt → Option AudioBucket × Option String
audio_source listening prompt =
    (some (get_or prompt.audio_bucket assessment_audio), prompt.audio_key)
audio_source _ prompt = (none, none)
