-- ===== src/Practice/Catalog.antt =====
-- _lib/practice-catalog.ts: an exercise of the catalogue as a question to practise.
use ai_agentic_english.Prelude.{
  ℕ, suc, String, Bool, true, false, Option, none, some, List, [], ◌∷◌, if◌then◌else◌, str_eq,
  get_or, or_else,
}
use ai_agentic_english.Prelude.Int.{pos}
use ai_agentic_english.Shared.Trim.{trim}
use ai_agentic_english.Shared.Skill.{Skill, reading, writing, listening, speaking}
use ai_agentic_english.Shared.Json.{
  Json, null, boolean, whole, fraction, text, array, object, Items, no_items, item, Fields, lookup,
}
use ai_agentic_english.Audio.Cache.{AudioBucket, passage_audio}
use ai_agentic_english.Assessment.Prompt.{as_audio_bucket}
use ai_agentic_english.Practice.Decimal.{print}

pub data ExerciseType : Type 0 where
  mcq_exercise : ExerciseType
  fill_blank : ExerciseType
  sentence_correction : ExerciseType
  listening_comprehension : ExerciseType

pub record Exercise : Type 0 where
  pub id : String
  pub exercise_type : ExerciseType
  pub prompt : Json
  pub skill : Skill

pub data QuestionType : Type 0 where
  mcq : QuestionType
  short_answer : QuestionType
  writing_prompt : QuestionType

pub record McqOption : Type 0 where
  pub id : String
  pub label : String

pub record PracticeQuestion : Type 0 where
  pub id : String
  pub question_type : QuestionType
  pub prompt : String
  pub source_text : Option String
  pub source_label : Option String
  pub context : Option String
  pub context_label : Option String
  pub audio_bucket : Option AudioBucket
  pub audio_key : Option String
  pub options : Option (List McqOption)
  pub placeholder : String

unfoldable pub as_record : Json → Option Fields
as_record (object fields) = some fields
as_record _ = none

abbrev pub filled : String → Option String
filled s = if str_eq s "" then none else some s

unfoldable pub as_string : Option Json → Option String
unfolding trim print
as_string (some (text s)) = filled (trim s)
as_string (some (whole n)) = some (print n)
as_string (some (fraction s)) = some s
as_string (some (boolean true)) = some "true"
as_string (some (boolean false)) = some "false"
as_string _ = none

unfoldable pub prompt_text : Option Fields → String → Option String
unfolding as_string lookup
prompt_text none key = none
prompt_text (some prompt) key = as_string (lookup key prompt)

abbrev pub truthy : Option String → Option String
truthy none = none
truthy (some s) = filled s

unfoldable pub first_prompt_text : Option Fields → List String → Option String
unfolding prompt_text
first_prompt_text prompt [] = none
first_prompt_text prompt (key ∷ keys) =
    or_else (truthy (prompt_text prompt key)) (first_prompt_text prompt keys)

unfoldable pub option_label : Json → Option String
unfolding as_string as_record first_prompt_text
option_label value =
    or_else (truthy (as_string (some value)))
      (first_prompt_text (as_record value) ("label" ∷ "text" ∷ "value" ∷ "answer" ∷ "option" ∷ []))

abbrev as_array : Option Json → Option Items
as_array (some (array vs)) = some vs
as_array _ = none

unfoldable pub option_source : Fields → Option Items
unfolding lookup
option_source prompt =
    or_else (as_array (lookup "options" prompt))
      (or_else (as_array (lookup "choices" prompt)) (as_array (lookup "answers" prompt)))

abbrev pub cons_filled : Option String → List String → List String
cons_filled none labels = labels
cons_filled (some label) labels = if str_eq label "" then labels else label ∷ labels

unfoldable pub labels : Items → List String
unfolding option_label
labels no_items = []
labels (item v vs) = cons_filled (option_label v) (labels vs)

-- The options of labels, numbered from an index on.
unfoldable pub number_from : ℕ → List String → List McqOption
unfolding print
number_from i [] = []
number_from i (label ∷ rest) =
    record { id = print (pos i); label = label } ∷ number_from (suc i) rest

abbrev pub some_options : List McqOption → Option (List McqOption)
some_options [] = none
some_options (o ∷ rest) = some (o ∷ rest)

abbrev pub numbered : Option Items → Option (List McqOption)
numbered none = none
numbered (some vs) = some_options (number_from 0 (labels vs))

unfoldable pub to_options : Option Fields → Option (List McqOption)
unfolding option_source labels number_from
to_options none = none
to_options (some prompt) = numbered (option_source prompt)

unfoldable pub question_prompt_for_type : ExerciseType → Option Fields → Option String → String
unfolding first_prompt_text
question_prompt_for_type fill_blank prompt raw_prompt =
    get_or (first_prompt_text prompt ("instruction" ∷ "question" ∷ "prompt" ∷ []))
      "Fill in the blank with the correct answer."
question_prompt_for_type sentence_correction prompt raw_prompt =
    get_or (first_prompt_text prompt ("instruction" ∷ "question" ∷ "prompt" ∷ []))
      "Correct the sentence."
question_prompt_for_type listening_comprehension prompt raw_prompt =
    get_or (first_prompt_text prompt ("question" ∷ "instruction" ∷ "prompt" ∷ []))
      "Listen and choose the best answer."
question_prompt_for_type mcq_exercise prompt raw_prompt =
    get_or
      (or_else (first_prompt_text prompt ("question" ∷ "instruction" ∷ "prompt" ∷ [])) raw_prompt)
      "Choose the best answer."

abbrev nullish_or : Option Json → Option Json → Option Json
nullish_or none other = other
nullish_or (some null) other = other
nullish_or (some v) other = some v

unfoldable pub bucket_field : Option Fields → Option Json
unfolding lookup
bucket_field none = none
bucket_field (some prompt) = nullish_or (lookup "audioBucket" prompt) (lookup "audio_bucket" prompt)

unfoldable pub is_listening : Exercise → Bool
is_listening e = elim e.skill [
  | listening ↦ true
  | _ ↦ elim e.exercise_type [ listening_comprehension ↦ true | _ ↦ false ]
]

abbrev only_for : Skill → Exercise → Option String → Option String
only_for reading e o = elim e.skill [ reading ↦ o | _ ↦ none ]
only_for writing e o = elim e.skill [ writing ↦ o | _ ↦ none ]
only_for listening e o = elim e.skill [ listening ↦ o | _ ↦ none ]
only_for speaking e o = elim e.skill [ speaking ↦ o | _ ↦ none ]

abbrev pub type_of : ExerciseType → Option (List McqOption) → QuestionType
type_of sentence_correction options = writing_prompt
type_of _ (some options) = mcq
type_of _ none = short_answer

abbrev source_label_of : Bool → Option String → Option String
source_label_of true source_text = some "Transcript:"
source_label_of false none = none
source_label_of false (some s) = some "Read the following passage:"

abbrev context_label_of : ExerciseType → Option String
context_label_of fill_blank = some "Complete the sentence:"
context_label_of sentence_correction = some "Sentence to correct:"
context_label_of _ = none

abbrev placeholder_of : ExerciseType → String
placeholder_of sentence_correction = "Enter your corrected sentence..."
placeholder_of fill_blank = "Enter the missing word or phrase..."
placeholder_of _ = "Enter your answer..."

abbrev pub audio_bucket_of : Bool → Option String → Option AudioBucket → Option AudioBucket
audio_bucket_of true (some key) bucket = some (get_or bucket passage_audio)
audio_bucket_of _ _ bucket = none

unfoldable pub to_practice_question : Exercise → PracticeQuestion
unfolding as_record as_string first_prompt_text bucket_field as_audio_bucket is_listening to_options
    question_prompt_for_type
to_practice_question e =
    let prompt = as_record e.prompt in
    let raw_prompt = as_string (some e.prompt) in
    let prompt_body = first_prompt_text prompt ("text" ∷ "sourceText" ∷ []) in
    let passage =
      or_else (first_prompt_text prompt ("passage" ∷ [])) (only_for reading e prompt_body) in
    let transcript = first_prompt_text prompt ("transcript" ∷ "script" ∷ []) in
    let sentence =
      or_else (first_prompt_text prompt ("sentence" ∷ [])) (only_for writing e prompt_body) in
    let audio_key =
      first_prompt_text prompt ("audioKey" ∷ "audio_key" ∷ "objectKey" ∷ "object_key" ∷ []) in
    let audio_bucket = as_audio_bucket (bucket_field prompt) in
    let options = to_options prompt in
    let source_text = if is_listening e then transcript else passage in
    record {
      id = e.id;
      question_type = type_of e.exercise_type options;
      prompt = question_prompt_for_type e.exercise_type prompt raw_prompt;
      source_text = source_text;
      source_label = source_label_of (is_listening e) source_text;
      context = sentence;
      context_label = context_label_of e.exercise_type;
      audio_bucket = audio_bucket_of (is_listening e) audio_key audio_bucket;
      audio_key = if is_listening e then audio_key else none;
      options = options;
      placeholder = placeholder_of e.exercise_type;
    }

pub record TheoryBlock : Type 0 where
  pub title : String
  pub body : String

unfoldable pub to_theory_blocks : String → Json → List TheoryBlock
unfolding as_record prompt_text
to_theory_blocks title content =
    record {
      title = title;
      body =
          get_or (prompt_text (as_record content) "introduction")
            "Review the lesson material, then complete the exercise below.";
    }
    ∷ []
