-- ===== src/Practice/CatalogLaws.antt =====
-- The questions that exercises become are well formed, whatever their prompts hold.
use ai_agentic_english.Prelude.{
  ℕ, suc, ◌<◌, String, Bool, true, false, Option, none, some, List, [], ◌∷◌, map, ◌≡◌, refl, ap,
  arith, length, All, if_both, if◌then◌else◌, str_eq, is_some,
}
use ai_agentic_english.Prelude.Int.{pos}
use ai_agentic_english.Shared.Json.{Items, no_items, item, Fields}
use ai_agentic_english.Audio.Cache.{AudioBucket}
use ai_agentic_english.Practice.Decimal.{print}
use ai_agentic_english.Practice.Catalog.{
  ExerciseType, mcq_exercise, fill_blank, sentence_correction, listening_comprehension, Exercise,
  QuestionType, mcq, short_answer, writing_prompt, McqOption, PracticeQuestion, as_record,
  option_label, option_source, labels, number_from, to_options, is_listening, to_practice_question,
  cons_filled, some_options, numbered, type_of, audio_bucket_of,
}

-- Options are there, have a label each, and are numbered from 0 on.
abbrev pub ids_from : ℕ → List McqOption → List String
ids_from i [] = []
ids_from i (o ∷ os) = print (pos i) ∷ ids_from (suc i) os

pub record IsNumbered (options : List McqOption) : Type 0 where
  pub some_option : 0 < length options
  pub labelled : All (λ o. str_eq o.label "" ≡ false) options
  pub ids : map (λ o. o.id) options ≡ ids_from 0 options

abbrev pub OptIsNumbered : Option (List McqOption) → Type 0
OptIsNumbered none = Unit
OptIsNumbered (some options) = IsNumbered options

abbrev pub TypeFits : QuestionType → Option (List McqOption) → Type 0
TypeFits mcq options = is_some options ≡ true
TypeFits short_answer options = is_some options ≡ false
TypeFits writing_prompt options = Unit

pub record IsWellFormed (q : PracticeQuestion) : Type 0 where
  pub options : OptIsNumbered q.options
  pub question_type : TypeFits q.question_type q.options
  pub audio : is_some q.audio_bucket ≡ is_some q.audio_key

cons_filled-filled :
    (o : Option String) (ls : List String)
    → All (λ l. str_eq l "" ≡ false) ls
    → All (λ l. str_eq l "" ≡ false) (cons_filled o ls)
cons_filled-filled none ls h = h
cons_filled-filled (some l) ls h =
    if_both (All (λ l. str_eq l "" ≡ false)) (str_eq l "") (λ _. h) (λ e. (e, h))

labels-filled : (vs : Items) → All (λ l. str_eq l "" ≡ false) (labels vs)
unfolding labels
labels-filled no_items = tt
labels-filled (item v vs) = cons_filled-filled (option_label v) (labels vs) (labels-filled vs)

number_from-labelled :
    (i : ℕ) (ls : List String)
    → All (λ l. str_eq l "" ≡ false) ls
    → All (λ (o : McqOption). str_eq o.label "" ≡ false) (number_from i ls)
unfolding number_from
number_from-labelled i [] h = tt
number_from-labelled i (l ∷ ls) (h, hs) = (h, number_from-labelled (suc i) ls hs)

number_from-ids :
    (i : ℕ) (ls : List String) → map (λ o. o.id) (number_from i ls) ≡ ids_from i (number_from i ls)
unfolding number_from
number_from-ids i [] = refl
number_from-ids i (l ∷ ls) = ap (λ is. print (pos i) ∷ is) (number_from-ids (suc i) ls)

some_options-IsNumbered :
    (options : List McqOption)
    → All (λ o. str_eq o.label "" ≡ false) options
    → map (λ o. o.id) options ≡ ids_from 0 options
    → OptIsNumbered (some_options options)
some_options-IsNumbered [] h e = tt
some_options-IsNumbered (o ∷ os) h e = record { some_option = omega arith; labelled = h; ids = e }

to_options-IsNumbered : (prompt : Option Fields) → OptIsNumbered (to_options prompt)
unfolding to_options
to_options-IsNumbered none = tt
to_options-IsNumbered (some prompt) = go (option_source prompt)
  where
    go : (o : Option Items) → OptIsNumbered (numbered o)
    go none = tt
    go (some vs) =
        some_options-IsNumbered (number_from 0 (labels vs))
          (number_from-labelled 0 (labels vs) (labels-filled vs)) (number_from-ids 0 (labels vs))

type_of-fits :
    (t : ExerciseType) (options : Option (List McqOption)) → TypeFits (type_of t options) options
type_of-fits sentence_correction options = tt
type_of-fits mcq_exercise none = refl
type_of-fits mcq_exercise (some os) = refl
type_of-fits fill_blank none = refl
type_of-fits fill_blank (some os) = refl
type_of-fits listening_comprehension none = refl
type_of-fits listening_comprehension (some os) = refl

audio_bucket_of-some :
    (b : Bool) (key : Option String) (bucket : Option AudioBucket)
    → is_some (audio_bucket_of b key bucket) ≡ is_some (if b then key else none)
audio_bucket_of-some true none bucket = refl
audio_bucket_of-some true (some key) bucket = refl
audio_bucket_of-some false key bucket = refl

-- Whatever an exercise's prompt holds, its question has options that are at least one, all labelled
-- and numbered from 0 on, or none; it is a choice only with options and a short answer only without;
-- and it has a bucket for its audio exactly where it has a key.
pub to_practice_question-IsWellFormed : (e : Exercise) → IsWellFormed (to_practice_question e)
unfolding to_practice_question
to_practice_question-IsWellFormed e = record {
  options = to_options-IsNumbered (as_record e.prompt);
  question_type = type_of-fits e.exercise_type _;
  audio = audio_bucket_of-some (is_listening e) _ _;
}
