-- ===== src/Practice/Examples.antt =====
-- A listening exercise, a path of two modules and a bundle with one spoken session.
use ai_agentic_english.Prelude.{
  String, Option, none, some, List, [], ◌∷◌, ◌≡◌, refl, filter, find, ◌&&◌, str_eq, map,
}
use mathlib.Core.List.{Perm}
use ai_agentic_english.Prelude.Int.{pos}
use ai_agentic_english.Prelude.Sort.{InOrder}
use ai_agentic_english.Shared.Skill.{reading, listening}
use ai_agentic_english.Shared.Json.{
  Json, whole, text, array, object, no_items, item, no_fields, field,
}
use ai_agentic_english.Onboarding.Request.{in_reading}
use ai_agentic_english.Assessment.Prompt.{is_skill}
use ai_agentic_english.Practice.Catalog.{
  Exercise, mcq_exercise, to_practice_question, labels, number_from,
}
use ai_agentic_english.Practice.CatalogLaws.{IsWellFormed, to_practice_question-IsWellFormed}
use ai_agentic_english.Practice.Panel.{
  Panel, new_panel, select_option, GradingRequest, submit_answer,
}
use ai_agentic_english.Practice.PanelLaws.{IsGradable, submit_answer-IsGradable}
use ai_agentic_english.Practice.ActivePath.{
  definition, get_active_path_module_ids, Module, filter_modules_for_active_path,
  is_module_in_active_path,
}
use ai_agentic_english.Practice.PathLaws.{along, filter_modules_lem}
use ai_agentic_english.Practice.History.{
  Dates, Bundle, build_conversation_detail, build_conversation_summaries,
}
use ai_agentic_english.Practice.HistoryLaws.{summary_of, build_conversation_detail-summaries}

abbrev bus : Exercise
bus = record {
  id = "e1";
  exercise_type = mcq_exercise;
  prompt = object (
      field "options" (array (item (text "") (item (text "town") (item (whole (pos 7)) no_items))))
        (field "audioKey" (text "bus.mp3") no_fields));
  skill = listening;
}

to_practice_question-IsWellFormed_example : IsWellFormed (to_practice_question bus)
to_practice_question-IsWellFormed_example = to_practice_question-IsWellFormed bus

bus_options :
    map
      (λ o. o.label)
      (number_from 0
        (labels (item (text "") (item (text " town") (item (whole (pos 7)) no_items)))))
    ≡ "town" ∷ "7" ∷ []
unfolding number_from labels
bus_options = refl

abbrev answered : Panel
answered = select_option "1" new_panel

abbrev sent : GradingRequest
sent = record { exercise_id = "e1"; attempted_answer = "7"; user_id = "ann" }

submit_answer-IsGradable_example :
    IsGradable
      (to_practice_question bus)
      sent
      (submit_answer (some "ann") (to_practice_question bus) answered).0
unfolding submit_answer to_practice_question select_option
submit_answer-IsGradable_example =
    submit_answer-IsGradable (some "ann") (to_practice_question bus) answered sent refl

abbrev catalogue : List Module
catalogue =
    record { id = "m1"; skill_focus = reading }
    ∷ record { id = "m2"; skill_focus = listening }
    ∷ record { id = "m3"; skill_focus = reading }
    ∷ []

abbrev path : List String
path = "m3" ∷ "m2" ∷ "m1" ∷ []

path_ids :
    get_active_path_module_ids (definition (some ("m3" ∷ "m2" ∷ "" ∷ "m3" ∷ "m1" ∷ []))) ≡ some path
unfolding get_active_path_module_ids
path_ids = refl

filter_modules_lem_example :
    Perm (filter_modules_for_active_path catalogue in_reading path) (
      filter
        (λ m. is_skill in_reading m.skill_focus && is_module_in_active_path m.id path)
        catalogue)
    × InOrder (along path) (filter_modules_for_active_path catalogue in_reading path)
filter_modules_lem_example =
    filter_modules_lem (definition (some ("m3" ∷ "m2" ∷ "" ∷ "m3" ∷ "m1" ∷ []))) path catalogue
      in_reading path_ids

path_order :
    map (λ m. m.id) (filter_modules_for_active_path catalogue in_reading path) ≡ "m3" ∷ "m1" ∷ []
unfolding filter_modules_for_active_path
path_order = refl

abbrev dates : Dates
dates = record { format_date = λ s. s; format_time = λ s. s; time_of = λ s. 0 }

abbrev bundle : Bundle
bundle = record {
  sessions =
      record {
        session_id = "s1";
        start_time = "t1";
        end_time = some "t2";
        skill_focus = "SPEAKING";
      }
      ∷ [];
  conversations =
      record { conv_id = "c1"; session_id = "s1"; title = none; transcript = text "[]" } ∷ [];
  errors = [];
}

abbrev parse_json : String → Option Json
parse_json s = some (array no_items)

build_conversation_detail-summaries_example :
    summary_of (build_conversation_detail parse_json dates bundle "c1")
    ≡ find (λ s. str_eq s.id "c1") (build_conversation_summaries parse_json dates bundle)
build_conversation_detail-summaries_example =
    build_conversation_detail-summaries parse_json dates bundle "c1"
