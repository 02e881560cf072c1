-- ===== src/Materials/Examples.antt =====
-- A second learning path of one learner, and a catalogue of one module.
use ai_agentic_english.Materials.Catalog.{Module}
use ai_agentic_english.Prelude.{ℕ, String, some, List, [], ◌∷◌, refl, arith}
use ai_agentic_english.Shared.Json.{text, object, no_fields}
use ai_agentic_english.Materials.Paths.{
  LearningPath, active, is_active_of, latest, find_active, next_version, supersede_row, supersede,
  new_path, read_user_id, read_definition, create_path, post_learning_path,
}
use ai_agentic_english.Materials.PathLaws.{OneActive, IsNewest, post_learning_path_lem}

abbrev path : String → ℕ → LearningPath
path id version = record {
  id = id;
  user_id = "ann";
  version = version;
  status = active;
  path_definition = object no_fields;
}

abbrev paths : List LearningPath
paths = path "p1" 4 ∷ []

one_active : OneActive paths
one_active user = ground arith

abbrev paths_after : List LearningPath
paths_after = (post_learning_path "p2" (some (text "ann")) (some (object no_fields)) paths).1

post_learning_path_lem_example : IsNewest paths paths_after (path "p2" 5)
unfolding post_learning_path read_user_id read_definition create_path find_active latest
    is_active_of supersede supersede_row new_path next_version
post_learning_path_lem_example =
    post_learning_path_lem "p2" (some (text "ann")) (some (object no_fields)) paths paths_after
      (path "p2" 5) one_active refl

abbrev catalog : List Module
catalog =
    record {
      id = "m1";
      title = "Greetings";
      cefr_level = "A1";
      skill_focus = "SPEAKING";
      lessons =
          record { id = "l1"; exercise_ids = "e1" ∷ "e2" ∷ [] }
          ∷ record { id = "l2"; exercise_ids = "e3" ∷ [] }
          ∷ [];
    }
    ∷ []
