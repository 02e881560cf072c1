-- ===== src/Materials/Paths.antt =====
-- services/learning-materials-service/src/routes/internal.ts: reading and creating learning paths,
-- and the summary of the catalogue. A path definition is JSON; rows come in any order, and the
-- relations of a module in the order the query asks for.
use ai_agentic_english.Prelude.{
  ℕ, suc, String, Bool, true, false, ◌&&◌, Option, none, some, List, [], ◌∷◌, ◌++◌, map, find,
  filter, ltb, if◌then◌else◌, str_eq,
}
use ai_agentic_english.Shared.Errors.{app, not_found_error, validation_error}
use ai_agentic_english.Shared.Effect.{Result, ok, err, Effect, lift, ◌>>=◌}
use ai_agentic_english.Shared.Json.{Json, text, array, object}

pub data PathStatus : Type 0 where
  active superseded : PathStatus

pub record LearningPath : Type 0 where
  pub id : String
  pub user_id : String
  pub version : ℕ
  pub status : PathStatus
  pub path_definition : Json

abbrev is_active_status : PathStatus → Bool
is_active_status active = true
is_active_status superseded = false

unfoldable pub is_active_of : String → LearningPath → Bool
is_active_of user_id p = str_eq p.user_id user_id && is_active_status p.status

-- `orderBy: { version: 'desc' }`, the first: the latest of the candidates.
unfoldable pub latest : Option LearningPath → List LearningPath → Option LearningPath
latest best [] = best
latest none (p ∷ ps) = latest (some p) ps
latest (some b) (p ∷ ps) =
    let keep = latest (some b) ps in
    let change = latest (some p) ps in if ltb b.version p.version then change else keep

unfoldable pub find_active : String → List LearningPath → Option LearningPath
unfolding latest is_active_of
find_active user_id ps = latest none (filter (is_active_of user_id) ps)

unfoldable pub next_version : Option LearningPath → ℕ
next_version none = 1
next_version (some p) = suc p.version

unfoldable pub supersede_row : String → LearningPath → LearningPath
supersede_row id p = if str_eq p.id id then record p { status = superseded } else p

unfoldable pub supersede : Option LearningPath → List LearningPath → List LearningPath
unfolding supersede_row
supersede none ps = ps
supersede (some e) ps = map (supersede_row e.id) ps

unfoldable pub new_path : String → String → Json → Option LearningPath → LearningPath
unfolding next_version
new_path id user_id definition existing = record {
  id = id;
  user_id = user_id;
  version = next_version existing;
  status = active;
  path_definition = definition;
}

unfoldable pub read_user_id : Option Json → Result String
unfolding validation_error
read_user_id (some (text s)) =
    if str_eq s "" then err (app (validation_error "userId is required")) else ok s
read_user_id _ = err (app (validation_error "userId is required"))

-- Anything that is an object in JavaScript, arrays included.
unfoldable pub read_definition : Option Json → Result Json
unfolding validation_error
read_definition (some (object fs)) = ok (object fs)
read_definition (some (array vs)) = ok (array vs)
read_definition _ = err (app (validation_error "pathDefinition is required"))

unfoldable pub create_path : String → String → Json → Effect (List LearningPath) LearningPath
unfolding find_active supersede new_path
create_path id user_id definition ps =
    let existing = find_active user_id ps in
    let created = new_path id user_id definition existing in
    (ok created, supersede existing ps ++ created ∷ [])

-- POST /learning-paths, with the id that the database gives the new row.
unfoldable pub post_learning_path :
    String → Option Json → Option Json → Effect (List LearningPath) LearningPath
unfolding read_user_id read_definition create_path
post_learning_path id user path_definition = do
  user_id ← lift (read_user_id user)
  definition ← lift (read_definition path_definition)
  create_path id user_id definition

-- GET /learning-paths/:id.
abbrev or_not_found {ℓ} : {A : Type ℓ} → String → Option A → Result A
or_not_found message none = err (app (not_found_error message))
or_not_found message (some a) = ok a

unfoldable pub get_learning_path : String → List LearningPath → Result LearningPath
unfolding not_found_error
get_learning_path id ps = or_not_found "Learning path not found" (find (λ p. str_eq p.id id) ps)
