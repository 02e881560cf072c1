-- ===== src/Materials/PathLaws.antt =====
-- A learner has one active learning path at a time.
use mathlib.Core.Path.{subst}
use ai_agentic_english.Prelude.{
  suc, ◌≤◌, String, false, not, ◌&&◌, Option, none, some, List, [], ◌∷◌, ◌++◌, ◌≡◌, refl, sym, ap,
  arith, map, filter, filter-append, length, length-append, length-filter, if◌then◌else◌, str_eq,
  eq_iff, eq_refl, Bool-cases, inl, inr, ◌⊎◌,
}
use ai_agentic_english.Shared.Json.{Json}
use ai_agentic_english.Shared.Effect.{Result, ok, err, lift, ◌>>=◌}
use ai_agentic_english.Materials.Paths.{
  LearningPath, is_active_of, latest, find_active, next_version, supersede_row, supersede, new_path,
  read_user_id, read_definition, create_path, post_learning_path,
}

abbrev pub active_of : String → List LearningPath → List LearningPath
active_of user_id = filter (is_active_of user_id)

-- No user has two active paths.
abbrev pub OneActive : List LearningPath → Type 0
OneActive ps = (user : String) → length (active_of user ps) ≤ 1

superseded_row :
    (user id : String) (p : LearningPath)
    → is_active_of user (supersede_row id p) ≡ (is_active_of user p && not (str_eq p.id id))
unfolding supersede_row is_active_of
superseded_row user id p = ground arith

active_of-supersede_row :
    (user id : String) (ps : List LearningPath)
    → active_of user (map (supersede_row id) ps)
      ≡ filter (λ p. not (str_eq p.id id)) (active_of user ps)
unfolding supersede_row
active_of-supersede_row user id [] = refl
active_of-supersede_row user id (p ∷ ps) = elim (Bool-cases (str_eq p.id id)) [
  | inl e ↦ ground (arith, superseded_row user id p, e, active_of-supersede_row user id ps)
  | inr e ↦ ground (arith, superseded_row user id p, e, active_of-supersede_row user id ps)
]

supersede_only :
    (user : String) (e : LearningPath) (ps : List LearningPath)
    → active_of user ps ≡ e ∷ []
    → active_of user (map (supersede_row e.id) ps) ≡ []
supersede_only user e ps h = rw (active_of-supersede_row user e.id ps, h, eq_refl e.id) refl

-- The active paths of a user that has one at most.
at_most_one :
    (xs : List LearningPath) → length xs ≤ 1 → (xs ≡ []) ⊎ ((e : LearningPath) × (xs ≡ e ∷ []))
at_most_one [] h = inl refl
at_most_one (e ∷ []) h = inr (e, refl)
at_most_one (e ∷ f ∷ xs) h = absurd (omega (arith, h))

find_active-nil :
    (user : String) (ps : List LearningPath) → active_of user ps ≡ [] → find_active user ps ≡ none
unfolding find_active latest
find_active-nil user ps h = rw h refl

find_active-single :
    (user : String) (e : LearningPath) (ps : List LearningPath)
    → active_of user ps ≡ e ∷ []
    → find_active user ps ≡ some e
unfolding find_active latest
find_active-single user e ps h = rw h refl

is_active_of-new_path :
    (id user j : String) (d : Json) (o : Option LearningPath)
    → is_active_of j (new_path id user d o) ≡ str_eq user j
unfolding is_active_of new_path
is_active_of-new_path id user j d o = ground arith

active_of-snoc :
    (j : String) (xs : List LearningPath) (p : LearningPath)
    → active_of j (xs ++ p ∷ []) ≡ active_of j xs ++ (if is_active_of j p then p ∷ [] else [])
active_of-snoc j xs p = filter-append (is_active_of j) xs (p ∷ [])

length-supersede :
    (j : String) (o : Option LearningPath) (ps : List LearningPath)
    → length (active_of j (supersede o ps)) ≤ length (active_of j ps)
unfolding supersede
length-supersede j none ps = omega arith
length-supersede j (some e) ps =
    rw (active_of-supersede_row j e.id ps)
      (length-filter (λ p. not (str_eq p.id e.id)) (active_of j ps))

module _ (id user : String) (d : Json) (ps : List LearningPath) where
  abbrev created : LearningPath
  created = new_path id user d (find_active user ps)

  abbrev rows : List LearningPath
  rows = supersede (find_active user ps) ps ++ created ∷ []

  none_left :
      length (active_of user ps) ≤ 1 → active_of user (supersede (find_active user ps) ps) ≡ []
  unfolding supersede
  none_left h = elim (at_most_one (active_of user ps) h) [
    | inl e ↦ rw (find_active-nil user ps e) e
    | inr (p, e) ↦ rw (find_active-single user p ps e) (supersede_only user p ps e)
  ]

  rows-own : length (active_of user ps) ≤ 1 → active_of user rows ≡ created ∷ []
  rows-own h =
      rw
        (
          active_of-snoc user (supersede (find_active user ps) ps) created,
          none_left h,
          is_active_of-new_path id user user d (find_active user ps),
          eq_refl user,
        )
        refl

  rows-other :
      (j : String) → str_eq user j ≡ false → length (active_of j rows) ≤ length (active_of j ps)
  rows-other j ne =
      rw
        (
          active_of-snoc j (supersede (find_active user ps) ps) created,
          is_active_of-new_path id user j d (find_active user ps),
          ne,
        )
        (omega (
          arith,
          length-append (active_of j (supersede (find_active user ps) ps)) [],
          length-supersede j (find_active user ps) ps,
        ))

  rows-OneActive : OneActive ps → OneActive rows
  rows-OneActive h j = elim (Bool-cases (str_eq user j)) [
    | inl e ↦ rw (sym ((eq_iff user j).0 e), rows-own (h user)) (omega arith)
    | inr e ↦ omega (arith, rows-other j e, h j)
  ]

  version_after : (e : LearningPath) → active_of user ps ≡ e ∷ [] → created.version ≡ suc e.version
  unfolding new_path next_version
  version_after e h = rw (find_active-single user e ps h) refl

  version_first : active_of user ps ≡ [] → created.version ≡ 1
  unfolding new_path next_version
  version_first h = rw (find_active-nil user ps h) refl

-- What a new path leaves: it is the one active path of its user, and no user has two.
abbrev pub IsNewest : List LearningPath → List LearningPath → LearningPath → Type 0
IsNewest ps ts p =
    OneActive ts
    × (active_of p.user_id ts ≡ p ∷ [])
    × ((e : LearningPath) → active_of p.user_id ps ≡ e ∷ [] → p.version ≡ suc e.version)
    × (active_of p.user_id ps ≡ [] → p.version ≡ 1)

create_path-IsNewest :
    (id user : String) (d : Json) (ps : List LearningPath)
    → OneActive ps
    → IsNewest ps (rows id user d ps) (created id user d ps)
unfolding new_path
create_path-IsNewest id user d ps one = (
  rows-OneActive id user d ps one,
  rows-own id user d ps (one user),
  version_after id user d ps,
  version_first id user d ps,
)

same_outcome :
    (p q : LearningPath) (ps us ts : List LearningPath)
    → IsNewest ps us q
    → ok q ≡ ok p
    → us ≡ ts
    → IsNewest ps ts p
same_outcome p q ps us ts h e k =
    let same : q ≡ p = cc in subst (λ x. IsNewest ps ts x) same (subst (λ x. IsNewest ps x q) k h)

-- A POST that answers with a path leaves that path as the one active path of its user and no user
-- with two, where no user had two before; its version is one more than that of the user's active
-- path before, or 1 where there was none.
pub post_learning_path_lem :
    (id : String) (user definition : Option Json) (ps ts : List LearningPath) (p : LearningPath)
    → OneActive ps
    → post_learning_path id user definition ps ≡ (ok p, ts)
    → IsNewest ps ts p
unfolding post_learning_path create_path
post_learning_path_lem id user definition ps ts p one h =
    go (read_user_id user) (read_definition definition) h
  where
    go :
        (r : Result String) (q : Result Json)
        → (lift r >>= λ u. lift q >>= λ d. create_path id u d) ps ≡ (ok p, ts)
        → IsNewest ps ts p
    go (err e) q k = cc
    go (ok u) (err e) k = cc
    go (ok u) (ok d) k =
        same_outcome p (created id u d ps) ps (rows id u d ps) ts
          (create_path-IsNewest id u d ps one) (ap (λ x. x.0) k) (ap (λ x. x.1) k)
