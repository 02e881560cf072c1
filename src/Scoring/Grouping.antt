-- ===== src/Scoring/Grouping.antt =====
-- bySkillLevel of assessmentScorer.ts: grouping by skill loses nothing, so each skill's level is
-- that of its own questions.
use ai_agentic_english.Prelude.{
  String, Bool, false, Option, none, some, List, [], ◌∷◌, ◌++◌, ◌≡◌, refl, arith, sym, ap, filter,
  if◌then◌else◌, str_eq, eq_iff, or_else, Bool-cases, inl, inr,
}
use ai_agentic_english.Prelude.Dict.{Dict, get, set, get-set}
use ai_agentic_english.Shared.Json.{Json}
use ai_agentic_english.Shared.Cefr.{CefrLevel}
use ai_agentic_english.Scoring.Score.{
  ScoredQuestion, by_skill, levels_of, highest_passing, climb, bucket,
}

abbrev pub of_skill : String → ScoredQuestion → Bool
of_skill skill q = str_eq q.skill skill

abbrev extend : Option (List ScoredQuestion) → List ScoredQuestion → Option (List ScoredQuestion)
extend none [] = none
extend none (q ∷ qs) = some (q ∷ qs)
extend (some b) qs = some (b ++ qs)

append-nil : (xs : List ScoredQuestion) → xs ++ [] ≡ xs
append-nil [] = refl
append-nil (x ∷ xs) = ap (λ ys. x ∷ ys) (append-nil xs)

append-cons :
    (b : List ScoredQuestion) (q : ScoredQuestion) (qs : List ScoredQuestion)
    → (b ++ q ∷ []) ++ qs ≡ b ++ q ∷ qs
append-cons [] q qs = refl
append-cons (x ∷ xs) q qs = ap (λ ws. x ∷ ws) (append-cons xs q qs)

extend-nil : (o : Option (List ScoredQuestion)) → extend o [] ≡ o
extend-nil none = refl
extend-nil (some b) = ap some (append-nil b)

extend-cons :
    (o : Option (List ScoredQuestion)) (q : ScoredQuestion) (qs : List ScoredQuestion)
    → extend (some (elim o [ none ↦ q ∷ [] | some b ↦ b ++ q ∷ [] ])) qs ≡ extend o (q ∷ qs)
extend-cons none q qs = refl
extend-cons (some b) q qs = ap some (append-cons b q qs)

get-by_skill :
    (k : String) (qs : List ScoredQuestion) (m : Dict (List ScoredQuestion))
    → get k (by_skill qs m) ≡ extend (get k m) (filter (of_skill k) qs)
unfolding by_skill
get-by_skill k [] m = sym (extend-nil (get k m))
get-by_skill k (q ∷ qs) m = elim (Bool-cases (str_eq q.skill k)) [
  | inl e ↦
      rw (get-by_skill k qs _, get-set, e, ap (λ s. get s m) ((eq_iff q.skill k).0 e))
        (extend-cons (get k m) q (filter (of_skill k) qs))
  | inr e ↦ rw (get-by_skill k qs _, get-set, e) refl
]

-- No key stands twice.
abbrev Keys : {V : Type 0} → Dict V → Type 0
Keys [] = Unit
Keys ((k, v) ∷ m) = (get k m ≡ none) × Keys m

get-set-none :
    {V : Type 0} (k j : String) (v : V) (m : Dict V)
    → get j m ≡ none
    → str_eq k j ≡ false
    → get j (set k v m) ≡ none
get-set-none k j v m h e = rw (get-set, e) h

set-Keys : {V : Type 0} (k : String) (v : V) (m : Dict V) → Keys m → Keys (set k v m)
unfolding set get
set-Keys k v [] h = (refl, tt)
set-Keys k v ((j, w) ∷ m) (fresh, h) = elim (Bool-cases (str_eq j k)) [
  | inl e ↦ rw e (fresh, h)
  | inr e ↦
      rw e (get-set-none k j v m fresh (ground (arith, eq_iff k j, eq_iff j k)), set-Keys k v m h)
]

by_skill-Keys :
    (qs : List ScoredQuestion) (m : Dict (List ScoredQuestion)) → Keys m → Keys (by_skill qs m)
unfolding by_skill
by_skill-Keys [] m h = h
by_skill-Keys (q ∷ qs) m h = by_skill-Keys qs _ (set-Keys q.skill _ m h)

module _ (answers : Dict (Option Json)) where
  abbrev level_or : Option (List ScoredQuestion) → Option CefrLevel → Option CefrLevel
  level_or none old = old
  level_or (some qs) old = or_else (highest_passing answers qs) old

  get-levels_step :
      (k skill : String) (o : Option CefrLevel) (levels : Dict CefrLevel)
      → get k (elim o [ none ↦ levels | some l ↦ set skill l levels ])
        ≡ (if str_eq skill k then or_else o (get k levels) else get k levels)
  get-levels_step k skill none levels = ground arith
  get-levels_step k skill (some l) levels = rw get-set refl

  get-levels_of :
      (k : String) (d : Dict (List ScoredQuestion)) (levels : Dict CefrLevel)
      → Keys d
      → get k (levels_of answers d levels) ≡ level_or (get k d) (get k levels)
  unfolding levels_of get
  get-levels_of k [] levels h = refl
  get-levels_of k ((skill, qs) ∷ d) levels (fresh, h) = elim (Bool-cases (str_eq skill k)) [
    | inl e ↦
        rw
          (
            get-levels_of k d _ h,
            get-levels_step k skill (highest_passing answers qs) levels,
            e,
            sym (ap (λ s. get s d) ((eq_iff skill k).0 e)),
            fresh,
          )
          refl
    | inr e ↦
        rw (get-levels_of k d _ h, get-levels_step k skill (highest_passing answers qs) levels, e)
          refl
  ]

  highest_passing-nil : none ≡ highest_passing answers []
  unfolding highest_passing climb bucket
  highest_passing-nil = refl

  or_else-none : (o : Option CefrLevel) → or_else o none ≡ o
  or_else-none none = refl
  or_else-none (some l) = refl

  level_or-extend :
      (xs : List ScoredQuestion) → level_or (extend none xs) none ≡ highest_passing answers xs
  level_or-extend [] = highest_passing-nil
  level_or-extend (x ∷ xs) = or_else-none (highest_passing answers (x ∷ xs))

  pub level_of_skill :
      (k : String) (qs : List ScoredQuestion)
      → get k (levels_of answers (by_skill qs []) [])
        ≡ highest_passing answers (filter (of_skill k) qs)
  unfolding get
  level_of_skill k qs =
      rw (get-levels_of k (by_skill qs []) [] (by_skill-Keys qs [] tt), get-by_skill k qs [])
        (level_or-extend (filter (of_skill k) qs))
