-- ===== src/Practice/PathLaws.antt =====
-- The modules of the practice pages against the order of the active path.
use ai_agentic_english.Prelude.{
  ℕ, suc, String, Bool, true, false, ◌&&◌, ◌⊎◌, Option, none, some, List, [], ◌∷◌, ◌≡◌, refl, sym,
  ap, ◌∙◌, arith, any, filter, filter-cong, ◌==◌, leb, if◌then◌else◌, str_eq, eq_iff, eq_refl,
  get_or, is_some, or_else, Bool-cases, if_both, inl, inr,
}
use mathlib.Core.Path.{subst}
use mathlib.Core.List.{Perm}
use ai_agentic_english.Prelude.Dict.{Dict, get, set, get-set}
use ai_agentic_english.Prelude.Sort.{sort-perm, sort-InOrder, InOrder, InOrder-mono}
use ai_agentic_english.Onboarding.Request.{PlacementSkillId}
use ai_agentic_english.Assessment.Prompt.{is_skill}
use ai_agentic_english.Practice.ActivePath.{
  PathAnswer, no_user, definition, failed_with, thrown, is_skipped, distinct_from,
  get_active_path_module_ids, Module, order_from, before_in, filter_modules_for_active_path,
  is_module_in_active_path,
}

abbrev pub holds_id : String → List String → Bool
holds_id k = any (λ id. str_eq id k)

abbrev pub NoRepeat : List String → Type 0
NoRepeat [] = Unit
NoRepeat (id ∷ ids) = (holds_id id ids ≡ false) × NoRepeat ids

seen_now : String → List String → List String
seen_now id seen = if is_skipped seen id then seen else id ∷ seen

seen_more :
    (k id : String) (seen : List String)
    → holds_id k seen ≡ true
    → holds_id k (seen_now id seen) ≡ true
unfolding seen_now
seen_more k id seen h =
    if_both (λ s. holds_id k s ≡ true) (is_skipped seen id) (λ _. h) (λ _. ground (arith, h))

seen_id :
    (id : String) (seen : List String)
    → is_skipped seen id ≡ false
    → holds_id id (seen_now id seen) ≡ true
unfolding seen_now
seen_id id seen e = rw (e, eq_refl id) refl

other_id :
    (k id : String) (seen : List String)
    → holds_id k seen ≡ true
    → is_skipped seen id ≡ false
    → str_eq id k ≡ false
unfolding is_skipped
other_id k id seen h e = elim (Bool-cases (str_eq id k)) [
  | inr n ↦ n
  | inl y ↦ absurd (go (subst (λ j. holds_id j seen ≡ true) (sym ((eq_iff id k).0 y)) h))
]
  where
    go : holds_id id seen ≡ true → ⊥
    go q = ground (arith, q, e)

-- What was seen before does not come again.
distinct_from-seen :
    (k : String) (seen ids : List String)
    → holds_id k seen ≡ true
    → holds_id k (distinct_from seen ids) ≡ false
unfolding distinct_from seen_now
distinct_from-seen k seen [] h = refl
distinct_from-seen k seen (id ∷ ids) h =
    let later = distinct_from-seen k (seen_now id seen) ids (seen_more k id seen h) in
    if_both (λ s. holds_id k s ≡ false) (is_skipped seen id) (λ _. later)
      (λ e. rw (other_id k id seen h e) later)

distinct_from-NoRepeat : (seen ids : List String) → NoRepeat (distinct_from seen ids)
unfolding distinct_from seen_now
distinct_from-NoRepeat seen [] = tt
distinct_from-NoRepeat seen (id ∷ ids) =
    if_both NoRepeat (is_skipped seen id) (λ _. distinct_from-NoRepeat (seen_now id seen) ids)
      (λ e. (
        distinct_from-seen id (seen_now id seen) ids (seen_id id seen e),
        distinct_from-NoRepeat (seen_now id seen) ids,
      ))

-- The place of an id in a list, counted from `i` on.
abbrev index_from : ℕ → String → List String → Option ℕ
index_from i k [] = none
index_from i k (id ∷ ids) = if str_eq id k then some i else index_from (suc i) k ids

index_from-holds_id :
    (i : ℕ) (k : String) (ids : List String) → is_some (index_from i k ids) ≡ holds_id k ids
index_from-holds_id i k [] = refl
index_from-holds_id i k (id ∷ ids) = ground (arith, index_from-holds_id (suc i) k ids)

index_from-absent :
    (i : ℕ) (k : String) (ids : List String) → holds_id k ids ≡ false → index_from i k ids ≡ none
index_from-absent i k [] h = refl
index_from-absent i k (id ∷ ids) h = ground (arith, h, index_from-absent (suc i) k ids)

get-order_from :
    (i : ℕ) (ids : List String) (order : Dict ℕ) (k : String)
    → NoRepeat ids
    → get k (order_from i ids order) ≡ or_else (index_from i k ids) (get k order)
unfolding order_from
get-order_from i [] order k h = refl
get-order_from i (id ∷ ids) order k (h, t) =
    get-order_from (suc i) ids (set id i order) k t ∙ go (Bool-cases (str_eq id k))
  where
    go :
        (str_eq id k ≡ true) ⊎ (str_eq id k ≡ false)
        → or_else (index_from (suc i) k ids) (get k (set id i order))
          ≡ or_else (if str_eq id k then some i else index_from (suc i) k ids) (get k order)
    go (inl e) =
        rw
          (
            get-set,
            e,
            index_from-absent (suc i) k ids
                (subst (λ j. holds_id j ids ≡ false) ((eq_iff id k).0 e) h),
          )
          refl
    go (inr e) = rw (get-set, e) refl

some_inj : {A : Type 0} {a b : A} → some a ≡ some b → a ≡ b
some_inj e = cc

-- The order of the active path: by the first place of a module's id.
abbrev pub along : List String → Module → Module → Bool
along ids a b = leb (get_or (index_from 0 a.id ids) 0) (get_or (index_from 0 b.id ids) 0)

get-order_from_empty :
    (ids : List String) (k : String)
    → NoRepeat ids
    → get k (order_from 0 ids []) ≡ index_from 0 k ids
unfolding get
get-order_from_empty ids k h = get-order_from 0 ids [] k h ∙ go (index_from 0 k ids)
  where
    go : (o : Option ℕ) → or_else o none ≡ o
    go none = refl
    go (some i) = refl

on_path :
    (ids : List String)
    → NoRepeat ids
    → (k : String) → is_some (get k (order_from 0 ids [])) ≡ is_module_in_active_path k ids
unfolding is_module_in_active_path
on_path ids h k = ap is_some (get-order_from_empty ids k h) ∙ index_from-holds_id 0 k ids

before_in-along :
    (ids : List String)
    → NoRepeat ids
    → (a b : Module) → before_in (order_from 0 ids []) a b ≡ along ids a b
unfolding before_in
before_in-along ids h a b =
    rw (get-order_from_empty ids a.id h, get-order_from_empty ids b.id h) refl

before_in-total :
    (order : Dict ℕ) (a b : Module) → before_in order a b ≡ false → before_in order b a ≡ true
unfolding before_in
before_in-total order a b h = ground (arith, h)

before_in_trans :
    (order : Dict ℕ) (a b c : Module)
    → before_in order a b ≡ true
    → before_in order b c ≡ true
    → before_in order a c ≡ true
unfolding before_in
before_in_trans order a b c h k = ground (arith, h, k)

get_active_path_module_ids-NoRepeat :
    (answer : PathAnswer) (ids : List String)
    → get_active_path_module_ids answer ≡ some ids
    → NoRepeat ids
unfolding get_active_path_module_ids
get_active_path_module_ids-NoRepeat no_user ids e = subst NoRepeat (some_inj e) tt
get_active_path_module_ids-NoRepeat (definition given) ids e =
    subst NoRepeat (some_inj e) (distinct_from-NoRepeat [] (get_or given []))
get_active_path_module_ids-NoRepeat (failed_with status) ids e =
    if_both (λ (o : Option (List String)). o ≡ some ids → NoRepeat ids) (status == 404)
      (λ _ e. subst NoRepeat (some_inj e) tt) (λ _ e. absurd cc) e
get_active_path_module_ids-NoRepeat thrown ids e = absurd cc

-- For the module ids that the active path gives, the modules shown for a skill are exactly those of
-- the skill that are on the path, each as often as it was listed, in the order of the path.
pub filter_modules_lem :
    (answer : PathAnswer) (ids : List String) (modules : List Module) (skill_id : PlacementSkillId)
    → get_active_path_module_ids answer ≡ some ids
    → Perm
        (filter_modules_for_active_path modules skill_id ids)
        (filter (λ m. is_skill skill_id m.skill_focus && is_module_in_active_path m.id ids) modules)
      × InOrder (along ids) (filter_modules_for_active_path modules skill_id ids)
unfolding filter_modules_for_active_path
filter_modules_lem answer ids modules skill_id e =
    let d = get_active_path_module_ids-NoRepeat answer ids e in
    let order : Dict ℕ = order_from 0 ids [] in
    let shown : List Module =
      filter (λ m. is_skill skill_id m.skill_focus && is_some (get m.id order)) modules in
    (
      subst (Perm (filter_modules_for_active_path modules skill_id ids))
          (filter-cong _ _
            (λ m. ap (λ b. is_skill skill_id m.skill_focus && b) (on_path ids d m.id)) modules)
          (sort-perm (before_in order) shown),
      InOrder-mono (before_in order) (along ids) (λ a b h. sym (before_in-along ids d a b) ∙ h) _
          (sort-InOrder (before_in order) (before_in-total order) (before_in_trans order) shown),
    )
