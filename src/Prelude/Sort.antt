-- ===== src/Prelude/Sort.antt =====
-- `sort` of a JavaScript array, which is stable: `le a b` where the comparator does not put `a`
-- after `b`.
use mathlib.Core.Path.{◌≡◌}
use mathlib.Core.Bool.{Bool, true, false}
use mathlib.Core.List.{List, [], ◌∷◌, Perm}
use mathlib.Core.List.Perm
use ai_agentic_english.Prelude.Tests.{if◌then◌else◌, if_both}
use ai_agentic_english.Prelude.Lists.{All, All-mono}

module _ {ℓ} {A : Type ℓ} (le : A → A → Bool) where
  unfoldable pub insert : A → List A → List A
  insert x [] = x ∷ []
  insert x (y ∷ ys) = let rest = insert x ys in if le x y then x ∷ y ∷ ys else y ∷ rest

  unfoldable pub sort : List A → List A
  unfolding insert
  sort [] = []
  sort (x ∷ xs) = insert x (sort xs)

  insert-perm : (x : A) (xs : List A) → Perm (insert x xs) (x ∷ xs)
  unfolding insert
  insert-perm x [] = Perm.rfl
  insert-perm x (y ∷ ys) =
      if_both (λ zs. Perm zs (x ∷ y ∷ ys)) (le x y) (λ _. Perm.rfl)
        (λ _. Perm.trans (Perm.cons y (insert-perm x ys)) (Perm.swap x y ys))

  pub sort-perm : (xs : List A) → Perm (sort xs) xs
  unfolding sort
  sort-perm [] = Perm.rfl
  sort-perm (x ∷ xs) = Perm.trans (insert-perm x (sort xs)) (Perm.cons x (sort-perm xs))

  insert-All {κ} : (P : A → Type κ) (x : A) (xs : List A) → P x → All P xs → All P (insert x xs)
  unfolding insert
  insert-All P x [] p h = (p, tt)
  insert-All P x (y ∷ ys) p (q, h) =
      if_both (All P) (le x y) (λ _. (p, (q, h))) (λ _. (q, insert-All P x ys p h))

  pub sort-All {κ} : (P : A → Type κ) (xs : List A) → All P xs → All P (sort xs)
  unfolding sort
  sort-All P [] h = tt
  sort-All P (x ∷ xs) (p, h) = insert-All P x (sort xs) p (sort-All P xs h)

  -- No item comes after one that the comparator puts behind it.
  abbrev pub InOrder : List A → Type ℓ
  InOrder [] = Unit
  InOrder (x ∷ xs) = All (λ y. le x y ≡ true) xs × InOrder xs

  module _ (total : (a b : A) → le a b ≡ false → le b a ≡ true)
      (trans : (a b c : A) → le a b ≡ true → le b c ≡ true → le a c ≡ true) where
    insert-InOrder : (x : A) (xs : List A) → InOrder xs → InOrder (insert x xs)
    unfolding insert
    insert-InOrder x [] h = (tt, tt)
    insert-InOrder x (y ∷ ys) (h, t) =
        if_both InOrder (le x y)
          (λ e. (
            (e, All-mono (λ z. le y z ≡ true) (λ z. le x z ≡ true) (λ z. trans x y z e) ys h),
            (h, t),
          ))
          (λ e. (insert-All (λ z. le y z ≡ true) x ys (total x y e) h, insert-InOrder x ys t))

    pub sort-InOrder : (xs : List A) → InOrder (sort xs)
    unfolding sort
    sort-InOrder [] = tt
    sort-InOrder (x ∷ xs) = insert-InOrder x (sort xs) (sort-InOrder xs)

pub InOrder-mono {ℓ} :
    {A : Type ℓ} (le le' : A → A → Bool)
    → ((a b : A) → le a b ≡ true → le' a b ≡ true)
    → (xs : List A) → InOrder le xs
    → InOrder le' xs
InOrder-mono le le' f [] h = tt
InOrder-mono le le' f (x ∷ xs) (h, t) =
    (All-mono (λ y. le x y ≡ true) (λ y. le' x y ≡ true) (f x) xs h, InOrder-mono le le' f xs t)
