-- ===== src/Assessment/Positions.antt =====
-- Lists by position, for the questions that come before the one on the page.
use ai_agentic_english.Prelude.{
  ℕ, zero, suc, ◌<◌, false, some, List, [], ◌∷◌, ◌++◌, ◌≡◌, refl, ap, arith, length, get_elem?,
  take, drop, All, str_eq,
}
use mathlib.Core.Path.{subst}
use ai_agentic_english.Assessment.Prompt.{Question}

module _ {A : Type 0} where
  pub get_elem?-lt : (xs : List A) (i : ℕ) → i < length xs → (x : A) × (get_elem? xs i ≡ some x)
  get_elem?-lt [] i h = absurd (omega (arith, h))
  get_elem?-lt (x ∷ xs) zero h = (x, refl)
  get_elem?-lt (x ∷ xs) (suc i) h = get_elem?-lt xs i (omega (arith, h))

  pub take-suc :
      (xs : List A) (i : ℕ) (x : A)
      → get_elem? xs i ≡ some x
      → take (suc i) xs ≡ take i xs ++ x ∷ []
  take-suc [] i x e = cc
  take-suc (y ∷ xs) zero x e = grind arith
  take-suc (y ∷ xs) (suc i) x e = ap (λ zs. y ∷ zs) (take-suc xs i x e)

  pub drop-suc :
      (xs : List A) (i : ℕ) (x : A) → get_elem? xs i ≡ some x → drop i xs ≡ x ∷ drop (suc i) xs
  drop-suc [] i x e = cc
  drop-suc (y ∷ xs) zero x e = grind arith
  drop-suc (y ∷ xs) (suc i) x e = drop-suc xs i x e

  pub take_all : (xs : List A) (i : ℕ) → i ≡ length xs → take i xs ≡ xs
  take_all [] zero h = refl
  take_all [] (suc i) h = refl
  take_all (x ∷ xs) zero h = absurd (omega (arith, h))
  take_all (x ∷ xs) (suc i) h = ap (λ zs. x ∷ zs) (take_all xs i (omega (arith, h)))

  pub All-take-suc :
      (P : A → Type 0) (xs : List A) (i : ℕ) → All P (take (suc i) xs) → All P (take i xs)
  All-take-suc P [] zero h = tt
  All-take-suc P [] (suc i) h = tt
  All-take-suc P (x ∷ xs) zero h = tt
  All-take-suc P (x ∷ xs) (suc i) (p, h) = (p, All-take-suc P xs i h)

-- No two questions share their id.
abbrev pub Distinct : List Question → Type 0
Distinct [] = Unit
Distinct (q ∷ qs) = All (λ p. str_eq p.id q.id ≡ false) qs × Distinct qs

All-get_elem? :
    (P : Question → Type 0) (qs : List Question) (i : ℕ) (q : Question)
    → All P qs
    → get_elem? qs i ≡ some q
    → P q
All-get_elem? P [] i q h e = absurd cc
All-get_elem? P (p ∷ qs) zero q (h, t) e = subst P (elim_some e) h
  where
    elim_some : some p ≡ some q → p ≡ q
    elim_some e = cc
All-get_elem? P (p ∷ qs) (suc i) q (h, t) e = All-get_elem? P qs i q t e

pub Distinct-before :
    (qs : List Question) (i : ℕ) (q : Question)
    → Distinct qs
    → get_elem? qs i ≡ some q
    → All (λ p. str_eq q.id p.id ≡ false) (take i qs)
Distinct-before [] zero q d e = tt
Distinct-before [] (suc i) q d e = tt
Distinct-before (p ∷ qs) zero q d e = tt
Distinct-before (p ∷ qs) (suc i) q (h, d) e =
    (All-get_elem? (λ r. str_eq r.id p.id ≡ false) qs i q h e, Distinct-before qs i q d e)
