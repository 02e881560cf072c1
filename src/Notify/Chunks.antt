-- ===== src/Notify/Chunks.antt =====
-- `chunk` of services/notification-service/src/scheduler/schedulerGuard.ts.
use mathlib.Core.List.{flatten}
use ai_agentic_english.Prelude.{
  ℕ, zero, suc, ◌≤◌, ◌<◌, List, [], ◌∷◌, ◌++◌, ◌≡◌, refl, ap, ◌∙◌, arith, length, take, drop, All,
}
use ai_agentic_english.Notify.Scheduler.{chunk_from, chunk}

module _ {ℓ} {A : Type ℓ} where
  take-drop : (n : ℕ) (xs : List A) → take n xs ++ drop n xs ≡ xs
  take-drop zero xs = refl
  take-drop (suc n) [] = refl
  take-drop (suc n) (x ∷ xs) = ap (λ ys. x ∷ ys) (take-drop n xs)

  length-take : (n : ℕ) (xs : List A) → length (take n xs) ≤ n
  length-take zero xs = omega arith
  length-take (suc n) [] = omega arith
  length-take (suc n) (x ∷ xs) = omega (arith, length-take n xs)

  length-drop : (n : ℕ) (xs : List A) → length (drop n xs) ≤ length xs
  length-drop zero xs = omega arith
  length-drop (suc n) [] = omega arith
  length-drop (suc n) (x ∷ xs) = omega (arith, length-drop n xs)

  -- A batch of a split: not empty, and no larger than the size.
  abbrev pub IsBatch : ℕ → List A → Type 0
  IsBatch size batch = (0 < length batch) × (length batch ≤ size)

  flatten-chunk_from :
      (fuel : ℕ) (xs : List A) (n : ℕ)
      → length xs ≤ fuel
      → flatten (chunk_from fuel xs (suc n)) ≡ xs
  unfolding chunk_from flatten
  flatten-chunk_from zero [] n h = refl
  flatten-chunk_from zero (x ∷ xs) n h = absurd (omega arith)
  flatten-chunk_from (suc fuel) [] n h = refl
  flatten-chunk_from (suc fuel) (x ∷ xs) n h =
      ap (λ ys. (x ∷ take n xs) ++ ys)
        (flatten-chunk_from fuel (drop n xs) n (omega (arith, length-drop n xs)))
      ∙ ap (λ ys. x ∷ ys) (take-drop n xs)

  chunk_from-IsBatch :
      (fuel : ℕ) (xs : List A) (n : ℕ) → All (IsBatch (suc n)) (chunk_from fuel xs (suc n))
  unfolding chunk_from
  chunk_from-IsBatch zero xs n = tt
  chunk_from-IsBatch (suc fuel) [] n = tt
  chunk_from-IsBatch (suc fuel) (x ∷ xs) n =
      ((omega arith, omega (arith, length-take n xs)), chunk_from-IsBatch fuel (drop n xs) n)

  -- For a size above 0, the batches hold the items in order, each once, and none is empty or
  -- larger than the size.
  pub chunk_lem :
      (xs : List A) (size : ℕ)
      → 0 < size
      → (flatten (chunk xs size) ≡ xs) × All (IsBatch size) (chunk xs size)
  unfolding chunk
  chunk_lem xs zero h = absurd (omega arith)
  chunk_lem xs (suc n) h =
      (flatten-chunk_from (length xs) xs n (omega arith), chunk_from-IsBatch (length xs) xs n)
