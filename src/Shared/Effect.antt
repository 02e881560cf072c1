-- ===== src/Shared/Effect.antt =====
-- Handlers that change a state and may throw: what was written before a throw stays written.
use ai_agentic_english.Prelude.{◌≡◌, refl}
use ai_agentic_english.Shared.Errors.{Thrown}

pub data Result {ℓ} (A : Type ℓ) : Type ℓ where
  ok : A → Result A
  err : Thrown → Result A

abbrev pub Effect {ℓ} : Type ℓ → Type ℓ → Type ℓ
Effect S A = S → Result A × S

module _ {ℓ} {S A : Type ℓ} where
  abbrev pub pure : A → Effect S A
  pure a s = (ok a, s)

  abbrev pub throw : Thrown → Effect S A
  throw e s = (err e, s)

  -- A computation that reads and writes no state.
  abbrev pub lift : Result A → Effect S A
  lift r s = (r, s)

module _ {ℓ} {S A B : Type ℓ} where
  abbrev pub continue : Result A × S → (A → Effect S B) → Result B × S
  continue (ok a, s) f = f a s
  continue (err e, s) f = (err e, s)

  infixl 5 ◌>>=◌ ◌>>◌
  abbrev pub ◌>>=◌ : Effect S A → (A → Effect S B) → Effect S B
  ◌>>=◌ m f s = continue (m s) f

  abbrev pub ◌>>◌ : Effect S A → Effect S B → Effect S B
  m >> n = m >>= λ _. n

-- A change of the state that cannot fail.
abbrev pub modify : {S : Type 0} → (S → S) → Effect S (Unit {0})
modify f s = (ok tt, f s)

abbrev pub and_then {ℓ κ} : {A : Type ℓ} {B : Type κ} → Result A → (A → Result B) → Result B
and_then (ok a) f = f a
and_then (err e) f = err e

pub and_then-eq-ok {ℓ κ} :
    {A : Type ℓ} {B : Type κ} (r : Result A) (f : A → Result B) {b : B}
    → and_then r f ≡ ok b
    → (a : A) × (r ≡ ok a) × (f a ≡ ok b)
and_then-eq-ok (ok a) f h = (a, refl, h)
and_then-eq-ok (err e) f h = cc

module _ {ℓ} {S A B : Type ℓ} where
  -- Inversion of a block that returned.
  pub >>=-eq-ok :
      (m : Effect S A) (f : A → Effect S B) (s : S) {b : B} {u : S}
      → (m >>= f) s ≡ (ok b, u)
      → (a : A) × (t : S) × (m s ≡ (ok a, t)) × (f a t ≡ (ok b, u))
  >>=-eq-ok m f s {b} {u} h = go (m s) refl h
    where
      go :
          (r : Result A × S)
          → m s ≡ r
          → continue r f ≡ (ok b, u)
          → (a : A) × (t : S) × (m s ≡ (ok a, t)) × (f a t ≡ (ok b, u))
      go (ok a, t) e k = (a, t, e, k)
      go (err x, t) e k = cc
