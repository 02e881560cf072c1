-- ===== src/Speaking/Transcript.antt =====
-- What the speech callbacks and the turn handlers of useSpeakingRealtimeSession keep of the
-- transcript: a message shows a prefix of its text, and the list of messages only grows.
use ai_agentic_english.Prelude.{
  ℕ, ◌≤◌, String, Bool, true, false, ◌&&◌, Option, none, some, List, [], ◌∷◌, ◌++◌, map, ◌≡◌, refl,
  ap, arith, length, take, take-length, get_or, All, any, str_eq, Bool-cases, inl, inr, eq_iff,
}
use ai_agentic_english.Speaking.Types.{Text, Speaker, ai, user, Message, TurnResult, TurnFeedback}
use ai_agentic_english.Speaking.Session.{update_message}
use ai_agentic_english.Speaking.Speech.{finish_message, reveal_message}
use ai_agentic_english.Speaking.Turns.{answer_message, feedback_message}

-- A message with a reveal count shows that many units of its text.
abbrev pub Shows : Option ℕ → Option Text → Text → Type 0
Shows none shown content = Unit
Shows (some n) shown content = (n ≤ length content) × (shown ≡ some (take n content))

abbrev pub IsShown : Message → Type 0
IsShown m = Shows m.revealed_char_count m.display_content m.content

revealed-le : (r : Option ℕ) (d : Option Text) (c : Text) → Shows r d c → get_or r 0 ≤ length c
revealed-le none d c h = omega arith
revealed-le (some n) d c h = h.0

pub finish_message-IsShown : (m : Message) → IsShown (finish_message m)
unfolding finish_message
finish_message-IsShown m = (omega arith, rw (take-length m.content))

pub reveal_message-IsShown : (n : ℕ) (m : Message) → IsShown m → IsShown (reveal_message n m)
unfolding reveal_message
reveal_message-IsShown n m h =
    (omega (arith, revealed-le m.revealed_char_count m.display_content m.content h), refl)

pub feedback_message-IsShown :
    (f : TurnFeedback) (m : Message) → IsShown m → IsShown (feedback_message f m)
unfolding feedback_message
feedback_message-IsShown f m h = ground arith

-- The message of `mid` is none of those that are revealed word by word.
abbrev pub IsUnrevealed : String → Message → Type 0
IsUnrevealed mid m = m.id ≡ mid → m.revealed_char_count ≡ none

pub answer_message-IsShown :
    (r : TurnResult) (m : Message) → m.revealed_char_count ≡ none → IsShown (answer_message r m)
unfolding answer_message
answer_message-IsShown r m h = rw h tt

-- `y` is `x` at a later time: nothing that was shown is hidden again.
abbrev pub Follows : Message → Message → Type 0
Follows x y =
    (x.id ≡ y.id)
    × (x.speaker ≡ y.speaker)
    × (x.timestamp ≡ y.timestamp)
    × (get_or x.revealed_char_count 0 ≤ get_or y.revealed_char_count 0)

abbrev pub Extends : List Message → List Message → Type 0
Extends [] ys = Unit
Extends (x ∷ xs) [] = ⊥
Extends (x ∷ xs) (y ∷ ys) = Follows x y × Extends xs ys

pub Extends-refl : (xs : List Message) → Extends xs xs
Extends-refl [] = tt
Extends-refl (x ∷ xs) = ((refl, refl, refl, omega arith), Extends-refl xs)

pub Extends-trans : (xs ys zs : List Message) → Extends xs ys → Extends ys zs → Extends xs zs
Extends-trans [] ys zs h k = tt
Extends-trans (x ∷ xs) [] zs h k = absurd h
Extends-trans (x ∷ xs) (y ∷ ys) [] h k = absurd k
Extends-trans (x ∷ xs) (y ∷ ys) (z ∷ zs) (p, h) (q, k) = (ground arith, Extends-trans xs ys zs h k)

pub Extends-append : (xs ys : List Message) → Extends xs (xs ++ ys)
Extends-append [] ys = tt
Extends-append (x ∷ xs) ys = ((refl, refl, refl, omega arith), Extends-append xs ys)

pub Extends-map :
    (f : Message → Message)
    → ((m : Message) → IsShown m → Follows m (f m))
    → (xs : List Message) → All IsShown xs
    → Extends xs (map f xs)
Extends-map f step [] h = tt
Extends-map f step (x ∷ xs) (p, h) = (step x p, Extends-map f step xs h)

pub finish_message-Follows : (m : Message) → IsShown m → Follows m (finish_message m)
unfolding finish_message
finish_message-Follows m h =
    (refl, refl, refl, revealed-le m.revealed_char_count m.display_content m.content h)

pub reveal_message-Follows : (n : ℕ) (m : Message) → IsShown m → Follows m (reveal_message n m)
unfolding reveal_message
reveal_message-Follows n m h = (refl, refl, refl, omega arith)

pub answer_message-Follows :
    (r : TurnResult) (m : Message) → IsShown m → Follows m (answer_message r m)
unfolding answer_message
answer_message-Follows r m h = (refl, refl, refl, omega arith)

pub feedback_message-Follows :
    (f : TurnFeedback) (m : Message) → IsShown m → Follows m (feedback_message f m)
unfolding feedback_message
feedback_message-Follows f m h = ground arith

-- An update of one message keeps what its change keeps.
module _ (mid : String) (f : Message → Message) where
  pub update_message-IsShown :
      ((m : Message) → IsShown m → IsShown (f m))
      → (xs : List Message) → All IsShown xs
      → All IsShown (update_message mid f xs)
  unfolding update_message
  update_message-IsShown keep [] h = tt
  update_message-IsShown keep (x ∷ xs) (p, h) = elim (Bool-cases (str_eq x.id mid)) [
    | inl e ↦ rw e (keep x p, update_message-IsShown keep xs h)
    | inr e ↦ rw e (p, update_message-IsShown keep xs h)
  ]

  -- The same where the change is only safe for a message that is not being revealed.
  pub update_unrevealed-IsShown :
      ((m : Message) → m.revealed_char_count ≡ none → IsShown (f m))
      → (xs : List Message) → All IsShown xs
      → All (IsUnrevealed mid) xs
      → All IsShown (update_message mid f xs)
  unfolding update_message
  update_unrevealed-IsShown keep [] h u = tt
  update_unrevealed-IsShown keep (x ∷ xs) (p, h) (q, u) = elim (Bool-cases (str_eq x.id mid)) [
    | inl e ↦ rw e (keep x (q ((eq_iff x.id mid).0 e)), update_unrevealed-IsShown keep xs h u)
    | inr e ↦ rw e (p, update_unrevealed-IsShown keep xs h u)
  ]

  pub update_message-Extends :
      ((m : Message) → IsShown m → Follows m (f m))
      → (xs : List Message) → All IsShown xs
      → Extends xs (update_message mid f xs)
  unfolding update_message
  update_message-Extends step [] h = tt
  update_message-Extends step (x ∷ xs) (p, h) = elim (Bool-cases (str_eq x.id mid)) [
    | inl e ↦ rw e (step x p, update_message-Extends step xs h)
    | inr e ↦ rw e ((refl, refl, refl, omega arith), update_message-Extends step xs h)
  ]

-- There is a turn of the user with this id.
abbrev pub is_user : Speaker → Bool
is_user ai = false
is_user user = true

abbrev pub has_turn : String → List Message → Bool
has_turn tid ms = any (λ m. str_eq m.id tid && is_user m.speaker) ms

pub has_turn-Extends :
    (tid : String) (xs ys : List Message)
    → Extends xs ys
    → has_turn tid xs ≡ true
    → has_turn tid ys ≡ true
has_turn-Extends tid [] ys h e = cc
has_turn-Extends tid (x ∷ xs) [] h e = absurd h
has_turn-Extends tid (x ∷ xs) (y ∷ ys) ((p, q, _, _), h) e =
    ground (arith, has_turn-Extends tid xs ys h, ap is_user q, ap (λ s. str_eq s tid) p)
