-- ===== src/Speaking/Fallback.antt =====
-- The timer that reveals a reply word by word, where the browser reports no word boundaries: it
-- comes to its end.
use ai_agentic_english.Prelude.{
  ℕ, zero, suc, ◌≤◌, max, String, true, false, not, ◌&&◌, none, some, List, [], ◌∷◌, ◌≡◌, refl, sym,
  ap, ◌∙◌, arith, length, get_elem?, drop, All, str_eq, get_or,
}
use mathlib.Core.Path.{subst}
use ai_agentic_english.Speaking.Types.{Text, Message, Speech}
use ai_agentic_english.Speaking.Session.{Session}
use ai_agentic_english.Speaking.Shown.{message_in, IsShownTo, ShowsWords, reveal-ShowsWords}
use ai_agentic_english.Speaking.Speech.{
  only_live, live_speech, elem_at, with_speech, reveal_assistant_message, reveal_word,
  reveal_next_word, reveal_next_fallback_word,
}

-- The interval fires `n` times.
abbrev pub ticks : ℕ → String → Session → Session
ticks zero mid s = s
ticks (suc n) mid s = ticks n mid (reveal_next_fallback_word mid s)

-- The speech of the message, which goes on.
pub record IsSpeaking (mid : String) (s : Session) (sp : Speech) : Type 0 where
  pub active : s.active_speech ≡ some sp
  pub own : (str_eq sp.message_id mid && not sp.completed) ≡ true

-- The interval is cleared, and the words up to the ends are revealed.
pub record IsRevealed (ends : List ℕ) (sp : Speech) (s : Session) : Type 0 where
  pub speech : Speech
  pub active : s.active_speech ≡ some speech
  pub cleared : speech.fallback_interval ≡ false
  pub further : sp.revealed_char_count ≤ speech.revealed_char_count
  pub revealed : All (λ e. e ≤ speech.revealed_char_count) ends

-- Ends of words, the last first, over those that were there.
abbrev onto : List ℕ → List ℕ → List ℕ
onto [] seen = seen
onto (next ∷ rest) seen = onto rest (next ∷ seen)

onto-All : (P : ℕ → Type 0) (rest seen : List ℕ) → All P (onto rest seen) → All P rest × All P seen
onto-All P [] seen h = (tt, h)
onto-All P (next ∷ rest) seen h =
    let (later, (here, before)) = onto-All P rest (next ∷ seen) h in ((here, later), before)

tick-IsSpeaking :
    (mid : String) (s : Session) (sp : Speech)
    → IsSpeaking mid s sp
    → reveal_next_fallback_word mid s
      ≡ reveal_word s sp (elem_at sp.word_end_indices sp.fallback_word_index)
unfolding reveal_next_fallback_word live_speech only_live reveal_next_word
tick-IsSpeaking mid s sp h = rw (h.active, h.own) refl

-- The speech after a tick that reveals the words up to `next`.
abbrev advanced : ℕ → Speech → Speech
advanced next sp = record sp {
  fallback_word_index = some (suc (get_or sp.fallback_word_index 0));
  revealed_char_count = max sp.revealed_char_count next;
}

advanced-IsSpeaking :
    (mid : String) (s : Session) (sp : Speech) (next : ℕ)
    → IsSpeaking mid s sp
    → IsSpeaking mid (reveal_word s sp (some next)) (advanced next sp)
unfolding reveal_word reveal_assistant_message
advanced-IsSpeaking mid s sp next h = record { active = refl; own = h.own }

cleared-IsRevealed : (s : Session) (sp : Speech) → IsRevealed [] sp (reveal_word s sp none)
unfolding reveal_word
cleared-IsRevealed s sp = record {
  speech = record sp { fallback_interval = false };
  active = refl;
  cleared = refl;
  further = omega arith;
  revealed = tt;
}

further-IsRevealed :
    (next : ℕ) (ends : List ℕ) (sp : Speech) (s : Session)
    → IsRevealed ends (advanced next sp) s
    → IsRevealed (next ∷ ends) sp s
further-IsRevealed next ends sp s h = record {
  speech = h.speech;
  active = h.active;
  cleared = h.cleared;
  further = omega (arith, h.further);
  revealed = (omega (arith, h.further), h.revealed);
}

get_elem?-drop :
    (xs : List ℕ) (i : ℕ) (x : ℕ) (rest : List ℕ)
    → drop i xs ≡ x ∷ rest
    → (get_elem? xs i ≡ some x) × (drop (suc i) xs ≡ rest)
get_elem?-drop [] zero x rest e = absurd cc
get_elem?-drop [] (suc i) x rest e = absurd cc
get_elem?-drop (y ∷ xs) zero x rest e = (cc, cc)
get_elem?-drop (y ∷ xs) (suc i) x rest e = get_elem?-drop xs i x rest e

get_elem?-past : (xs : List ℕ) (i : ℕ) → drop i xs ≡ [] → get_elem? xs i ≡ none
get_elem?-past [] i e = refl
get_elem?-past (y ∷ xs) zero e = absurd cc
get_elem?-past (y ∷ xs) (suc i) e = get_elem?-past xs i e

ticks-IsRevealed :
    (rest : List ℕ) (mid : String) (s : Session) (sp : Speech) (i : ℕ)
    → IsSpeaking mid s sp
    → sp.fallback_word_index ≡ some i
    → drop i sp.word_end_indices ≡ rest
    → IsRevealed rest sp (ticks (suc (length rest)) mid s)
ticks-IsRevealed [] mid s sp i h e d =
    subst (IsRevealed [] sp)
      (sym (
        tick-IsSpeaking mid s sp h
        ∙ ap (reveal_word s sp)
            (ap (elem_at sp.word_end_indices) e ∙ get_elem?-past sp.word_end_indices i d)))
      (cleared-IsRevealed s sp)
ticks-IsRevealed (next ∷ rest) mid s sp i h e d =
    let (here, later) = get_elem?-drop sp.word_end_indices i next rest d in
    let tick =
      tick-IsSpeaking mid s sp h
      ∙ ap (reveal_word s sp) (ap (elem_at sp.word_end_indices) e ∙ here) in
    subst (λ t. IsRevealed (next ∷ rest) sp (ticks (suc (length rest)) mid t)) (sym tick)
      (further-IsRevealed next rest sp _ (
        ticks-IsRevealed rest mid (reveal_word s sp (some next)) (advanced next sp) (suc i)
          (advanced-IsSpeaking mid s sp next h) (rw e refl) later))

reveal_word-ShowsWords :
    (s : Session) (sp : Speech) (next : ℕ) (content : Text) (seen : List ℕ)
    → ShowsWords sp.message_id content seen s.messages
    → ShowsWords sp.message_id content (next ∷ seen) (reveal_word s sp (some next)).messages
unfolding reveal_word
reveal_word-ShowsWords s sp next content seen h =
    reveal-ShowsWords (max sp.revealed_char_count next) sp.message_id content next seen
      (with_speech (advanced next sp) s) (omega arith) h

ticks-ShowsWords :
    (rest seen : List ℕ) (mid : String) (s : Session) (sp : Speech) (i : ℕ) (content : Text)
    → IsSpeaking mid s sp
    → sp.fallback_word_index ≡ some i
    → drop i sp.word_end_indices ≡ rest
    → ShowsWords sp.message_id content seen s.messages
    → ShowsWords sp.message_id content (onto rest seen) (ticks (suc (length rest)) mid s).messages
ticks-ShowsWords [] seen mid s sp i content h e d w =
    subst (λ t. ShowsWords sp.message_id content seen t.messages)
      (sym (
        tick-IsSpeaking mid s sp h
        ∙ ap (reveal_word s sp)
            (ap (elem_at sp.word_end_indices) e ∙ get_elem?-past sp.word_end_indices i d)))
      (unfold reveal_word in w)
ticks-ShowsWords (next ∷ rest) seen mid s sp i content h e d w =
    let (here, later) = get_elem?-drop sp.word_end_indices i next rest d in
    let tick =
      tick-IsSpeaking mid s sp h
      ∙ ap (reveal_word s sp) (ap (elem_at sp.word_end_indices) e ∙ here) in
    subst
      (λ t.
        ShowsWords sp.message_id content (onto rest (next ∷ seen))
          (ticks (suc (length rest)) mid t).messages)
      (sym tick)
      (ticks-ShowsWords rest (next ∷ seen) mid (reveal_word s sp (some next)) (advanced next sp)
        (suc i) content (advanced-IsSpeaking mid s sp next h) (rw e refl) later
        (reveal_word-ShowsWords s sp next content seen w))

-- While a reply is spoken, stands in the transcript and its timer is at a word, the timer runs out:
-- after one tick for each word that is left and one more, its interval is cleared, the reply is still
-- the active one, and the words that were left are revealed to their ends. The message in the
-- transcript still has its text, and shows it up to each of these ends, or all of it where it is
-- shorter.
pub ticks_clear :
    (mid : String) (s : Session) (sp : Speech) (i : ℕ) (m : Message)
    → IsSpeaking mid s sp
    → sp.fallback_word_index ≡ some i
    → message_in sp.message_id s.messages ≡ some m
    → IsRevealed
        (drop i sp.word_end_indices)
        sp
        (ticks (suc (length (drop i sp.word_end_indices))) mid s)
      × ShowsWords sp.message_id m.content
          (drop i sp.word_end_indices)
          (ticks (suc (length (drop i sp.word_end_indices))) mid s).messages
ticks_clear mid s sp i m h e f =
    let rest = drop i sp.word_end_indices in
    let w =
      ticks-ShowsWords rest [] mid s sp i m.content h e refl
        (record { message = m; found = f; same_text = refl; shown = tt }) in
    (
      ticks-IsRevealed rest mid s sp i h e refl,
      record {
        message = w.message;
        found = w.found;
        same_text = w.same_text;
        shown = (onto-All (IsShownTo w.message) rest [] w.shown).0;
      },
    )
