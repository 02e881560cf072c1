-- ===== src/Speaking/SpeechLaws.antt =====
-- Every speech callback of useSpeakingRealtimeSession keeps the session's invariant and only
-- extends what the transcript shows.
use ai_agentic_english.Prelude.{
  ℕ, zero, suc, ◌≤◌, max, String, Bool, true, false, not, ◌&&◌, ◌||◌, Option, none, some, List, [],
  ◌∷◌, ◌≡◌, refl, arith, length, get_elem?, All, Bool-cases, inl, inr, str_eq, ◌==◌,
}
use ai_agentic_english.Prelude.Int.{ℤ}
use ai_agentic_english.Speaking.Types.{Text, Speech}
use ai_agentic_english.Speaking.Words.{get_word_end_indices, get_reveal_char_count_for_boundary}
use ai_agentic_english.Speaking.Words.Boundary.{get_word_end_indices-le}
use ai_agentic_english.Speaking.Session.{Session}
use ai_agentic_english.Speaking.Speech.{
  finish_assistant_message_reveal, reveal_assistant_message, clear_speech_timers, stop_speech,
  stop_active_speech, only_live, live_speech, with_speech, elem_at, reveal_word, reveal_next_word,
  reveal_next_fallback_word, begin_fallback, start_fallback, start_fallback_reveal, reveal_speech,
  reveal_active_speech, finish_speech, finish_active_speech, on_speech_start, stop_timers,
  on_speech_boundary, Synthesis, new_speech, has_no_words, speak_assistant_reply,
}
use ai_agentic_english.Speaking.Invariant.{
  IsSpeaking, SpeechValid, IsValid, Keeps, Keeps-refl, Keeps-trans, Keeps-if, with_speech-Keeps,
  without_speech-Keeps, finish_reveal-Keeps, reveal-Keeps,
}

-- Change the speech, then the messages.
respeak-Keeps :
    (sp : Speech) (mid : String) (n : ℕ) (s : Session)
    → IsValid s
    → IsSpeaking sp
    → Keeps s (reveal_assistant_message mid n (with_speech sp s))
respeak-Keeps sp mid n s v h =
    let spoken = with_speech-Keeps sp s v h in
    Keeps-trans s (with_speech sp s) _ spoken (reveal-Keeps mid n (with_speech sp s) spoken.valid)

unspeak-Keeps :
    (mid : String) (s : Session)
    → IsValid s
    → Keeps s (finish_assistant_message_reveal mid (record s { active_speech = none }))
unspeak-Keeps mid s v =
    let quiet = without_speech-Keeps s v in
    Keeps-trans s (record s { active_speech = none }) _ quiet
      (finish_reveal-Keeps mid (record s { active_speech = none }) quiet.valid)

stop_speech-Keeps :
    (full : Bool) (s : Session) (o : Option Speech) → IsValid s → Keeps s (stop_speech full s o)
unfolding stop_speech
stop_speech-Keeps full s none v = Keeps-refl s v
stop_speech-Keeps full s (some sp) v =
    Keeps-if full s _ _ (unspeak-Keeps sp.message_id s v) (without_speech-Keeps s v)

pub stop_active_speech-Keeps :
    (full : Bool) (s : Session) → IsValid s → Keeps s (stop_active_speech full s)
unfolding stop_active_speech
stop_active_speech-Keeps full s v = stop_speech-Keeps full s s.active_speech v

only_live-Valid : (mid : String) (o : Option Speech) → SpeechValid o → SpeechValid (only_live mid o)
unfolding only_live
only_live-Valid mid none h = tt
only_live-Valid mid (some sp) h = elim (Bool-cases (str_eq sp.message_id mid && not sp.completed)) [
  | inl e ↦ rw e h
  | inr e ↦ rw e tt
]

live_speech-Valid : (mid : String) (s : Session) → IsValid s → SpeechValid (live_speech mid s)
unfolding live_speech
live_speech-Valid mid s v = only_live-Valid mid s.active_speech v.speech

get_elem?-le :
    (n : ℕ) (xs : List ℕ) (i : ℕ) {e : ℕ} → All (λ x. x ≤ n) xs → get_elem? xs i ≡ some e → e ≤ n
get_elem?-le n [] i h p = cc
get_elem?-le n (x ∷ xs) zero (q, h) p = ground arith
get_elem?-le n (x ∷ xs) (suc i) (q, h) p = get_elem?-le n xs i h p

elem_at-le :
    (n : ℕ) (xs : List ℕ) (i : Option ℕ) {e : ℕ}
    → All (λ x. x ≤ n) xs
    → elem_at xs i ≡ some e
    → e ≤ n
elem_at-le n xs none h p = cc
elem_at-le n xs (some i) h p = get_elem?-le n xs i h p

word_end-le :
    (sp : Speech) {e : ℕ}
    → IsSpeaking sp
    → elem_at sp.word_end_indices sp.fallback_word_index ≡ some e
    → e ≤ length sp.content
word_end-le sp h p =
    elem_at-le (length sp.content) sp.word_end_indices sp.fallback_word_index
      (rw h.words (get_word_end_indices-le sp.content)) p

reveal_word-Keeps :
    (s : Session) (sp : Speech) (o : Option ℕ)
    → IsValid s
    → IsSpeaking sp
    → ((e : ℕ) → o ≡ some e → e ≤ length sp.content)
    → Keeps s (reveal_word s sp o)
unfolding reveal_word
reveal_word-Keeps s sp none v h w =
    with_speech-Keeps _ s v (record { live = h.live; words = h.words; within = h.within })
reveal_word-Keeps s sp (some e) v h w =
    let small : e ≤ length sp.content = w e refl in
    respeak-Keeps _ sp.message_id (max sp.revealed_char_count e) s v
      (record { live = h.live; words = h.words; within = omega (arith, h.within) })

reveal_next_word-Keeps :
    (s : Session) (o : Option Speech) → IsValid s → SpeechValid o → Keeps s (reveal_next_word s o)
unfolding reveal_next_word
reveal_next_word-Keeps s none v h = Keeps-refl s v
reveal_next_word-Keeps s (some sp) v h = reveal_word-Keeps s sp _ v h (λ e p. word_end-le sp h p)

pub reveal_next_fallback_word-Keeps :
    (mid : String) (s : Session) → IsValid s → Keeps s (reveal_next_fallback_word mid s)
unfolding reveal_next_fallback_word
reveal_next_fallback_word-Keeps mid s v =
    reveal_next_word-Keeps s (live_speech mid s) v (live_speech-Valid mid s v)

begin_fallback-Keeps :
    (mid : String) (s : Session) (sp : Speech) (o : Option ℕ)
    → IsValid s
    → IsSpeaking sp
    → Keeps s (begin_fallback mid s sp o)
unfolding begin_fallback
begin_fallback-Keeps mid s sp none v h =
    with_speech-Keeps _ s v (record { live = h.live; words = h.words; within = h.within })
begin_fallback-Keeps mid s sp (some i) v h =
    let begun =
      with_speech-Keeps
        (record sp {
          fallback_start_timer = false;
          fallback_word_index = some i;
          fallback_interval = true;
        })
        s v (record { live = h.live; words = h.words; within = h.within }) in
    Keeps-trans s _ _ begun (reveal_next_fallback_word-Keeps mid _ begun.valid)

start_fallback-Keeps :
    (mid : String) (s : Session) (o : Option Speech)
    → IsValid s
    → SpeechValid o
    → Keeps s (start_fallback mid s o)
unfolding start_fallback
start_fallback-Keeps mid s none v h = Keeps-refl s v
start_fallback-Keeps mid s (some sp) v h =
    Keeps-if sp.fallback_interval s _ _
      (with_speech-Keeps _ s v (record { live = h.live; words = h.words; within = h.within }))
      (begin_fallback-Keeps mid s sp _ v h)

pub start_fallback_reveal-Keeps :
    (mid : String) (s : Session) → IsValid s → Keeps s (start_fallback_reveal mid s)
unfolding start_fallback_reveal
start_fallback_reveal-Keeps mid s v =
    start_fallback-Keeps mid s (live_speech mid s) v (live_speech-Valid mid s v)

reveal_speech-Keeps :
    (n : ℕ) (s : Session) (o : Option Speech)
    → IsValid s
    → SpeechValid o
    → Keeps s (reveal_speech n s o)
unfolding reveal_speech
reveal_speech-Keeps n s none v h = Keeps-refl s v
reveal_speech-Keeps n s (some sp) v h =
    respeak-Keeps _ sp.message_id _ s v
      (record { live = h.live; words = h.words; within = omega (arith, h.within) })

reveal_active_speech-Keeps :
    (mid : String) (n : ℕ) (s : Session) → IsValid s → Keeps s (reveal_active_speech mid n s)
unfolding reveal_active_speech
reveal_active_speech-Keeps mid n s v =
    reveal_speech-Keeps n s (live_speech mid s) v (live_speech-Valid mid s v)

finish_speech-Keeps : (s : Session) (o : Option Speech) → IsValid s → Keeps s (finish_speech s o)
unfolding finish_speech
finish_speech-Keeps s none v = Keeps-refl s v
finish_speech-Keeps s (some sp) v = unspeak-Keeps sp.message_id s v

pub finish_active_speech-Keeps :
    (mid : String) (s : Session) → IsValid s → Keeps s (finish_active_speech mid s)
unfolding finish_active_speech
finish_active_speech-Keeps mid s v = finish_speech-Keeps s (live_speech mid s) v

pub on_speech_start-Keeps :
    (mid : String) (reply : Text) (s : Session) → IsValid s → Keeps s (on_speech_start mid reply s)
unfolding on_speech_start
on_speech_start-Keeps mid reply s v = reveal_active_speech-Keeps mid _ s v

stop_timers-Keeps :
    (s : Session) (o : Option Speech) → IsValid s → SpeechValid o → Keeps s (stop_timers s o)
unfolding stop_timers clear_speech_timers
stop_timers-Keeps s none v h = Keeps-refl s v
stop_timers-Keeps s (some sp) v h =
    with_speech-Keeps _ s v (record { live = h.live; words = h.words; within = h.within })

pub on_speech_boundary-Keeps :
    (mid : String) (reply : Text) (index : Option ℤ) (name : String) (s : Session)
    → IsValid s
    → Keeps s (on_speech_boundary mid reply index name s)
unfolding on_speech_boundary
on_speech_boundary-Keeps mid reply none name s v = Keeps-refl s v
on_speech_boundary-Keeps mid reply (some index) name s v =
    let after : Session =
      reveal_active_speech mid (get_reveal_char_count_for_boundary reply index) s in
    let shown : Keeps s after =
      reveal_active_speech-Keeps mid (get_reveal_char_count_for_boundary reply index) s v in
    Keeps-if _ s _ after
      (Keeps-trans s after _ shown (
        stop_timers-Keeps after (live_speech mid after) shown.valid
          (live_speech-Valid mid after shown.valid)))
      shown

pub speak_assistant_reply-Keeps :
    (browser : Synthesis) (mid : String) (reply : Text) (s : Session)
    → IsValid s
    → Keeps s (speak_assistant_reply browser mid reply s)
unfolding speak_assistant_reply
speak_assistant_reply-Keeps browser mid reply s v =
    let quiet = stop_active_speech-Keeps true s v in
    let finished = Keeps-trans s _ _ quiet (finish_reveal-Keeps mid _ quiet.valid) in
    let spoken = Keeps-trans s _ _ quiet (
      with_speech-Keeps (new_speech mid reply) (stop_active_speech true s) quiet.valid
        (record { live = refl; words = refl; within = omega arith })) in
    Keeps-if (not browser.supported) s _ _ finished (
      Keeps-if (length reply == 0 || has_no_words (get_word_end_indices reply)) s _ _ finished (
        Keeps-if browser.speak_throws s _ _
          (Keeps-trans s _ _ spoken (finish_active_speech-Keeps mid _ spoken.valid)) spoken))
