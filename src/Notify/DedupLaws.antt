-- ===== src/Notify/DedupLaws.antt =====
-- At-least-once delivery against the event log: withDedup and the consumers of kafka/.
use mathlib.Core.Path.{subst}
use ai_agentic_english.Prelude.{
  String, Bool, true, false, ◌||◌, List, [], ◌∷◌, ◌≡◌, refl, sym, ap, ◌∙◌, arith, any-append,
  filter, str_eq, eq_refl, Bool-cases, inl, inr,
}
use ai_agentic_english.Shared.Errors.{Thrown}
use ai_agentic_english.Shared.Effect.{Result, ok, err, Effect, continue, modify, ◌>>◌}
use ai_agentic_english.Notify.World.{
  Subscription, PushPayload, World, NovuCall, novu_after, novu, upsert_subscriber,
  delete_subscriber,
}
use ai_agentic_english.Notify.Push.{Delivery, send_to_user}
use ai_agentic_english.Notify.PushLaws.{send_each-processed}
use ai_agentic_english.Notify.Consumers.{
  handle_user_upserted, handle_user_deleted, handle_learning_path_ready,
  handle_achievement_unlocked, Payload, user_upserted, user_deleted, learning_path_ready,
  achievement_unlocked, unknown_topic, Event, is_processed, mark_processed, with_dedup,
  delete_user_rows, path_ready_push, achievement_push, handle, dispatch, on_message,
}

-- The outcome of a call keeps the log of events.
abbrev KeepsLog : World → Result (Unit {0}) × World → Type 0
KeepsLog w r = r.1.processed_events ≡ w.processed_events

novu-KeepsLog : (call : NovuCall) (w : World) → KeepsLog w (novu call w)
unfolding novu novu_after
novu-KeepsLog call w = go w.faults
  where
    go : (faults : List Bool) → KeepsLog w (novu_after faults call w)
    go [] = refl
    go (false ∷ faults) = refl
    go (true ∷ faults) = refl

then_modify-KeepsLog :
    (w : World) (r : Result (Unit {0}) × World) (f : World → World)
    → ((v : World) → (f v).processed_events ≡ v.processed_events)
    → KeepsLog w r
    → KeepsLog w (continue r (λ _. modify f))
then_modify-KeepsLog w (ok a, t) f h k = h t ∙ k
then_modify-KeepsLog w (err e, t) f h k = k

module _ (deliver : Subscription → PushPayload → Delivery) where
  send-KeepsLog :
      (user : String) (p : PushPayload) (v : World)
      → (send_to_user deliver user p v).processed_events ≡ v.processed_events
  unfolding send_to_user
  send-KeepsLog user p v =
      send_each-processed deliver p (filter (λ s. str_eq s.clerk_user_id user) v.subscriptions) v

  handle-KeepsLog : (p : Payload) (w : World) → KeepsLog w (handle deliver p w)
  unfolding handle handle_user_upserted handle_user_deleted handle_learning_path_ready
      handle_achievement_unlocked delete_user_rows
  handle-KeepsLog (user_upserted u e n) w = novu-KeepsLog (upsert_subscriber u e n) w
  handle-KeepsLog (user_deleted u) w = novu-KeepsLog (delete_subscriber u) (delete_user_rows u w)
  handle-KeepsLog (learning_path_ready u p) w =
      then_modify-KeepsLog w (novu _ w) _ (send-KeepsLog u path_ready_push) (novu-KeepsLog _ w)
  handle-KeepsLog (achievement_unlocked u a m) w =
      then_modify-KeepsLog w (novu _ w) _ (send-KeepsLog u (achievement_push a)) (novu-KeepsLog _ w)
  handle-KeepsLog unknown_topic w = refl

is_processed-mark : (e : String) (w : World) → is_processed e (mark_processed e w) ≡ true
unfolding is_processed mark_processed
is_processed-mark e w = rw (any-append (λ x. str_eq x e) w.processed_events (e ∷ [])) (go _)
  where
    go : (b : Bool) → (b || (str_eq e e || false)) ≡ true
    go b = ground (arith, eq_refl e)

-- What an event's handling leaves in the log: the event where it returned, the old log where it
-- threw.
abbrev Logged : String → World → Result (Unit {0}) × World → Type 0
Logged e w (ok a, t) = is_processed e t ≡ true
Logged e w (err x, t) = t.processed_events ≡ w.processed_events

then_mark-Logged :
    (e : String) (w : World) (r : Result (Unit {0}) × World)
    → KeepsLog w r
    → Logged e w (continue r (λ _. modify (mark_processed e)))
then_mark-Logged e w (ok a, t) k = is_processed-mark e t
then_mark-Logged e w (err x, t) k = k

with_dedup-Logged :
    (e : String) (h : Effect World (Unit {0})) (w : World)
    → KeepsLog w (h w)
    → Logged e w (with_dedup e h w)
unfolding with_dedup
with_dedup-Logged e h w k = elim (Bool-cases (is_processed e w)) [
  | inl seen ↦ rw seen seen
  | inr fresh ↦ rw fresh (then_mark-Logged e w (h w) k)
]

Logged-ok :
    (e : String) (w : World) (r : Result (Unit {0}) × World) (t : World)
    → Logged e w r
    → r ≡ (ok tt, t)
    → is_processed e t ≡ true
Logged-ok e w r t h p = subst (Logged e w) p h

Logged-err :
    (e : String) (w : World) (r : Result (Unit {0}) × World) (x : Thrown) (t : World)
    → Logged e w r
    → r ≡ (err x, t)
    → t.processed_events ≡ w.processed_events
Logged-err e w r x t h p = subst (Logged e w) p h

unlogged :
    (e : String) (t w : World)
    → t.processed_events ≡ w.processed_events
    → is_processed e w ≡ false
    → is_processed e t ≡ false
unfolding is_processed
unlogged e t w h fresh = rw h fresh

with_dedup-fresh :
    (e : String) (h : Effect World (Unit {0})) (w : World)
    → is_processed e w ≡ false
    → with_dedup e h w ≡ (h >> modify (mark_processed e)) w
unfolding with_dedup
with_dedup-fresh e h w fresh = rw fresh refl

-- An event that was processed is skipped.
with_dedup-processed :
    (e : String) (h : Effect World (Unit {0})) (w : World)
    → is_processed e w ≡ true
    → with_dedup e h w ≡ (ok tt, w)
unfolding with_dedup
with_dedup-processed e h w seen = rw seen refl

-- A handling that threw had not been skipped.
with_dedup-threw :
    (e : String) (h : Effect World (Unit {0})) (w : World) (x : Thrown) (t : World)
    → with_dedup e h w ≡ (err x, t)
    → is_processed e w ≡ false
with_dedup-threw e h w x t threw = elim (Bool-cases (is_processed e w)) [
  | inl seen ↦ cc (with_dedup-processed e h w seen)
  | inr fresh ↦ fresh
]

-- The log only grows.
abbrev Grows : World → World → Type 0
Grows w t = (e : String) → is_processed e w ≡ true → is_processed e t ≡ true

Grows-same : (w t : World) → t.processed_events ≡ w.processed_events → Grows w t
unfolding is_processed
Grows-same w t h e seen = rw h seen

Grows-mark : (e : String) (w : World) → Grows w (mark_processed e w)
unfolding is_processed mark_processed
Grows-mark e w f seen = rw (any-append (λ x. str_eq x f) w.processed_events (e ∷ [])) (rw seen refl)

then_mark-Grows :
    (e : String) (w : World) (r : Result (Unit {0}) × World)
    → KeepsLog w r
    → Grows w (continue r (λ _. modify (mark_processed e))).1
then_mark-Grows e w (ok a, t) k = λ f seen. Grows-mark e t f (Grows-same w t k f seen)
then_mark-Grows e w (err x, t) k = Grows-same w t k

with_dedup-Grows :
    (e : String) (h : Effect World (Unit {0})) (w : World)
    → KeepsLog w (h w)
    → Grows w (with_dedup e h w).1
unfolding with_dedup
with_dedup-Grows e h w k f seen = elim (Bool-cases (is_processed e w)) [
  | inl old ↦ rw old seen
  | inr fresh ↦ rw fresh (then_mark-Grows e w (h w) k f seen)
]

-- The topics that the service subscribes to.
abbrev pub is_known : Payload → Bool
is_known unknown_topic = false
is_known _ = true

module _ (deliver : Subscription → PushPayload → Delivery) where
  dispatch_known :
      (e : String) (p : Payload)
      → is_known p ≡ true
      → dispatch deliver e p ≡ with_dedup e (handle deliver p)
  unfolding dispatch
  dispatch_known e unknown_topic h = cc
  dispatch_known e (user_upserted _ _ _) h = refl
  dispatch_known e _ h = refl

  dispatch-Grows : (e : String) (p : Payload) (w : World) → Grows w (dispatch deliver e p w).1
  unfolding dispatch
  dispatch-Grows e unknown_topic w = λ f seen. seen
  dispatch-Grows e (user_upserted a b c) w =
      with_dedup-Grows e (handle deliver (user_upserted a b c)) w
        (handle-KeepsLog deliver (user_upserted a b c) w)
  dispatch-Grows e p w = with_dedup-Grows e (handle deliver p) w (handle-KeepsLog deliver p w)

  -- The deliveries of a topic's messages, in any number and order; a handler that throws does not
  -- stop the consumer.
  pub consume : List Event → World → World
  consume [] w = w
  consume (e ∷ es) w = consume es (on_message deliver e w).1

  consume-Grows : (es : List Event) (w : World) → Grows w (consume es w)
  unfolding consume on_message
  consume-Grows [] w f seen = seen
  consume-Grows (e ∷ es) w f seen =
      consume-Grows es _ f (dispatch-Grows e.event_id e.payload w f seen)

  -- An event of a known topic whose handling returned changes nothing when it is delivered again,
  -- whatever was delivered in between.
  pub on_message_redelivered :
      (e : Event) (es : List Event) (w t : World)
      → is_known e.payload ≡ true
      → on_message deliver e w ≡ (ok tt, t)
      → on_message deliver e (consume es t) ≡ (ok tt, consume es t)
  unfolding on_message
  on_message_redelivered e es w t known first =
      let same = dispatch_known e.event_id e.payload known in
      let seen : is_processed e.event_id t ≡ true =
        Logged-ok e.event_id w (with_dedup e.event_id (handle deliver e.payload) w) t
          (with_dedup-Logged e.event_id (handle deliver e.payload) w
            (handle-KeepsLog deliver e.payload w))
          (ap (λ f. f w) (sym same) ∙ first) in
      ap (λ f. f (consume es t)) same
      ∙ with_dedup-processed e.event_id (handle deliver e.payload) (consume es t)
          (consume-Grows es t e.event_id seen)

  -- An event of a known topic whose handling threw is not recorded, so its next delivery is handled
  -- again.
  pub on_message_retried :
      (e : Event) (w t : World) (x : Thrown)
      → is_known e.payload ≡ true
      → on_message deliver e w ≡ (err x, t)
      → (t.processed_events ≡ w.processed_events)
        × (on_message deliver e t
            ≡ (handle deliver e.payload >> modify (mark_processed e.event_id)) t)
  unfolding on_message
  on_message_retried e w t x known first =
      let same = dispatch_known e.event_id e.payload known in
      let threw = ap (λ f. f w) (sym same) ∙ first in
      let kept : t.processed_events ≡ w.processed_events =
        Logged-err e.event_id w (with_dedup e.event_id (handle deliver e.payload) w) x t
          (with_dedup-Logged e.event_id (handle deliver e.payload) w
            (handle-KeepsLog deliver e.payload w))
          threw in
      (
        kept,
        ap (λ f. f t) same
            ∙ with_dedup-fresh e.event_id (handle deliver e.payload) t (
                unlogged e.event_id t w kept
                  (with_dedup-threw e.event_id (handle deliver e.payload) w x t threw)),
      )
