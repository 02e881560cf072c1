-- ===== src/Notify/PushLaws.antt =====
-- What a push to a user does to the subscriptions: sendToUser of lib/webPush.ts.
use ai_agentic_english.Prelude.{
  String, Bool, true, false, not, ◌&&◌, List, [], ◌∷◌, ◌++◌, map, ◌≡◌, refl, sym, ap, ◌∙◌, arith,
  filter, any, filter-filter, filter-cong, filter-true, str_eq, if◌then◌else◌, Bool-cases, inl, inr,
}
use mathlib.Core.List.{append_assoc, append-nil}
use ai_agentic_english.Notify.World.{Subscription, PushPayload, World}
use ai_agentic_english.Notify.Push.{
  Delivery, delivered, failed, is_gone_error, delete_subscription, settle_delivery, send_each,
  send_to_user,
}

-- The push service says that the subscription is gone, and the database deletes it.
abbrev pub is_gone : Delivery → Bool
is_gone delivered = false
is_gone (failed status_code deletes) = is_gone_error status_code && deletes

abbrev pub is_delivered : Delivery → Bool
is_delivered delivered = true
is_delivered (failed status_code deletes) = false

module _ (deliver : Subscription → PushPayload → Delivery) (payload : PushPayload) where
  -- One of `ss` has this endpoint, its push service says that it is gone, and it is deleted.
  abbrev pub is_dead : List Subscription → Subscription → Bool
  is_dead ss x = any (λ s. is_gone (deliver s payload) && str_eq x.endpoint s.endpoint) ss

  settle-subscriptions :
      (s : Subscription) (d : Delivery) (w : World)
      → (settle_delivery s payload d w).subscriptions
        ≡ filter (λ x. not (is_gone d && str_eq x.endpoint s.endpoint)) w.subscriptions
  unfolding settle_delivery delete_subscription
  settle-subscriptions s delivered w = sym (filter-true w.subscriptions)
  settle-subscriptions s (failed c d) w = elim (Bool-cases (is_gone_error c && d)) [
    | inl e ↦ rw e refl
    | inr e ↦ rw e (sym (filter-true w.subscriptions))
  ]

  send_each-subscriptions :
      (ss : List Subscription) (w : World)
      → (send_each deliver payload ss w).subscriptions
        ≡ filter (λ x. not (is_dead ss x)) w.subscriptions
  unfolding send_each
  send_each-subscriptions [] w = sym (filter-true w.subscriptions)
  send_each-subscriptions (s ∷ ss) w =
      send_each-subscriptions ss (settle_delivery s payload (deliver s payload) w)
      ∙ ap (filter (λ x. not (is_dead ss x))) (settle-subscriptions s (deliver s payload) w)
      ∙ filter-filter (λ x. not (is_dead ss x))
          (λ x. not (is_gone (deliver s payload) && str_eq x.endpoint s.endpoint)) w.subscriptions
      ∙ filter-cong _ _ (λ x. ground arith) w.subscriptions

  settle-pushes :
      (s : Subscription) (d : Delivery) (w : World)
      → (settle_delivery s payload d w).pushes
        ≡ (if is_delivered d then w.pushes ++ (s, payload) ∷ [] else w.pushes)
  unfolding settle_delivery
  settle-pushes s delivered w = refl
  settle-pushes s (failed c d) w = ground arith

  send_each-pushes :
      (ss : List Subscription) (w : World)
      → (send_each deliver payload ss w).pushes
        ≡ w.pushes ++ map (λ s. (s, payload)) (filter (λ s. is_delivered (deliver s payload)) ss)
  unfolding send_each
  send_each-pushes [] w = sym (append-nil w.pushes)
  send_each-pushes (s ∷ ss) w =
      let ih = send_each-pushes ss (settle_delivery s payload (deliver s payload) w) in
      elim (Bool-cases (is_delivered (deliver s payload))) [
        | inl e ↦ rw (ih, settle-pushes s (deliver s payload) w, e) (rw append_assoc refl)
        | inr e ↦ rw (ih, settle-pushes s (deliver s payload) w, e) refl
      ]

  -- Nothing but the subscriptions and the pushes changes.
  settle-rest :
      (s : Subscription) (d : Delivery) (w : World)
      → (settle_delivery s payload d w).processed_events ≡ w.processed_events
  unfolding settle_delivery
  settle-rest s delivered w = refl
  settle-rest s (failed c d) w = ground arith

  pub send_each-processed :
      (ss : List Subscription) (w : World)
      → (send_each deliver payload ss w).processed_events ≡ w.processed_events
  unfolding send_each
  send_each-processed [] w = refl
  send_each-processed (s ∷ ss) w =
      send_each-processed ss (settle_delivery s payload (deliver s payload) w)
      ∙ settle-rest s (deliver s payload) w

  -- A push to a user removes exactly the subscriptions with the endpoint of one of the user's for
  -- which the push service answers 404 or 410 and the database carries out the delete, and reaches
  -- exactly the user's subscriptions for which the send succeeds, in order.
  pub send_to_user_lem :
      (user : String) (w : World)
      → ((send_to_user deliver user payload w).subscriptions
          ≡ filter
              (λ x. not (is_dead (filter (λ s. str_eq s.clerk_user_id user) w.subscriptions) x))
              w.subscriptions)
        × ((send_to_user deliver user payload w).pushes
            ≡ w.pushes
              ++ map
                  (λ s. (s, payload))
                  (filter
                    (λ s. is_delivered (deliver s payload))
                    (filter (λ s. str_eq s.clerk_user_id user) w.subscriptions)))
  unfolding send_to_user
  send_to_user_lem user w = (send_each-subscriptions _ w, send_each-pushes _ w)
