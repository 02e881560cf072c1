-- ===== src/Notify/SubscriptionRows.antt =====
-- What the routes of pushSubscriptions.ts make of the row of each endpoint.
use ai_agentic_english.Prelude.{
  String, Bool, false, ◌&&◌, Option, none, some, if◌then◌else◌, List, [], ◌∷◌, ◌≡◌, refl, arith,
  any, find, str_eq, eq_iff, Bool-cases, inl, inr,
}
use mathlib.Core.Path.{subst}
use ai_agentic_english.Shared.Effect.{Result, ok, err, lift, modify, ◌>>=◌}
use ai_agentic_english.Shared.Json.{Json}
use ai_agentic_english.Notify.World.{Subscription, World}
use ai_agentic_english.Notify.Subscriptions.{
  SubscribeBody, property, read_endpoint, parse_subscribe_body, upsert_subscription, delete_own,
  post_subscription, delete_subscription_route,
}
use ai_agentic_english.Notify.SubscriptionLaws.{is_at, is_of, Single, any-delete}

-- The row of an endpoint.
abbrev pub row_at : String → List Subscription → Option Subscription
row_at endpoint = find (is_at endpoint)

abbrev is_owned : String → Option Subscription → Bool
is_owned user none = false
is_owned user (some s) = is_of user s

-- What becomes of the row of an endpoint: a body that is accepted writes the caller's row at its own
-- endpoint; a request to delete removes the row of its endpoint if it is the caller's.
abbrev pub posted_row :
    String → String → Result SubscribeBody → Option Subscription → Option Subscription
posted_row user endpoint (ok b) before =
    if str_eq b.endpoint endpoint
    then some
        (record { endpoint = b.endpoint; clerk_user_id = user; p256dh = b.p256dh; auth = b.auth })
    else before
posted_row user endpoint (err e) before = before

abbrev pub deleted_row : String → String → Result String → Option Subscription → Option Subscription
deleted_row user endpoint (ok x) before =
    if str_eq x endpoint && is_owned user before then none else before
deleted_row user endpoint (err e) before = before

row_at-upsert :
    (e : String) (n : Subscription) (ss : List Subscription)
    → row_at e (upsert_subscription n ss) ≡ (if str_eq n.endpoint e then some n else row_at e ss)
unfolding upsert_subscription
row_at-upsert e n [] = refl
row_at-upsert e n (s ∷ ss) = ground (
  arith,
  eq_iff n.endpoint e,
  eq_iff s.endpoint n.endpoint,
  eq_iff s.endpoint e,
  row_at-upsert e n ss,
)

row_at-none : (e : String) (ss : List Subscription) → any (is_at e) ss ≡ false → row_at e ss ≡ none
row_at-none e [] h = refl
row_at-none e (s ∷ ss) h = ground (arith, row_at-none e ss, h)

row_at-delete :
    (e x u : String) (ss : List Subscription)
    → Single ss
    → row_at e (delete_own x u ss)
      ≡ (if str_eq x e && is_owned u (row_at e ss) then none else row_at e ss)
unfolding delete_own
row_at-delete e x u [] h = ground arith
row_at-delete e x u (s ∷ ss) (fresh, h) = elim (Bool-cases (str_eq s.endpoint e)) [
  | inl same ↦
      let at_e : s.endpoint ≡ e = (eq_iff s.endpoint e).0 same in
      let gone : row_at e (delete_own x u ss) ≡ none =
        row_at-none e (delete_own x u ss)
          (any-delete e x u ss (subst (λ y. any (is_at y) ss ≡ false) at_e fresh)) in
      ground (arith, eq_iff x e, eq_iff s.endpoint x, eq_iff s.endpoint e, gone, same, at_e)
  | inr other ↦ ground (arith, row_at-delete e x u ss h, other)
]

-- Where no endpoint has two rows: whatever the bodies, after a subscription is posted the row of
-- every endpoint is as it was, but for the endpoint of a body that is accepted, whose row is the
-- caller's with the given keys; and after a request to delete it is as it was, but for the endpoint
-- that the body names where its row is the caller's, which has no row any more.
pub routes-row_at :
    (user endpoint : String) (body : Option Json) (w : World)
    → Single w.subscriptions
    → (row_at endpoint (post_subscription user body w).1.subscriptions
        ≡ posted_row user endpoint (parse_subscribe_body body) (row_at endpoint w.subscriptions))
      × (row_at endpoint (delete_subscription_route user body w).1.subscriptions
          ≡ deleted_row user endpoint
              (read_endpoint (property "endpoint" body))
              (row_at endpoint w.subscriptions))
unfolding post_subscription delete_subscription_route
routes-row_at user endpoint body w h =
    (posted (parse_subscribe_body body), deleted (read_endpoint (property "endpoint" body)))
  where
    posted :
        (r : Result SubscribeBody)
        → row_at endpoint
            ((lift r >>= λ b. modify (λ v. record v {
              subscriptions =
                  upsert_subscription
                    (record {
                      endpoint = b.endpoint;
                      clerk_user_id = user;
                      p256dh = b.p256dh;
                      auth = b.auth;
                    })
                    v.subscriptions;
            }))
              w).1.subscriptions
          ≡ posted_row user endpoint r (row_at endpoint w.subscriptions)
    posted (ok b) = row_at-upsert endpoint _ w.subscriptions
    posted (err e) = refl

    deleted :
        (r : Result String)
        → row_at endpoint
            ((lift r >>= λ x.
                modify (λ v. record v { subscriptions = delete_own x user v.subscriptions }))
              w).1.subscriptions
          ≡ deleted_row user endpoint r (row_at endpoint w.subscriptions)
    deleted (ok x) = row_at-delete endpoint x user w.subscriptions h
    deleted (err e) = refl
