-- ===== src/Notify/SubscriptionLaws.antt =====
-- Whose subscriptions the routes of pushSubscriptions.ts may change.
use ai_agentic_english.Prelude.{
  String, Bool, false, ◌&&◌, ◌||◌, Option, List, [], ◌∷◌, ◌≡◌, ◌≢◌, refl, arith, sym, any, filter,
  str_eq, eq_iff, Bool-cases, inl, inr,
}
use ai_agentic_english.Shared.Effect.{Result, ok, err, lift, modify, ◌>>=◌}
use ai_agentic_english.Shared.Json.{Json}
use ai_agentic_english.Notify.World.{Subscription, World}
use ai_agentic_english.Notify.Subscriptions.{
  SubscribeBody, property, read_endpoint, parse_subscribe_body, upsert_subscription, delete_own,
  post_subscription, delete_subscription_route,
}

abbrev pub is_at : String → Subscription → Bool
is_at endpoint s = str_eq s.endpoint endpoint

abbrev pub is_of : String → Subscription → Bool
is_of clerk_user_id s = str_eq s.clerk_user_id clerk_user_id

-- No endpoint has two rows.
abbrev pub Single : List Subscription → Type 0
Single [] = Unit
Single (s ∷ ss) = (any (is_at s.endpoint) ss ≡ false) × Single ss

any-upsert :
    (e : String) (n : Subscription) (ss : List Subscription)
    → any (is_at e) (upsert_subscription n ss) ≡ (str_eq n.endpoint e || any (is_at e) ss)
unfolding upsert_subscription
any-upsert e n [] = ground arith
any-upsert e n (s ∷ ss) = ground (
  arith,
  eq_iff n.endpoint e,
  eq_iff s.endpoint n.endpoint,
  eq_iff s.endpoint e,
  any-upsert e n ss,
)

upsert-Single :
    (n : Subscription) (ss : List Subscription) → Single ss → Single (upsert_subscription n ss)
unfolding upsert_subscription
upsert-Single n [] h = (refl, tt)
upsert-Single n (s ∷ ss) (fresh, h) = elim (Bool-cases (str_eq s.endpoint n.endpoint)) [
  | inl e ↦ rw e (rw (sym ((eq_iff s.endpoint n.endpoint).0 e)) fresh, h)
  | inr e ↦ rw e (
    ground (
      arith,
      any-upsert s.endpoint n ss,
      eq_iff n.endpoint s.endpoint,
      eq_iff s.endpoint n.endpoint,
    ),
    upsert-Single n ss h,
  )
]

pub any-delete :
    (e x u : String) (ss : List Subscription)
    → any (is_at e) ss ≡ false
    → any (is_at e) (delete_own x u ss) ≡ false
unfolding delete_own
any-delete e x u [] h = refl
any-delete e x u (s ∷ ss) h = ground (arith, any-delete e x u ss)

delete-Single : (x u : String) (ss : List Subscription) → Single ss → Single (delete_own x u ss)
unfolding delete_own
delete-Single x u [] h = tt
delete-Single x u (s ∷ ss) (fresh, h) =
    elim (Bool-cases (str_eq s.endpoint x && str_eq s.clerk_user_id u)) [
      | inl e ↦ rw e (delete-Single x u ss h)
      | inr e ↦ rw e (any-delete s.endpoint x u ss fresh, delete-Single x u ss h)
    ]

-- Where no endpoint has two rows, none has two after either route, whatever the body.
pub routes-Single :
    (user : String) (body : Option Json) (w : World)
    → Single w.subscriptions
    → Single (post_subscription user body w).1.subscriptions
      × Single (delete_subscription_route user body w).1.subscriptions
unfolding post_subscription delete_subscription_route
routes-Single user body w h =
    (posted (parse_subscribe_body body), deleted (read_endpoint (property "endpoint" body)))
  where
    posted :
        (r : Result SubscribeBody)
        → Single
            ((lift r >>= λ b. modify (λ v. record v {
              subscriptions =
                  upsert_subscription
                    (record {
                      endpoint = b.endpoint;
                      clerk_user_id = user;
                      p256dh = b.p256dh;
                      auth = b.auth;
                    })
                    v.subscriptions;
            }))
              w).1.subscriptions
    posted (ok b) = upsert-Single _ w.subscriptions h
    posted (err e) = h

    deleted :
        (r : Result String)
        → Single
            ((lift r >>= λ x.
                modify (λ v. record v { subscriptions = delete_own x user v.subscriptions }))
              w).1.subscriptions
    deleted (ok x) = delete-Single x user w.subscriptions h
    deleted (err e) = h

delete_own-others :
    (x user other : String) (ss : List Subscription)
    → user ≢ other
    → filter (is_of other) (delete_own x user ss) ≡ filter (is_of other) ss
unfolding delete_own
delete_own-others x user other [] ne = refl
delete_own-others x user other (s ∷ ss) ne = ground (
  arith,
  eq_iff s.clerk_user_id user,
  eq_iff s.clerk_user_id other,
  delete_own-others x user other ss ne,
)

-- Whatever its body, a request to delete leaves every other user's subscriptions as they were.
pub delete_subscription_route-others :
    (user other : String) (body : Option Json) (w : World)
    → user ≢ other
    → filter (is_of other) (delete_subscription_route user body w).1.subscriptions
      ≡ filter (is_of other) w.subscriptions
unfolding delete_subscription_route
delete_subscription_route-others user other body w ne =
    go (read_endpoint (property "endpoint" body))
  where
    go :
        (r : Result String)
        → filter
            (is_of other)
            ((lift r >>= λ x.
                modify (λ v. record v { subscriptions = delete_own x user v.subscriptions }))
              w).1.subscriptions
          ≡ filter (is_of other) w.subscriptions
    go (ok x) = delete_own-others x user other w.subscriptions ne
    go (err e) = refl
