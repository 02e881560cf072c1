-- ===== src/Notify/OncePerDay.antt =====
-- A reminder job that runs again notifies nobody again: withScheduledReminder of
-- scheduler/schedulerGuard.ts, for the handlers of dailyReminder.ts and vocabOfTheDay.ts.
use mathlib.Core.Path.{subst}
use ai_agentic_english.Prelude.{
  String, Bool, true, false, ◌||◌, List, [], ◌∷◌, ◌≡◌, inl, inr, refl, sym, ◌∙◌, arith, any-append,
  filter, eq_refl, if◌then◌else◌, Bool-cases, All,
}
use ai_agentic_english.Shared.Errors.{Thrown}
use ai_agentic_english.Shared.Effect.{Result, ok, err, Effect, continue, modify}
use ai_agentic_english.Notify.World.{World}
use ai_agentic_english.Notify.Scheduler.{
  User, ReminderContext, Outside, Handler, is_due, is_run, already_sent, create_run, notify_user,
  process_user, join, process_batch, process_batches, chunk, with_scheduled_reminder,
  reminder_concurrency,
}

-- What the guard relies on: a handler leaves the table of runs alone, and where it notifies nobody
-- it does nothing and would do so in every state.
pub record IsReminder (h : Handler) : Type 0 where
  pub keeps_runs :
      (u : String) (c : ReminderContext) (w : World) → (h u c w).1.reminder_runs ≡ w.reminder_runs
  pub silent :
      (u : String) (c : ReminderContext) (w t : World)
      → h u c w ≡ (ok false, t)
      → (v : World) → h u c v ≡ (ok false, v)

-- More runs are recorded than before.
abbrev MoreRuns : World → World → Type 0
MoreRuns w t = (u k d : String) → already_sent u k d w ≡ true → already_sent u k d t ≡ true

MoreRuns-same : (w t : World) → t.reminder_runs ≡ w.reminder_runs → MoreRuns w t
unfolding already_sent
MoreRuns-same w t h u k d seen = rw h seen

MoreRuns-create : (a b c : String) (w : World) → MoreRuns w (create_run a b c w)
unfolding already_sent create_run
MoreRuns-create a b c w u k d seen =
    rw
      (any-append (is_run u k d) w.reminder_runs
        (record { user_id = a; reminder_type = b; run_date = c } ∷ []))
      (rw seen refl)

already_sent-create : (u k d : String) (w : World) → already_sent u k d (create_run u k d w) ≡ true
unfolding already_sent create_run is_run
already_sent-create u k d w =
    rw
      (any-append (is_run u k d) w.reminder_runs
        (record { user_id = u; reminder_type = k; run_date = d } ∷ []))
      (rw (eq_refl u, eq_refl k, eq_refl d) (or-true _))
  where
    or-true : (b : Bool) → (b || true) ≡ true
    or-true b = ground arith

err-ne-ok :
    (x : Thrown) (w t : World) → ◌≡◌ {A = Result (Unit {0}) × World} (err x, w) (ok tt, t) → ⊥
err-ne-ok x w t p = cc

module _ (o : Outside) (kind : String) (h : Handler) (law : IsReminder h) where
  abbrev date_of : User → String
  date_of u = o.local_date u.timezone

  -- The user needs no reminder any more: one is recorded, or there is nothing to remind of.
  data Done (u : User) (w : World) : Type 0 where
    sent : already_sent u.clerk_user_id kind (date_of u) w ≡ true → Done u w
    nothing :
        (c : ReminderContext)
        → o.context_of u.clerk_user_id ≡ ok c
        → ((v : World) → h u.clerk_user_id c v ≡ (ok false, v))
        → Done u w

  Done-MoreRuns : (u : User) (w t : World) → MoreRuns w t → Done u w → Done u t
  Done-MoreRuns u w t more (sent e) = sent (more u.clerk_user_id kind (date_of u) e)
  Done-MoreRuns u w t more (nothing c e f) = nothing c e f

  Done-process : (u : User) (w : World) → Done u w → process_user o kind h u w ≡ (ok tt, w)
  unfolding process_user notify_user
  Done-process u w (sent e) = rw e refl
  Done-process u w (nothing c e f) =
      elim (Bool-cases (already_sent u.clerk_user_id kind (date_of u) w)) [
        | inl seen ↦ rw seen refl
        | inr fresh ↦ rw fresh (rw e (rw (f w) refl))
      ]

  -- What the handler's answer does to the runs, and to the user's state.
  abbrev recorded : User → Result Bool × World → Result (Unit {0}) × World
  recorded u r = continue r (λ notified.
      modify (λ w. if notified then create_run u.clerk_user_id kind (date_of u) w else w))

  recorded-MoreRuns :
      (u : User) (w : World) (r : Result Bool × World)
      → r.1.reminder_runs ≡ w.reminder_runs
      → MoreRuns w (recorded u r).1
  recorded-MoreRuns u w (ok true, t) e = λ a b c seen.
      MoreRuns-create u.clerk_user_id kind (date_of u) t a b c (MoreRuns-same w t e a b c seen)
  recorded-MoreRuns u w (ok false, t) e = MoreRuns-same w t e
  recorded-MoreRuns u w (err x, t) e = MoreRuns-same w t e

  recorded-Done :
      (u : User) (c : ReminderContext) (w : World) (r : Result Bool × World)
      → o.context_of u.clerk_user_id ≡ ok c
      → h u.clerk_user_id c w ≡ r
      → {v : World} → recorded u r ≡ (ok tt, v)
      → Done u v
  recorded-Done u c w (ok true, t) e k p =
      subst (λ (x : Result (Unit {0}) × World). Done u x.1) p
        (sent (already_sent-create u.clerk_user_id kind (date_of u) t))
  recorded-Done u c w (ok false, t) e k p = nothing c e (law.silent u.clerk_user_id c w t k)
  recorded-Done u c w (err x, t) e k p = cc

  notify-MoreRuns :
      (u : User) (w : World) (r : Result ReminderContext)
      → o.context_of u.clerk_user_id ≡ r
      → MoreRuns w (notify_user o kind h u.clerk_user_id (date_of u) w).1
  unfolding notify_user
  notify-MoreRuns u w (ok c) e =
      rw e (recorded-MoreRuns u w (h u.clerk_user_id c w) (law.keeps_runs u.clerk_user_id c w))
  notify-MoreRuns u w (err x) e = rw e (λ a b c seen. seen)

  notify-Done :
      (u : User) (w : World) (r : Result ReminderContext)
      → o.context_of u.clerk_user_id ≡ r
      → {t : World} → notify_user o kind h u.clerk_user_id (date_of u) w ≡ (ok tt, t)
      → Done u t
  unfolding notify_user
  notify-Done u w (ok c) e p = recorded-Done u c w (h u.clerk_user_id c w) e refl (rw e at p)
  notify-Done u w (err x) e {t} p = absurd (err-ne-ok x w t (rw e at p))

  process-MoreRuns : (u : User) (w : World) → MoreRuns w (process_user o kind h u w).1
  unfolding process_user
  process-MoreRuns u w = elim (Bool-cases (already_sent u.clerk_user_id kind (date_of u) w)) [
    | inl seen ↦ rw seen (λ a b c s. s)
    | inr fresh ↦ rw fresh (notify-MoreRuns u w (o.context_of u.clerk_user_id) refl)
  ]

  process-Done :
      (u : User) (w : World) {t : World} → process_user o kind h u w ≡ (ok tt, t) → Done u t
  unfolding process_user
  process-Done u w p = elim (Bool-cases (already_sent u.clerk_user_id kind (date_of u) w)) [
    | inl seen ↦
        subst (λ (x : Result (Unit {0}) × World). Done u x.1)
          (sym (Done-process u w (sent seen)) ∙ p) (sent seen)
    | inr fresh ↦ notify-Done u w (o.context_of u.clerk_user_id) refl (rw fresh at p)
  ]

  AllDone : List User → World → Type 0
  AllDone us w = All (λ u. Done u w) us

  AllDone-MoreRuns : (us : List User) (w t : World) → MoreRuns w t → AllDone us w → AllDone us t
  unfolding AllDone
  AllDone-MoreRuns [] w t more d = tt
  AllDone-MoreRuns (u ∷ us) w t more (d, ds) =
      (Done-MoreRuns u w t more d, AllDone-MoreRuns us w t more ds)

  AllDone-batch :
      (us : List User) (w : World) → AllDone us w → process_batch o kind h us w ≡ (ok tt, w)
  unfolding AllDone process_batch
  AllDone-batch [] w d = refl
  AllDone-batch (u ∷ us) w (d, ds) = rw (Done-process u w d) (AllDone-batch us w ds)

  batch-MoreRuns : (us : List User) (w : World) → MoreRuns w (process_batch o kind h us w).1
  unfolding process_batch
  batch-MoreRuns [] w = λ a b c seen. seen
  batch-MoreRuns (u ∷ us) w =
      joined (process_user o kind h u w) (process-MoreRuns u w) (λ t. batch-MoreRuns us t)
    where
      joined :
          (r : Result (Unit {0}) × World)
          → MoreRuns w r.1
          → ((t : World) → MoreRuns t (process_batch o kind h us t).1)
          → MoreRuns w (join r (process_batch o kind h us)).1
      joined (ok a, t) m n = λ a b c seen. n t a b c (m a b c seen)
      joined (err x, t) m n = λ a b c seen. n t a b c (m a b c seen)

  batch-AllDone :
      (us : List User) (w : World) {t : World}
      → process_batch o kind h us w ≡ (ok tt, t)
      → AllDone us t
  unfolding AllDone process_batch
  batch-AllDone [] w p = tt
  batch-AllDone (u ∷ us) w {t} p =
      joined (process_user o kind h u w) refl (λ v. batch-AllDone us v {t = t}) p
    where
      joined :
          (r : Result (Unit {0}) × World)
          → process_user o kind h u w ≡ r
          → ((v : World) → process_batch o kind h us v ≡ (ok tt, t) → AllDone us t)
          → join r (process_batch o kind h us) ≡ (ok tt, t)
          → All (λ u. Done u t) (u ∷ us)
      joined (ok a, v) e ih q = (
        Done-MoreRuns u v t
            (subst (λ (x : Result (Unit {0}) × World). MoreRuns v x.1) q (batch-MoreRuns us v))
            (process-Done u w e),
        ih v q,
      )
      joined (err x, v) e ih q = absurd (err-ne-ok x (process_batch o kind h us v).1 t q)

  continue-MoreRuns :
      (w : World) (r : Result (Unit {0}) × World) (f : Effect World (Unit {0}))
      → MoreRuns w r.1
      → ((t : World) → MoreRuns t (f t).1)
      → MoreRuns w (continue r (λ _. f)).1
  continue-MoreRuns w (ok a, t) f m n = λ a b c seen. n t a b c (m a b c seen)
  continue-MoreRuns w (err x, t) f m n = m

  batches-MoreRuns :
      (bs : List (List User)) (w : World) → MoreRuns w (process_batches o kind h bs w).1
  unfolding process_batches
  batches-MoreRuns [] w = λ a b c seen. seen
  batches-MoreRuns (b ∷ bs) w =
      continue-MoreRuns w (process_batch o kind h b w) (process_batches o kind h bs)
        (batch-MoreRuns b w) (batches-MoreRuns bs)

  batches-AllDone :
      (bs : List (List User)) (w : World) {t : World}
      → process_batches o kind h bs w ≡ (ok tt, t)
      → All (λ b. AllDone b t) bs
  unfolding process_batches
  batches-AllDone [] w p = tt
  batches-AllDone (b ∷ bs) w {t} p =
      after (process_batch o kind h b w) refl (λ v. batches-AllDone bs v {t = t}) p
    where
      after :
          (r : Result (Unit {0}) × World)
          → process_batch o kind h b w ≡ r
          → ((v : World) → process_batches o kind h bs v ≡ (ok tt, t) → All (λ b. AllDone b t) bs)
          → continue r (λ _. process_batches o kind h bs) ≡ (ok tt, t)
          → All (λ b. AllDone b t) (b ∷ bs)
      after (ok a, v) e ih q = (
        AllDone-MoreRuns b v t
            (subst (λ (x : Result (Unit {0}) × World). MoreRuns v x.1) q (batches-MoreRuns bs v))
            (batch-AllDone b w e),
        ih v q,
      )
      after (err x, v) e ih q = absurd (err-ne-ok x v t q)

  AllDone-batches :
      (bs : List (List User)) (w : World)
      → All (λ b. AllDone b w) bs
      → process_batches o kind h bs w ≡ (ok tt, w)
  unfolding process_batches
  AllDone-batches [] w d = refl
  AllDone-batches (b ∷ bs) w (d, ds) = rw (AllDone-batch b w d) (AllDone-batches bs w ds)

  -- For a handler that leaves the table of runs alone and that, where it notifies nobody, does
  -- nothing and would do so in every state: a job that returned and runs again over the same
  -- users, with the same answers from outside, changes nothing: no notification, no push and no
  -- new run.
  pub with_scheduled_reminder_twice :
      (users : Result (List User)) (w t : World)
      → with_scheduled_reminder o kind h users w ≡ (ok tt, t)
      → with_scheduled_reminder o kind h users t ≡ (ok tt, t)
  unfolding with_scheduled_reminder
  with_scheduled_reminder_twice (ok all) w t p =
      AllDone-batches (chunk (filter (is_due o) all) reminder_concurrency) t
        (batches-AllDone (chunk (filter (is_due o) all) reminder_concurrency) w p)
  with_scheduled_reminder_twice (err x) w t p = absurd (err-ne-ok x w t p)
