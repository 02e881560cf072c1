-- ===== src/Offline/ReviewLaws.antt =====
-- No review is lost: a row leaves the queue only after the server handled it.
use ai_agentic_english.Prelude.{
  ℕ, String, Bool, true, false, not, ◌&&◌, List, [], ◌∷◌, ◌≡◌, refl, sym, ap, ◌∙◌, arith, any,
  filter, filter-filter, filter-cong, filter-true, str_eq, eq_iff, Bool-cases, inl, inr,
}
use ai_agentic_english.Offline.Reviews.{
  PendingReview, put, delete, queue_review, SyncResult, synced, not_ok, has_failed, delete_handled,
  flush_end,
}

-- The review was posted, and the server reported no error for it.
abbrev pub is_handled : SyncResult → List PendingReview → PendingReview → Bool
is_handled result posted r =
    any (λ p. str_eq p.review_id r.review_id) posted && not (has_failed result r.review_id)

failed_row :
    (result : SyncResult) (p r : PendingReview) (posted : List PendingReview)
    → has_failed result p.review_id ≡ true
    → not (is_handled result posted r) ≡ not (is_handled result (p ∷ posted) r)
failed_row result p r posted e = elim (Bool-cases (str_eq p.review_id r.review_id)) [
  | inl same ↦
      let f : has_failed result r.review_id ≡ true =
        sym (ap (has_failed result) ((eq_iff p.review_id r.review_id).0 same)) ∙ e in
      ground (arith, f, same)
  | inr other ↦ rw other refl
]

handled_row :
    (result : SyncResult) (p r : PendingReview) (posted : List PendingReview)
    → has_failed result p.review_id ≡ false
    → (not (str_eq r.review_id p.review_id) && not (is_handled result posted r))
      ≡ not (is_handled result (p ∷ posted) r)
handled_row result p r posted e = elim (Bool-cases (str_eq p.review_id r.review_id)) [
  | inl same ↦
      let f : has_failed result r.review_id ≡ false =
        sym (ap (has_failed result) ((eq_iff p.review_id r.review_id).0 same)) ∙ e in
      ground (arith, f, same, eq_iff p.review_id r.review_id, eq_iff r.review_id p.review_id)
  | inr other ↦
      ground (arith, other, eq_iff p.review_id r.review_id, eq_iff r.review_id p.review_id)
]

delete_handled_lem :
    (result : SyncResult) (posted queue : List PendingReview)
    → delete_handled result posted queue ≡ filter (λ r. not (is_handled result posted r)) queue
unfolding delete_handled delete
delete_handled_lem result [] queue = sym (filter-true queue)
delete_handled_lem result (p ∷ posted) queue = elim (Bool-cases (has_failed result p.review_id)) [
  | inl e ↦ rw e (
      delete_handled_lem result posted queue
      ∙ filter-cong (λ r. not (is_handled result posted r))
          (λ r. not (is_handled result (p ∷ posted) r)) (λ r. failed_row result p r posted e) queue)
  | inr e ↦ rw e (
      delete_handled_lem result posted (delete p.review_id queue)
      ∙ filter-filter (λ r. not (is_handled result posted r))
          (λ r. not (str_eq r.review_id p.review_id)) queue
      ∙ filter-cong (λ r. not (str_eq r.review_id p.review_id) && not (is_handled result posted r))
          (λ r. not (is_handled result (p ∷ posted) r)) (λ r. handled_row result p r posted e)
          queue)
]

put-filter :
    (result : SyncResult) (posted : List PendingReview) (r : PendingReview)
    (queue : List PendingReview)
    → any (λ p. str_eq p.review_id r.review_id) posted ≡ false
    → any (λ q. str_eq q.review_id r.review_id) queue ≡ false
    → filter (λ x. not (is_handled result posted x)) (put r queue)
      ≡ put r (filter (λ x. not (is_handled result posted x)) queue)
unfolding put
put-filter result posted r [] fresh absent = rw fresh refl
put-filter result posted r (q ∷ queue) fresh absent =
    ground (arith, put-filter result posted r queue fresh)

-- The end of a flush, whatever was queued since it began: an answer that is not ok leaves the queue
-- as it is; after any other, exactly the rows that were posted and not reported as failed are gone.
pub flush_end_lem :
    (status : String) (result : SyncResult) (posted queue : List PendingReview)
    → ((flush_end (not_ok status) posted queue).1 ≡ queue)
      × ((flush_end (synced result) posted queue).1
          ≡ filter
              (λ r. not (
                any (λ p. str_eq p.review_id r.review_id) posted
                && not (has_failed result r.review_id)))
              queue)
unfolding flush_end
flush_end_lem status result posted queue = (refl, delete_handled_lem result posted queue)

-- A review that is queued while a flush is under way, under an id that was not posted, is still
-- queued when the flush ends: queueing it after the flush gives the same queue.
pub queue_review-flush_end :
    (id now item : String) (quality : ℕ) (result : SyncResult) (posted queue : List PendingReview)
    → any (λ p. str_eq p.review_id id) posted ≡ false
    → any (λ q. str_eq q.review_id id) queue ≡ false
    → (flush_end (synced result) posted (queue_review id now item quality queue).1).1
      ≡ (queue_review id now item quality (flush_end (synced result) posted queue).1).1
unfolding flush_end queue_review
queue_review-flush_end id now item quality result posted queue fresh absent =
    delete_handled_lem result posted
      (put (record { review_id = id; item_id = item; quality = quality; reviewed_at = now }) queue)
    ∙ put-filter result posted
        (record { review_id = id; item_id = item; quality = quality; reviewed_at = now }) queue
        fresh absent
    ∙ ap (put (record { review_id = id; item_id = item; quality = quality; reviewed_at = now }))
        (sym (delete_handled_lem result posted queue))
