-- ===== src/Offline/Reviews.antt =====
-- apps/web/lib/offline/reviews.ts: the queue of reviews that wait for the network. The queue is the
-- object store `pendingReviews`, keyed by the review id. A flush awaits the server between reading
-- the queue and deleting from it, so it is two functions, and the queue may change in between.
use ai_agentic_english.Prelude.{
  ℕ, String, Bool, false, not, ◌&&◌, Option, none, some, List, [], ◌∷◌, any, filter, if◌then◌else◌,
  str_eq,
}
use Prim.Native.String
use ai_agentic_english.Shared.Errors.{other}
use ai_agentic_english.Shared.Effect.{ok, err, Effect}

pub record PendingReview : Type 0 where
  pub review_id : String
  pub item_id : String
  pub quality : ℕ
  pub reviewed_at : String

-- `put`: a row with the same key is replaced.
unfoldable pub put : PendingReview → List PendingReview → List PendingReview
put r [] = r ∷ []
put r (q ∷ qs) = if str_eq q.review_id r.review_id then r ∷ qs else q ∷ put r qs

unfoldable pub delete : String → List PendingReview → List PendingReview
delete id = filter (λ r. not (str_eq r.review_id id))

-- The id and the time that the browser makes are arguments.
unfoldable pub queue_review :
    String → String → String → ℕ → Effect (List PendingReview) PendingReview
unfolding put
queue_review review_id now item_id quality queue =
    let row : PendingReview = record {
      review_id = review_id;
      item_id = item_id;
      quality = quality;
      reviewed_at = now;
    } in
    (ok row, put row queue)

-- One error of a sync: the id of the review that failed, if the server names one.
pub record SyncResult : Type 0 where
  pub error_ids : List (Option String)

pub data SyncResponse : Type 0 where
  synced : SyncResult → SyncResponse
  not_ok : (status : String) → SyncResponse

-- The reviews that a flush posts; `none` where nothing is queued, and nothing is posted.
unfoldable pub flush_start : List PendingReview → Option (List PendingReview)
flush_start [] = none
flush_start (r ∷ rs) = some (r ∷ rs)

abbrev names : String → Option String → Bool
names id none = false
names id (some x) = not (str_eq x "") && str_eq x id

-- `failedReviewIds.has(id)`: an empty or missing id is dropped from the set.
unfoldable pub has_failed : SyncResult → String → Bool
has_failed result id = any (names id) result.error_ids

unfoldable pub delete_handled :
    SyncResult → List PendingReview → List PendingReview → List PendingReview
unfolding delete has_failed
delete_handled result [] queue = queue
delete_handled result (r ∷ pending) queue =
    delete_handled result pending
      (if has_failed result r.review_id then queue else delete r.review_id queue)

-- What the flush does with the answer to the reviews that it posted.
unfoldable pub flush_end :
    SyncResponse → List PendingReview → Effect (List PendingReview) SyncResult
unfolding delete_handled
flush_end (not_ok status) pending queue =
    (err (other (String.◌++◌ "Request failed with " status)), queue)
flush_end (synced result) pending queue = (ok result, delete_handled result pending queue)
