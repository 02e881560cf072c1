-- ===== src/Offline/Examples.antt =====
-- A queue of two reviews, of which the server handles one.
use ai_agentic_english.Prelude.{
  String, not, ◌&&◌, none, some, List, [], ◌∷◌, ◌≡◌, any, filter, str_eq,
}
use ai_agentic_english.Offline.Reviews.{
  PendingReview, SyncResult, synced, not_ok, has_failed, flush_end,
}
use ai_agentic_english.Offline.ReviewLaws.{flush_end_lem}

abbrev review : String → PendingReview
review id = record { review_id = id; item_id = "word"; quality = 4; reviewed_at = "10:00" }

abbrev queued : List PendingReview
queued = review "r1" ∷ review "r2" ∷ []

abbrev result : SyncResult
result = record { error_ids = some "r2" ∷ none ∷ [] }

flush_end_lem_example :
    ((flush_end (not_ok "503") queued queued).1 ≡ queued)
    × ((flush_end (synced result) queued queued).1
        ≡ filter
            (λ r. not (
              any (λ p. str_eq p.review_id r.review_id) queued
              && not (has_failed result r.review_id)))
            queued)
flush_end_lem_example = flush_end_lem "503" result queued queued
