-- ===== src/Client/Fetch.antt =====
-- apps/web/lib/api/client.ts: the retry of a request that did not reach the gateway, and what
-- `apiFetch` makes of the answer. The network is a parameter: how the n-th send of this request
-- comes out, counted from 0. The base URL and the headers are left out.
use ai_agentic_english.Prelude.{
  ℕ, zero, suc, String, Bool, false, not, ◌&&◌, ◌||◌, Option, none, some, leb, ltb, ◌==◌,
  if◌then◌else◌, str_eq, get_or,
}
use ai_agentic_english.Shared.Json.{Json, text, object, lookup}

-- `json` is `none` where the body is no JSON.
pub record HttpResponse : Type 0 where
  pub status : ℕ
  pub status_text : String
  pub json : Option Json

-- An error that `fetch` throws, by whether it is a TypeError and its message.
pub data Fetched : Type 0 where
  response : HttpResponse → Fetched
  thrown : (type_error : Bool) (message : String) → Fetched

unfoldable pub is_retryable_fetch_error : Bool → String → Bool
is_retryable_fetch_error type_error message = type_error && str_eq message "fetch failed"

-- What came last, with how often the request was sent.
abbrev pub Sent : Type 0
Sent = Fetched × ℕ

-- One round of the loop: `last` tells whether this is the last attempt.
unfoldable pub after_attempt : Fetched → ℕ → Bool → Sent → Sent
unfolding is_retryable_fetch_error
after_attempt (response r) n last rest = (response r, n)
after_attempt (thrown type_error message) n last rest =
    if last || not (is_retryable_fetch_error type_error message)
    then (thrown type_error message, n)
    else rest

module _ (network : ℕ → Fetched) where
  -- The attempts left after `sent` sends; without any the loop is not entered.
  unfoldable pub attempts_from : ℕ → ℕ → Sent
  unfolding after_attempt
  attempts_from zero sent = (thrown false "unknown network error", sent)
  attempts_from (suc left) sent =
      let rest = attempts_from left (suc sent) in
      after_attempt (network sent) (suc sent) (left == 0) rest

  unfoldable pub fetch_with_network_retry : ℕ → Sent
  unfolding attempts_from
  fetch_with_network_retry attempts = attempts_from attempts 0

unfoldable pub get_error_message : Option Json → String → String
unfolding lookup
get_error_message (some (object fs)) fallback = elim (lookup "message" fs) [
  | some (text s) ↦ s
  | _ ↦ fallback
]
get_error_message _ fallback = fallback

pub data Outcome : Type 0 where
  value : Option Json → Outcome
  api_error : (status : ℕ) (message : String) (body : Option Json) → Outcome
  network_error : String → Outcome
  invalid_json : Outcome

unfoldable pub json_value : Option Json → Outcome
json_value none = invalid_json
json_value (some v) = value (some v)

-- `response.ok`: a status from 200 to 299.
unfoldable pub is_ok : ℕ → Bool
is_ok status = leb 200 status && ltb status 300

unfoldable pub read_response : Fetched → Outcome
unfolding is_ok get_error_message json_value
read_response (response r) =
    if not (is_ok r.status)
    then api_error r.status (get_error_message r.json r.status_text) r.json
    else if r.status == 204
    then value none
    else json_value r.json
read_response (thrown _ message) = network_error message

unfoldable pub attempts_for : String → ℕ
attempts_for method = if str_eq method "GET" || str_eq method "HEAD" then 2 else 1

unfoldable pub api_fetch : (ℕ → Fetched) → Option String → Outcome × ℕ
unfolding fetch_with_network_retry attempts_for read_response
api_fetch network method =
    let sent = fetch_with_network_retry network (attempts_for (get_or method "GET")) in
    (read_response sent.0, sent.1)
