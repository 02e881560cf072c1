-- ===== src/Client/FetchLaws.antt =====
-- How often client.ts sends a request, and which answer it takes.
use ai_agentic_english.Prelude.{
  ℕ, String, Bool, true, false, ◌&&◌, ◌||◌, Option, ◌≡◌, refl, ◌∙◌, ap, inl, inr, str_eq, get_or,
  Bool-cases, if◌then◌else◌,
}
use ai_agentic_english.Client.Fetch.{
  Fetched, response, thrown, Sent, is_retryable_fetch_error, after_attempt, attempts_from,
  fetch_with_network_retry, read_response, attempts_for, api_fetch,
}

-- A send that failed before it reached the gateway.
abbrev pub is_unsent : Fetched → Bool
is_unsent (response r) = false
is_unsent (thrown type_error message) = is_retryable_fetch_error type_error message

-- Only a request that changes nothing may be sent again; where there is no method it is a GET.
abbrev pub is_read : Option String → Bool
is_read method = str_eq (get_or method "GET") "GET" || str_eq (get_or method "GET") "HEAD"

last_attempt : (f : Fetched) (n : ℕ) (rest : Sent) → after_attempt f n true rest ≡ (f, n)
unfolding after_attempt
last_attempt (response r) n rest = refl
last_attempt (thrown t m) n rest = refl

first_attempt :
    (f : Fetched) (n : ℕ) (rest : Sent)
    → after_attempt f n false rest ≡ (if is_unsent f then rest else (f, n))
unfolding after_attempt
first_attempt (response r) n rest = refl
first_attempt (thrown t m) n rest = elim (Bool-cases (is_retryable_fetch_error t m)) [
  | inl e ↦ rw e refl
  | inr e ↦ rw e refl
]

one_attempt : (network : ℕ → Fetched) → fetch_with_network_retry network 1 ≡ (network 0, 1)
unfolding fetch_with_network_retry attempts_from
one_attempt network = last_attempt (network 0) 1 _

two_attempts :
    (network : ℕ → Fetched)
    → fetch_with_network_retry network 2
      ≡ (if is_unsent (network 0) then (network 1, 2) else (network 0, 1))
unfolding fetch_with_network_retry attempts_from
two_attempts network =
    first_attempt (network 0) 1
      (after_attempt (network 1) 2 true (thrown false "unknown network error", 2))
    ∙ ap (λ (r : Sent). if is_unsent (network 0) then r else (network 0, 1))
        (last_attempt (network 1) 2 _)

-- A GET or HEAD request whose first send failed before it reached the gateway is sent twice, and the
-- second answer is taken. Any other request, whatever becomes of it, is sent exactly once, and that
-- answer is taken.
pub api_fetch_lem :
    (network : ℕ → Fetched) (method : Option String)
    → api_fetch network method ≡ (
        if is_read method && is_unsent (network 0)
        then (read_response (network 1), 2)
        else (read_response (network 0), 1))
unfolding api_fetch attempts_for
api_fetch_lem network method = elim (Bool-cases (is_read method)) [
  | inl e ↦ elim (Bool-cases (is_unsent (network 0))) [
    | inl u ↦ rw e (rw (two_attempts network) (rw u refl))
    | inr u ↦ rw e (rw (two_attempts network) (rw u refl))
  ]
  | inr e ↦ rw e (rw (one_attempt network) refl)
]
