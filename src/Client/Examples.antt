-- ===== src/Client/Examples.antt =====
-- A request whose first send does not reach the gateway.
use ai_agentic_english.Prelude.{ℕ, zero, suc, true, some, ◌≡◌, ◌&&◌, if◌then◌else◌}
use ai_agentic_english.Shared.Json.{null}
use ai_agentic_english.Client.Fetch.{Fetched, response, thrown, read_response, api_fetch}
use ai_agentic_english.Client.FetchLaws.{is_read, is_unsent, api_fetch_lem}

abbrev network : ℕ → Fetched
network zero = thrown true "fetch failed"
network (suc n) = response (record { status = 200; status_text = "OK"; json = some null })

api_fetch_lem_example : api_fetch network (some "POST") ≡ (
    if is_read (some "POST") && is_unsent (network 0)
    then (read_response (network 1), 2)
    else (read_response (network 0), 1))
api_fetch_lem_example = api_fetch_lem network (some "POST")
