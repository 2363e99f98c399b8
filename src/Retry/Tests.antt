-- ===== src/Retry/Tests.antt =====
-- A fetch without a client, and one that succeeds at its third attempt, and the theorems at it.
use tinfoil_rs.Prelude.{ℕ, ◌≤◌, ◌≡◌, refl, [], ◌∷◌, Option, none, some, ◌==◌, if◌then◌else◌}
use tinfoil_rs.Outcome.{ok, err}
use tinfoil_rs.Retry.{
  Response, Built, built, not_built, Attempt, responded, failed, lesser, saturating_mul,
  parse_retry_after, is_retried, delay_of, after_wait, final_answer, attempts, fetch_with_retry,
}
use tinfoil_rs.Retry.Bounds.{Fetches, fetch_with_retry-Retries, total, fetch_with_retry-total}

response : ℕ → Option ℕ → Response ℕ
response status seconds = record { status = status; retry_after_seconds = seconds; content = 0 }

-- Unavailable for an hour, then a network error, then a page.
abbrev send : Unit {0} → ℕ → Attempt ℕ ℕ
send client k =
    if k == 0
    then responded (response 503 (some 3600))
    else if k == 1
    then failed 7
    else responded (response 200 none)

abbrev client : Built (Unit {0}) ℕ
client = built tt

unsent_answer : fetch_with_retry (not_built 9) send ≡ record { answer = err 9; waits = [] }
unfolding fetch_with_retry
unsent_answer = refl

runs :
    fetch_with_retry client send
    ≡ record { answer = ok (response 200 none); waits = 10000 ∷ 1000 ∷ [] }
unfolding fetch_with_retry attempts after_wait final_answer delay_of is_retried parse_retry_after
    saturating_mul lesser response
runs = refl

fetch_with_retry-Retries_example :
    Fetches send client (fetch_with_retry client send).answer (fetch_with_retry client send).waits
fetch_with_retry-Retries_example = fetch_with_retry-Retries send client

fetch_with_retry-total_example : total (fetch_with_retry client send).waits ≤ 20000
fetch_with_retry-total_example = fetch_with_retry-total send client
