-- ===== src/Retry/Bounds.antt =====
-- What a fetch with retries answers, and how long it waits.
use tinfoil_rs.Prelude.{
  ℕ, zero, suc, ◌+◌, ◌*◌, ◌-◌, ◌≤◌, ◌<◌, ◌≡◌, ◌⊎◌, refl, true, false, List, [], ◌∷◌, Option, none,
  some, inl, inr, arith, ltb, Bool-cases, Option-cases,
}
use tinfoil_rs.Outcome.{Outcome, ok, err}
use tinfoil_rs.Retry.{
  max_retries, max_retry_after_ms, Response, Built, built, not_built, Attempt, responded, failed,
  lesser, saturating_mul, parse_retry_after, is_retried, delay_of, Fetched, after_wait,
  final_answer, attempts, fetch_with_retry,
}

abbrev pub total : List ℕ → ℕ
total [] = 0
total (w ∷ ws) = w + total ws

module _ {Content NetworkError : Type 0} (send : ℕ → Attempt Content NetworkError) where
  -- The answer of the attempts from number `k` on: that of the first attempt that is not worth a
  -- retry, or of the last one. Each retried attempt adds the server's delay or the backoff.
  pub data Retries : ℕ → Outcome NetworkError (Response Content) → List ℕ → Type 0 where
    settled :
        {k : ℕ} {r : Response Content}
        → send k ≡ responded r
        → is_retried r ≡ false
        → Retries k (ok r) []
    last_response :
        {r : Response Content}
        → send max_retries ≡ responded r
        → is_retried r ≡ true
        → Retries max_retries (ok r) []
    last_error : {e : NetworkError} → send max_retries ≡ failed e → Retries max_retries (err e) []
    retried :
        {k : ℕ} {r : Response Content} {answer : Outcome NetworkError (Response Content)}
        {waits : List ℕ}
        → k < max_retries
        → send k ≡ responded r
        → is_retried r ≡ true
        → Retries (suc k) answer waits
        → Retries k answer (delay_of (parse_retry_after r) k ∷ waits)
    unreachable :
        {k : ℕ} {e : NetworkError} {answer : Outcome NetworkError (Response Content)}
        {waits : List ℕ}
        → k < max_retries
        → send k ≡ failed e
        → Retries (suc k) answer waits
        → Retries k answer (delay_of none k ∷ waits)

  abbrev Good : Fetched Content NetworkError → ℕ → Type 0
  Good f k = Retries k f.answer f.waits

  attempt_cases :
      (a : Attempt Content NetworkError)
      → ((r : Response Content) × (a ≡ responded r)) ⊎ ((e : NetworkError) × (a ≡ failed e))
  attempt_cases (responded r) = inl (r, refl)
  attempt_cases (failed e) = inr (e, refl)

  last_Good :
      (lr : Option (Response Content)) (le : Option NetworkError)
      → Good (attempts send 1 max_retries lr le) max_retries
  unfolding attempts after_wait final_answer
  last_Good lr le = elim (attempt_cases (send max_retries)) [
    | inr (e, fails) ↦ rw (attempts, fails) (last_error fails)
    | inl (r, answers) ↦ elim (Bool-cases (is_retried r)) [
      | inl again ↦ rw (attempts, answers) (rw again (last_response answers again))
      | inr done ↦ rw (attempts, answers) (rw done (settled answers done))
    ]
  ]

  -- An attempt that is not the last.
  earlier_Good :
      (left k : ℕ) (lr : Option (Response Content)) (le : Option NetworkError)
      → ltb k max_retries ≡ true
      → ((lr : Option (Response Content)) (le : Option NetworkError)
          → Good (attempts send left (suc k) lr le) (suc k))
      → Good (attempts send (suc left) k lr le) k
  unfolding attempts after_wait
  earlier_Good left k lr le early later = elim (attempt_cases (send k)) [
    | inr (e, fails) ↦
        rw (attempts, fails) (rw early (unreachable (ground arith) fails (later none (some e))))
    | inl (r, answers) ↦ elim (Bool-cases (is_retried r)) [
      | inl again ↦
          rw (attempts, answers)
            (rw again (rw early (retried (ground arith) answers again (later (some r) none))))
      | inr done ↦ rw (attempts, answers) (rw done (settled answers done))
    ]
  ]

  attempts-Retries : Good (attempts send (max_retries + 1) 0 none none) 0
  attempts-Retries =
      earlier_Good 2 0 none none refl
        λ lr le. earlier_Good 1 1 lr le refl λ lr' le'. last_Good lr' le'

  backoff_bounded : (k : ℕ) → k < max_retries → delay_of none k ≤ max_retry_after_ms
  unfolding delay_of
  backoff_bounded zero early = omega arith
  backoff_bounded (suc zero) early = omega arith
  backoff_bounded (suc (suc k)) early = absurd (omega arith)

  lesser_bounded : (a b : ℕ) → lesser a b ≤ b
  unfolding lesser
  lesser_bounded a b = ground arith

  delay_bounded :
      (r : Response Content) (k : ℕ)
      → k < max_retries
      → delay_of (parse_retry_after r) k ≤ max_retry_after_ms
  unfolding delay_of parse_retry_after
  delay_bounded r k early = elim (Option-cases r.retry_after_seconds) [
    | inl absent ↦ rw absent (backoff_bounded k early)
    | inr (seconds, given) ↦
        rw given (lesser_bounded (saturating_mul seconds 1000) max_retry_after_ms)
  ]

  Retries-total :
      {k : ℕ} {answer : Outcome NetworkError (Response Content)} {waits : List ℕ}
      → Retries k answer waits
      → total waits ≤ (max_retries - k) * max_retry_after_ms
  Retries-total (settled a d) = omega arith
  Retries-total (last_response a d) = omega arith
  Retries-total (last_error a) = omega arith
  Retries-total (retried {k} {r} early a d rest) =
      omega (arith, delay_bounded r k early, Retries-total rest)
  Retries-total (unreachable {k} early a rest) =
      omega (arith, backoff_bounded k early, Retries-total rest)

module _ {Content NetworkError Client : Type 0}
    (send : Client → ℕ → Attempt Content NetworkError) where
  -- The answer and the waits of a fetch: the error of building the client, without an attempt, or
  -- those of the attempts with the client that was built.
  pub data Fetches
      : Built Client NetworkError → Outcome NetworkError (Response Content) → List ℕ → Type 0 where
    unsent : {e : NetworkError} → Fetches (not_built e) (err e) []
    sent :
        {client : Client} {answer : Outcome NetworkError (Response Content)} {waits : List ℕ}
        → Retries (send client) 0 answer waits
        → Fetches (built client) answer waits

  -- If the client cannot be built, the fetch answers that error, and neither sends nor waits.
  -- Otherwise it makes at most three attempts, and answers the first response that is neither a
  -- server error nor a 429, or else what the third attempt yields, a response or an error; it waits
  -- after each attempt but the last, for the server's delay or the backoff. It never panics.
  pub fetch_with_retry-Retries :
      (client : Built Client NetworkError)
      → Fetches client (fetch_with_retry client send).answer (fetch_with_retry client send).waits
  unfolding fetch_with_retry
  fetch_with_retry-Retries (not_built e) = unsent
  fetch_with_retry-Retries (built client) = sent (attempts-Retries (send client))

  -- Whatever delays a server asks for, the waits of one fetch add up to at most 20 seconds.
  pub fetch_with_retry-total :
      (client : Built Client NetworkError) → total (fetch_with_retry client send).waits ≤ 20000
  unfolding fetch_with_retry
  fetch_with_retry-total (not_built e) = omega arith
  fetch_with_retry-total (built client) =
      Retries-total (send client) (attempts-Retries (send client))
