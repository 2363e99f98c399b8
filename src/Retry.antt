-- ===== src/Retry.antt =====
-- Fetching with retries (`fetch_with_retry` of src/verifier/util.rs). A response is its status and,
-- where the Retry-After header is a text that parses as a `u64`, that number of seconds; the rest of
-- it is of a type of its own. Waits are in milliseconds.
pub mod Bounds
mod Tests
use tinfoil_rs.Prelude.{
  ℕ, zero, suc, ◌+◌, ◌*◌, ◌-◌, ◌^◌, Bool, ◌&&◌, ◌||◌, List, [], ◌∷◌, Option, none, some, ltb, leb,
  ◌==◌, if◌then◌else◌,
}
use tinfoil_rs.Outcome.{Outcome, ok, err, panic}

abbrev pub max_retries : ℕ
max_retries = 2

abbrev pub initial_backoff_ms : ℕ
initial_backoff_ms = 500

abbrev pub max_retry_after_ms : ℕ
max_retry_after_ms = 10000

pub record Response (Content : Type 0) : Type 0 where
  pub status : ℕ
  pub retry_after_seconds : Option ℕ
  pub content : Content

-- What sending a request once yields.
pub data Attempt (Content NetworkError : Type 0) : Type 0 where
  responded : Response Content → Attempt Content NetworkError
  failed : NetworkError → Attempt Content NetworkError

-- What building the client yields (`Client::builder().build()`).
pub data Built (Client NetworkError : Type 0) : Type 0 where
  built : Client → Built Client NetworkError
  not_built : NetworkError → Built Client NetworkError

-- The smaller of two numbers, and `saturating_mul` on `u64`.
unfoldable pub lesser : ℕ → ℕ → ℕ
lesser a b = if leb a b then a else b

unfoldable pub saturating_mul : ℕ → ℕ → ℕ
unfolding lesser
saturating_mul a b = lesser (a * b) (2 ^ 64 - 1)

unfoldable pub parse_retry_after : {Content : Type 0} → Response Content → Option ℕ
unfolding saturating_mul lesser
parse_retry_after response = elim response.retry_after_seconds [
  | none ↦ none
  | some seconds ↦ some (lesser (saturating_mul seconds 1000) max_retry_after_ms)
]

-- A server error, or too many requests.
unfoldable pub is_retried : {Content : Type 0} → Response Content → Bool
is_retried response = (leb 500 response.status && leb response.status 599) || response.status == 429

-- The server's delay, or the backoff of the attempt.
unfoldable pub delay_of : Option ℕ → ℕ → ℕ
delay_of none attempt = initial_backoff_ms * 2 ^ attempt
delay_of (some millis) attempt = millis

-- The answer, and the waits before it.
pub record Fetched (Content NetworkError : Type 0) : Type 0 where
  pub answer : Outcome NetworkError (Response Content)
  pub waits : List ℕ

module _ {Content NetworkError : Type 0} where
  -- The wait after an attempt, unless it was the last.
  unfoldable pub after_wait : ℕ → ℕ → Fetched Content NetworkError → Fetched Content NetworkError
  after_wait attempt delay rest =
      if ltb attempt max_retries
      then record { answer = rest.answer; waits = delay ∷ rest.waits }
      else rest

  -- What is left when the attempts are used up; `last_err.unwrap()` panics without an error.
  unfoldable pub final_answer :
      Option (Response Content) → Option NetworkError → Outcome NetworkError (Response Content)
  final_answer (some response) last_err = ok response
  final_answer none (some e) = err e
  final_answer none none = panic

  module _ (send : ℕ → Attempt Content NetworkError) where
    -- The attempts that are left, the number of the next one, and the two variables of the loop.
    unfoldable pub attempts :
        ℕ → ℕ → Option (Response Content) → Option NetworkError → Fetched Content NetworkError
    attempts zero attempt last_response last_err = record {
      answer = final_answer last_response last_err;
      waits = [];
    }
    attempts (suc left) attempt last_response last_err = elim (send attempt) [
      | responded response ↦
          let rest = attempts left (suc attempt) (some response) none in
          if is_retried response
          then after_wait attempt (delay_of (parse_retry_after response) attempt) rest
          else record { answer = ok response; waits = [] }
      | failed e ↦
          after_wait attempt (delay_of none attempt) (attempts left (suc attempt) none (some e))
    ]

  -- The client is built, or its error is the answer; then the attempts are made with it.
  unfoldable pub fetch_with_retry :
      {Client : Type 0}
      → Built Client NetworkError
      → (Client → ℕ → Attempt Content NetworkError)
      → Fetched Content NetworkError
  unfolding attempts
  fetch_with_retry (not_built e) send = record { answer = err e; waits = [] }
  fetch_with_retry (built client) send = attempts (send client) (max_retries + 1) 0 none none
