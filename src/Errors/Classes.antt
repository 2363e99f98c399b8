-- ===== src/Errors/Classes.antt =====
-- The classes of the client's errors, and which errors a caller may retry (src/error.rs).
use Prim.Native.String.{String}
use text.Mathlib.TextEquality.{eq_iff}
use tinfoil_rs.Prelude.{ℕ, ◌+◌, ◌≤◌, ◌≡◌, ◌↔◌, ◌⊎◌, Bool, true, false, Option, none, some, arith}
use tinfoil_rs.Errors.{
  Error, OpenAiError, ApiError, api, reqwest, api_error, boxed, rejected, is_configuration,
  is_fetch, is_attestation, is_api, insufficient_quota, states, is_retryable_openai_error,
  is_retryable,
}

abbrev pub count : Bool → ℕ
count true = 1
count false = 0

-- Each error of the client is in exactly one of the four classes: configuration, fetch, attestation
-- and API.
pub classes_partition :
    (e : Error)
    → count (is_configuration e) + count (is_fetch e) + count (is_attestation e) + count (is_api e)
      ≡ 1
unfolding is_configuration is_fetch is_attestation is_api
classes_partition e = ground arith

-- An exhausted quota: the type or the code of the error says so.
abbrev pub IsQuotaExhausted : ApiError → Type 0
IsQuotaExhausted answer =
    (answer.type_ ≡ some insufficient_quota) ⊎ (answer.code ≡ some insufficient_quota)

-- An answer of the API after which the request may be sent again.
abbrev pub IsTransient : OpenAiError → Type 0
IsTransient (reqwest text) = Unit
IsTransient (api_error answer) =
    ((answer.status_code ≡ 429) × ¬ IsQuotaExhausted answer)
    ⊎ (answer.status_code ≡ 408)
    ⊎ ((500 ≤ answer.status_code) × (answer.status_code ≤ 599))
IsTransient (boxed e) = ⊥
IsTransient (rejected text) = ⊥

states_iff : (o : Option String) (text : String) → (states o text ≡ true) ↔ (o ≡ some text)
unfolding states
states_iff none text = ground arith
states_iff (some stated) text = ground (arith, eq_iff stated text)

is_retryable_openai_error_iff :
    (e : OpenAiError) → (is_retryable_openai_error e ≡ true) ↔ IsTransient e
unfolding is_retryable_openai_error
is_retryable_openai_error_iff (reqwest text) = ground arith
is_retryable_openai_error_iff (api_error answer) =
    ground
      (arith, states_iff answer.type_ insufficient_quota, states_iff answer.code insufficient_quota)
is_retryable_openai_error_iff (boxed e) = ground arith
is_retryable_openai_error_iff (rejected text) = ground arith

abbrev pub IsTransientApi : Error → Type 0
IsTransientApi (api e) = IsTransient e
IsTransientApi _ = ⊥

-- An error may be retried exactly where it is a fetch error, or an API error of the transport, with
-- the status 408 or a server's status, or with the status 429 where neither its type nor its code
-- says that the quota is exhausted; and then it is neither a configuration nor an attestation error.
pub is_retryable_iff :
    (e : Error)
    → ((is_retryable e ≡ true) ↔ ((is_fetch e ≡ true) ⊎ IsTransientApi e))
      × (is_retryable e ≡ true → (is_configuration e ≡ false) × (is_attestation e ≡ false))
unfolding is_retryable is_fetch is_configuration is_attestation
is_retryable_iff (api e) = ground (arith, is_retryable_openai_error_iff e)
is_retryable_iff e = ground arith
