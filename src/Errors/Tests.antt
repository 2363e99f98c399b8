-- ===== src/Errors/Tests.antt =====
-- Errors of each class, the quota among them, and the theorems at such errors.
use tinfoil_rs.Prelude.{◌+◌, ◌≡◌, ◌↔◌, ◌⊎◌, refl, true, false, none, some}
use tinfoil_rs.Errors.{
  Error, api, api_error, network, ehbp, configuration, is_configuration, is_fetch, is_attestation,
  is_api, is_retryable, is_ehbp_key_mismatch, ehbp_key_mismatch,
}
use tinfoil_rs.Errors.Classes.{count, IsTransientApi, classes_partition, is_retryable_iff}

abbrev rate_limited : Error
rate_limited = api (api_error (record { status_code = 429; type_ = none; code = none }))

abbrev quota_exhausted : Error
quota_exhausted =
    api (api_error (record { status_code = 429; type_ = none; code = some "insufficient_quota" }))

abbrev overloaded : Error
overloaded = api (
    api_error
      (record { status_code = 503; type_ = some "insufficient_quota"; code = some "overloaded" }))

retried : is_retryable rate_limited ≡ true
unfolding is_retryable
retried = refl

not_retried : is_retryable quota_exhausted ≡ false
unfolding is_retryable
not_retried = refl

server_error_retried : is_retryable overloaded ≡ true
unfolding is_retryable
server_error_retried = refl

network_retried : is_retryable (network "reset") ≡ true
unfolding is_retryable
network_retried = refl

ehbp_not_retried : is_retryable (ehbp "revoked") ≡ false
unfolding is_retryable
ehbp_not_retried = refl

mismatch_known : is_ehbp_key_mismatch (ehbp_key_mismatch "rotated") ≡ true
unfolding is_ehbp_key_mismatch
mismatch_known = refl

classes_partition_example :
    count (is_configuration (configuration "no key"))
      + count (is_fetch (configuration "no key"))
      + count (is_attestation (configuration "no key"))
      + count (is_api (configuration "no key"))
    ≡ 1
classes_partition_example = classes_partition (configuration "no key")

is_retryable_iff_example :
    ((is_retryable quota_exhausted ≡ true)
      ↔ ((is_fetch quota_exhausted ≡ true) ⊎ IsTransientApi quota_exhausted))
    × (is_retryable quota_exhausted ≡ true
        → (is_configuration quota_exhausted ≡ false) × (is_attestation quota_exhausted ≡ false))
is_retryable_iff_example = is_retryable_iff quota_exhausted
