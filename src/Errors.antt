-- ===== src/Errors.antt =====
-- The client's errors and their classification (src/error.rs). The errors of other packages are the
-- texts that they print, but for an error of the OpenAI client, whose cases the classification reads.
pub mod Classes
pub mod Tests
use Prim.Native.String.{String}
use text.Mathlib.Text.{◌==◌ as str_eq}
use tinfoil_rs.Prelude.{
  ℕ, Bool, true, false, not, ◌&&◌, ◌||◌, Option, none, some, leb, ◌==◌, if◌then◌else◌,
}
use tinfoil_rs.Attestation.Reason.{Reason}
use tinfoil_rs.Attestation.Measurement.{MeasurementError}

-- The answer of the API with an error: its status, and the type and the code that the error states.
pub record ApiError : Type 0 where
  pub status_code : ℕ
  pub type_ : Option String
  pub code : Option String

mutual
  -- `rejected` stands for the cases of `OpenAIError` that the code does not name.
  pub data OpenAiError : Type 0 where
    reqwest : String → OpenAiError
    api_error : ApiError → OpenAiError
    boxed : Error → OpenAiError
    rejected : String → OpenAiError

  -- `measurement_comparison` is the `AttestationVerification` that prints a `MeasurementError`.
  pub data Error : Type 0 where
    configuration : String → Error
    api : OpenAiError → Error
    attestation_fetch : String → Error
    attestation_verification : Reason → Error
    measurement_comparison : MeasurementError → Error
    certificate_mismatch : Error
    sigstore_verification : String → Error
    github : String → Error
    measurement_mismatch : String → String → Error
    tls : String → Error
    ehbp : String → Error
    ehbp_key_mismatch : String → Error
    network : String → Error
    unsupported_format : String → Error
    http : String → Error
    json : String → Error
    base64 : String → Error
    io : String → Error

unfoldable pub is_configuration : Error → Bool
is_configuration (configuration text) = true
is_configuration _ = false

unfoldable pub is_fetch : Error → Bool
is_fetch (attestation_fetch text) = true
is_fetch (network text) = true
is_fetch (http text) = true
is_fetch (github text) = true
is_fetch (io text) = true
is_fetch _ = false

unfoldable pub is_attestation : Error → Bool
is_attestation (attestation_verification reason) = true
is_attestation (measurement_comparison difference) = true
is_attestation certificate_mismatch = true
is_attestation (sigstore_verification text) = true
is_attestation (measurement_mismatch expected actual) = true
is_attestation (tls text) = true
is_attestation (ehbp text) = true
is_attestation (ehbp_key_mismatch text) = true
is_attestation (unsupported_format text) = true
is_attestation (json text) = true
is_attestation (base64 text) = true
is_attestation _ = false

unfoldable pub is_api : Error → Bool
is_api (api e) = true
is_api _ = false

unfoldable pub is_ehbp_key_mismatch : Error → Bool
is_ehbp_key_mismatch (ehbp_key_mismatch text) = true
is_ehbp_key_mismatch _ = false

abbrev pub insufficient_quota : String
insufficient_quota = "insufficient_quota"

-- `as_deref() == Some(text)`.
unfoldable pub states : Option String → String → Bool
states none text = false
states (some stated) text = str_eq stated text

unfoldable pub is_server_error : ℕ → Bool
is_server_error status = leb 500 status && leb status 599

unfoldable pub is_retryable_openai_error : OpenAiError → Bool
unfolding states is_server_error
is_retryable_openai_error (reqwest text) = true
is_retryable_openai_error (api_error answer) =
    if answer.status_code == 429
    then not (states answer.type_ insufficient_quota || states answer.code insufficient_quota)
    else is_server_error answer.status_code || answer.status_code == 408
is_retryable_openai_error _ = false

-- The second test of `is_retryable`.
unfoldable pub is_retryable_api : Error → Bool
unfolding is_retryable_openai_error
is_retryable_api (api e) = is_retryable_openai_error e
is_retryable_api _ = false

unfoldable pub is_retryable : Error → Bool
unfolding is_fetch is_retryable_api
is_retryable e = if is_fetch e then true else is_retryable_api e
