-- ===== src/VerificationDocument.antt =====
-- The document about a verification (src/verification_document.rs), without its serialisation.
mod Tests
use Prim.Native.String.{String}
use text.Mathlib.Text.{◌==◌ as str_eq}
use tinfoil_rs.Prelude.{ℕ, Bool, true, Option, none, some, if◌then◌else◌}
use tinfoil_rs.Attestation.Types.{Measurement}
use tinfoil_rs.Attestation.Complete.{GroundTruth, SoftwareIdentity}

abbrev pub verification_document_schema_version : ℕ
verification_document_schema_version = 1

abbrev pub pinned_no_digest : String
pinned_no_digest = "pinned_no_digest"

pub data VerificationStepStatus : Type 0 where
  pending success failed skipped : VerificationStepStatus

pub record VerificationStepState : Type 0 where
  pub status : VerificationStepStatus
  pub error : Option String

pub record VerificationSteps : Type 0 where
  pub fetch_digest : VerificationStepState
  pub verify_code : VerificationStepState
  pub verify_enclave : VerificationStepState
  pub compare_measurements : VerificationStepState
  pub verify_certificate : VerificationStepState

pub record DocumentEnclaveMeasurement : Type 0 where
  pub measurement : Measurement
  pub tls_public_key_fingerprint : String
  pub hpke_public_key : String

pub record VerificationDocument : Type 0 where
  pub schema_version : ℕ
  pub config_repo : String
  pub enclave_host : String
  pub release_tag : Option String
  pub release_digest : String
  pub code_measurement : Measurement
  pub enclave_measurement : DocumentEnclaveMeasurement
  pub tls_public_key : String
  pub hpke_public_key : String
  pub code_fingerprint : String
  pub enclave_fingerprint : String
  pub selected_router_endpoint : String
  pub security_verified : Bool
  pub verifier : SoftwareIdentity
  pub verified_at : String
  pub steps : VerificationSteps

unfoldable pub step_of : VerificationStepStatus → VerificationStepState
step_of status = record { status = status; error = none }

-- Nothing is fetched or verified of the code of a pinned measurement.
unfoldable pub code_step : Bool → VerificationStepState
unfolding step_of
code_step pinned = if pinned then step_of skipped else step_of success

unfoldable pub steps_of : Bool → VerificationSteps
unfolding code_step
steps_of pinned = record {
  fetch_digest = code_step pinned;
  verify_code = code_step pinned;
  verify_enclave = step_of success;
  compare_measurements = step_of success;
  verify_certificate = step_of success;
}

-- After the two keys are taken.
unfoldable pub document_with :
    GroundTruth → String → Option String → Option String → Option VerificationDocument
unfolding steps_of
document_with truth host none hpke = none
document_with truth host (some tls) none = none
document_with truth host (some tls) (some hpke) = some (record {
  schema_version = verification_document_schema_version;
  config_repo = truth.config_repo;
  enclave_host = host;
  release_tag = truth.release_tag;
  release_digest = truth.digest;
  code_measurement = truth.code_measurement;
  enclave_measurement = record {
    measurement = truth.enclave_measurement;
    tls_public_key_fingerprint = tls;
    hpke_public_key = hpke;
  };
  tls_public_key = tls;
  hpke_public_key = hpke;
  code_fingerprint = truth.code_fingerprint;
  enclave_fingerprint = truth.enclave_fingerprint;
  selected_router_endpoint = host;
  security_verified = true;
  verifier = truth.verifier;
  verified_at = truth.verified_at;
  steps = steps_of (str_eq truth.digest pinned_no_digest);
})

unfoldable pub from_ground_truth : GroundTruth → String → Option VerificationDocument
unfolding document_with
from_ground_truth truth host = document_with truth host truth.tls_public_key truth.hpke_public_key
