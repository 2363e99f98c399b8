-- ===== src/Attestation/Complete.antt =====
-- Verification over all formats, and the complete verification
-- (src/verifier/attestation/mod.rs): the attestation, the release and their comparison.
pub mod Established
pub mod Safe
pub mod Tests
use Prim.Native.String.{String}
use tinfoil_rs.Prelude.{Option, some}
use tinfoil_rs.Outcome.{Outcome, ok, err, panic, ◌>>=◌, ◌>>◌, or_panic}
use tinfoil_rs.Attestation.Types.{
  PredicateType, sev_guest_v2, tdx_guest_v2, snp_tdx_multi_platform_v1, unknown,
  AttestationDocument, Measurement, Verification, ValidationOptions, default_options,
}
use tinfoil_rs.Attestation.Reason.{message}
use tinfoil_rs.Attestation.Measurement.{equals, fingerprint, fingerprint_for_target}
use tinfoil_rs.Errors.{Error, attestation_verification, measurement_comparison, unsupported_format}
use tinfoil_rs.Attestation.X509.{X509}
use tinfoil_rs.Attestation.Sev.{Surroundings, verify_full_with_options}

pub record SigstoreResult : Type 0 where
  pub measurement : Measurement
  pub digest : String
  pub release_tag : String

pub record SoftwareIdentity : Type 0 where
  pub name : String
  pub version : String

pub record GroundTruth : Type 0 where
  pub config_repo : String
  pub release_tag : Option String
  pub digest : String
  pub tls_public_key : Option String
  pub hpke_public_key : Option String
  pub code_measurement : Measurement
  pub enclave_measurement : Measurement
  pub code_fingerprint : String
  pub enclave_fingerprint : String
  pub verifier : SoftwareIdentity
  pub verified_at : String

-- `map_err` into the client's errors.
unfoldable pub with_error : {E : Type 0} {A : Type 0} → (E → Error) → Outcome E A → Outcome Error A
with_error f (ok a) = ok a
with_error f (err e) = err (f e)
with_error f panic = panic

-- `verification_timestamp`, over the RFC 3339 text of the current time, if formatting it succeeds.
unfoldable pub verification_timestamp : Option String → Outcome Error String
verification_timestamp formatted = or_panic formatted

module _ (x509 : X509) (here : Surroundings) where
  -- By the format of the document.
  unfoldable pub verify_format :
      PredicateType → String → ValidationOptions → Outcome Error Verification
  unfolding with_error
  verify_format sev_guest_v2 body options =
      with_error attestation_verification (verify_full_with_options x509 here body options)
  verify_format tdx_guest_v2 body options =
      err (unsupported_format "Intel TDX attestation not yet implemented")
  verify_format snp_tdx_multi_platform_v1 body options = err (
      unsupported_format "Multi-platform predicate type is not a valid hardware attestation format")
  verify_format unknown body options =
      err (attestation_verification (message "Unknown attestation format"))

  -- `verify_full_with_options` of a document.
  unfoldable pub verify_document :
      AttestationDocument → ValidationOptions → Outcome Error Verification
  unfolding verify_format
  verify_document doc = verify_format doc.format doc.body

  -- `verify_full`, under the default options.
  unfoldable pub verify_full : AttestationDocument → Outcome Error Verification
  unfolding verify_document
  verify_full doc = verify_document doc default_options

  -- `fetched` is what fetching the document answers, `release` what the verification of the
  -- repository's release answers; `sha256_hex` is the hash of a text, in hex, `identity` the
  -- verifier's package and `formatted` what formatting the time at the end yields.
  module _ (sha256_hex : String → String) (identity : SoftwareIdentity)
      (formatted : Option String) where
    unfoldable pub ground_truth : String → Verification → SigstoreResult → String → GroundTruth
    unfolding fingerprint fingerprint_for_target
    ground_truth repo enclave release verified_at = record {
      config_repo = repo;
      release_tag = some release.release_tag;
      digest = release.digest;
      tls_public_key = some enclave.tls_public_key_fp;
      hpke_public_key = enclave.hpke_public_key;
      code_measurement = release.measurement;
      enclave_measurement = enclave.measurement;
      code_fingerprint =
          fingerprint_for_target sha256_hex release.measurement enclave.measurement.type_;
      enclave_fingerprint = fingerprint sha256_hex enclave.measurement;
      verifier = identity;
      verified_at = verified_at;
    }

    unfoldable pub verify_complete :
        String
        → Outcome Error AttestationDocument
        → Outcome Error SigstoreResult
        → Outcome Error GroundTruth
    unfolding verify_full with_error verification_timestamp ground_truth
    verify_complete repo fetched released = do
      doc ← fetched
      enclave ← verify_full doc
      release ← released
      with_error measurement_comparison (equals enclave.measurement release.measurement)
      verified_at ← verification_timestamp formatted
      ok (ground_truth repo enclave release verified_at)
