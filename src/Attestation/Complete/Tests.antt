-- ===== src/Attestation/Complete/Tests.antt =====
-- A complete verification of the attestation of the SEV-SNP tests, and the theorem at it.
use tinfoil_rs.Prelude.{◌≡◌, [], ◌∷◌, some}
use tinfoil_rs.Outcome.{ok}
use tinfoil_rs.Attestation.Types.{
  AttestationDocument, Verification, sev_guest_v2, snp_tdx_multi_platform_v1,
}
use tinfoil_rs.Attestation.Measurement.{equals, fingerprint, fingerprint_for_target}
use tinfoil_rs.Attestation.Sev.Tests.{toy, surroundings, accepts_attestation}
use tinfoil_rs.Attestation.Complete.{
  SigstoreResult, SoftwareIdentity, GroundTruth, with_error, verify_format, verify_document,
  verify_full, verification_timestamp, ground_truth, verify_complete,
}
use tinfoil_rs.Attestation.Complete.Established.{Established, verify_complete_sound}

abbrev pub document : AttestationDocument
document = record { format = sev_guest_v2; body = "body" }

abbrev release : SigstoreResult
release = record {
  measurement = record {
    type_ = snp_tdx_multi_platform_v1;
    registers = "hex" ∷ "rtmr1" ∷ "rtmr2" ∷ [];
  };
  digest = "digest";
  release_tag = "v1";
}

abbrev pub identity : SoftwareIdentity
identity = record { name = "tinfoil"; version = "1" }

abbrev pub verified : Verification
verified = record {
  measurement = record { type_ = sev_guest_v2; registers = "hex" ∷ [] };
  tls_public_key_fp = "hex";
  hpke_public_key = some "hex";
}

abbrev truth : GroundTruth
truth = record {
  config_repo = "repo";
  release_tag = some "v1";
  digest = "digest";
  tls_public_key = some "hex";
  hpke_public_key = some "hex";
  code_measurement = release.measurement;
  enclave_measurement = verified.measurement;
  code_fingerprint = "hex";
  enclave_fingerprint = "hex";
  verifier = identity;
  verified_at = "now";
}

completes :
    verify_complete toy surroundings
      (λ text. text)
      identity
      (some "now")
      "repo"
      (ok document)
      (ok release)
    ≡ ok truth
unfolding verify_complete verify_full verify_document verify_format with_error
    verification_timestamp ground_truth equals fingerprint fingerprint_for_target
completes = rw accepts_attestation

verify_complete_sound_example :
    Established toy surroundings
      (λ text. text)
      identity
      (some "now")
      (ok document)
      (ok release)
      truth
verify_complete_sound_example =
    verify_complete_sound toy surroundings (λ text. text) identity (some "now") "repo" (ok document)
      (ok release) truth completes
