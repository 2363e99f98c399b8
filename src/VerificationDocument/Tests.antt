-- ===== src/VerificationDocument/Tests.antt =====
-- Documents of a release, of pinned measurements and of an enclave without an HPKE key.
use Prim.Native.String.{String}
use tinfoil_rs.Prelude.{◌≡◌, refl, true, false, [], ◌∷◌, Option, none, some}
use tinfoil_rs.Attestation.Types.{Measurement, sev_guest_v2}
use tinfoil_rs.Attestation.Complete.{GroundTruth}
use tinfoil_rs.VerificationDocument.{
  VerificationDocument, VerificationSteps, skipped, step_of, steps_of, from_ground_truth,
}

abbrev measured : Measurement
measured = record { type_ = sev_guest_v2; registers = "hex" ∷ [] }

abbrev truth_of : String → Option String → GroundTruth
truth_of digest hpke = record {
  config_repo = "repo";
  release_tag = some "v1";
  digest = digest;
  tls_public_key = some "tls";
  hpke_public_key = hpke;
  code_measurement = measured;
  enclave_measurement = measured;
  code_fingerprint = "hex";
  enclave_fingerprint = "hex";
  verifier = record { name = "tinfoil"; version = "1" };
  verified_at = "now";
}

abbrev document_of : String → VerificationSteps → VerificationDocument
document_of digest steps = record {
  schema_version = 1;
  config_repo = "repo";
  enclave_host = "host";
  release_tag = some "v1";
  release_digest = digest;
  code_measurement = measured;
  enclave_measurement = record {
    measurement = measured;
    tls_public_key_fingerprint = "tls";
    hpke_public_key = "hpke";
  };
  tls_public_key = "tls";
  hpke_public_key = "hpke";
  code_fingerprint = "hex";
  enclave_fingerprint = "hex";
  selected_router_endpoint = "host";
  security_verified = true;
  verifier = record { name = "tinfoil"; version = "1" };
  verified_at = "now";
  steps = steps;
}

documents_release :
    from_ground_truth (truth_of "digest" (some "hpke")) "host"
    ≡ some (document_of "digest" (steps_of false))
unfolding from_ground_truth
documents_release = refl

documents_pinned :
    from_ground_truth (truth_of "pinned_no_digest" (some "hpke")) "host"
    ≡ some (document_of "pinned_no_digest" (steps_of true))
unfolding from_ground_truth
documents_pinned = refl

skips_pinned : (steps_of true).fetch_digest ≡ step_of skipped
unfolding steps_of
skips_pinned = refl

needs_hpke : from_ground_truth (truth_of "digest" none) "host" ≡ none
unfolding from_ground_truth
needs_hpke = refl
