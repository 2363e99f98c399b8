-- ===== src/Enclave/Tests.antt =====
-- The attestation of the SEV-SNP tests and the release of the tests of Sigstore.Rooted, verified together.
use tinfoil_rs.Prelude.{◌≡◌, some}
use tinfoil_rs.Outcome.{Outcome, ok}
use tinfoil_rs.Errors.{Error}
use tinfoil_rs.Attestation.Types.{AttestationDocument}
use tinfoil_rs.Attestation.Measurement.{equals, fingerprint, fingerprint_for_target}
use tinfoil_rs.Attestation.Sev.Tests.{toy, surroundings, accepts_attestation}
use tinfoil_rs.Attestation.Complete.{
  SigstoreResult, GroundTruth, with_error, verify_format, verify_document, verify_full,
  verification_timestamp, ground_truth, verify_complete,
}
use tinfoil_rs.Attestation.Complete.Established.{Established}
use tinfoil_rs.Attestation.Complete.Tests.{document, identity, verified as verified_enclave}
use tinfoil_rs.Sigstore.Tests.{fetched, fetch_bundle, result}
use tinfoil_rs.Word.{debug, release}
use tinfoil_rs.Answers.{IsSafe, ok_IsSafe}
use tinfoil_rs.Sigstore.Dsse.Safe.{IsReliable}
use tinfoil_rs.Enclave.Safe.{verify_enclave-IsSafe}
use tinfoil_rs.Sigstore.Rooted.{IsRooted}
use tinfoil_rs.Sigstore.Rooted.Toys.{toy_root}
use tinfoil_rs.Sigstore.Rooted.Tests.{passes}
use tinfoil_rs.Enclave.{verify_enclave, verify_enclave_sound}

abbrev fetched_document : Outcome Error AttestationDocument
fetched_document = ok document

abbrev truth : GroundTruth
truth = record {
  config_repo = "owner/repo";
  release_tag = some "v1";
  digest = "digest";
  tls_public_key = some "hex";
  hpke_public_key = some "hex";
  code_measurement = result.measurement;
  enclave_measurement = verified_enclave.measurement;
  code_fingerprint = "hex";
  enclave_fingerprint = "hex";
  verifier = identity;
  verified_at = "now";
}

matches_release :
    verify_complete toy surroundings
      (λ text. text)
      identity
      (some "now")
      "owner/repo"
      fetched_document
      (ok result)
    ≡ ok truth
unfolding verify_complete verify_full verify_document verify_format with_error
    verification_timestamp ground_truth equals fingerprint fingerprint_for_target
matches_release = rw accepts_attestation

establishes :
    verify_enclave toy surroundings
      (λ text. text)
      identity
      (some "now")
      toy_root
      debug
      "owner/repo"
      fetched_document
      fetched
      fetch_bundle
    ≡ ok truth
unfolding verify_enclave
establishes = rw passes matches_release

verify_enclave_sound_example :
    (answer : SigstoreResult) × Established toy surroundings
      (λ text. text)
      identity
      (some "now")
      fetched_document
      (ok answer)
      truth
    × IsRooted toy_root debug "owner/repo" fetched fetch_bundle answer
    × (truth.digest ≡ answer.digest)
verify_enclave_sound_example =
    verify_enclave_sound toy surroundings (λ text. text) identity (some "now") toy_root debug
      "owner/repo" fetched_document fetched fetch_bundle truth establishes

toy_root-IsReliable : IsReliable toy_root.rekor.bundles.x509
toy_root-IsReliable = record {
  key_usage = λ cert. ok_IsSafe _;
  ext_key_usage = λ cert. ok_IsSafe _;
  parse_list = λ bytes. ok_IsSafe _;
  parse_timestamp = λ bytes. ok_IsSafe _;
  encodes = λ cert extensions h. cc h;
}

verify_enclave-IsSafe_example : IsSafe (
    verify_enclave toy surroundings
      (λ text. text)
      identity
      (some "now")
      toy_root
      release
      "owner/repo"
      fetched_document
      fetched
      fetch_bundle)
verify_enclave-IsSafe_example =
    verify_enclave-IsSafe toy surroundings (λ text. text) identity (some "now") toy_root
      toy_root-IsReliable (λ spki h. cc h) (λ h. cc h) (λ bundle signature authorities. ok_IsSafe _)
      "owner/repo" fetched_document fetched fetch_bundle (ok_IsSafe _) (ok_IsSafe _)
      (λ digest. ok_IsSafe _)
