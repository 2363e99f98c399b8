-- ===== src/Enclave.antt =====
-- The complete verification with the verification of the release in place
-- (src/verifier/attestation/mod.rs calls `verify_repo` of src/verifier/sigstore/mod.rs).
pub mod Safe
mod Tests
use Prim.Native.String.{String}
use mathlib.Core.Path.{subst}
use tinfoil_rs.Prelude.{ℕ, ◌≡◌, List, Option}
use tinfoil_rs.Word.{Build}
use tinfoil_rs.Outcome.{Outcome, ok}
use tinfoil_rs.Errors.{Error}
use tinfoil_rs.Attestation.Types.{AttestationDocument}
use tinfoil_rs.Attestation.X509.{X509}
use tinfoil_rs.Attestation.Sev.{Surroundings}
use tinfoil_rs.Attestation.Complete.{SigstoreResult, SoftwareIdentity, GroundTruth, verify_complete}
use tinfoil_rs.Attestation.Complete.Established.{Established, verify_complete_sound}
use tinfoil_rs.Sigstore.Release.{FetchedRelease}
use tinfoil_rs.Sigstore.Rooted.{RootPackage, IsRooted, verify_rooted_repo, verify_rooted_repo_sound}

module _ (x509 : X509) (here : Surroundings) (sha256_hex : String → String)
    (identity : SoftwareIdentity) (formatted : Option String) (p : RootPackage) (b : Build) where
  -- The whole verification of an enclave against a repository, over what the fetches answer.
  unfoldable pub verify_enclave :
      String
      → Outcome Error AttestationDocument
      → Outcome Error FetchedRelease
      → (String → Outcome Error (List ℕ))
      → Outcome Error GroundTruth
  unfolding verify_complete verify_rooted_repo
  verify_enclave repo document latest fetch_bundle =
      verify_complete x509 here sha256_hex identity formatted repo document
        (verify_rooted_repo p b repo latest fetch_bundle)

  -- A ground truth answered for a repository: the document is a verified SEV-SNP attestation, the
  -- release is one that Sigstore's checks pass for the repository, with a log entry and a chain by
  -- the keys and authorities of the trusted root, the two measurements match, and the ground truth
  -- holds the keys of the document and the digest of the release.
  pub verify_enclave_sound :
      (repo : String) (document : Outcome Error AttestationDocument)
      (latest : Outcome Error FetchedRelease) (fetch_bundle : String → Outcome Error (List ℕ))
      (truth : GroundTruth)
      → verify_enclave repo document latest fetch_bundle ≡ ok truth
      → ((result : SigstoreResult) × Established x509 here sha256_hex identity formatted document
            (ok result)
            truth
          × IsRooted p b repo latest fetch_bundle result
          × (truth.digest ≡ result.digest))
  unfolding verify_enclave
  verify_enclave_sound repo document latest fetch_bundle truth h =
      let established =
        verify_complete_sound x509 here sha256_hex identity formatted repo document
          (verify_rooted_repo p b repo latest fetch_bundle) truth h in
      (
        established.release,
        subst (λ r. Established x509 here sha256_hex identity formatted document r truth)
            established.release_verified established,
        verify_rooted_repo_sound p b repo latest fetch_bundle established.release
            established.release_verified,
        established.digest,
      )
