-- ===== src/Enclave/Safe.antt =====
-- The whole verification of an enclave never panics in a release build
-- (src/verifier/attestation/mod.rs).
use Prim.Native.String.{String}
use tinfoil_rs.Prelude.{ℕ, ◌≢◌, List, Option, none}
use tinfoil_rs.Word.{release}
use tinfoil_rs.Outcome.{Outcome}
use tinfoil_rs.Answers.{IsSafe}
use tinfoil_rs.Errors.{Error}
use tinfoil_rs.Attestation.Types.{AttestationDocument}
use tinfoil_rs.Attestation.X509.{X509}
use tinfoil_rs.Attestation.Sev.{Surroundings}
use tinfoil_rs.Attestation.Complete.{SoftwareIdentity}
use tinfoil_rs.Attestation.Complete.Safe.{verify_complete-IsSafe}
use tinfoil_rs.Sigstore.Dsse.Safe.{IsReliable}
use tinfoil_rs.Sigstore.Trust.{TimestampAuthority}
use tinfoil_rs.Sigstore.Release.{FetchedRelease}
use tinfoil_rs.Sigstore.Rooted.{RootPackage, verify_rooted_repo}
use tinfoil_rs.Sigstore.Rooted.Safe.{verify_rooted_repo-IsSafe}
use tinfoil_rs.Enclave.{verify_enclave}

module _ (x509 : X509) (here : Surroundings) (sha256_hex : String → String)
    (identity : SoftwareIdentity) (formatted : Option String) (p : RootPackage) where
  open p use {rekor, verify_timestamps}

  -- Whatever document, release and bundle the network answers, and whatever the trusted root: in a
  -- release build the verification of an enclave answers a ground truth or an error and never
  -- panics, if the fetches do not, if the parsers of X.509 and of SCTs and the verification of
  -- timestamps do not, if every certificate and every log's key that is parsed can be encoded again,
  -- and if the current time can be formatted.
  pub verify_enclave-IsSafe :
      IsReliable rekor.bundles.x509
      → ((spki : rekor.bundles.crypto.Spki) → rekor.bundles.crypto.encode spki ≢ none)
      → formatted ≢ none
      → ((bundle : rekor.bundles.Value) (signature : List ℕ) (authorities : List TimestampAuthority)
          → IsSafe (verify_timestamps bundle signature authorities))
      → (repo : String) (document : Outcome Error AttestationDocument)
        (latest : Outcome Error FetchedRelease) (fetch_bundle : String → Outcome Error (List ℕ))
      → IsSafe document
      → IsSafe latest
      → ((digest : String) → IsSafe (fetch_bundle digest))
      → IsSafe (
          verify_enclave x509 here sha256_hex identity formatted p release repo document latest
            fetch_bundle)
  unfolding verify_enclave
  verify_enclave-IsSafe reliable encodes_key there stamps repo document latest fetch_bundle
        documents latests bundles =
      verify_complete-IsSafe x509 here sha256_hex identity formatted repo document
        (verify_rooted_repo p release repo latest fetch_bundle) there documents
        (verify_rooted_repo-IsSafe p reliable encodes_key stamps repo latest fetch_bundle latests
          bundles)
