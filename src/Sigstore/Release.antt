-- ===== src/Sigstore/Release.antt =====
-- The verification of a repository's release: its bundle, the identity of its certificate and the
-- measurement that its statement gives (src/verifier/sigstore/mod.rs). The packages for JSON and
-- regular expressions are parameters. What the fetches answer, and the verifications of the Rekor entry
-- and of the Fulcio chain, are arguments. The messages of errors are texts without the values that
-- they print.
pub mod Measured
pub mod Verified
pub mod Safe
use Prim.Native.String.{String}
use Prim.Native.String
use text.Mathlib.Text.{◌==◌ as str_eq}
use tinfoil_rs.Prelude.{ℕ, Bool, ◌||◌, List, [], ◌∷◌, Option, none, some}
use tinfoil_rs.Outcome.{Outcome, ok, ◌>>=◌, ◌>>◌, ensure, ok_or}
use tinfoil_rs.Errors.{Error}
use tinfoil_rs.Attestation.Types.{Measurement, snp_tdx_multi_platform_v1}
use tinfoil_rs.Attestation.Complete.{SigstoreResult}
use tinfoil_rs.Sigstore.Certificate.{CertificateInfo, extract_certificate_info}
use tinfoil_rs.Sigstore.Dsse.{
  BundlePackage, Cert, Ring, failure, field, certificate_der, parse_certificate,
  verify_dsse_signature,
}

-- A release, as the fetch answers it.
pub record FetchedRelease : Type 0 where
  pub tag : String
  pub digest : String

-- `digest` looks a name up in the digests.
pub record Subject : Type 0 where
  pub name : String
  pub digest : String → Option String

pub record InTotoStatement (Value : Type 0) : Type 0 where
  pub type_ : String
  pub predicate_type : String
  pub predicate : Value
  pub subject : List Subject

-- `regex` compiles a pattern; `to_lowercase` is the standard library's.
pub record StatementPackage : Type 1 where
  pub bundles : BundlePackage
  pub from_slice : List ℕ → Option bundles.Value
  pub parse_statement : List ℕ → Option (InTotoStatement bundles.Value)
  pub escape : String → String
  pub regex : String → Option (String → Bool)
  pub to_lowercase : String → String

abbrev pub github_actions : String
github_actions = "https://token.actions.githubusercontent.com"

abbrev pub in_toto : String
in_toto = "application/vnd.in-toto+json"

abbrev pub multiplatform : String
multiplatform = "https://tinfoil.sh/predicate/snp-tdx-multiplatform/v1"

abbrev pub first : {A : Type 0} → List A → Option A
first [] = none
first (a ∷ as_) = some a

module _ (s : StatementPackage) where
  open s use {bundles, from_slice, parse_statement, escape, regex, to_lowercase}

  -- The workflows of a repository, run for a tag.
  unfoldable pub workflow_pattern : String → String → String
  workflow_pattern repo tag = String.◌++◌ "^https://github\\.com/" (
      String.◌++◌ (escape repo)
        (String.◌++◌ "/\\.github/workflows/[^@]+@refs/tags/" (String.◌++◌ (escape tag) "$")))

  unfoldable pub verify_certificate_identity :
      CertificateInfo → String → String → Outcome Error (Unit {0})
  verify_certificate_identity cert_info expected_repo expected_tag = do
    ensure (str_eq cert_info.issuer github_actions) (failure "Certificate not from GitHub Actions")
    ensure (str_eq cert_info.repository expected_repo)
        (failure "Certificate repository does not match")
    matches ← ok_or (regex (workflow_pattern expected_repo expected_tag)) (failure "Invalid regex")
    ensure (matches cert_info.subject_workflow)
        (failure "Certificate workflow doesn't match expected pattern")

  unfoldable pub extract_certificate_info_from_bundle :
      bundles.Value → Outcome Error CertificateInfo
  unfolding certificate_der parse_certificate extract_certificate_info
  extract_certificate_info_from_bundle bundle = do
    cert_der ← certificate_der bundles bundle
    cert ← parse_certificate bundles cert_der
    extract_certificate_info bundles.x509 cert

  -- The certificate and the times of its validity.
  unfoldable pub extract_cert_with_validity : bundles.Value → Outcome Error (List ℕ × ℕ × ℕ)
  unfolding certificate_der parse_certificate
  extract_cert_with_validity bundle = do
    cert_der ← certificate_der bundles bundle
    cert ← parse_certificate bundles cert_der
    ok (cert_der, bundles.x509.not_before cert, bundles.x509.not_after cert)

  unfoldable pub measurement_of : InTotoStatement bundles.Value → String → Outcome Error Measurement
  unfolding field
  measurement_of statement expected_digest = do
    ensure
        (str_eq statement.type_ "https://in-toto.io/Statement/v0.1"
          || str_eq statement.type_ "https://in-toto.io/Statement/v1")
        (failure "Unsupported in-toto statement type")
    subject ← ok_or (first statement.subject) (failure "No subject in statement")
    payload_digest ← ok_or (subject.digest "sha256") (failure "No sha256 digest in subject")
    ensure (str_eq (to_lowercase payload_digest) (to_lowercase expected_digest))
        (failure "Provided digest does not match verified DSSE payload digest")
    ensure (str_eq statement.predicate_type multiplatform) (failure "Unsupported predicate type")
    snp_measurement ←
        ok_or (field bundles "snp_measurement" statement.predicate)
          (failure "Missing snp_measurement")
    tdx ←
        ok_or (bundles.get "tdx_measurement" statement.predicate)
          (failure "Missing tdx_measurement")
    rtmr1 ← ok_or (field bundles "rtmr1" tdx) (failure "Missing rtmr1")
    rtmr2 ← ok_or (field bundles "rtmr2" tdx) (failure "Missing rtmr2")
    ok (record {
      type_ = snp_tdx_multi_platform_v1;
      registers = snp_measurement ∷ rtmr1 ∷ rtmr2 ∷ [];
    })

  unfoldable pub extract_measurement_from_bundle :
      bundles.Value → String → Outcome Error Measurement
  unfolding field measurement_of
  extract_measurement_from_bundle bundle expected_digest = do
    dsse_envelope ← ok_or (bundles.get "dsseEnvelope" bundle) (failure "No dsseEnvelope in bundle")
    payload_type ←
        ok_or (field bundles "payloadType" dsse_envelope)
          (failure "No payloadType in DSSE envelope")
    ensure (str_eq payload_type in_toto) (failure "Unsupported DSSE payload type")
    payload_b64 ←
        ok_or (field bundles "payload" dsse_envelope) (failure "No payload in DSSE envelope")
    payload_bytes ← ok_or (bundles.decode_b64 payload_b64) (failure "Failed to decode payload")
    statement ← ok_or (parse_statement payload_bytes) (failure "Failed to parse statement")
    measurement_of statement expected_digest

  module _ (find_issuer_spki : Cert bundles → Outcome Error (List ℕ))
      (load_ctlog_keyring : Outcome Error (Ring bundles))
      (verify_rekor_entry : bundles.Value → ℕ → ℕ → Outcome Error (Unit {0}))
      (verify_fulcio_chain : List ℕ → ℕ → Outcome Error (Unit {0})) where
    -- The steps after the fetches.
    unfoldable pub verify_bundle : String → FetchedRelease → List ℕ → Outcome Error SigstoreResult
    unfolding verify_dsse_signature extract_certificate_info_from_bundle verify_certificate_identity
        extract_cert_with_validity extract_measurement_from_bundle
    verify_bundle repo release bundle_json = do
      bundle ← ok_or (from_slice bundle_json) (failure "Failed to parse bundle")
      verify_dsse_signature bundles find_issuer_spki load_ctlog_keyring bundle
      cert_info ← extract_certificate_info_from_bundle bundle
      verify_certificate_identity cert_info repo release.tag
      validity ← extract_cert_with_validity bundle
      verify_rekor_entry bundle validity.1 validity.2
      verify_fulcio_chain validity.0 validity.1
      measurement ← extract_measurement_from_bundle bundle release.digest
      ok (record { measurement = measurement; digest = release.digest; release_tag = release.tag })

    -- `fetched` is the latest release, and `fetch_bundle` fetches the bundle of a digest.
    unfoldable pub verify_repo :
        String
        → Outcome Error FetchedRelease
        → (String → Outcome Error (List ℕ))
        → Outcome Error SigstoreResult
    unfolding verify_bundle
    verify_repo repo fetched fetch_bundle = do
      release ← fetched
      bundle_json ← fetch_bundle release.digest
      verify_bundle repo release bundle_json
