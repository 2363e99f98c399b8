-- ===== src/Sigstore/Release/Safe.antt =====
-- No bundle makes the verification of a release panic (src/verifier/sigstore/mod.rs).
use Prim.Native.String.{String}
use tinfoil_rs.Prelude.{ℕ, arith, List}
use tinfoil_rs.Outcome.{Outcome}
use tinfoil_rs.Answers.{IsSafe, >>=-IsSafe, >>-IsSafe, ok_or_then-IsSafe, ok_IsSafe}
use tinfoil_rs.Errors.{Error}
use tinfoil_rs.Sigstore.Certificate.{
  CertificateInfo, find_info, check_info, extract_certificate_info,
}
use tinfoil_rs.Sigstore.Dsse.{Cert, Ring, certificate_der, parse_certificate, verify_dsse_signature}
use tinfoil_rs.Sigstore.Dsse.Safe.{IsReliable, certificate_der-IsSafe, verify_dsse_signature-IsSafe}
use tinfoil_rs.Sigstore.Release.{
  FetchedRelease, InTotoStatement, StatementPackage, verify_certificate_identity,
  extract_certificate_info_from_bundle, extract_cert_with_validity, measurement_of,
  extract_measurement_from_bundle, verify_bundle, verify_repo,
}

module _ (s : StatementPackage) (reliable : IsReliable s.bundles.x509) where
  open s use {bundles, from_slice, parse_statement}

  check_info-IsSafe : (found : CertificateInfo) → IsSafe (check_info bundles.x509 found)
  unfolding check_info
  check_info-IsSafe found h = ground arith

  verify_certificate_identity-IsSafe :
      (info : CertificateInfo) (repo tag : String)
      → IsSafe (verify_certificate_identity s info repo tag)
  unfolding verify_certificate_identity
  verify_certificate_identity-IsSafe info repo tag h = ground arith

  extract_certificate_info_from_bundle-IsSafe :
      (bundle : bundles.Value) → IsSafe (extract_certificate_info_from_bundle s bundle)
  unfolding extract_certificate_info_from_bundle parse_certificate extract_certificate_info
  extract_certificate_info_from_bundle-IsSafe bundle =
      >>=-IsSafe (certificate_der bundles bundle) _ (certificate_der-IsSafe bundles reliable bundle)
        λ der.
          ok_or_then-IsSafe (bundles.x509.from_der der) _ _ λ cert.
            check_info-IsSafe (find_info bundles.x509 (bundles.x509.scts.extensions_of cert))

  extract_cert_with_validity-IsSafe :
      (bundle : bundles.Value) → IsSafe (extract_cert_with_validity s bundle)
  unfolding extract_cert_with_validity parse_certificate
  extract_cert_with_validity-IsSafe bundle =
      >>=-IsSafe (certificate_der bundles bundle) _ (certificate_der-IsSafe bundles reliable bundle)
        λ der. ok_or_then-IsSafe (bundles.x509.from_der der) _ _ λ cert. ok_IsSafe _

  measurement_of-IsSafe :
      (statement : InTotoStatement bundles.Value) (digest : String)
      → IsSafe (measurement_of s statement digest)
  unfolding measurement_of
  measurement_of-IsSafe statement digest h = ground arith

  extract_measurement_from_bundle-IsSafe :
      (bundle : bundles.Value) (digest : String)
      → IsSafe (extract_measurement_from_bundle s bundle digest)
  unfolding extract_measurement_from_bundle
  extract_measurement_from_bundle-IsSafe bundle digest h = grind (arith, measurement_of-IsSafe)

  module _ (find_issuer_spki : Cert bundles → Outcome Error (List ℕ))
      (load_ctlog_keyring : Outcome Error (Ring bundles))
      (verify_rekor_entry : bundles.Value → ℕ → ℕ → Outcome Error (Unit {0}))
      (verify_fulcio_chain : List ℕ → ℕ → Outcome Error (Unit {0}))
      (finds : (cert : Cert bundles) → IsSafe (find_issuer_spki cert))
      (loads : IsSafe load_ctlog_keyring)
      (entries : (bundle : bundles.Value) (from until : ℕ)
        → IsSafe (verify_rekor_entry bundle from until))
      (chains : (der : List ℕ) (time : ℕ) → IsSafe (verify_fulcio_chain der time)) where
    verify_bundle-IsSafe :
        (repo : String) (release : FetchedRelease) (bundle_json : List ℕ)
        → IsSafe (
            verify_bundle s find_issuer_spki load_ctlog_keyring verify_rekor_entry
              verify_fulcio_chain repo release bundle_json)
    unfolding verify_bundle
    verify_bundle-IsSafe repo release bundle_json =
        ok_or_then-IsSafe (from_slice bundle_json) _ _ λ bundle.
          >>-IsSafe (verify_dsse_signature bundles find_issuer_spki load_ctlog_keyring bundle) _
            (verify_dsse_signature-IsSafe bundles reliable find_issuer_spki load_ctlog_keyring finds
              loads bundle)
            (>>=-IsSafe (extract_certificate_info_from_bundle s bundle) _
              (extract_certificate_info_from_bundle-IsSafe bundle)
              λ info.
                >>-IsSafe (verify_certificate_identity s info repo release.tag) _
                  (verify_certificate_identity-IsSafe info repo release.tag)
                  (>>=-IsSafe (extract_cert_with_validity s bundle) _
                    (extract_cert_with_validity-IsSafe bundle)
                    λ validity.
                      >>-IsSafe (verify_rekor_entry bundle validity.1 validity.2) _
                        (entries bundle validity.1 validity.2)
                        (>>-IsSafe (verify_fulcio_chain validity.0 validity.1) _
                          (chains validity.0 validity.1)
                          (>>=-IsSafe (extract_measurement_from_bundle s bundle release.digest) _
                            (extract_measurement_from_bundle-IsSafe bundle release.digest)
                            λ measurement. ok_IsSafe _))))

    pub verify_repo-IsSafe :
        (repo : String) (fetched : Outcome Error FetchedRelease)
        (fetch_bundle : String → Outcome Error (List ℕ))
        → IsSafe fetched
        → ((digest : String) → IsSafe (fetch_bundle digest))
        → IsSafe (
            verify_repo s find_issuer_spki load_ctlog_keyring verify_rekor_entry verify_fulcio_chain
              repo fetched fetch_bundle)
    unfolding verify_repo
    verify_repo-IsSafe repo fetched fetch_bundle fetches bundles_fetched =
        >>=-IsSafe fetched _ fetches λ release.
          >>=-IsSafe (fetch_bundle release.digest) _ (bundles_fetched release.digest)
            (verify_bundle-IsSafe repo release)
