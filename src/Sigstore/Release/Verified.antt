-- ===== src/Sigstore/Release/Verified.antt =====
-- What a verified release is (src/verifier/sigstore/mod.rs).
use Prim.Native.String.{String}
use mathlib.Core.Path.{subst}
use tinfoil_rs.Attestation.Types.{Measurement}
use tinfoil_rs.Prelude.{ℕ, ◌≡◌, ◌∙◌, ap, sym, refl, List, some}
use tinfoil_rs.Outcome.{Outcome, ok, ok_or, ok_injective}
use tinfoil_rs.Answers.{>>=-parts, ok_or_found}
use tinfoil_rs.Errors.{Error}
use tinfoil_rs.Attestation.Complete.{SigstoreResult}
use tinfoil_rs.Sigstore.Certificate.{CertificateInfo}
use tinfoil_rs.Sigstore.Dsse.{Cert, Ring, failure, field, verify_dsse_signature}
use tinfoil_rs.Sigstore.Dsse.Envelope.{IsSigned, IsSignedEnvelope, verify_dsse_signature_sound}
use tinfoil_rs.Sigstore.Release.{
  FetchedRelease, StatementPackage, verify_certificate_identity,
  extract_certificate_info_from_bundle, extract_cert_with_validity, extract_measurement_from_bundle,
  verify_bundle, verify_repo,
}
use tinfoil_rs.Sigstore.Release.Measured.{
  IsWorkflowOf, IsMeasured, verify_certificate_identity_sound,
  extract_measurement_from_bundle_sound,
}

some_injective : {A : Type 0} {a b : A} → some a ≡ some b → a ≡ b
some_injective h = cc

module _ (s : StatementPackage) where
  open s use {bundles, from_slice, parse_statement}

  -- The payload that the statement is read from is the one that is signed.
  same_payload :
      {bundle : bundles.Value} {key : bundles.crypto.VerifyingKey} {digest : String}
      {measurement : Measurement} (signed : IsSignedEnvelope bundles bundle key)
      (measured : IsMeasured s bundle digest measurement)
      → measured.payload ≡ signed.payload
  same_payload {bundle} signed measured =
      let envelopes : measured.envelope ≡ signed.dsse =
        some_injective (sym measured.has_envelope ∙ signed.has_envelope) in
      let texts : measured.payload_b64 ≡ signed.payload_b64 =
        some_injective (
          sym measured.has_payload ∙ ap (field bundles "payload") envelopes ∙ signed.has_payload) in
      some_injective (sym measured.decodes ∙ ap bundles.decode_b64 texts ∙ signed.payload_decodes)

  module _ (find_issuer_spki : Cert bundles → Outcome Error (List ℕ))
      (load_ctlog_keyring : Outcome Error (Ring bundles))
      (verify_rekor_entry : bundles.Value → ℕ → ℕ → Outcome Error (Unit {0}))
      (verify_fulcio_chain : List ℕ → ℕ → Outcome Error (Unit {0})) where
    -- All that the verification of a release establishes, over the one bundle.
    pub record IsVerifiedRelease (repo : String) (fetched : Outcome Error FetchedRelease)
        (fetch_bundle : String → Outcome Error (List ℕ)) (result : SigstoreResult) : Type 0 where
      pub release : FetchedRelease
      pub bundle_json : List ℕ
      pub bundle : bundles.Value
      pub info : CertificateInfo
      pub validity : List ℕ × ℕ × ℕ
      pub was_released : fetched ≡ ok release
      pub was_fetched : fetch_bundle release.digest ≡ ok bundle_json
      pub is_json : from_slice bundle_json ≡ some bundle
      pub signed : IsSigned bundles find_issuer_spki load_ctlog_keyring bundle
      pub identified : extract_certificate_info_from_bundle s bundle ≡ ok info
      pub workflow : IsWorkflowOf s info repo release.tag
      pub has_validity : extract_cert_with_validity s bundle ≡ ok validity
      pub logged : verify_rekor_entry bundle validity.1 validity.2 ≡ ok tt
      pub chained : verify_fulcio_chain validity.0 validity.1 ≡ ok tt
      pub measured : IsMeasured s bundle release.digest result.measurement
      pub payload_signed : measured.payload ≡ signed.signed_envelope.payload
      pub tag_is : result.release_tag ≡ release.tag
      pub digest_is : result.digest ≡ release.digest

    verify_bundle_sound :
        (repo : String) (release : FetchedRelease) (bundle_json : List ℕ) (result : SigstoreResult)
        (fetch_bundle : String → Outcome Error (List ℕ))
        → fetch_bundle release.digest ≡ ok bundle_json
        → verify_bundle s find_issuer_spki load_ctlog_keyring verify_rekor_entry verify_fulcio_chain
            repo release bundle_json
          ≡ ok result
        → IsVerifiedRelease repo (ok release) fetch_bundle result
    unfolding verify_bundle
    verify_bundle_sound repo release bundle_json result fetch_bundle fetched h =
        let (bundle, e1, h1) =
          >>=-parts (ok_or (from_slice bundle_json) (failure "Failed to parse bundle")) h in
        let (_, e2, h2) =
          >>=-parts (verify_dsse_signature bundles find_issuer_spki load_ctlog_keyring bundle) h1 in
        let (info, e3, h3) = >>=-parts (extract_certificate_info_from_bundle s bundle) h2 in
        let (_, e4, h4) = >>=-parts (verify_certificate_identity s info repo release.tag) h3 in
        let (validity, e5, h5) = >>=-parts (extract_cert_with_validity s bundle) h4 in
        let (_, e6, h6) = >>=-parts (verify_rekor_entry bundle validity.1 validity.2) h5 in
        let (_, e7, h7) = >>=-parts (verify_fulcio_chain validity.0 validity.1) h6 in
        let (measurement, e8, h8) =
          >>=-parts (extract_measurement_from_bundle s bundle release.digest) h7 in
        let is_signed =
          verify_dsse_signature_sound bundles find_issuer_spki load_ctlog_keyring bundle e2 in
        let same = ok_injective h8 in
        let is_measured =
          extract_measurement_from_bundle_sound s bundle release.digest result.measurement
            (e8 ∙ ap (λ r. ok r.measurement) same) in
        record {
          release = release;
          bundle_json = bundle_json;
          bundle = bundle;
          info = info;
          validity = validity;
          was_released = refl;
          was_fetched = fetched;
          is_json = ok_or_found _ _ e1;
          signed = is_signed;
          identified = e3;
          workflow = verify_certificate_identity_sound s info repo release.tag e4;
          has_validity = e5;
          logged = e6;
          chained = e7;
          measured = is_measured;
          payload_signed = same_payload is_signed.signed_envelope is_measured;
          tag_is = ap (λ r. r.release_tag) (sym same);
          digest_is = ap (λ r. r.digest) (sym same);
        }

    -- A release that passes: the bundle of its digest has an envelope signed as it should be, by a
    -- certificate that GitHub Actions' issuer gave to a workflow of the repository run for the
    -- release's tag; the checks of the log entry and of the certificate's chain pass for the same
    -- bundle and certificate; and the measurement is the one stated, for the release's digest, in the
    -- very payload that is signed.
    pub verify_repo_sound :
        (repo : String) (fetched : Outcome Error FetchedRelease)
        (fetch_bundle : String → Outcome Error (List ℕ)) (result : SigstoreResult)
        → verify_repo s find_issuer_spki load_ctlog_keyring verify_rekor_entry verify_fulcio_chain
            repo fetched fetch_bundle
          ≡ ok result
        → IsVerifiedRelease repo fetched fetch_bundle result
    unfolding verify_repo
    verify_repo_sound repo fetched fetch_bundle result h =
        let (release, e1, h1) = >>=-parts fetched h in
        let (bundle_json, e2, h2) = >>=-parts (fetch_bundle release.digest) h1 in
        subst (λ o. IsVerifiedRelease repo o fetch_bundle result) (sym e1)
          (verify_bundle_sound repo release bundle_json result fetch_bundle e2 h2)
