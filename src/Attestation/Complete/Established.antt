-- ===== src/Attestation/Complete/Established.antt =====
-- What a complete verification establishes.
use Prim.Native.String.{String}
use tinfoil_rs.Prelude.{◌≡◌, inl, inr, refl, sym, ap, Option, some}
use mathlib.Core.Path.{subst}
use tinfoil_rs.Outcome.{Outcome, ok, err, panic}
use tinfoil_rs.Attestation.Bytes.{bytes_of}
use tinfoil_rs.Attestation.Constants.{chip_id_offset, chip_id_size, reported_tcb_offset}
use tinfoil_rs.Answers.{Succeeds, Succeeds-cases, >>=-parts, or_panic_found}
use tinfoil_rs.Attestation.Types.{
  PredicateType, sev_guest_v2, tdx_guest_v2, snp_tdx_multi_platform_v1, unknown,
  AttestationDocument, Verification, ValidationOptions, default_options,
}
use tinfoil_rs.Attestation.Measurement.{equals}
use tinfoil_rs.Attestation.Measurement.Match.{Matches, equals_iff}
use tinfoil_rs.Attestation.Measurement.Fingerprint.{fingerprint-equals}
use tinfoil_rs.Attestation.X509.{X509}
use tinfoil_rs.Attestation.Sev.{Surroundings, fetch_vcek, verify_full_with_options}
use tinfoil_rs.Attestation.Sev.Genuine.{IsStructured, IsGenuine, verification_of}
use tinfoil_rs.Attestation.Sev.Verified.{IsVerified, verify_full-Answers}
use tinfoil_rs.Attestation.Complete.{
  Error, SigstoreResult, SoftwareIdentity, GroundTruth, with_error, verify_format, verify_document,
  verify_full, verification_timestamp, ground_truth, verify_complete,
}

with_error-ok :
    {E : Type 0} {A : Type 0} {a : A} (f : E → Error) (m : Outcome E A)
    → with_error f m ≡ ok a
    → m ≡ ok a
unfolding with_error
with_error-ok f (ok b) h = cc
with_error-ok f (err e) h = cc
with_error-ok f panic h = cc

ok_injective : {E : Type 0} {A : Type 0} (a b : A) {m : Outcome E A} → m ≡ ok a → m ≡ ok b → a ≡ b
ok_injective a b e h = cc (e, h)

module _ (x509 : X509) (here : Surroundings) where
  verified_of_ok :
      {v : Verification} (body : String) (options : ValidationOptions)
      → verify_full_with_options x509 here body options ≡ ok v
      → IsVerified x509 here body options v
  verified_of_ok body options h = elim (verify_full-Answers x509 here body options) [
    | inl (w, e, verified) ↦ subst (IsVerified x509 here body options) (cc (e, h)) verified
    | inr (r, e, none_is) ↦ cc (e, h)
  ]

  verified_type :
      (v : Verification) (body : String) (options : ValidationOptions)
      → IsVerified x509 here body options v
      → v.measurement.type_ ≡ sev_guest_v2
  verified_type v body options verified =
      Succeeds-cases
        {P = λ report.
          IsStructured report
          × (Succeeds
              (fetch_vcek x509 here (bytes_of report chip_id_offset chip_id_size)
                (bytes_of report reported_tcb_offset 8))
              λ vcek.
                IsGenuine x509 here report vcek options × (verification_of x509 here report ≡ v))}
        _ verified
        λ report found.
          Succeeds-cases
            {P = λ vcek.
              IsGenuine x509 here report vcek options × (verification_of x509 here report ≡ v)}
            _ found.1 λ vcek genuine. ap (λ w. w.measurement.type_) (sym genuine.1)

  -- Only an SEV-SNP document can be verified.
  verify_format_parts :
      {v : Verification} (format : PredicateType) (body : String) (options : ValidationOptions)
      → verify_format x509 here format body options ≡ ok v
      → (format ≡ sev_guest_v2) × IsVerified x509 here body options v
  unfolding verify_format
  verify_format_parts sev_guest_v2 body options h =
      (refl, verified_of_ok body options (with_error-ok _ _ h))
  verify_format_parts tdx_guest_v2 body options h = cc
  verify_format_parts snp_tdx_multi_platform_v1 body options h = cc
  verify_format_parts unknown body options h = cc

  module _ (sha256_hex : String → String) (identity : SoftwareIdentity)
      (formatted : Option String) where
    -- A ground truth comes from a verified SEV-SNP document and a release whose measurement
    -- matches; it pins the keys of the one and holds the digest of the other.
    pub record Established (fetched : Outcome Error AttestationDocument)
        (released : Outcome Error SigstoreResult) (truth : GroundTruth) : Type 0 where
      pub document : AttestationDocument
      pub enclave : Verification
      pub release : SigstoreResult
      pub document_fetched : fetched ≡ ok document
      pub is_sev : document.format ≡ sev_guest_v2
      pub verified : IsVerified x509 here document.body default_options enclave
      pub release_verified : released ≡ ok release
      pub matching : Matches enclave.measurement release.measurement
      pub tls_public_key : truth.tls_public_key ≡ some enclave.tls_public_key_fp
      pub hpke_public_key : truth.hpke_public_key ≡ enclave.hpke_public_key
      pub enclave_measurement : truth.enclave_measurement ≡ enclave.measurement
      pub code_measurement : truth.code_measurement ≡ release.measurement
      pub digest : truth.digest ≡ release.digest
      pub verified_at : formatted ≡ some truth.verified_at
      pub same_fingerprint : truth.code_fingerprint ≡ truth.enclave_fingerprint

    -- If the complete verification answers a ground truth, then the fetched document is an SEV-SNP
    -- attestation that is verified under the default options, the release was verified, their
    -- measurements match, the ground truth holds the document's keys and measurement and the
    -- release's measurement and digest and the time, and its two fingerprints are the same.
    pub verify_complete_sound :
        (repo : String) (fetched : Outcome Error AttestationDocument)
        (released : Outcome Error SigstoreResult) (truth : GroundTruth)
        → verify_complete x509 here sha256_hex identity formatted repo fetched released ≡ ok truth
        → Established fetched released truth
    unfolding verify_complete verify_full verify_document ground_truth verification_timestamp
    verify_complete_sound repo fetched released truth h =
        let (document, e, h1) = >>=-parts fetched h in
        let (enclave, v, h2) = >>=-parts (verify_full x509 here document) h1 in
        let (release, r, h3) = >>=-parts released h2 in
        let (_, m, h4) =
          >>=-parts (with_error _ (equals enclave.measurement release.measurement)) h3 in
        let (at, t, h5) = >>=-parts (verification_timestamp formatted) h4 in
        let (is_sev, verified) =
          verify_format_parts document.format document.body default_options v in
        let same = (equals_iff _ _).0 (with_error-ok _ _ m) in
        let sev = verified_type enclave document.body default_options verified in
        let answered : ground_truth x509 here sha256_hex identity formatted repo enclave release at
            ≡ truth =
          ok_injective _ truth refl h5 in
        subst (Established fetched released) answered (record {
          document = document;
          enclave = enclave;
          release = release;
          document_fetched = e;
          is_sev = is_sev;
          verified = verified;
          release_verified = r;
          matching = same;
          tls_public_key = refl;
          hpke_public_key = refl;
          enclave_measurement = refl;
          code_measurement = refl;
          digest = refl;
          verified_at = or_panic_found formatted t;
          same_fingerprint =
              fingerprint-equals sha256_hex enclave.measurement release.measurement sev
                (with_error-ok _ _ m);
        })
