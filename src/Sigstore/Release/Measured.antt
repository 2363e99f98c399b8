-- ===== src/Sigstore/Release/Measured.antt =====
-- The identity of a release's certificate and what its statement says (src/verifier/sigstore/mod.rs).
use Prim.Native.String.{String}
use text.Mathlib.Text.{◌==◌ as str_eq}
use text.Mathlib.TextEquality.{eq_iff}
use tinfoil_rs.Prelude.{ℕ, ◌≡◌, sym, Bool, true, ◌||◌, List, [], ◌∷◌, some}
use tinfoil_rs.Outcome.{ok, ensure, ok_or, ok_injective}
use tinfoil_rs.Answers.{>>=-parts, ok_or_found, ensure_held}
use tinfoil_rs.Attestation.Types.{Measurement, snp_tdx_multi_platform_v1}
use tinfoil_rs.Sigstore.Certificate.{CertificateInfo}
use tinfoil_rs.Sigstore.Dsse.{failure, field}
use tinfoil_rs.Sigstore.Release.{
  Subject, InTotoStatement, StatementPackage, github_actions, in_toto, multiplatform, first,
  workflow_pattern, verify_certificate_identity, measurement_of, extract_measurement_from_bundle,
}

module _ (s : StatementPackage) where
  open s use {bundles, from_slice, parse_statement, regex, to_lowercase}

  -- The certificate was given to a workflow of the repository, run by GitHub Actions for the tag.
  pub record IsWorkflowOf (info : CertificateInfo) (repo tag : String) : Type 0 where
    pub matches : String → Bool
    pub issuer_is : info.issuer ≡ github_actions
    pub repository_is : info.repository ≡ repo
    pub pattern_compiles : regex (workflow_pattern s repo tag) ≡ some matches
    pub workflow_matches : matches info.subject_workflow ≡ true

  pub verify_certificate_identity_sound :
      (info : CertificateInfo) (repo tag : String)
      → verify_certificate_identity s info repo tag ≡ ok tt
      → IsWorkflowOf info repo tag
  unfolding verify_certificate_identity
  verify_certificate_identity_sound info repo tag h =
      let (_, e1, h1) =
        >>=-parts
          (ensure (str_eq info.issuer github_actions)
            (failure "Certificate not from GitHub Actions"))
          h in
      let (_, e2, h2) =
        >>=-parts
          (ensure (str_eq info.repository repo) (failure "Certificate repository does not match"))
          h1 in
      let (matches, e3, h3) =
        >>=-parts (ok_or (regex (workflow_pattern s repo tag)) (failure "Invalid regex")) h2 in
      record {
        matches = matches;
        issuer_is = (eq_iff info.issuer github_actions).0 (ensure_held _ _ e1);
        repository_is = (eq_iff info.repository repo).0 (ensure_held _ _ e2);
        pattern_compiles = ok_or_found _ _ e3;
        workflow_matches = ensure_held _ _ h3;
      }

  -- A statement about the digest, with these three registers.
  pub record States (statement : InTotoStatement bundles.Value) (digest : String)
      (measurement : Measurement) : Type 0 where
    pub subject : Subject
    pub stated_digest : String
    pub snp_measurement : String
    pub rtmr1 : String
    pub rtmr2 : String
    pub tdx : bundles.Value
    pub has_subject : first statement.subject ≡ some subject
    pub has_digest : subject.digest "sha256" ≡ some stated_digest
    pub digest_is : to_lowercase stated_digest ≡ to_lowercase digest
    pub predicate_type_is : statement.predicate_type ≡ multiplatform
    pub has_snp : field bundles "snp_measurement" statement.predicate ≡ some snp_measurement
    pub has_tdx : bundles.get "tdx_measurement" statement.predicate ≡ some tdx
    pub has_rtmr1 : field bundles "rtmr1" tdx ≡ some rtmr1
    pub has_rtmr2 : field bundles "rtmr2" tdx ≡ some rtmr2
    pub measurement_is : measurement ≡ record {
      type_ = snp_tdx_multi_platform_v1;
      registers = snp_measurement ∷ rtmr1 ∷ rtmr2 ∷ [];
    }

  measurement_of_sound :
      (statement : InTotoStatement bundles.Value) (digest : String) (measurement : Measurement)
      → measurement_of s statement digest ≡ ok measurement
      → States statement digest measurement
  unfolding measurement_of
  measurement_of_sound statement digest measurement h =
      let (_, e1, h1) =
        >>=-parts
          (ensure
            (str_eq statement.type_ "https://in-toto.io/Statement/v0.1"
              || str_eq statement.type_ "https://in-toto.io/Statement/v1")
            (failure "Unsupported in-toto statement type"))
          h in
      let (subject, e2, h2) =
        >>=-parts (ok_or (first statement.subject) (failure "No subject in statement")) h1 in
      let (stated, e3, h3) =
        >>=-parts (ok_or (subject.digest "sha256") (failure "No sha256 digest in subject")) h2 in
      let (_, e4, h4) =
        >>=-parts
          (ensure (str_eq (to_lowercase stated) (to_lowercase digest))
            (failure "Provided digest does not match verified DSSE payload digest"))
          h3 in
      let (_, e5, h5) =
        >>=-parts
          (ensure (str_eq statement.predicate_type multiplatform)
            (failure "Unsupported predicate type"))
          h4 in
      let (snp, e6, h6) =
        >>=-parts
          (ok_or (field bundles "snp_measurement" statement.predicate)
            (failure "Missing snp_measurement"))
          h5 in
      let (tdx, e7, h7) =
        >>=-parts
          (ok_or (bundles.get "tdx_measurement" statement.predicate)
            (failure "Missing tdx_measurement"))
          h6 in
      let (rtmr1, e8, h8) =
        >>=-parts (ok_or (field bundles "rtmr1" tdx) (failure "Missing rtmr1")) h7 in
      let (rtmr2, e9, h9) =
        >>=-parts (ok_or (field bundles "rtmr2" tdx) (failure "Missing rtmr2")) h8 in
      record {
        subject = subject;
        stated_digest = stated;
        snp_measurement = snp;
        rtmr1 = rtmr1;
        rtmr2 = rtmr2;
        tdx = tdx;
        has_subject = ok_or_found _ _ e2;
        has_digest = ok_or_found _ _ e3;
        digest_is = (eq_iff (to_lowercase stated) (to_lowercase digest)).0 (ensure_held _ _ e4);
        predicate_type_is = (eq_iff statement.predicate_type multiplatform).0 (ensure_held _ _ e5);
        has_snp = ok_or_found _ _ e6;
        has_tdx = ok_or_found _ _ e7;
        has_rtmr1 = ok_or_found _ _ e8;
        has_rtmr2 = ok_or_found _ _ e9;
        measurement_is = sym (ok_injective h9);
      }

  -- The statement is the envelope's payload.
  pub record IsMeasured (bundle : bundles.Value) (digest : String) (measurement : Measurement)
      : Type 0 where
    pub envelope : bundles.Value
    pub payload_type : String
    pub payload_b64 : String
    pub payload : List ℕ
    pub statement : InTotoStatement bundles.Value
    pub has_envelope : bundles.get "dsseEnvelope" bundle ≡ some envelope
    pub has_type : field bundles "payloadType" envelope ≡ some payload_type
    pub type_is : payload_type ≡ in_toto
    pub has_payload : field bundles "payload" envelope ≡ some payload_b64
    pub decodes : bundles.decode_b64 payload_b64 ≡ some payload
    pub parses : parse_statement payload ≡ some statement
    pub states : States statement digest measurement

  pub extract_measurement_from_bundle_sound :
      (bundle : bundles.Value) (digest : String) (measurement : Measurement)
      → extract_measurement_from_bundle s bundle digest ≡ ok measurement
      → IsMeasured bundle digest measurement
  unfolding extract_measurement_from_bundle
  extract_measurement_from_bundle_sound bundle digest measurement h =
      let (envelope, e1, h1) =
        >>=-parts (ok_or (bundles.get "dsseEnvelope" bundle) (failure "No dsseEnvelope in bundle"))
          h in
      let (payload_type, e2, h2) =
        >>=-parts
          (ok_or (field bundles "payloadType" envelope) (failure "No payloadType in DSSE envelope"))
          h1 in
      let (_, e3, h3) =
        >>=-parts (ensure (str_eq payload_type in_toto) (failure "Unsupported DSSE payload type"))
          h2 in
      let (payload_b64, e4, h4) =
        >>=-parts (ok_or (field bundles "payload" envelope) (failure "No payload in DSSE envelope"))
          h3 in
      let (payload, e5, h5) =
        >>=-parts (ok_or (bundles.decode_b64 payload_b64) (failure "Failed to decode payload"))
          h4 in
      let (statement, e6, h6) =
        >>=-parts (ok_or (parse_statement payload) (failure "Failed to parse statement")) h5 in
      record {
        envelope = envelope;
        payload_type = payload_type;
        payload_b64 = payload_b64;
        payload = payload;
        statement = statement;
        has_envelope = ok_or_found _ _ e1;
        has_type = ok_or_found _ _ e2;
        type_is = (eq_iff payload_type in_toto).0 (ensure_held _ _ e3);
        has_payload = ok_or_found _ _ e4;
        decodes = ok_or_found _ _ e5;
        parses = ok_or_found _ _ e6;
        states = measurement_of_sound statement digest measurement h6;
      }
