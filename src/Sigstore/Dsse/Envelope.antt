-- ===== src/Sigstore/Dsse/Envelope.antt =====
-- What a verified envelope is signed by (src/verifier/sigstore/dsse.rs).
use Prim.Native.String.{String}
use tinfoil_rs.Prelude.{ℕ, ◌≡◌, ◌∙◌, ap, true, List, [], ◌∷◌, some}
use tinfoil_rs.Outcome.{Outcome, ok, err, panic, ensure, ok_or, ok_injective}
use tinfoil_rs.Answers.{>>=-parts, ok_or_found, ensure_held}
use tinfoil_rs.Text.{as_bytes}
use tinfoil_rs.Errors.{Error}
use tinfoil_rs.Decides.{Decides-ok}
use tinfoil_rs.Sigstore.Transparency.{all_from_cert}
use tinfoil_rs.Sigstore.Certificate.{
  contains, id_kp_code_signing, or_text, validate_certificate_extensions,
}
use tinfoil_rs.Sigstore.Dsse.Pae.{compute_pae}
use tinfoil_rs.Sigstore.Dsse.Scts.{
  Any, any_valid_sound, AreOfDifferentLogs, IsVerified, reject_duplicates-Decides,
}
use tinfoil_rs.Sigstore.Dsse.{
  BundlePackage, Cert, Ring, Sct, failure, and_then, field, certificate_der, parse_certificate,
  only, decode_signature, verify_envelope, reject_duplicates, verify_sct, verify_dsse_signature,
}

pub or_text_kept :
    {E A : Type 0} (m : Outcome E A) (text : String) {a : A} → or_text m text ≡ ok a → m ≡ ok a
unfolding or_text
or_text_kept (ok a) text h = cc
or_text_kept (err e) text h = cc
or_text_kept panic text h = cc

module _ (p : BundlePackage) where
  open p use {
    Value, get, as_str, as_array, decode_b64, x509, crypto, key_from_sec1, signature_from_slice,
  }

  only_found :
      (signatures : List Value) {signed : Value}
      → only p signatures ≡ ok signed
      → signatures ≡ signed ∷ []
  unfolding only
  only_found [] h = cc
  only_found (signature ∷ []) h = ap (λ s. s ∷ []) (ok_injective h)
  only_found (signature ∷ another ∷ others) h = cc

  -- The bundle has an envelope with one signature, which is one of the encoding of its type and its
  -- payload under the key.
  pub record IsSignedEnvelope (bundle : Value) (key : crypto.VerifyingKey) : Type 0 where
    pub dsse : Value
    pub payload_type : String
    pub payload_b64 : String
    pub payload : List ℕ
    pub signed : Value
    pub signature_b64 : String
    pub signature_bytes : List ℕ
    pub signature : crypto.Signature
    pub has_envelope : get "dsseEnvelope" bundle ≡ some dsse
    pub has_type : field p "payloadType" dsse ≡ some payload_type
    pub has_payload : field p "payload" dsse ≡ some payload_b64
    pub has_one_signature : and_then (get "signatures" dsse) as_array ≡ some (signed ∷ [])
    pub payload_decodes : decode_b64 payload_b64 ≡ some payload
    pub has_signature : field p "sig" signed ≡ some signature_b64
    pub signature_decodes_b64 : decode_b64 signature_b64 ≡ some signature_bytes
    pub signature_decodes : decode_signature p signature_bytes ≡ ok signature
    pub verifies :
        crypto.verifies key (compute_pae (as_bytes payload_type) payload) signature ≡ true

  verify_envelope_sound :
      (bundle : Value) (key : crypto.VerifyingKey)
      → verify_envelope p bundle key ≡ ok tt
      → IsSignedEnvelope bundle key
  unfolding verify_envelope
  verify_envelope_sound bundle key h =
      let (dsse, e1, h1) =
        >>=-parts (ok_or (get "dsseEnvelope" bundle) (failure "No dsseEnvelope in bundle")) h in
      let (payload_type, e2, h2) =
        >>=-parts (ok_or (field p "payloadType" dsse) (failure "No payloadType")) h1 in
      let (payload_b64, e3, h3) =
        >>=-parts (ok_or (field p "payload" dsse) (failure "No payload")) h2 in
      let (signatures, e4, h4) =
        >>=-parts
          (ok_or (and_then (get "signatures" dsse) as_array)
            (failure "No signatures array in DSSE envelope"))
          h3 in
      let (signed, e5, h5) = >>=-parts (only p signatures) h4 in
      let (signature_b64, e6, h6) =
        >>=-parts (ok_or (field p "sig" signed) (failure "No sig field in DSSE signature")) h5 in
      let (payload, e7, h7) =
        >>=-parts (ok_or (decode_b64 payload_b64) (failure "Failed to decode payload")) h6 in
      let (signature_bytes, e8, h8) =
        >>=-parts (ok_or (decode_b64 signature_b64) (failure "Failed to decode signature")) h7 in
      let (signature, e9, h9) = >>=-parts (decode_signature p signature_bytes) h8 in
      record {
        dsse = dsse;
        payload_type = payload_type;
        payload_b64 = payload_b64;
        payload = payload;
        signed = signed;
        signature_b64 = signature_b64;
        signature_bytes = signature_bytes;
        signature = signature;
        has_envelope = ok_or_found _ _ e1;
        has_type = ok_or_found _ _ e2;
        has_payload = ok_or_found _ _ e3;
        has_one_signature = ok_or_found _ _ e4 ∙ ap some (only_found signatures e5);
        payload_decodes = ok_or_found _ _ e7;
        has_signature = ok_or_found _ _ e6;
        signature_decodes_b64 = ok_or_found _ _ e8;
        signature_decodes = e9;
        verifies = ensure_held _ _ h9;
      }

  -- A certificate for signing code.
  pub record IsCodeSigner (cert : Cert p) : Type 0 where
    pub oids : List String
    pub may_sign : x509.key_usage cert ≡ ok (some true)
    pub has_usages : x509.ext_key_usage cert ≡ ok (some oids)
    pub may_sign_code : contains oids id_kp_code_signing ≡ true

  validate_certificate_extensions_sound :
      (cert : Cert p) → validate_certificate_extensions x509 cert ≡ ok tt → IsCodeSigner cert
  unfolding validate_certificate_extensions
  validate_certificate_extensions_sound cert h =
      let (usage, e1, h1) =
        >>=-parts (or_text (x509.key_usage cert) "Failed to parse KeyUsage extension") h in
      let (digital, e2, h2) =
        >>=-parts (ok_or usage (failure "Certificate missing KeyUsage extension")) h1 in
      let (_, e3, h3) =
        >>=-parts
          (ensure digital (failure "Certificate KeyUsage does not include digitalSignature")) h2 in
      let (usages, e4, h4) =
        >>=-parts (or_text (x509.ext_key_usage cert) "Failed to parse ExtendedKeyUsage extension")
          h3 in
      let (oids, e5, h5) =
        >>=-parts (ok_or usages (failure "Certificate missing ExtendedKeyUsage extension")) h4 in
      record {
        oids = oids;
        may_sign =
            or_text_kept _ _ e1
            ∙ ap ok (ok_or_found usage _ e2 ∙ ap some (ensure_held digital _ e3));
        has_usages = or_text_kept _ _ e4 ∙ ap ok (ok_or_found usages _ e5);
        may_sign_code = ensure_held _ _ h5;
      }

  -- The certificate has SCTs of different logs, one of which verifies.
  pub record IsLogged (cert_der spki : List ℕ) (load_ctlog_keyring : Outcome Error (Ring p))
      : Type 0 where
    pub cert : Cert p
    pub ring : Ring p
    pub scts : List (Sct p)
    pub parses : x509.from_der cert_der ≡ some cert
    pub has_scts : all_from_cert x509.scts cert spki ≡ ok scts
    pub has_ring : load_ctlog_keyring ≡ ok ring
    pub different_logs : AreOfDifferentLogs p [] scts
    pub one_verifies : Any (IsVerified p ring) scts

  verify_sct_sound :
      (cert_der spki : List ℕ) (load_ctlog_keyring : Outcome Error (Ring p))
      → verify_sct p cert_der spki load_ctlog_keyring ≡ ok tt
      → IsLogged cert_der spki load_ctlog_keyring
  unfolding verify_sct
  verify_sct_sound cert_der spki load_ctlog_keyring h =
      let (cert, e1, h1) =
        >>=-parts (ok_or (x509.from_der cert_der) (failure "Failed to parse certificate for SCT"))
          h in
      let (scts, e2, h2) =
        >>=-parts (or_text (all_from_cert x509.scts cert spki) "Failed to extract SCTs") h1 in
      let (_, e3, h3) = >>=-parts (reject_duplicates p [] scts) h2 in
      let (ring, e4, h4) = >>=-parts load_ctlog_keyring h3 in
      record {
        cert = cert;
        ring = ring;
        scts = scts;
        parses = ok_or_found _ _ e1;
        has_scts = or_text_kept _ _ e2;
        has_ring = e4;
        different_logs = Decides-ok (reject_duplicates-Decides p [] scts) e3;
        one_verifies = any_valid_sound p ring scts h4;
      }

  -- The bundle's certificate is one for signing code, is logged, and its key signs the envelope.
  pub record IsSigned (find_issuer_spki : Cert p → Outcome Error (List ℕ))
      (load_ctlog_keyring : Outcome Error (Ring p)) (bundle : Value) : Type 0 where
    pub cert_der : List ℕ
    pub cert : Cert p
    pub spki : List ℕ
    pub key : crypto.VerifyingKey
    pub has_certificate : certificate_der p bundle ≡ ok cert_der
    pub parses : x509.from_der cert_der ≡ some cert
    pub code_signer : IsCodeSigner cert
    pub has_issuer : find_issuer_spki cert ≡ ok spki
    pub logged : IsLogged cert_der spki load_ctlog_keyring
    pub has_key : key_from_sec1 (x509.public_key_bytes cert) ≡ some key
    pub signed_envelope : IsSignedEnvelope bundle key

  -- A bundle whose signature passes has a certificate that is for signing code; the certificate has
  -- SCTs of pairwise different logs, at least one of which verifies; and its key verifies the one
  -- signature of the envelope over the pre-authentication encoding of its type and its payload.
  pub verify_dsse_signature_sound :
      (find_issuer_spki : Cert p → Outcome Error (List ℕ))
      (load_ctlog_keyring : Outcome Error (Ring p)) (bundle : Value)
      → verify_dsse_signature p find_issuer_spki load_ctlog_keyring bundle ≡ ok tt
      → IsSigned find_issuer_spki load_ctlog_keyring bundle
  unfolding verify_dsse_signature parse_certificate
  verify_dsse_signature_sound find_issuer_spki load_ctlog_keyring bundle h =
      let (cert_der, e1, h1) = >>=-parts (certificate_der p bundle) h in
      let (cert, e2, h2) = >>=-parts (parse_certificate p cert_der) h1 in
      let (_, e3, h3) = >>=-parts (validate_certificate_extensions x509 cert) h2 in
      let (spki, e4, h4) = >>=-parts (find_issuer_spki cert) h3 in
      let (_, e5, h5) = >>=-parts (verify_sct p cert_der spki load_ctlog_keyring) h4 in
      let (key, e6, h6) =
        >>=-parts
          (ok_or (key_from_sec1 (x509.public_key_bytes cert)) (failure "Invalid public key")) h5 in
      record {
        cert_der = cert_der;
        cert = cert;
        spki = spki;
        key = key;
        has_certificate = e1;
        parses = ok_or_found _ _ e2;
        code_signer = validate_certificate_extensions_sound cert e3;
        has_issuer = e4;
        logged = verify_sct_sound cert_der spki load_ctlog_keyring e5;
        has_key = ok_or_found _ _ e6;
        signed_envelope = verify_envelope_sound bundle key h6;
      }
