-- ===== src/Sigstore/Dsse/Safe.antt =====
-- No bundle makes the verification of its signature panic (src/verifier/sigstore/dsse.rs,
-- transparency.rs and certificate.rs).
use Prim.Native.String.{String}
use tinfoil_rs.Prelude.{ℕ, ◌≢◌, ◌/◌, arith, refl, List, [], ◌∷◌, Option, none}
use tinfoil_rs.Outcome.{Outcome, ok, err, panic, or_panic}
use tinfoil_rs.Answers.{
  IsSafe, Decides-IsSafe, >>=-IsSafe, >>-IsSafe, ok_or_then-IsSafe, ok_IsSafe, or_panic-IsSafe,
}
use tinfoil_rs.Errors.{Error}
use tinfoil_rs.Sigstore.Keyring.{KeyringError}
use tinfoil_rs.Sigstore.Keyring.Valid.{verify_at-Decides}
use tinfoil_rs.Sigstore.Transparency.{
  Extension, SignedCertificateTimestamp, CertificateErrorKind, as_parsing, as_verification,
  map_option, ct_precert_scts_oid, find_extension, without_scts, parse_timestamps,
  parse_scts_from_cert, embed_all, all_from_cert, digitally_signed,
}
use tinfoil_rs.Sigstore.Transparency
use tinfoil_rs.Sigstore.Certificate.{CertificatePackage, or_text, validate_certificate_extensions}
use tinfoil_rs.Sigstore.Dsse.{
  BundlePackage, Cert, Ring, Sct, certificate_der, parse_certificate, verify_sct, only,
  decode_signature, verify_envelope, verify_dsse_signature,
}
use tinfoil_rs.Sigstore.Dsse.Scts.{All, reject_duplicates-Decides, any_valid-Decides}

-- The parsers of X.509 and of the TLS encoding answer, and a certificate that was parsed is encoded.
pub record IsReliable (x509 : CertificatePackage) : Type 0 where
  pub key_usage : (cert : x509.scts.Certificate) → IsSafe (x509.key_usage cert)
  pub ext_key_usage : (cert : x509.scts.Certificate) → IsSafe (x509.ext_key_usage cert)
  pub parse_list : (bytes : List ℕ) → IsSafe (x509.scts.parse_list bytes)
  pub parse_timestamp : (bytes : List ℕ) → IsSafe (x509.scts.parse_timestamp bytes)
  pub encodes :
      (cert : x509.scts.Certificate) (extensions : Option (List Extension))
      → x509.scts.encode_tbs cert extensions ≢ none

pub or_text-IsSafe :
    {E A : Type 0} (m : Outcome E A) (text : String) → IsSafe m → IsSafe (or_text m text)
unfolding or_text
or_text-IsSafe (ok a) text safe h = cc
or_text-IsSafe (err e) text safe h = cc
or_text-IsSafe panic text safe h = safe refl

as_parsing-IsSafe :
    {A : Type 0} (m : Outcome CertificateErrorKind A) → IsSafe m → IsSafe (as_parsing m)
unfolding as_parsing
as_parsing-IsSafe (ok a) safe h = cc
as_parsing-IsSafe (err e) safe h = cc
as_parsing-IsSafe panic safe h = safe refl

as_verification-IsSafe :
    {A : Type 0} (m : Outcome KeyringError A) → IsSafe m → IsSafe (as_verification m)
unfolding as_verification
as_verification-IsSafe (ok a) safe h = cc
as_verification-IsSafe (err e) safe h = cc
as_verification-IsSafe panic safe h = safe refl

each_All : {A : Type 0} {P : A → Type 0} (xs : List A) → ((x : A) → P x) → All P xs
each_All [] f = tt
each_All (x ∷ xs) f = (f x, each_All xs f)

module _ (p : BundlePackage) (reliable : IsReliable p.x509) where
  open p use {Value, get, as_array, decode_b64, x509, crypto, key_from_sec1, signature_from_slice}

  validate_certificate_extensions-IsSafe :
      (cert : Cert p) → IsSafe (validate_certificate_extensions x509 cert)
  unfolding validate_certificate_extensions
  validate_certificate_extensions-IsSafe cert h = ground (
    arith,
    or_text-IsSafe (x509.key_usage cert) "Failed to parse KeyUsage extension"
        (reliable.key_usage cert),
    or_text-IsSafe (x509.ext_key_usage cert) "Failed to parse ExtendedKeyUsage extension"
        (reliable.ext_key_usage cert),
  )

  parse_timestamps-IsSafe : (texts : List (List ℕ)) → IsSafe (parse_timestamps x509.scts texts)
  unfolding parse_timestamps
  parse_timestamps-IsSafe [] h = cc
  parse_timestamps-IsSafe (text ∷ texts) h = ground (
    arith,
    as_parsing-IsSafe (x509.scts.parse_timestamp text) (reliable.parse_timestamp text),
    parse_timestamps-IsSafe texts,
  )

  parse_scts_from_cert-IsSafe : (cert : Cert p) → IsSafe (parse_scts_from_cert x509.scts cert)
  unfolding parse_scts_from_cert
  parse_scts_from_cert-IsSafe cert =
      ok_or_then-IsSafe (x509.scts.extensions_of cert) _ _ λ extensions.
        ok_or_then-IsSafe (find_extension extensions ct_precert_scts_oid) _ _ λ extension.
          >>=-IsSafe (as_parsing (x509.scts.parse_list extension.extn_value)) _
            (as_parsing-IsSafe _ (reliable.parse_list extension.extn_value)) parse_timestamps-IsSafe

  embed_all-IsSafe :
      (cert : Cert p) (spki : List ℕ) (scts : List SignedCertificateTimestamp)
      → IsSafe (embed_all x509.scts cert spki scts)
  unfolding embed_all
  embed_all-IsSafe cert spki [] h = cc
  embed_all-IsSafe cert spki (sct ∷ scts) h = cc

  all_from_cert-IsSafe :
      (cert : Cert p) (spki : List ℕ) → IsSafe (all_from_cert x509.scts cert spki)
  unfolding all_from_cert
  all_from_cert-IsSafe cert spki =
      >>=-IsSafe (parse_scts_from_cert x509.scts cert) _ (parse_scts_from_cert-IsSafe cert)
        (embed_all-IsSafe cert spki)

  digitally_signed-IsSafe : (sct : Sct p) → IsSafe (digitally_signed x509.scts sct)
  unfolding digitally_signed
  digitally_signed-IsSafe sct =
      >>=-IsSafe
        (or_panic (
          x509.scts.encode_tbs sct.cert
            (map_option without_scts (x509.scts.extensions_of sct.cert))))
        _ (or_panic-IsSafe _ (reliable.encodes sct.cert _)) λ tbs. ok_IsSafe _

  verify_timestamp-IsSafe :
      (ring : Ring p) (sct : Sct p) → IsSafe (Transparency.verify_sct x509.scts crypto sct ring)
  unfolding Transparency.verify_sct
  verify_timestamp-IsSafe ring sct =
      >>=-IsSafe (digitally_signed x509.scts sct) _ (digitally_signed-IsSafe sct) λ signed.
        ok_or_then-IsSafe (x509.scts.tls_serialize signed) _ _ λ serialized.
          as_verification-IsSafe _ (
            Decides-IsSafe (
              verify_at-Decides crypto ring signed.log_id signed.signature serialized
                (signed.timestamp / 1000)))

  verify_sct-IsSafe :
      (cert_der spki : List ℕ) (load_ctlog_keyring : Outcome Error (Ring p))
      → IsSafe load_ctlog_keyring
      → IsSafe (verify_sct p cert_der spki load_ctlog_keyring)
  unfolding verify_sct
  verify_sct-IsSafe cert_der spki load_ctlog_keyring safe =
      ok_or_then-IsSafe (x509.from_der cert_der) _ _ λ cert.
        >>=-IsSafe (or_text (all_from_cert x509.scts cert spki) _) _
          (or_text-IsSafe _ _ (all_from_cert-IsSafe cert spki))
          λ scts. >>-IsSafe _ _ (Decides-IsSafe (reject_duplicates-Decides p [] scts)) (
            >>=-IsSafe load_ctlog_keyring _ safe λ ring.
              Decides-IsSafe
                (any_valid-Decides p ring scts (each_All scts (verify_timestamp-IsSafe ring))))

  decode_signature-IsSafe : (bytes : List ℕ) → IsSafe (decode_signature p bytes)
  unfolding decode_signature
  decode_signature-IsSafe bytes h = ground arith

  only-IsSafe : (signatures : List Value) → IsSafe (only p signatures)
  unfolding only
  only-IsSafe [] h = cc
  only-IsSafe (signature ∷ []) h = cc
  only-IsSafe (signature ∷ (other ∷ others)) h = cc

  verify_envelope-IsSafe :
      (bundle : Value) (key : crypto.VerifyingKey) → IsSafe (verify_envelope p bundle key)
  unfolding verify_envelope
  verify_envelope-IsSafe bundle key h = grind (arith, only-IsSafe, decode_signature-IsSafe)

  pub certificate_der-IsSafe : (bundle : Value) → IsSafe (certificate_der p bundle)
  unfolding certificate_der
  certificate_der-IsSafe bundle h = ground arith

  pub verify_dsse_signature-IsSafe :
      (find_issuer_spki : Cert p → Outcome Error (List ℕ))
      (load_ctlog_keyring : Outcome Error (Ring p))
      → ((cert : Cert p) → IsSafe (find_issuer_spki cert))
      → IsSafe load_ctlog_keyring
      → (bundle : Value)
      → IsSafe (verify_dsse_signature p find_issuer_spki load_ctlog_keyring bundle)
  unfolding verify_dsse_signature parse_certificate
  verify_dsse_signature-IsSafe find_issuer_spki load_ctlog_keyring finds loads bundle =
      >>=-IsSafe (certificate_der p bundle) _ (certificate_der-IsSafe bundle) λ cert_der.
        ok_or_then-IsSafe (x509.from_der cert_der) _ _ λ cert.
          >>-IsSafe (validate_certificate_extensions x509 cert) _
            (validate_certificate_extensions-IsSafe cert)
            (>>=-IsSafe (find_issuer_spki cert) _ (finds cert) λ spki.
              >>-IsSafe (verify_sct p cert_der spki load_ctlog_keyring) _
                (verify_sct-IsSafe cert_der spki load_ctlog_keyring loads)
                (ok_or_then-IsSafe (key_from_sec1 (x509.public_key_bytes cert)) _ _
                  λ key. verify_envelope-IsSafe bundle key))
