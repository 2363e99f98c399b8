-- ===== src/Attestation/CertChain/Verify.antt =====
-- `verify_cert_chain_crypto`, one definition for each of its steps, in its order.
use Prim.Native.String.{String}
use text.Mathlib.Text.{◌==◌ as str_eq}
use tinfoil_rs.Prelude.{ℕ, true, false, List, ◌∷◌}
use tinfoil_rs.Outcome.{ok, err, ◌>>=◌, ◌>>◌, ensure, ok_or}
use tinfoil_rs.Attestation.Constants.{amd_ark_genoa_spki_fingerprint}
use tinfoil_rs.Attestation.Reason.{message, parse_failed, printed}
use tinfoil_rs.Attestation.Report.{Attested}
use tinfoil_rs.Attestation.X509.{X509}
use tinfoil_rs.Attestation.CertChain.{
  oid_ec_public_key, oid_secp384r1, ClockReadings, parse_pem_chain, compute_spki_fingerprint,
  extract_pubkey_from_cert, extract_tbs_from_cert, validate_certificate_validity,
  validate_basic_constraints, validate_signature_algorithm_consistency,
  parse_rsa_pss_sha384_salt_len, verify_rsa_pss_signature,
}
use tinfoil_rs.Attestation.CertChain.Names.{validate_amd_location, validate_cn}

-- ASK and ARK, the first two certificates of the chain.
unfoldable pub first_two : List (List ℕ) → Attested (List ℕ × List ℕ)
first_two (ask_der ∷ ark_der ∷ rest) = ok (ask_der, ark_der)
first_two _ = err (message "Certificate chain should contain ASK and ARK")

module _ (x509 : X509) where
  open x509 use {
    Certificate, from_der, is_v3, key_algorithm, key_parameters, as_oid, name_eq, issuer, subject,
    signature_algorithm, signature_bytes,
  }

  -- The format of the VCEK certificate: version 3, with a key on the curve P-384.
  unfoldable pub validate_vcek_format : Certificate → Attested (Unit {0})
  validate_vcek_format vcek_cert = do
    ensure (is_v3 vcek_cert) (message "VCEK certificate version is not v3")
    ensure (str_eq (key_algorithm vcek_cert) oid_ec_public_key)
        (printed "VCEK public key is not EC" (key_algorithm vcek_cert))
    params ← ok_or (key_parameters vcek_cert) (message "VCEK public key missing curve parameters")
    curve_oid ← ok_or (as_oid params) (message "Failed to parse VCEK curve OID")
    ensure (str_eq curve_oid oid_secp384r1) (printed "VCEK public key curve is not P-384" curve_oid)

  unfoldable pub validate_chain_format :
      ClockReadings → Certificate → Certificate → Certificate → Attested (Unit {0})
  validate_chain_format clock vcek_cert ask_cert ark_cert = do
    ensure (is_v3 ark_cert) (message "ARK certificate version is not v3")
    ensure (is_v3 ask_cert) (message "ASK certificate version is not v3")
    validate_certificate_validity x509 clock.at_vcek vcek_cert "VCEK"
    validate_certificate_validity x509 clock.at_ask ask_cert "ASK"
    validate_certificate_validity x509 clock.at_ark ark_cert "ARK"
    validate_basic_constraints x509 ark_cert "ARK" true
    validate_basic_constraints x509 ask_cert "ASK" true
    validate_basic_constraints x509 vcek_cert "VCEK" false

  unfoldable pub validate_ark_fingerprint : Certificate → Attested (Unit {0})
  validate_ark_fingerprint ark_cert = do
    ark_fingerprint ← compute_spki_fingerprint x509 ark_cert
    ensure (str_eq ark_fingerprint amd_ark_genoa_spki_fingerprint)
        (printed "ARK public key fingerprint mismatch" ark_fingerprint)

  unfoldable pub validate_chain_names :
      Certificate → Certificate → Certificate → Attested (Unit {0})
  validate_chain_names vcek_cert ask_cert ark_cert = do
    ensure (name_eq (issuer vcek_cert) (subject ask_cert))
        (message "VCEK issuer does not match ASK subject")
    ensure (name_eq (issuer ask_cert) (subject ark_cert))
        (message "ASK issuer does not match ARK subject")
    ensure (name_eq (issuer ark_cert) (subject ark_cert)) (message "ARK is not self-signed")
    validate_cn x509 (subject ark_cert) "ARK" "ARK-Genoa"
    validate_cn x509 (subject ask_cert) "ASK" "SEV-Genoa"
    validate_cn x509 (subject vcek_cert) "VCEK" "SEV-VCEK"
    validate_amd_location x509 (subject ark_cert) "ARK"
    validate_amd_location x509 (subject ask_cert) "ASK"
    validate_amd_location x509 (subject vcek_cert) "VCEK"

  -- One certificate's signature under the issuer's key.
  unfoldable pub verify_signed : Certificate → String → List ℕ → String → Attested (Unit {0})
  verify_signed cert cert_name issuer_pubkey context = do
    tbs ← extract_tbs_from_cert x509 cert
    salt ← parse_rsa_pss_sha384_salt_len x509 (signature_algorithm cert) cert_name
    verify_rsa_pss_signature x509 tbs (signature_bytes cert) issuer_pubkey salt context

  unfoldable pub verify_chain_signatures :
      Certificate → Certificate → Certificate → Attested (Unit {0})
  verify_chain_signatures vcek_cert ask_cert ark_cert = do
    validate_signature_algorithm_consistency x509 ark_cert "ARK"
    validate_signature_algorithm_consistency x509 ask_cert "ASK"
    validate_signature_algorithm_consistency x509 vcek_cert "VCEK"
    ark_pubkey ← extract_pubkey_from_cert x509 ark_cert
    verify_signed ark_cert "ARK" ark_pubkey "ARK self-signature"
    verify_signed ask_cert "ASK" ark_pubkey "ASK signature"
    ask_pubkey ← extract_pubkey_from_cert x509 ask_cert
    verify_signed vcek_cert "VCEK" ask_pubkey "VCEK signature"

  unfoldable pub verify_cert_chain_crypto : ClockReadings → List ℕ → List ℕ → Attested (Unit {0})
  verify_cert_chain_crypto clock vcek_der cert_chain_pem = do
    vcek_cert ← ok_or (from_der vcek_der) (parse_failed "VCEK")
    validate_vcek_format vcek_cert
    chain_certs ← parse_pem_chain x509 cert_chain_pem
    (ask_der, ark_der) ← first_two chain_certs
    ask_cert ← ok_or (from_der ask_der) (parse_failed "ASK")
    ark_cert ← ok_or (from_der ark_der) (parse_failed "ARK")
    validate_chain_format clock vcek_cert ask_cert ark_cert
    validate_ark_fingerprint ark_cert
    validate_chain_names vcek_cert ask_cert ark_cert
    verify_chain_signatures vcek_cert ask_cert ark_cert
