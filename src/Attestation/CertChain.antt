-- ===== src/Attestation/CertChain.antt =====
-- Verification of the chain from the VCEK certificate over ASK to ARK, the second part of
-- src/verifier/attestation/sev/cert_chain.rs.
pub mod Names
pub mod Verify
pub mod Checks
pub mod Attributes
pub mod Format
pub mod Trusted
use Prim.Native.String.{String}
use text.Mathlib.Text.{◌==◌ as str_eq}
use tinfoil_rs.Prelude.{
  ℕ, Bool, false, not, ◌&&◌, List, [], ◌∷◌, Option, none, some, ltb, if◌then◌else◌,
}
use tinfoil_rs.Outcome.{ok, err, ◌>>=◌, ◌>>◌, ensure, reject_if, ok_or}
use tinfoil_rs.Attestation.Reason.{
  message, parse_failed, printed, about_certificate, not_yet_valid, expired, verification_failed,
}
use tinfoil_rs.Attestation.Report.{Attested}
use tinfoil_rs.Attestation.X509.{X509}

abbrev pub oid_ec_public_key : String
oid_ec_public_key = "1.2.840.10045.2.1"

abbrev pub oid_secp384r1 : String
oid_secp384r1 = "1.3.132.0.34"

abbrev pub oid_rsassa_pss : String
oid_rsassa_pss = "1.2.840.113549.1.1.10"

abbrev pub oid_mgf1 : String
oid_mgf1 = "1.2.840.113549.1.1.8"

abbrev pub oid_sha_384 : String
oid_sha_384 = "2.16.840.1.101.3.4.2.2"

-- `o == Some(oid)`
unfoldable pub is_oid : Option String → String → Bool
is_oid none oid = false
is_oid (some id) oid = str_eq id oid

module _ {V : Type 0} where
  -- The first value of an object identifier in a part of a name, and in a name.
  unfoldable pub find_value : String → List (String × V) → Option V
  find_value oid [] = none
  find_value oid ((id, value) ∷ rest) = if str_eq id oid then some value else find_value oid rest

  unfoldable pub find_attribute : String → List (List (String × V)) → Option V
  unfolding find_value
  find_attribute oid [] = none
  find_attribute oid (rdn ∷ rest) =
      let later = find_attribute oid rest in
      elim (find_value oid rdn) [ none ↦ later | some value ↦ some value ]

-- What the system clock answers at the three checks, in seconds since the epoch; nothing before it.
pub record ClockReadings : Type 0 where
  pub at_vcek : Option ℕ
  pub at_ask : Option ℕ
  pub at_ark : Option ℕ

module _ (x509 : X509) where
  open x509 use {
    Certificate, Algorithm, parse_pems, spki_der, tbs_der, sha256_hex, not_before, not_after,
    basic_constraints, algorithm_eq, signature_algorithm, tbs_signature, algorithm_oid,
    algorithm_parameters, to_der, pss_params, rsa_public_key, rsa_signature, rsa_pss_verify,
  }

  unfoldable pub parse_pem_chain : List ℕ → Attested (List (List ℕ))
  parse_pem_chain chain_pem = ok_or (parse_pems chain_pem) (parse_failed "PEM chain")

  unfoldable pub compute_spki_fingerprint : Certificate → Attested String
  compute_spki_fingerprint cert = do
    der ← ok_or (spki_der cert) (message "Failed to encode SPKI")
    ok (sha256_hex der)

  unfoldable pub extract_pubkey_from_cert : Certificate → Attested (List ℕ)
  extract_pubkey_from_cert cert = ok_or (spki_der cert) (message "Failed to encode SPKI")

  unfoldable pub extract_tbs_from_cert : Certificate → Attested (List ℕ)
  extract_tbs_from_cert cert = ok_or (tbs_der cert) (message "Failed to encode TBS")

  unfoldable pub validate_certificate_validity :
      Option ℕ → Certificate → String → Attested (Unit {0})
  validate_certificate_validity clock cert cert_name = do
    now ← ok_or clock (message "System time before Unix epoch")
    reject_if (ltb now (not_before cert)) (not_yet_valid cert_name now (not_before cert))
    reject_if (ltb (not_after cert) now) (expired cert_name now (not_after cert))

  -- The two tests of the `ca` flag, the absent extension, and the extension that does not parse.
  unfoldable pub check_basic_constraints :
      Option (Option Bool) → String → Bool → Attested (Unit {0})
  check_basic_constraints none cert_name expect_ca = err (parse_failed "BasicConstraints")
  check_basic_constraints (some none) cert_name expect_ca =
      reject_if expect_ca (about_certificate cert_name "missing BasicConstraints extension")
  check_basic_constraints (some (some ca)) cert_name expect_ca = do
    reject_if (expect_ca && not ca)
        (about_certificate cert_name "missing CA:true in BasicConstraints")
    reject_if (not expect_ca && ca) (about_certificate cert_name "CA:true (expected leaf)")

  unfoldable pub validate_basic_constraints : Certificate → String → Bool → Attested (Unit {0})
  unfolding check_basic_constraints
  validate_basic_constraints cert = check_basic_constraints (basic_constraints cert)

  unfoldable pub validate_signature_algorithm_consistency :
      Certificate → String → Attested (Unit {0})
  validate_signature_algorithm_consistency cert cert_name =
      ensure (algorithm_eq (signature_algorithm cert) (tbs_signature cert))
        (about_certificate cert_name "outer signature_algorithm does not match inner tbs.signature")

  unfoldable pub parse_rsa_pss_sha384_salt_len : Algorithm → String → Attested ℕ
  parse_rsa_pss_sha384_salt_len alg cert_name = do
    ensure (str_eq (algorithm_oid alg) oid_rsassa_pss) (printed cert_name (algorithm_oid alg))
    params_any ← ok_or (algorithm_parameters alg) (about_certificate cert_name "parameters absent")
    params_der ← ok_or (to_der params_any) (about_certificate cert_name "parameters re-encode")
    params ← ok_or (pss_params params_der) (about_certificate cert_name "parameters decode")
    ensure (str_eq params.hash oid_sha_384) (printed cert_name params.hash)
    ensure (str_eq params.mask_gen oid_mgf1) (printed cert_name params.mask_gen)
    ensure (is_oid params.mask_gen_hash oid_sha_384)
        (about_certificate cert_name "MGF1 hash algorithm is not SHA-384")
    ok params.salt_len

  unfoldable pub verify_rsa_pss_signature :
      List ℕ → List ℕ → List ℕ → ℕ → String → Attested (Unit {0})
  verify_rsa_pss_signature tbs signature signer_spki_der salt_len context = do
    rsa_pubkey ← ok_or (rsa_public_key signer_spki_der) (printed "Invalid RSA public key" context)
    sig ← ok_or (rsa_signature signature) (printed "Invalid signature format" context)
    ensure (rsa_pss_verify rsa_pubkey salt_len tbs sig) (verification_failed context)
