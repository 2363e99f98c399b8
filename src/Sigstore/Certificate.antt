-- ===== src/Sigstore/Certificate.antt =====
-- The checks of a signing certificate and the identity that it states
-- (src/verifier/sigstore/certificate.rs). The package for X.509 is a parameter. The messages of errors
-- are texts without the values that they print.
pub mod Identity
use Prim.Native.String.{String}
use text.Mathlib.Text.{◌==◌ as str_eq}
use tinfoil_rs.Prelude.{
  ℕ, Bool, false, ◌&&◌, ◌||◌, List, [], ◌∷◌, Option, none, some, if◌then◌else◌,
}
use tinfoil_rs.Outcome.{Outcome, ok, err, panic, ◌>>=◌, ◌>>◌, ensure, reject_if, ok_or}
use tinfoil_rs.Text.{is_empty, strip_prefix}
use tinfoil_rs.Errors.{Error, sigstore_verification}
use tinfoil_rs.Sigstore.Transparency.{SctPackage, Extension}

-- `key_usage` is the digitalSignature bit, `ext_key_usage` the OIDs; `from_utf8` is the standard
-- library's, the others are the strings of DER.
pub record CertificatePackage : Type 1 where
  pub scts : SctPackage
  pub from_der : List ℕ → Option scts.Certificate
  pub key_usage : scts.Certificate → Outcome (Unit {0}) (Option Bool)
  pub ext_key_usage : scts.Certificate → Outcome (Unit {0}) (Option (List String))
  pub public_key_bytes : scts.Certificate → List ℕ
  pub not_before : scts.Certificate → ℕ
  pub not_after : scts.Certificate → ℕ
  pub utf8_string : List ℕ → Option String
  pub ia5_string : List ℕ → Option String
  pub printable_string : List ℕ → Option String
  pub from_utf8 : List ℕ → Option String

abbrev pub id_kp_code_signing : String
id_kp_code_signing = "1.3.6.1.5.5.7.3.3"

abbrev pub oidc_issuer_v1 : String
oidc_issuer_v1 = "1.3.6.1.4.1.57264.1.1"

abbrev pub oidc_issuer_v2 : String
oidc_issuer_v2 = "1.3.6.1.4.1.57264.1.8"

abbrev pub github_workflow_repository : String
github_workflow_repository = "1.3.6.1.4.1.57264.1.5"

abbrev pub build_signer_uri : String
build_signer_uri = "1.3.6.1.4.1.57264.1.9"

abbrev pub source_repository_uri : String
source_repository_uri = "1.3.6.1.4.1.57264.1.12"

pub record CertificateInfo : Type 0 where
  pub issuer : String
  pub subject_workflow : String
  pub repository : String

-- `map_err` into an error with a text.
unfoldable pub or_text : {E A : Type 0} → Outcome E A → String → Outcome Error A
or_text (ok a) text = ok a
or_text (err e) text = err (sigstore_verification text)
or_text panic text = panic

unfoldable pub contains : List String → String → Bool
contains [] text = false
contains (s ∷ ss) text = str_eq s text || contains ss text

-- The first text that is there.
unfoldable pub or_else : Option String → Option String → Option String
or_else (some text) later = some text
or_else none later = later

-- What the loop has found so far.
unfoldable pub nothing_found : CertificateInfo
nothing_found = record { issuer = ""; subject_workflow = ""; repository = "" }

-- `strip_prefix(prefix).unwrap_or(text)`.
unfoldable pub without_prefix : String → String → String
unfolding strip_prefix
without_prefix prefix text = elim (strip_prefix prefix text) [ none ↦ text | some rest ↦ rest ]

unfoldable pub take_repository : String → String → CertificateInfo → CertificateInfo
unfolding without_prefix
take_repository oid value found =
    if str_eq oid github_workflow_repository
    then record found { repository = value }
    else if str_eq oid source_repository_uri && is_empty found.repository
    then record found { repository = without_prefix "https://github.com/" value }
    else found

-- One extension, by its OID.
unfoldable pub take_extension : String → String → CertificateInfo → CertificateInfo
unfolding take_repository
take_extension oid value found =
    if str_eq oid oidc_issuer_v2
    then record found { issuer = value }
    else if str_eq oid oidc_issuer_v1 && is_empty found.issuer
    then record found { issuer = value }
    else if str_eq oid build_signer_uri
    then record found { subject_workflow = value }
    else take_repository oid value found

module _ (x509 : CertificatePackage) where
  open x509 use {
    scts, key_usage, ext_key_usage, utf8_string, ia5_string, printable_string, from_utf8,
  }

  unfoldable pub validate_certificate_extensions : scts.Certificate → Outcome Error (Unit {0})
  unfolding or_text contains
  validate_certificate_extensions cert = do
    key_usage_extension ← or_text (key_usage cert) "Failed to parse KeyUsage extension"
    digital_signature ←
        ok_or key_usage_extension (sigstore_verification "Certificate missing KeyUsage extension")
    ensure digital_signature
        (sigstore_verification "Certificate KeyUsage does not include digitalSignature")
    ext_key_usage_extension ←
        or_text (ext_key_usage cert) "Failed to parse ExtendedKeyUsage extension"
    oids ←
        ok_or ext_key_usage_extension
          (sigstore_verification "Certificate missing ExtendedKeyUsage extension")
    ensure (contains oids id_kp_code_signing)
        (sigstore_verification "Certificate ExtendedKeyUsage does not include codeSigning")

  unfoldable pub decode_asn1_string : List ℕ → Option String
  unfolding or_else
  decode_asn1_string bytes =
      or_else (utf8_string bytes)
        (or_else (ia5_string bytes) (or_else (printable_string bytes) (from_utf8 bytes)))

  -- The loop over the extensions; one whose value is no text is skipped.
  unfoldable pub take_extensions : List Extension → CertificateInfo → CertificateInfo
  unfolding take_extension decode_asn1_string
  take_extensions [] found = found
  take_extensions (extension ∷ extensions) found =
      take_extensions extensions (elim (decode_asn1_string extension.extn_value) [
        | none ↦ found
        | some value ↦ take_extension extension.extn_id value found
      ])

  unfoldable pub find_info : Option (List Extension) → CertificateInfo
  unfolding take_extensions nothing_found
  find_info none = nothing_found
  find_info (some extensions) = take_extensions extensions nothing_found

  unfoldable pub check_info : CertificateInfo → Outcome Error CertificateInfo
  check_info found = do
    reject_if (is_empty found.issuer)
        (sigstore_verification "Certificate missing required OIDC issuer extension")
    reject_if (is_empty found.repository)
        (sigstore_verification "Certificate missing required repository extension")
    reject_if (is_empty found.subject_workflow)
        (sigstore_verification "Certificate missing required workflow extension")
    ok found

  unfoldable pub extract_certificate_info : scts.Certificate → Outcome Error CertificateInfo
  unfolding find_info check_info
  extract_certificate_info cert = check_info (find_info (scts.extensions_of cert))
