-- ===== src/Sigstore/Transparency.antt =====
-- The signed certificate timestamps (SCTs) of a certificate (src/verifier/sigstore/transparency.rs).
-- The packages for X.509 and for the TLS encoding are parameters.
pub mod Signed
use Prim.Native.String.{String}
use text.Mathlib.Text.{◌==◌ as str_eq}
use tinfoil_rs.Prelude.{ℕ, ◌/◌, List, [], ◌∷◌, map, Option, none, some, if◌then◌else◌}
use tinfoil_rs.Outcome.{Outcome, ok, err, panic, ◌>>=◌, ok_or, or_panic}
use tinfoil_rs.Sigstore.Keyring.{KeyPackage, KeyringError, Keyring, verify_at}

abbrev pub ct_precert_scts_oid : String
ct_precert_scts_oid = "1.3.6.1.4.1.11129.2.4.2"

pub data CertificateErrorKind : Type 0 where
  leaf_sct_missing issuer_missing leaf_sct_malformed : CertificateErrorKind
  der_error tls_error : String → CertificateErrorKind

pub data SctError : Type 0 where
  parsing : CertificateErrorKind → SctError
  serialization : SctError
  verification : KeyringError → SctError

pub record Extension : Type 0 where
  pub extn_id : String
  pub extn_value : List ℕ

-- The version of an SCT is not read.
pub record SignedCertificateTimestamp : Type 0 where
  pub key_id : List ℕ
  pub timestamp : ℕ
  pub extensions : List ℕ
  pub signature : List ℕ

pub data SignatureType : Type 0 where
  certificate_timestamp tree_hash : SignatureType

pub record PreCert : Type 0 where
  pub issuer_key_hash : List ℕ
  pub tbs_certificate : List ℕ

pub data SignedEntry : Type 0 where
  x509_entry : List ℕ → SignedEntry
  precert_entry : PreCert → SignedEntry

pub data Version : Type 0 where
  v1 : Version

-- `log_id` and `signature` are not encoded.
pub record DigitallySigned : Type 0 where
  pub version : Version
  pub signature_type : SignatureType
  pub timestamp : ℕ
  pub signed_entry : SignedEntry
  pub extensions : List ℕ
  pub log_id : List ℕ
  pub signature : List ℕ

-- `encode_tbs` is the DER of the certificate's body with other extensions, `parse_list` the texts of
-- the SCTs in an extension.
pub record SctPackage : Type 1 where
  pub Certificate : Type 0
  pub extensions_of : Certificate → Option (List Extension)
  pub encode_tbs : Certificate → Option (List Extension) → Option (List ℕ)
  pub parse_list : List ℕ → Outcome CertificateErrorKind (List (List ℕ))
  pub parse_timestamp : List ℕ → Outcome CertificateErrorKind SignedCertificateTimestamp
  pub sha256 : List ℕ → List ℕ
  pub tls_serialize : DigitallySigned → Option (List ℕ)

-- `CertificateErrorKind` and `KeyringError` into `SCTError`.
unfoldable pub as_parsing : {A : Type 0} → Outcome CertificateErrorKind A → Outcome SctError A
as_parsing (ok a) = ok a
as_parsing (err e) = err (parsing e)
as_parsing panic = panic

unfoldable pub as_verification : {A : Type 0} → Outcome KeyringError A → Outcome SctError A
as_verification (ok a) = ok a
as_verification (err e) = err (verification e)
as_verification panic = panic

unfoldable pub find_extension : List Extension → String → Option Extension
find_extension [] oid = none
find_extension (extension ∷ extensions) oid =
    if str_eq extension.extn_id oid then some extension else find_extension extensions oid

-- The extensions without the SCTs.
unfoldable pub without_scts : List Extension → List Extension
without_scts [] = []
without_scts (extension ∷ extensions) =
    if str_eq extension.extn_id ct_precert_scts_oid
    then without_scts extensions
    else extension ∷ without_scts extensions

abbrev pub map_option : {A B : Type 0} → (A → B) → Option A → Option B
map_option f none = none
map_option f (some a) = some (f a)

module _ (x509 : SctPackage) where
  open x509 use {
    Certificate, extensions_of, encode_tbs, parse_list, parse_timestamp, sha256, tls_serialize,
  }

  pub record CertificateEmbeddedSct : Type 0 where
    pub cert : Certificate
    pub sct : SignedCertificateTimestamp
    pub issuer_id : List ℕ

  unfoldable pub parse_timestamps :
      List (List ℕ) → Outcome SctError (List SignedCertificateTimestamp)
  unfolding as_parsing
  parse_timestamps [] = ok []
  parse_timestamps (serialized ∷ rest) = do
    sct ← as_parsing (parse_timestamp serialized)
    scts ← parse_timestamps rest
    ok (sct ∷ scts)

  unfoldable pub parse_scts_from_cert :
      Certificate → Outcome SctError (List SignedCertificateTimestamp)
  unfolding parse_timestamps find_extension as_parsing
  parse_scts_from_cert cert = do
    extensions ← ok_or (extensions_of cert) (parsing leaf_sct_missing)
    sct_ext ← ok_or (find_extension extensions ct_precert_scts_oid) (parsing leaf_sct_missing)
    serialized_scts ← as_parsing (parse_list sct_ext.extn_value)
    parse_timestamps serialized_scts

  unfoldable pub embed : Certificate → List ℕ → SignedCertificateTimestamp → CertificateEmbeddedSct
  embed cert spki sct = record { cert = cert; sct = sct; issuer_id = sha256 spki }

  -- `all_from_cert` of the SCTs that were parsed.
  unfoldable pub embed_all :
      Certificate
      → List ℕ
      → List SignedCertificateTimestamp
      → Outcome SctError (List CertificateEmbeddedSct)
  unfolding embed
  embed_all cert spki [] = err (parsing leaf_sct_missing)
  embed_all cert spki (sct ∷ scts) = ok (map (embed cert spki) (sct ∷ scts))

  unfoldable pub all_from_cert :
      Certificate → List ℕ → Outcome SctError (List CertificateEmbeddedSct)
  unfolding parse_scts_from_cert embed_all
  all_from_cert cert spki = do scts ← parse_scts_from_cert cert; embed_all cert spki scts

  -- The first SCT.
  unfoldable pub embed_first :
      Certificate
      → List ℕ
      → List SignedCertificateTimestamp
      → Outcome SctError CertificateEmbeddedSct
  unfolding embed
  embed_first cert spki [] = err (parsing leaf_sct_missing)
  embed_first cert spki (sct ∷ scts) = ok (embed cert spki sct)

  unfoldable pub new_with_spki : Certificate → List ℕ → Outcome SctError CertificateEmbeddedSct
  unfolding parse_scts_from_cert embed_first
  new_with_spki cert spki = do scts ← parse_scts_from_cert cert; embed_first cert spki scts

  unfoldable pub log_id : CertificateEmbeddedSct → List ℕ
  log_id embedded = embedded.sct.key_id

  unfoldable pub signed_by : CertificateEmbeddedSct → List ℕ → DigitallySigned
  signed_by value tbs_precert_der = record {
    version = v1;
    signature_type = certificate_timestamp;
    timestamp = value.sct.timestamp;
    signed_entry =
        precert_entry
          (record { issuer_key_hash = value.issuer_id; tbs_certificate = tbs_precert_der });
    extensions = value.sct.extensions;
    log_id = value.sct.key_id;
    signature = value.sct.signature;
  }

  -- `DigitallySigned::from`; `expect` panics if the certificate cannot be encoded again.
  unfoldable pub digitally_signed : CertificateEmbeddedSct → Outcome SctError DigitallySigned
  unfolding without_scts signed_by
  digitally_signed value = do
    tbs_precert_der ←
        or_panic (encode_tbs value.cert (map_option without_scts (extensions_of value.cert)))
    ok (signed_by value tbs_precert_der)

  -- SCT timestamps are in milliseconds.
  unfoldable pub verify_sct :
      (crypto : KeyPackage)
      → CertificateEmbeddedSct
      → Keyring crypto.VerifyingKey
      → Outcome SctError (Unit {0})
  unfolding digitally_signed as_verification
  verify_sct crypto value keyring = do
    sct ← digitally_signed value
    serialized ← ok_or (tls_serialize sct) serialization
    as_verification
        (verify_at crypto keyring sct.log_id sct.signature serialized (sct.timestamp / 1000))
