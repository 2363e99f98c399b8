-- ===== src/Sigstore/Dsse.antt =====
-- The signature of the DSSE envelope of a bundle (src/verifier/sigstore/dsse.rs). A bundle is JSON,
-- whose package is a parameter with those for certificates and keys. The key of the issuer and the
-- ring of the CT logs are arguments: what `fulcio::find_issuer_spki` and `trust::load_ctlog_keyring`
-- answer. The messages of errors are texts without the values that they print.
pub mod Pae
pub mod Scts
pub mod Safe
pub mod Envelope
use Prim.Native.String.{String}
use tinfoil_rs.Prelude.{
  ℕ, Bool, false, ◌||◌, List, [], ◌∷◌, Option, none, some, get_elem?, ◌==◌, if◌then◌else◌,
}
use tinfoil_rs.Outcome.{Outcome, ok, err, panic, ◌>>=◌, ◌>>◌, ensure, reject_if, ok_or}
use tinfoil_rs.Text.{as_bytes}
use tinfoil_rs.Errors.{Error, sigstore_verification}
use tinfoil_rs.Attestation.Bytes.{bytes_eq}
use tinfoil_rs.Sigstore.Keyring.{KeyPackage, Keyring}
use tinfoil_rs.Sigstore.Transparency.{CertificateEmbeddedSct, all_from_cert, log_id}
use tinfoil_rs.Sigstore.Transparency
use tinfoil_rs.Sigstore.Certificate.{CertificatePackage, or_text, validate_certificate_extensions}
use tinfoil_rs.Sigstore.Dsse.Pae.{compute_pae}

-- `signature_from_slice` reads the raw form of a signature, `key_from_sec1` a public key.
pub record BundlePackage : Type 1 where
  pub Value : Type 0
  pub get : String → Value → Option Value
  pub as_str : Value → Option String
  pub as_array : Value → Option (List Value)
  pub decode_b64 : String → Option (List ℕ)
  pub x509 : CertificatePackage
  pub crypto : KeyPackage
  pub key_from_sec1 : List ℕ → Option crypto.VerifyingKey
  pub signature_from_slice : List ℕ → Option crypto.Signature

abbrev pub failure : String → Error
failure text = sigstore_verification text

-- A set of log identifiers, as the list of those inserted.
unfoldable pub was_seen : List (List ℕ) → List ℕ → Bool
was_seen [] key_id = false
was_seen (seen ∷ others) key_id = bytes_eq seen key_id || was_seen others key_id

-- `and_then` of options.
abbrev pub and_then : {A B : Type 0} → Option A → (A → Option B) → Option B
and_then none f = none
and_then (some a) f = f a

module _ (p : BundlePackage) where
  open p use {
    Value, get, as_str, as_array, decode_b64, x509, crypto, key_from_sec1, signature_from_slice,
  }

  abbrev pub Cert : Type 0
  Cert = x509.scts.Certificate

  abbrev pub Ring : Type 0
  Ring = Keyring crypto.VerifyingKey

  abbrev pub Sct : Type 0
  Sct = CertificateEmbeddedSct x509.scts

  -- No log identifier twice.
  unfoldable pub reject_duplicates : List (List ℕ) → List Sct → Outcome Error (Unit {0})
  unfolding was_seen log_id
  reject_duplicates seen [] = ok tt
  reject_duplicates seen (sct ∷ scts) = do
    reject_if (was_seen seen (log_id x509.scts sct)) (failure "Duplicate SCT found (same log ID)")
    reject_duplicates (log_id x509.scts sct ∷ seen) scts

  -- One SCT that verifies is enough.
  unfoldable pub any_valid : Ring → List Sct → Outcome Error (Unit {0})
  any_valid ring [] = err (failure "No valid SCT found")
  any_valid ring (sct ∷ scts) =
      let rest = any_valid ring scts in
      elim (Transparency.verify_sct x509.scts crypto sct ring) [
        | ok _ ↦ ok tt
        | err _ ↦ rest
        | panic ↦ panic
      ]

  unfoldable pub verify_sct : List ℕ → List ℕ → Outcome Error Ring → Outcome Error (Unit {0})
  unfolding or_text reject_duplicates any_valid all_from_cert
  verify_sct cert_der issuer_spki_der load_ctlog_keyring = do
    cert ← ok_or (x509.from_der cert_der) (failure "Failed to parse certificate for SCT")
    all_scts ← or_text (all_from_cert x509.scts cert issuer_spki_der) "Failed to extract SCTs"
    reject_duplicates [] all_scts
    ct_keyring ← load_ctlog_keyring
    any_valid ct_keyring all_scts

  unfoldable pub field : String → Value → Option String
  field name value = and_then (get name value) as_str

  -- The DER of the bundle's certificate.
  unfoldable pub certificate_der : Value → Outcome Error (List ℕ)
  unfolding field
  certificate_der bundle = do
    cert_b64 ←
        ok_or
          (and_then (get "verificationMaterial" bundle)
            (λ material. and_then (get "certificate" material) (λ cert. field "rawBytes" cert)))
          (failure "No certificate in bundle")
    ok_or (decode_b64 cert_b64) (failure "Failed to decode certificate")

  unfoldable pub parse_certificate : List ℕ → Outcome Error Cert
  parse_certificate cert_der =
      ok_or (x509.from_der cert_der) (failure "Failed to parse certificate")

  -- DER starts with 0x30.
  unfoldable pub decode_signature : List ℕ → Outcome Error crypto.Signature
  decode_signature bytes = elim (get_elem? bytes 0) [
    | none ↦ ok_or (signature_from_slice bytes) (failure "Invalid raw signature")
    | some first ↦
        if first == 0x30
        then ok_or (crypto.signature_from_der bytes) (failure "Invalid DER signature")
        else ok_or (signature_from_slice bytes) (failure "Invalid raw signature")
  ]

  -- The only element; `signatures[0]` is in range.
  unfoldable pub only : List Value → Outcome Error Value
  only (signature ∷ []) = ok signature
  only signatures = err (failure "DSSE envelope must have exactly 1 signature")

  -- The envelope's signature under a key.
  unfoldable pub verify_envelope : Value → crypto.VerifyingKey → Outcome Error (Unit {0})
  unfolding field only decode_signature compute_pae
  verify_envelope bundle verifying_key = do
    dsse ← ok_or (get "dsseEnvelope" bundle) (failure "No dsseEnvelope in bundle")
    payload_type ← ok_or (field "payloadType" dsse) (failure "No payloadType")
    payload_b64 ← ok_or (field "payload" dsse) (failure "No payload")
    signatures ←
        ok_or (and_then (get "signatures" dsse) as_array)
          (failure "No signatures array in DSSE envelope")
    signed ← only signatures
    signature_b64 ← ok_or (field "sig" signed) (failure "No sig field in DSSE signature")
    payload ← ok_or (decode_b64 payload_b64) (failure "Failed to decode payload")
    signature_bytes ← ok_or (decode_b64 signature_b64) (failure "Failed to decode signature")
    signature ← decode_signature signature_bytes
    ensure (crypto.verifies verifying_key (compute_pae (as_bytes payload_type) payload) signature)
        (failure "DSSE signature verification failed")

  unfoldable pub verify_dsse_signature :
      (Cert → Outcome Error (List ℕ)) → Outcome Error Ring → Value → Outcome Error (Unit {0})
  unfolding certificate_der parse_certificate validate_certificate_extensions verify_sct
      verify_envelope
  verify_dsse_signature find_issuer_spki load_ctlog_keyring bundle = do
    cert_der ← certificate_der bundle
    cert ← parse_certificate cert_der
    validate_certificate_extensions x509 cert
    issuer_spki_der ← find_issuer_spki cert
    verify_sct cert_der issuer_spki_der load_ctlog_keyring
    verifying_key ←
        ok_or (key_from_sec1 (x509.public_key_bytes cert)) (failure "Invalid public key")
    verify_envelope bundle verifying_key
