-- ===== src/Sigstore/Rekor/Binding.antt =====
-- The checks that a log entry is about its bundle (src/verifier/sigstore/rekor.rs). `body` is the
-- entry's `canonicalizedBody`.
use Prim.Native.String.{String}
use text.Mathlib.Text.{◌==◌ as str_eq}
use tinfoil_rs.Prelude.{ℕ, ◌&&◌, List, [], ◌∷◌, Option, none, some, if◌then◌else◌}
use tinfoil_rs.Outcome.{Outcome, ok, err, ◌>>=◌, ◌>>◌, ensure, ok_or}
use tinfoil_rs.Text.{codes, as_bytes, is_some}
use tinfoil_rs.Errors.{Error}
use tinfoil_rs.Attestation.Bytes.{bytes_eq}
use tinfoil_rs.Sigstore.Dsse.{failure, and_then, field}
use tinfoil_rs.Sigstore.Dsse.Pae.{compute_pae}
use tinfoil_rs.Sigstore.Rekor.Json.{
  RekorPackage, pointer, get_path, text_at, first_of, bytes_of, or_default, same_text,
}

module _ (p : RekorPackage) where
  open p use {bundles, from_slice, from_utf8, parse_pem, sha256, hex}
  open bundles use {Value, get, as_str, decode_b64}

  unfoldable pub parse_body : List ℕ → Outcome Error Value
  parse_body body = ok_or (from_slice body) (failure "Failed to parse canonicalizedBody")

  unfoldable pub bundle_dsse_signature : Value → Outcome Error (List ℕ)
  unfolding bytes_of pointer
  bundle_dsse_signature bundle =
      bytes_of bundles
        (and_then (pointer bundles ("dsseEnvelope" ∷ "signatures" ∷ "0" ∷ "sig" ∷ []) bundle)
          as_str)
        "Missing signature in bundle (dsseEnvelope.signatures[0].sig)"
        "Failed to decode bundle signature"

  unfoldable pub verify_kind_version : Value → List ℕ → Outcome Error (Unit {0})
  unfolding parse_body get_path same_text
  verify_kind_version entry canonicalized_body = do
    kind_version ←
        ok_or (get "kindVersion" entry) (failure "Missing kindVersion in tlog entry metadata")
    body ← parse_body canonicalized_body
    ensure
        (same_text (field bundles "kind" body) (field bundles "kind" kind_version)
          && same_text (field bundles "apiVersion" body) (field bundles "version" kind_version))
        (failure "Tlog entry kind/version mismatch")

  -- The first signature of a DSSE entry has these fields.
  abbrev pub of_first_signature : String → Value → Option String
  of_first_signature name entry =
      and_then (get_path bundles ("spec" ∷ "signatures" ∷ []) entry)
        (λ signatures. and_then (first_of bundles signatures) (λ sig. field bundles name sig))

  unfoldable pub parse_pem_certificate : String → Outcome Error (List ℕ)
  parse_pem_certificate text = ok_or (parse_pem text) (failure "Invalid PEM certificate")

  unfoldable pub dsse_certificate : Value → Outcome Error (List ℕ)
  unfolding bytes_of parse_pem_certificate
  dsse_certificate entry = do
    verifier ←
        bytes_of bundles (of_first_signature "verifier" entry)
          "Missing certificate in DSSE Rekor entry (spec.signatures[0].verifier)"
          "Failed to decode verifier"
    verifier_pem ← ok_or (from_utf8 verifier) (failure "Invalid UTF-8 in verifier")
    parse_pem_certificate verifier_pem

  abbrev pub hashed_rekord_v002 : List String
  hashed_rekord_v002 = "spec" ∷ "hashedRekordV002" ∷ []

  unfoldable pub hashedrekord_certificate : Value → Outcome Error (List ℕ)
  unfolding pointer get_path bytes_of parse_pem_certificate
  hashedrekord_certificate entry =
      if is_some (pointer bundles hashed_rekord_v002 entry)
      then bytes_of bundles
          (and_then
            (pointer bundles
              ("spec" ∷ "hashedRekordV002" ∷ "signature" ∷ "verifier" ∷ "x509Certificate"
                ∷ "rawBytes" ∷ [])
              entry)
            as_str)
          "Missing certificate in hashedrekord 0.0.2 Rekor entry"
          "Failed to decode Rekor entry certificate"
      else (ok_or (text_at bundles ("spec" ∷ "signature" ∷ "publicKey" ∷ "content" ∷ []) entry)
            (failure "Missing certificate in hashedrekord Rekor entry")
          >>= parse_pem_certificate)

  unfoldable pub logged_certificate : String → Value → Outcome Error (List ℕ)
  unfolding dsse_certificate hashedrekord_certificate
  logged_certificate kind entry =
      if str_eq kind "dsse"
      then dsse_certificate entry
      else if str_eq kind "hashedrekord"
      then hashedrekord_certificate entry
      else err (failure "Unknown Rekor entry kind")

  unfoldable pub bundle_certificate : Value → Outcome Error (List ℕ)
  unfolding get_path bytes_of
  bundle_certificate bundle =
      bytes_of bundles
        (text_at bundles ("verificationMaterial" ∷ "certificate" ∷ "rawBytes" ∷ []) bundle)
        "Missing certificate in bundle (verificationMaterial.certificate.rawBytes)"
        "Failed to decode bundle certificate"

  abbrev pub body_kind : Value → String
  body_kind body = or_default (field bundles "kind" body) "unknown"

  unfoldable pub verify_certificate_binding : Value → List ℕ → Outcome Error (Unit {0})
  unfolding parse_body logged_certificate bundle_certificate
  verify_certificate_binding bundle canonicalized_body = do
    entry ← parse_body canonicalized_body
    rekor_cert_der ← logged_certificate (body_kind entry) entry
    bundle_cert_der ← bundle_certificate bundle
    ensure (bytes_eq rekor_cert_der bundle_cert_der) (failure "Certificate mismatch")

  -- The value itself, if it does not have the field.
  abbrev pub or_itself : Option Value → Value → Value
  or_itself none value = value
  or_itself (some found) value = found

  unfoldable pub logged_signature : String → Value → Outcome Error (List ℕ)
  unfolding get_path bytes_of
  logged_signature kind entry =
      if str_eq kind "dsse"
      then bytes_of bundles (of_first_signature "signature" entry)
          "Missing signature in DSSE Rekor entry (spec.signatures[0].signature)"
          "Failed to decode Rekor signature"
      else if str_eq kind "hashedrekord"
      then bytes_of bundles
          (and_then (get "spec" entry) (λ spec.
            text_at bundles ("signature" ∷ "content" ∷ [])
              (or_itself (get "hashedRekordV002" spec) spec)))
          "Missing signature in hashedrekord Rekor entry (spec.signature.content)"
          "Failed to decode Rekor signature"
      else err (failure "Unknown Rekor entry kind")

  unfoldable pub verify_signature_binding : Value → List ℕ → Outcome Error (Unit {0})
  unfolding parse_body logged_signature bundle_dsse_signature
  verify_signature_binding bundle canonicalized_body = do
    entry ← parse_body canonicalized_body
    rekor_signature_bytes ← logged_signature (body_kind entry) entry
    signature_bytes ← bundle_dsse_signature bundle
    ensure (bytes_eq rekor_signature_bytes signature_bytes) (failure "Signature mismatch")

  -- The digest that an entry of version 0.0.2 has is that of the encoding that is signed.
  unfoldable pub verify_pae_digest : Value → Value → Outcome Error (Unit {0})
  unfolding bytes_of compute_pae
  verify_pae_digest bundle data_ = do
    ensure (str_eq (or_default (field bundles "algorithm" data_) "") "SHA2_256")
        (failure "Unsupported hashedrekord digest algorithm")
    expected ←
        bytes_of bundles (field bundles "digest" data_)
          "hashedrekord 0.0.2 entry missing data.digest" "Failed to decode data.digest"
    envelope ←
        ok_or (get "dsseEnvelope" bundle) (failure "Missing dsseEnvelope in bundle for hash check")
    payload_type ← ok_or (field bundles "payloadType" envelope) (failure "Missing DSSE payloadType")
    payload ←
        bytes_of bundles (field bundles "payload" envelope) "Missing DSSE payload"
          "Failed to decode DSSE payload"
    ensure (bytes_eq (sha256 (compute_pae (as_bytes payload_type) payload)) expected)
        (failure "Payload hash mismatch")

  -- The hash that a DSSE entry has is that of the payload, in hexadecimal.
  unfoldable pub verify_payload_hash : Value → Value → Outcome Error (Unit {0})
  unfolding get_path bytes_of
  verify_payload_hash bundle body = do
    payload_hash_obj ←
        ok_or (get_path bundles ("spec" ∷ "payloadHash" ∷ []) body)
          (failure "DSSE Rekor entry missing required payloadHash field")
    expected_hash ←
        ok_or (field bundles "value" payload_hash_obj)
          (failure "Malformed payloadHash: object present but missing 'value' field")
    ensure (str_eq (or_default (field bundles "algorithm" payload_hash_obj) "") "sha256")
        (failure "Unsupported payload hash algorithm")
    payload ←
        bytes_of bundles (text_at bundles ("dsseEnvelope" ∷ "payload" ∷ []) bundle)
          "Missing DSSE payload in bundle for hash check" "Failed to decode DSSE payload"
    ensure (bytes_eq (hex (sha256 payload)) (codes expected_hash)) (failure "Payload hash mismatch")

  unfoldable pub verify_payload_hash_binding : Value → List ℕ → Outcome Error (Unit {0})
  unfolding parse_body pointer verify_pae_digest verify_payload_hash
  verify_payload_hash_binding bundle canonicalized_body = parse_body canonicalized_body >>= λ body.
      elim (pointer bundles ("spec" ∷ "hashedRekordV002" ∷ "data" ∷ []) body) [
        | some data_ ↦ verify_pae_digest bundle data_
        | none ↦
            if str_eq (or_default (field bundles "kind" body) "") "dsse"
            then verify_payload_hash bundle body
            else ok tt
      ]
