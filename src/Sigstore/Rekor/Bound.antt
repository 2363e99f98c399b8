-- ===== src/Sigstore/Rekor/Bound.antt =====
-- An entry is about its bundle (src/verifier/sigstore/rekor.rs).
use Prim.Native.String.{String}
use text.Mathlib.Text.{◌==◌ as str_eq}
use tinfoil_rs.Prelude.{
  ℕ, ◌≡◌, ◌∙◌, ap, sym, inl, inr, false, List, [], ◌∷◌, none, some, arith, Bool-cases, Option-cases,
}
use tinfoil_rs.Outcome.{ok, ensure, ok_or, ok_injective}
use tinfoil_rs.Answers.{>>=-parts, ok_or_found, ensure_held}
use tinfoil_rs.Text.{codes, as_bytes}
use tinfoil_rs.Attestation.Validation.Conditions.{bytes_eq_iff}
use tinfoil_rs.Sigstore.Dsse.{failure, field}
use tinfoil_rs.Sigstore.Dsse.Pae.{compute_pae}
use tinfoil_rs.Sigstore.Rekor.Json.{RekorPackage, bytes_of, get_path, or_default, pointer, text_at}
use tinfoil_rs.Sigstore.Rekor.Binding.{
  parse_body, body_kind, bundle_dsse_signature, logged_certificate, bundle_certificate,
  logged_signature, verify_certificate_binding, verify_signature_binding, verify_pae_digest,
  verify_payload_hash, verify_payload_hash_binding,
}
use tinfoil_rs.Sigstore.Rekor.Logged.{bytes_of_parts}

module _ (p : RekorPackage) where
  open p use {bundles, from_slice, sha256, hex}
  open bundles use {Value, get, as_str, decode_b64}

  -- What the entry holds a digest of, by its form. No digest is compared for an entry that is neither
  -- of the kind dsse nor has `spec.hashedRekordV002.data`.
  pub data IsPayloadOf (bundle entry : Value) : Type 0 where
    of_encoding :
        (data_ envelope : Value) (payload_type payload_b64 digest_b64 : String) (payload : List ℕ)
        → pointer bundles ("spec" ∷ "hashedRekordV002" ∷ "data" ∷ []) entry ≡ some data_
        → get "dsseEnvelope" bundle ≡ some envelope
        → field bundles "payloadType" envelope ≡ some payload_type
        → field bundles "payload" envelope ≡ some payload_b64
        → decode_b64 payload_b64 ≡ some payload
        → field bundles "digest" data_ ≡ some digest_b64
        → decode_b64 digest_b64 ≡ some (sha256 (compute_pae (as_bytes payload_type) payload))
        → IsPayloadOf bundle entry
    of_payload :
        (stated : Value) (payload_b64 hash : String) (payload : List ℕ)
        → get_path bundles ("spec" ∷ "payloadHash" ∷ []) entry ≡ some stated
        → field bundles "value" stated ≡ some hash
        → text_at bundles ("dsseEnvelope" ∷ "payload" ∷ []) bundle ≡ some payload_b64
        → decode_b64 payload_b64 ≡ some payload
        → codes hash ≡ hex (sha256 payload)
        → IsPayloadOf bundle entry
    unchecked :
        pointer bundles ("spec" ∷ "hashedRekordV002" ∷ "data" ∷ []) entry ≡ none
        → str_eq (or_default (field bundles "kind" entry) "") "dsse" ≡ false
        → IsPayloadOf bundle entry

  -- The body of an entry has the certificate and the signature of the bundle, and, unless its form
  -- is one for which no digest is compared, a digest of what the bundle has signed.
  pub record IsBound (bundle : Value) (body : List ℕ) : Type 0 where
    pub entry : Value
    pub certificate : List ℕ
    pub signature : List ℕ
    pub is_json : from_slice body ≡ some entry
    pub logs_certificate : logged_certificate p (body_kind p entry) entry ≡ ok certificate
    pub has_certificate : bundle_certificate p bundle ≡ ok certificate
    pub logs_signature : logged_signature p (body_kind p entry) entry ≡ ok signature
    pub has_signature : bundle_dsse_signature p bundle ≡ ok signature
    pub payload : IsPayloadOf bundle entry

  certificate_parts :
      (bundle : Value) (body : List ℕ)
      → verify_certificate_binding p bundle body ≡ ok tt
      → (entry : Value) × (certificate : List ℕ) × (parse_body p body ≡ ok entry)
        × (logged_certificate p (body_kind p entry) entry ≡ ok certificate)
        × (bundle_certificate p bundle ≡ ok certificate)
  unfolding verify_certificate_binding
  certificate_parts bundle body h =
      let (entry, e1, h1) = >>=-parts (parse_body p body) h in
      let (logged, e2, h2) = >>=-parts (logged_certificate p (body_kind p entry) entry) h1 in
      let (own, e3, h3) = >>=-parts (bundle_certificate p bundle) h2 in
      let same : logged ≡ own = (bytes_eq_iff logged own).0 (ensure_held _ _ h3) in
      (entry, own, e1, e2 ∙ ap ok same, e3)

  signature_parts :
      (bundle : Value) (body : List ℕ) (entry : Value)
      → parse_body p body ≡ ok entry
      → verify_signature_binding p bundle body ≡ ok tt
      → (signature : List ℕ) × (logged_signature p (body_kind p entry) entry ≡ ok signature)
        × (bundle_dsse_signature p bundle ≡ ok signature)
  unfolding verify_signature_binding
  signature_parts bundle body entry parsed h =
      let (entry', e1, h1) = >>=-parts (parse_body p body) h in
      let (logged, e2, h2) = >>=-parts (logged_signature p (body_kind p entry') entry') h1 in
      let (own, e3, h3) = >>=-parts (bundle_dsse_signature p bundle) h2 in
      let same : logged ≡ own = (bytes_eq_iff logged own).0 (ensure_held _ _ h3) in
      let entries : entry ≡ entry' = ok_injective (sym parsed ∙ e1) in
      (own, ap (λ e. logged_signature p (body_kind p e) e) entries ∙ e2 ∙ ap ok same, e3)

  verify_pae_digest_sound :
      (bundle entry data_ : Value)
      → pointer bundles ("spec" ∷ "hashedRekordV002" ∷ "data" ∷ []) entry ≡ some data_
      → verify_pae_digest p bundle data_ ≡ ok tt
      → IsPayloadOf bundle entry
  unfolding verify_pae_digest
  verify_pae_digest_sound bundle entry data_ there h =
      let (_, e1, h1) =
        >>=-parts
          (ensure (str_eq (or_default (field bundles "algorithm" data_) "") "SHA2_256")
            (failure "Unsupported hashedrekord digest algorithm"))
          h in
      let (expected, e2, h2) =
        >>=-parts
          (bytes_of bundles (field bundles "digest" data_)
            "hashedrekord 0.0.2 entry missing data.digest" "Failed to decode data.digest")
          h1 in
      let (envelope, e3, h3) =
        >>=-parts
          (ok_or (get "dsseEnvelope" bundle)
            (failure "Missing dsseEnvelope in bundle for hash check"))
          h2 in
      let (payload_type, e4, h4) =
        >>=-parts
          (ok_or (field bundles "payloadType" envelope) (failure "Missing DSSE payloadType")) h3 in
      let (payload, e5, h5) =
        >>=-parts
          (bytes_of bundles (field bundles "payload" envelope) "Missing DSSE payload"
            "Failed to decode DSSE payload")
          h4 in
      let (digest_b64, d1, d2) = bytes_of_parts p (field bundles "digest" data_) _ _ e2 in
      let (payload_b64, d3, d4) = bytes_of_parts p (field bundles "payload" envelope) _ _ e5 in
      let same : sha256 (compute_pae (as_bytes payload_type) payload) ≡ expected =
        (bytes_eq_iff _ _).0 (ensure_held _ _ h5) in
      of_encoding data_ envelope payload_type payload_b64 digest_b64 payload there
        (ok_or_found _ _ e3) (ok_or_found _ _ e4) d3 d4 d1 (d2 ∙ ap some (sym same))

  verify_payload_hash_sound :
      (bundle entry : Value) → verify_payload_hash p bundle entry ≡ ok tt → IsPayloadOf bundle entry
  unfolding verify_payload_hash
  verify_payload_hash_sound bundle entry h =
      let (stated, e1, h1) =
        >>=-parts
          (ok_or (get_path bundles ("spec" ∷ "payloadHash" ∷ []) entry)
            (failure "DSSE Rekor entry missing required payloadHash field"))
          h in
      let (hash, e2, h2) =
        >>=-parts
          (ok_or (field bundles "value" stated)
            (failure "Malformed payloadHash: object present but missing 'value' field"))
          h1 in
      let (_, e3, h3) =
        >>=-parts
          (ensure (str_eq (or_default (field bundles "algorithm" stated) "") "sha256")
            (failure "Unsupported payload hash algorithm"))
          h2 in
      let (payload, e4, h4) =
        >>=-parts
          (bytes_of bundles (text_at bundles ("dsseEnvelope" ∷ "payload" ∷ []) bundle)
            "Missing DSSE payload in bundle for hash check" "Failed to decode DSSE payload")
          h3 in
      let (payload_b64, d1, d2) =
        bytes_of_parts p (text_at bundles ("dsseEnvelope" ∷ "payload" ∷ []) bundle) _ _ e4 in
      of_payload stated payload_b64 hash payload (ok_or_found _ _ e1) (ok_or_found _ _ e2) d1 d2
        (sym ((bytes_eq_iff (hex (sha256 payload)) (codes hash)).0 (ensure_held _ _ h4)))

  payload_parts :
      (bundle : Value) (body : List ℕ) (entry : Value)
      → parse_body p body ≡ ok entry
      → verify_payload_hash_binding p bundle body ≡ ok tt
      → IsPayloadOf bundle entry
  unfolding verify_payload_hash_binding
  payload_parts bundle body entry parsed h =
      elim (Option-cases (pointer bundles ("spec" ∷ "hashedRekordV002" ∷ "data" ∷ []) entry)) [
        | inr (data_, there) ↦
            verify_pae_digest_sound bundle entry data_ there (ground (arith, h, parsed, there))
        | inl nowhere ↦
            elim (Bool-cases (str_eq (or_default (field bundles "kind" entry) "") "dsse")) [
              | inl dsse ↦
                  verify_payload_hash_sound bundle entry (ground (arith, h, parsed, nowhere, dsse))
              | inr other ↦ unchecked nowhere other
            ]
      ]

  pub bindings_sound :
      (bundle : Value) (body : List ℕ)
      → verify_certificate_binding p bundle body ≡ ok tt
      → verify_signature_binding p bundle body ≡ ok tt
      → verify_payload_hash_binding p bundle body ≡ ok tt
      → IsBound bundle body
  unfolding parse_body
  bindings_sound bundle body h k l =
      let (entry, certificate, parsed, e1, e2) = certificate_parts bundle body h in
      let (signature, e3, e4) = signature_parts bundle body entry parsed k in
      record {
        entry = entry;
        certificate = certificate;
        signature = signature;
        is_json = ok_or_found _ _ parsed;
        logs_certificate = e1;
        has_certificate = e2;
        logs_signature = e3;
        has_signature = e4;
        payload = payload_parts bundle body entry parsed l;
      }
