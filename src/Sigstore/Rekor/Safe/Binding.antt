-- ===== src/Sigstore/Rekor/Safe/Binding.antt =====
-- The checks of an entry against its bundle never panic (src/verifier/sigstore/rekor.rs).
use Prim.Native.String.{String}
use tinfoil_rs.Prelude.{ℕ, arith, inl, inr, List, [], ◌∷◌, Option, Option-cases}
use tinfoil_rs.Answers.{
  IsSafe, >>=-IsSafe, if-IsSafe, ok_or-IsSafe, ok_or_then-IsSafe, ensure-IsSafe, err-IsSafe,
  ok_IsSafe,
}
use tinfoil_rs.Sigstore.Rekor.Json.{RekorPackage, pointer, bytes_of}
use tinfoil_rs.Sigstore.Rekor.Binding.{
  parse_body, bundle_dsse_signature, verify_kind_version, parse_pem_certificate, dsse_certificate,
  hashedrekord_certificate, logged_certificate, bundle_certificate, body_kind,
  verify_certificate_binding, logged_signature, verify_signature_binding, verify_pae_digest,
  verify_payload_hash, verify_payload_hash_binding,
}

module _ (p : RekorPackage) where
  open p use {bundles}
  open bundles use {Value}

  pub bytes_of-IsSafe :
      (text : Option String) (missing malformed : String)
      → IsSafe (bytes_of bundles text missing malformed)
  unfolding bytes_of
  bytes_of-IsSafe text missing malformed =
      ok_or_then-IsSafe text _ _ λ b64. ok_or-IsSafe (bundles.decode_b64 b64) _

  parse_body-IsSafe : (body : List ℕ) → IsSafe (parse_body p body)
  unfolding parse_body
  parse_body-IsSafe body = ok_or-IsSafe _ _

  parse_pem_certificate-IsSafe : (text : String) → IsSafe (parse_pem_certificate p text)
  unfolding parse_pem_certificate
  parse_pem_certificate-IsSafe text = ok_or-IsSafe _ _

  pub bundle_dsse_signature-IsSafe : (bundle : Value) → IsSafe (bundle_dsse_signature p bundle)
  unfolding bundle_dsse_signature
  bundle_dsse_signature-IsSafe bundle = bytes_of-IsSafe _ _ _

  pub verify_kind_version-IsSafe :
      (entry : Value) (body : List ℕ) → IsSafe (verify_kind_version p entry body)
  unfolding verify_kind_version
  verify_kind_version-IsSafe entry body =
      ok_or_then-IsSafe _ _ _
        λ kind_version. >>=-IsSafe _ _ (parse_body-IsSafe body) λ parsed. ensure-IsSafe _ _

  logged_certificate-IsSafe :
      (kind : String) (entry : Value) → IsSafe (logged_certificate p kind entry)
  unfolding logged_certificate dsse_certificate hashedrekord_certificate
  logged_certificate-IsSafe kind entry =
      if-IsSafe _ (dsse_certificate p entry) _
        (>>=-IsSafe _ _ (bytes_of-IsSafe _ _ _)
          λ verifier. ok_or_then-IsSafe _ _ _ parse_pem_certificate-IsSafe)
        (if-IsSafe _ (hashedrekord_certificate p entry) _
          (if-IsSafe _ _ _ (bytes_of-IsSafe _ _ _)
            (ok_or_then-IsSafe _ _ _ parse_pem_certificate-IsSafe))
          (err-IsSafe _))

  pub verify_certificate_binding-IsSafe :
      (bundle : Value) (body : List ℕ) → IsSafe (verify_certificate_binding p bundle body)
  unfolding verify_certificate_binding bundle_certificate
  verify_certificate_binding-IsSafe bundle body = >>=-IsSafe _ _ (parse_body-IsSafe body) λ entry.
      >>=-IsSafe _ _ (logged_certificate-IsSafe (body_kind p entry) entry) λ certificate.
        >>=-IsSafe (bundle_certificate p bundle) _ (bytes_of-IsSafe _ _ _) λ own. ensure-IsSafe _ _

  logged_signature-IsSafe : (kind : String) (entry : Value) → IsSafe (logged_signature p kind entry)
  unfolding logged_signature
  logged_signature-IsSafe kind entry h = grind (arith, bytes_of-IsSafe)

  pub verify_signature_binding-IsSafe :
      (bundle : Value) (body : List ℕ) → IsSafe (verify_signature_binding p bundle body)
  unfolding verify_signature_binding
  verify_signature_binding-IsSafe bundle body = >>=-IsSafe _ _ (parse_body-IsSafe body) λ entry.
      >>=-IsSafe _ _ (logged_signature-IsSafe (body_kind p entry) entry)
        λ signature. >>=-IsSafe _ _ (bundle_dsse_signature-IsSafe bundle) λ own. ensure-IsSafe _ _

  verify_pae_digest-IsSafe : (bundle data_ : Value) → IsSafe (verify_pae_digest p bundle data_)
  unfolding verify_pae_digest
  verify_pae_digest-IsSafe bundle data_ h = grind (arith, bytes_of-IsSafe)

  verify_payload_hash-IsSafe : (bundle body : Value) → IsSafe (verify_payload_hash p bundle body)
  unfolding verify_payload_hash
  verify_payload_hash-IsSafe bundle body h = grind (arith, bytes_of-IsSafe)

  pub verify_payload_hash_binding-IsSafe :
      (bundle : Value) (body : List ℕ) → IsSafe (verify_payload_hash_binding p bundle body)
  unfolding verify_payload_hash_binding
  verify_payload_hash_binding-IsSafe bundle body = >>=-IsSafe _ _ (parse_body-IsSafe body) λ entry.
      elim (Option-cases (pointer bundles ("spec" ∷ "hashedRekordV002" ∷ "data" ∷ []) entry)) [
        | inr (data_, there) ↦ rw there (verify_pae_digest-IsSafe bundle data_)
        | inl nowhere ↦
            rw nowhere (if-IsSafe _ _ _ (verify_payload_hash-IsSafe bundle entry) (ok_IsSafe _))
      ]
