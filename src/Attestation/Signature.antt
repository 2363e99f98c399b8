-- ===== src/Attestation/Signature.antt =====
-- The signature of a report (src/verifier/attestation/sev/signature.rs).
use mathlib.Core.List.{reverse}
use tinfoil_rs.Prelude.{ℕ, ◌+◌, ◌*◌, ◌≤◌, ◌≡◌, true, Bool, List, ◌++◌, arith, ltb, length}
use tinfoil_rs.Outcome.{ok, ◌>>=◌, ◌>>◌, ensure, reject_if, ok_or}
use tinfoil_rs.Decides.{Decides, ensure-Decides, Has, ok_or-Decides}
use tinfoil_rs.Attestation.Reason.{Reason, message, parse_failed}
use tinfoil_rs.Attestation.Constants.{
  report_size, signature_offset, signature_size, sig_component_size, sig_value_size,
}
use tinfoil_rs.Attestation.Bytes.{slice, bytes_of, slice-in_range, length-bytes_of}
use tinfoil_rs.Attestation.Report.{Attested}
use tinfoil_rs.Attestation.X509.{X509}

-- R and S, from little endian to big endian.
unfoldable pub parse_signature_components : List ℕ → Attested (List ℕ × List ℕ)
parse_signature_components sig_bytes = do
  reject_if (ltb (length sig_bytes) (sig_component_size * 2)) (message "Signature too short")
  r_le ← slice sig_bytes 0 sig_value_size
  s_le ← slice sig_bytes sig_component_size (sig_component_size + sig_value_size)
  ok (reverse r_le, reverse s_le)

-- The signature that is checked: R and S of the signature's field, each from its first 48 bytes.
abbrev pub signature_of : List ℕ → List ℕ
signature_of report =
    let field = bytes_of report signature_offset signature_size in
    reverse (bytes_of field 0 sig_value_size)
    ++ reverse (bytes_of field sig_component_size sig_value_size)

parse_signature_components_lem :
    (field : List ℕ)
    → signature_size ≤ length field
    → parse_signature_components field
      ≡ ok (
        reverse (bytes_of field 0 sig_value_size),
        reverse (bytes_of field sig_component_size sig_value_size),
      )
unfolding parse_signature_components
parse_signature_components_lem field fits =
    let long : ltb (length field) (sig_component_size * 2) ≡ Bool.false = ground arith in
    rw long (
      rw (slice-in_range field 0 sig_value_size (omega arith))
        (rw (slice-in_range field sig_component_size sig_value_size (omega arith))))

module _ (x509 : X509) where
  open x509 use {from_der, public_key, ecdsa_signature, ecdsa_key, ecdsa_verify}

  unfoldable pub verify_report_signature : List ℕ → List ℕ → Attested (Unit {0})
  verify_report_signature report vcek = do
    vcek_cert ← ok_or (from_der vcek) (parse_failed "VCEK")
    report_body ← slice report 0 signature_offset
    sig_bytes ← slice report signature_offset (signature_offset + signature_size)
    (r_be, s_be) ← parse_signature_components sig_bytes
    signature ← ok_or (ecdsa_signature (r_be ++ s_be)) (message "Invalid signature format")
    verifying_key ← ok_or (ecdsa_key (public_key vcek_cert)) (message "Invalid VCEK public key")
    ensure (ecdsa_verify verifying_key report_body signature)
        (message "Signature verification failed")

  -- The key of the VCEK certificate verifies the report's signature over the bytes before it.
  abbrev pub IsReportSigned : List ℕ → List ℕ → Type 0
  IsReportSigned report vcek = Has (from_der vcek) λ cert.
      Has (ecdsa_signature (signature_of report)) λ signature.
        Has (ecdsa_key (public_key cert))
          λ key. ecdsa_verify key (bytes_of report 0 signature_offset) signature ≡ true

  -- On a report of full size the check passes exactly where the key of the VCEK certificate
  -- verifies the report's signature, R and S read in reverse, over the bytes before the signature,
  -- and is an error, never a panic, elsewhere.
  pub verify_report_signature-Decides :
      (report vcek : List ℕ)
      → report_size ≤ length report
      → Decides (verify_report_signature report vcek) (IsReportSigned report vcek)
  unfolding verify_report_signature
  verify_report_signature-Decides report vcek fits =
      let field = bytes_of report signature_offset signature_size in
      let whole = length-bytes_of report signature_offset signature_size (omega arith) in
      ok_or-Decides (from_der vcek) _ λ cert.
        rw (slice-in_range {E = Reason} report 0 signature_offset (omega arith)) (
          rw (slice-in_range {E = Reason} report signature_offset signature_size (omega arith)) (
            rw (parse_signature_components_lem field (omega (arith, whole))) (
              ok_or-Decides (ecdsa_signature (signature_of report)) _ λ signature.
                ok_or-Decides (ecdsa_key (public_key cert)) _ λ key.
                  ensure-Decides (ecdsa_verify key (bytes_of report 0 signature_offset) signature) _
                    (λ h. h, λ h. h))))
