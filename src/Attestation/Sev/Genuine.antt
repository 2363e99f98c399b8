-- ===== src/Attestation/Sev/Genuine.antt =====
-- Which attestations are verified, and what is reported of them.
use tinfoil_rs.Prelude.{ℕ, ◌≤◌, ◌≡◌, ◌↔◌, ◌⊎◌, ◌||◌, true, List, [], ◌∷◌, some, arith, length, ◌==◌}
use tinfoil_rs.Outcome.{ok}
use tinfoil_rs.Decides.{
  Decides, DecidesTo, ok-Decides, ensure-Decides, reject_if-Decides, >>-Decides, >>=-Decides,
  >>-given-Decides, Decides-map, Has,
}
use tinfoil_rs.Attestation.Types.{ValidationOptions, Verification, sev_guest_v2, flag}
use tinfoil_rs.Attestation.Constants.{
  report_size, chip_id_offset, chip_id_size, reported_tcb_offset, measurement_offset,
  measurement_size, report_data_offset, report_data_size, signer_info_offset,
}
use tinfoil_rs.Attestation.Reason.{Reason}
use tinfoil_rs.Attestation.Bytes.{
  bytes_of, word_of, slice-in_range, le_at-in_range, length-bytes_of,
}
use tinfoil_rs.Attestation.Report.{validate_report_structure}
use tinfoil_rs.Attestation.Validation.Conditions.{tcb_of}
use tinfoil_rs.Attestation.Validation.Policy.{ltb_iff}
use tinfoil_rs.Attestation.Validation.Accept.{IsAcceptable, validate_report_fields-Decides}
use tinfoil_rs.Attestation.X509.{X509}
use tinfoil_rs.Attestation.Vcek.Match.{
  VcekMatches, validate_vcek_extensions-Decides, HwidMatches, validate_vcek_hwid-Decides,
}
use tinfoil_rs.Attestation.CertChain.Trusted.{ChainAccepted, verify_cert_chain_crypto-Decides}
use tinfoil_rs.Attestation.Signature.{IsReportSigned, verify_report_signature-Decides}
use tinfoil_rs.Attestation.Sev.{
  Surroundings, validate_report_with_chain, extract_verification, verify_with_vcek,
}

-- A report of full size, of a version that AMD released.
pub record IsStructured (report : List ℕ) : Type 0 where
  pub size : report_size ≤ length report
  pub version : (word_of report 0 4 ≡ 2) ⊎ ((word_of report 0 4 ≡ 3) ⊎ (word_of report 0 4 ≡ 5))

version_iff : (v : ℕ) → ((v == 2 || v == 3 || v == 5) ≡ true) ↔ ((v ≡ 2) ⊎ ((v ≡ 3) ⊎ (v ≡ 5)))
version_iff v = ground arith

-- A report passes exactly when it has at least 1184 bytes and the version 2, 3 or 5, and is an
-- error, never a panic, otherwise.
pub validate_report_structure-Decides :
    (report : List ℕ) → Decides (validate_report_structure report) (IsStructured report)
unfolding validate_report_structure
validate_report_structure-Decides report =
    Decides-map (λ (a, b). record { size = a; version = b }) (λ s. (s.size, s.version))
      (>>-given-Decides _ (reject_if-Decides _ _ (ltb_iff (length report) report_size)) λ fits.
        rw (le_at-in_range {E = Reason} report 0 4 (omega arith))
          (ensure-Decides _ _ (version_iff (word_of report 0 4))))

module _ (x509 : X509) (here : Surroundings) where
  open x509 use {from_der}
  open here use {base64_decode, inflate, hex_encode, clock, genoa_cert_chain}

  -- What is reported: the measurement, and the two halves of the report data as the fingerprint of
  -- the TLS key and the HPKE key.
  abbrev pub verification_of : List ℕ → Verification
  verification_of report =
      let report_data = bytes_of report report_data_offset report_data_size in
      record {
        measurement = record {
          type_ = sev_guest_v2;
          registers = hex_encode (bytes_of report measurement_offset measurement_size) ∷ [];
        };
        tls_public_key_fp = hex_encode (bytes_of report_data 0 32);
        hpke_public_key = some (hex_encode (bytes_of report_data 32 32));
      }

  -- The report is acceptable under the options, the chain leads to its VCEK certificate, which is
  -- for its patch levels and its chip, and its signature is by that certificate's key.
  pub record IsGenuine (report vcek : List ℕ) (options : ValidationOptions) : Type 0 where
    pub chain : ChainAccepted x509 clock vcek genoa_cert_chain
    pub acceptable : IsAcceptable report options
    pub patch_levels :
        Has (from_der vcek) λ cert. VcekMatches x509 cert (tcb_of report reported_tcb_offset)
    pub hwid :
        HwidMatches x509 vcek
          (bytes_of report chip_id_offset chip_id_size)
          (flag (word_of report signer_info_offset 4) 1)
    pub signed : IsReportSigned x509 report vcek

  module _ (report : List ℕ) (fits : report_size ≤ length report) where
    extract_verification_lem : extract_verification x509 here report ≡ ok (verification_of report)
    unfolding extract_verification
    extract_verification_lem =
        let report_data = bytes_of report report_data_offset report_data_size in
        let size = length-bytes_of report report_data_offset report_data_size (omega arith) in
        rw (slice-in_range {E = Reason} report measurement_offset measurement_size (omega arith)) (
          rw (slice-in_range {E = Reason} report report_data_offset report_data_size (omega arith))
            (rw (slice-in_range {E = Reason} report_data 0 32 (omega (arith, size)))
              (rw (slice-in_range {E = Reason} report_data 32 32 (omega (arith, size))))))

    module _ (vcek : List ℕ) (options : ValidationOptions) where
      validate_report_with_chain-Decides :
          DecidesTo
            (validate_report_with_chain x509 report vcek options)
            (flag (word_of report signer_info_offset 4) 1)
            (IsAcceptable report options
              × (Has
                  (from_der vcek)
                  λ cert. VcekMatches x509 cert (tcb_of report reported_tcb_offset)))
      unfolding validate_report_with_chain word_of
      validate_report_with_chain-Decides =
          >>=-Decides _ _ (validate_report_fields-Decides report fits options) (
            rw (slice-in_range {E = Reason} report reported_tcb_offset 8 (omega arith)) (
              Decides-map (λ h. h.0) (λ h. (h, tt))
                (>>-Decides
                  (validate_vcek_extensions-Decides x509 vcek
                    (bytes_of report reported_tcb_offset 8)
                    (length-bytes_of report reported_tcb_offset 8 (omega arith)))
                  (ok-Decides _))))

      pub verify_with_vcek-Decides :
          DecidesTo
            (verify_with_vcek x509 here report
              (bytes_of report chip_id_offset chip_id_size)
              vcek
              options)
            (verification_of report)
            (IsGenuine report vcek options)
      unfolding verify_with_vcek
      verify_with_vcek-Decides = rw extract_verification_lem (
          Decides-map
            (λ (a, ((b, c), (d, (e, f)))). record {
              chain = a;
              acceptable = b;
              patch_levels = c;
              hwid = d;
              signed = e;
            })
            (λ g. (g.chain, ((g.acceptable, g.patch_levels), (g.hwid, (g.signed, tt)))))
            (>>-Decides (verify_cert_chain_crypto-Decides x509 clock vcek genoa_cert_chain) (
              >>=-Decides _ _ validate_report_with_chain-Decides (
                >>-Decides
                  (validate_vcek_hwid-Decides x509 vcek
                    (bytes_of report chip_id_offset chip_id_size) _)
                  (>>-Decides (verify_report_signature-Decides x509 report vcek fits)
                    (ok-Decides (verification_of report)))))))
