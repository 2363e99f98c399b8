-- ===== src/Attestation/Sev.antt =====
-- Verification of an SEV-SNP attestation (src/verifier/attestation/sev/mod.rs), with
-- `validate_report_with_chain` of validation.rs and `fetch_vcek` of cert_chain.rs. The writes and
-- removals of cache files by `fetch_vcek`, whose failures it ignores, are left out.
pub mod Genuine
pub mod Verified
pub mod Tests
use Prim.Native.String.{String}
use tinfoil_rs.Prelude.{ℕ, ◌+◌, ◌&&◌, Bool, List, [], ◌∷◌, Option, none, some, leb}
use tinfoil_rs.Outcome.{ok, err, ◌>>=◌, ◌>>◌, ensure, ok_or}
use tinfoil_rs.Attestation.Types.{
  TcbParts, tcb_from_u64, ValidationOptions, Verification, sev_guest_v2,
}
use tinfoil_rs.Attestation.Constants.{
  chip_id_offset, chip_id_size, reported_tcb_offset, measurement_offset, measurement_size,
  report_data_offset, report_data_size,
}
use tinfoil_rs.Attestation.Reason.{message, fetch_status}
use tinfoil_rs.Attestation.Bytes.{slice}
use tinfoil_rs.Attestation.Report.{Attested, decode_report, validate_report_structure}
use tinfoil_rs.Attestation.Validation.{validate_report_fields_with_options}
use tinfoil_rs.Attestation.X509.{X509}
use tinfoil_rs.Attestation.Vcek.{u64_of_slice, validate_vcek_extensions, validate_vcek_hwid}
use tinfoil_rs.Attestation.CertChain.{ClockReadings}
use tinfoil_rs.Attestation.CertChain.Verify.{verify_cert_chain_crypto}
use tinfoil_rs.Attestation.Signature.{verify_report_signature}

-- What the URL of the key distribution service says: the chip and its four patch levels.
pub record KdsRequest : Type 0 where
  pub chip_id : List ℕ
  pub tcb : TcbParts

-- No answer after the retries, or a status with the body, unless it cannot be read.
pub data KdsAnswer : Type 0 where
  failed : KdsAnswer
  answered : ℕ → Option (List ℕ) → KdsAnswer

-- The third-party code and the surroundings of a verification.
pub record Surroundings : Type 0 where
  -- The base64 decoder behind `decode_b64`, and the first bytes of what the gzip decoder yields.
  pub base64_decode : String → Option (List ℕ)
  pub inflate : ℕ → List ℕ → Option (List ℕ)
  pub hex_encode : List ℕ → String
  pub clock : ClockReadings
  -- The contents of the cache file of a chip and a TCB, and the answers of the service.
  pub cached : List ℕ → ℕ → Option (List ℕ)
  pub kds : KdsRequest → KdsAnswer
  -- The certificate chain that is embedded in the program.
  pub genoa_cert_chain : List ℕ

module _ (x509 : X509) where
  unfoldable pub validate_report_with_chain : List ℕ → List ℕ → ValidationOptions → Attested Bool
  validate_report_with_chain report vcek options = do
    mask_chip_key ← validate_report_fields_with_options report options
    reported_tcb ← slice report reported_tcb_offset (reported_tcb_offset + 8)
    validate_vcek_extensions x509 vcek reported_tcb
    ok mask_chip_key

  module _ (here : Surroundings) where
    open x509 use {from_der}

    -- `response.status().is_success()`, and the body.
    unfoldable pub vcek_of_answer : KdsAnswer → Attested (List ℕ)
    vcek_of_answer failed = err (message "Failed to fetch VCEK")
    vcek_of_answer (answered status body) = do
      ensure (leb 200 status && leb status 299) (fetch_status status)
      ok_or body (message "Failed to read VCEK")

    -- The cached certificate, if it parses.
    unfoldable pub parsed_cache : Option (List ℕ) → Option (List ℕ)
    parsed_cache none = none
    parsed_cache (some bytes) = elim (from_der bytes) [ none ↦ none | some _ ↦ some bytes ]

    unfoldable pub fetch_vcek : List ℕ → List ℕ → Attested (List ℕ)
    unfolding vcek_of_answer parsed_cache
    fetch_vcek chip_id tcb = do
      tcb_val ← u64_of_slice tcb
      elim (parsed_cache (here.cached chip_id tcb_val)) [
        | some bytes ↦ ok bytes
        | none ↦
            vcek_of_answer (here.kds (record { chip_id = chip_id; tcb = tcb_from_u64 tcb_val }))
      ]

    -- The measurement, and the two halves of the report data.
    unfoldable pub extract_verification : List ℕ → Attested Verification
    extract_verification report_bytes = do
      measurement_bytes ←
          slice report_bytes measurement_offset (measurement_offset + measurement_size)
      report_data ← slice report_bytes report_data_offset (report_data_offset + report_data_size)
      tls ← slice report_data 0 32
      hpke ← slice report_data 32 64
      ok (record {
        measurement = record {
          type_ = sev_guest_v2;
          registers = here.hex_encode measurement_bytes ∷ [];
        };
        tls_public_key_fp = here.hex_encode tls;
        hpke_public_key = some (here.hex_encode hpke);
      })

    -- What follows once the VCEK certificate is there.
    unfoldable pub verify_with_vcek :
        List ℕ → List ℕ → List ℕ → ValidationOptions → Attested Verification
    verify_with_vcek report_bytes chip_id vcek options = do
      verify_cert_chain_crypto x509 here.clock vcek here.genoa_cert_chain
      mask_chip_key ← validate_report_with_chain report_bytes vcek options
      validate_vcek_hwid x509 vcek chip_id mask_chip_key
      verify_report_signature x509 report_bytes vcek
      extract_verification report_bytes

    unfoldable pub verify_full_with_options : String → ValidationOptions → Attested Verification
    verify_full_with_options body options = do
      report_bytes ← decode_report here.base64_decode here.inflate body
      validate_report_structure report_bytes
      chip_id ← slice report_bytes chip_id_offset (chip_id_offset + chip_id_size)
      reported_tcb ← slice report_bytes reported_tcb_offset (reported_tcb_offset + 8)
      vcek ← fetch_vcek chip_id reported_tcb
      verify_with_vcek report_bytes chip_id vcek options
