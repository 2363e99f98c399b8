-- ===== src/Attestation/Report.antt =====
-- Decoding and structure of an SEV-SNP report (src/verifier/attestation/sev/report.rs). A report is
-- a list of bytes, each below 256.
pub mod Zeroed
pub mod Structure
use Prim.Native.String.{String}
use tinfoil_rs.Prelude.{
  ℕ, ◌+◌, ◌*◌, ◌/◌, ◌%◌, ◌^◌, Bool, ◌||◌, List, Option, ltb, leb, ◌==◌, if◌then◌else◌, length,
}
use tinfoil_rs.Outcome.{Outcome, ok, ◌>>=◌, ◌>>◌, ensure, reject_if, ok_or}
use tinfoil_rs.Attestation.Reason.{
  Reason, base64_failed, gzip_failed, exceeds_maximum_size, report_too_small, unsupported_version,
  mbz_non_zero, tcb_reserved_bits, signer_info_reserved, signing_key_not_vcek,
}
use tinfoil_rs.Attestation.Types.{flag}
use tinfoil_rs.Attestation.Constants.{
  report_size, signature_offset, ecdsa_p384_signature_size, current_tcb_offset, reported_tcb_offset,
  committed_tcb_offset, launch_tcb_offset, signer_info_offset,
}
use tinfoil_rs.Attestation.Bytes.{slice, le_at, any_non_zero}

-- `Result<A>` whose errors are `Error::AttestationVerification`.
abbrev pub Attested : Type 0 → Type 0
Attested = Outcome Reason

abbrev pub max_decompressed_size : ℕ
max_decompressed_size = 10 * 1024 * 1024

-- `base64_decode` is the third-party decoder that `decode_b64` of util.rs calls, and `inflate n` the
-- first `n` bytes of what the third-party gzip decoder yields, or nothing if it fails before.
module _ (base64_decode : String → Option (List ℕ)) (inflate : ℕ → List ℕ → Option (List ℕ)) where
  unfoldable pub decode_report : String → Attested (List ℕ)
  decode_report body = do
    compressed ← ok_or (base64_decode body) base64_failed
    report_bytes ← ok_or (inflate (max_decompressed_size + 1) compressed) gzip_failed
    reject_if (ltb max_decompressed_size (length report_bytes))
        (exceeds_maximum_size max_decompressed_size)
    ok report_bytes

unfoldable pub validate_report_structure : List ℕ → Attested (Unit {0})
validate_report_structure report = do
  reject_if (ltb (length report) report_size) (report_too_small report_size (length report))
  version ← le_at 4 report 0
  ensure (version == 2 || version == 3 || version == 5) (unsupported_version version)

unfoldable pub validate_mbz_bytes : List ℕ → ℕ → ℕ → String → Attested (Unit {0})
validate_mbz_bytes report start end field_name = do
  bytes ← slice report start end
  reject_if (any_non_zero bytes) (mbz_non_zero field_name start end)

-- `(tcb >> 16) & 0xFFFF_FFFF`
unfoldable pub validate_tcb_mbz : ℕ → String → Attested (Unit {0})
validate_tcb_mbz tcb field_name =
    ensure (tcb / 2 ^ 16 % 2 ^ 32 == 0) (tcb_reserved_bits field_name tcb)

-- The byte ranges of `validate_mbz_fields`.
unfoldable pub validate_mbz_ranges : ℕ → List ℕ → Attested (Unit {0})
validate_mbz_ranges version report = do
  validate_mbz_bytes report 0x4C 0x50 "reserved_after_signer_info"
  if leb 3 version
      then validate_mbz_bytes report 0x18B 0x1A0 "reserved_v3"
      else validate_mbz_bytes report 0x188 0x1A0 "reserved_v2"
  validate_mbz_bytes report 0x1EB 0x1EC "reserved_after_current_version"
  validate_mbz_bytes report 0x1EF 0x1F0 "reserved_after_committed_version"
  validate_mbz_bytes report (if leb 5 version then 0x208 else 0x1F8) 0x2A0
      "reserved_before_signature"
  validate_mbz_bytes report (signature_offset + ecdsa_p384_signature_size) report_size
      "signature_padding"

-- The TCB fields of `validate_mbz_fields`.
unfoldable pub validate_mbz_tcbs : List ℕ → Attested (Unit {0})
validate_mbz_tcbs report = do
  current_tcb ← le_at 8 report current_tcb_offset
  validate_tcb_mbz current_tcb "current_tcb"
  reported_tcb ← le_at 8 report reported_tcb_offset
  validate_tcb_mbz reported_tcb "reported_tcb"
  committed_tcb ← le_at 8 report committed_tcb_offset
  validate_tcb_mbz committed_tcb "committed_tcb"
  launch_tcb ← le_at 8 report launch_tcb_offset
  validate_tcb_mbz launch_tcb "launch_tcb"

unfoldable pub validate_mbz_fields : List ℕ → Attested (Unit {0})
validate_mbz_fields report = do
  version ← le_at 4 report 0
  validate_mbz_ranges version report
  validate_mbz_tcbs report

-- The mask-chip-key flag is bit 1, and the signing key bits 2 to 4.
unfoldable pub validate_signer_info : List ℕ → Attested Bool
validate_signer_info report = do
  signer_info ← le_at 4 report signer_info_offset
  ensure (signer_info / 2 ^ 5 == 0) (signer_info_reserved (signer_info / 2 ^ 5))
  let signing_key = signer_info / 2 ^ 2 % 8
  ensure (signing_key == 0) (signing_key_not_vcek signing_key)
  ok (flag signer_info 1)
