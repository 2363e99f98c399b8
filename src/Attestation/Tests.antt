-- ===== src/Attestation/Tests.antt =====
-- A report that the default options accept, comparisons of measurements, and the theorems at these.
use tinfoil_rs.Prelude.{
  ℕ, zero, suc, ◌+◌, ◌≤◌, ◌≡◌, ◌↔◌, refl, false, List, [], ◌∷◌, arith, ◌==◌, if◌then◌else◌, length,
}
use tinfoil_rs.Outcome.{ok}
use tinfoil_rs.Word.{from_le_bytes}
use tinfoil_rs.Decides.{DecidesTo}
use tinfoil_rs.Attestation.Types.{
  Measurement, sev_guest_v2, snp_tdx_multi_platform_v1, default_options, flag, policy_from_u64,
  platform_info_from_u64, tcb_from_u64, meets_minimum,
}
use tinfoil_rs.Attestation.Constants.{report_size, signer_info_offset}
use tinfoil_rs.Attestation.Bytes.{word_of, slice, le_at, u8_at, any_non_zero, bytes_eq}
use tinfoil_rs.Attestation.Report.{
  validate_mbz_fields, validate_mbz_ranges, validate_mbz_bytes, validate_mbz_tcbs, validate_tcb_mbz,
  validate_signer_info,
}
use tinfoil_rs.Attestation.Validation.{
  validate_report_fields_with_options, validate_signature_algo, validate_committed_tcb,
  same_version_byte, validate_guest_policy, validate_policy, validate_guest_svn, validate_firmware,
  validate_build, validate_version, validate_minimum_tcb, validate_minimum_launch_tcb,
  validate_tcb_at, validate_report_platform_info, validate_platform_info, validate_vmpl,
  validate_field_equalities, validate_field,
}
use tinfoil_rs.Attestation.Validation.Accept.{IsAcceptable, validate_report_fields-Decides}
use tinfoil_rs.Attestation.Measurement.{equals, fingerprint, fingerprint_for_target}
use tinfoil_rs.Attestation.Measurement.Match.{Matches, equals_iff}
use tinfoil_rs.Attestation.Measurement.Fingerprint.{fingerprint-equals}

unfoldable pub bytes_from : ℕ → ℕ → (ℕ → ℕ) → List ℕ
bytes_from start zero byte = []
bytes_from start (suc n) byte = byte start ∷ bytes_from (start + 1) n byte

length-bytes_from : (start n : ℕ) (byte : ℕ → ℕ) → length (bytes_from start n byte) ≡ n
unfolding bytes_from
length-bytes_from start zero byte = refl
length-bytes_from start (suc n) byte = omega (arith, length-bytes_from (start + 1) n byte)

-- Version 2, policy bits 16 and 17, signature algorithm 1, TSME, firmware 1.55 build 21, and the
-- least TCB in all four places.
abbrev report_byte : ℕ → ℕ
report_byte i =
    if i == 0
    then 2
    else if i == 10
    then 3
    else if i == 0x34
    then 1
    else if i == 0x40
    then 3
    else if i == 0x38
    then 7
    else if i == 0x3E
    then 0xe
    else if i == 0x3F
    then 0x48
    else if i == 0x180
    then 7
    else if i == 0x186
    then 0xe
    else if i == 0x187
    then 0x48
    else if i == 0x1E0
    then 7
    else if i == 0x1E6
    then 0xe
    else if i == 0x1E7
    then 0x48
    else if i == 0x1F0
    then 7
    else if i == 0x1F6
    then 0xe
    else if i == 0x1F7
    then 0x48
    else if i == 0x1E8
    then 21
    else if i == 0x1E9
    then 55
    else if i == 0x1EA
    then 1
    else if i == 0x1EC
    then 21
    else if i == 0x1ED
    then 55
    else if i == 0x1EE
    then 1
    else 0

unfoldable pub good_report : List ℕ
good_report = bytes_from 0 1184 report_byte

pub good_report-size : report_size ≤ length good_report
unfolding good_report
good_report-size = omega (arith, length-bytes_from 0 1184 report_byte)

accepts_good : validate_report_fields_with_options good_report default_options ≡ ok false
unfolding good_report bytes_from validate_report_fields_with_options validate_mbz_fields
    validate_mbz_ranges validate_mbz_bytes validate_mbz_tcbs validate_tcb_mbz validate_signer_info
    slice le_at u8_at any_non_zero bytes_eq from_le_bytes validate_signature_algo
    validate_committed_tcb same_version_byte validate_guest_policy validate_policy
    validate_guest_svn validate_firmware validate_build validate_version validate_minimum_tcb
    validate_minimum_launch_tcb validate_tcb_at validate_report_platform_info validate_platform_info
    validate_vmpl validate_field_equalities validate_field policy_from_u64 platform_info_from_u64
    tcb_from_u64 meets_minimum
accepts_good = refl

validate_report_fields-Decides_example :
    DecidesTo
      (validate_report_fields_with_options good_report default_options)
      (flag (word_of good_report signer_info_offset 4) 1)
      (IsAcceptable good_report default_options)
validate_report_fields-Decides_example =
    validate_report_fields-Decides good_report good_report-size default_options

abbrev source : Measurement
source = record { type_ = snp_tdx_multi_platform_v1; registers = "snp" ∷ "rtmr1" ∷ "rtmr2" ∷ [] }

abbrev enclave : Measurement
enclave = record { type_ = sev_guest_v2; registers = "snp" ∷ [] }

same_snp : equals enclave source ≡ ok tt
unfolding equals
same_snp = refl

equals_iff_example : (equals enclave source ≡ ok tt) ↔ Matches enclave source
equals_iff_example = equals_iff enclave source

fingerprint-equals_example :
    fingerprint_for_target (λ text. text) source sev_guest_v2 ≡ fingerprint (λ text. text) enclave
fingerprint-equals_example = fingerprint-equals (λ text. text) enclave source refl same_snp
