-- ===== src/Attestation/Validation.antt =====
-- Validation of the fields of an SEV-SNP report (src/verifier/attestation/sev/validation.rs).
pub mod Policy
pub mod Conditions
pub mod Fields
pub mod Accept
use Prim.Native.String.{String}
use tinfoil_rs.Prelude.{
  ℕ, ◌+◌, ◌*◌, ◌/◌, ◌%◌, ◌^◌, Bool, not, ◌&&◌, List, Option, none, some, ltb, ◌==◌,
}
use tinfoil_rs.Outcome.{ok, ◌>>=◌, ◌>>◌, ensure, reject_if}
use tinfoil_rs.Attestation.Reason.{
  Reason, message, provisional_tcb, provisional_version, abi_version, vmpl_out_of_range,
  vmpl_mismatch, signature_algo, policy_high_bits, guest_svn_below, build_below, version_below,
  tcb_below, platform_info_reserved, field_mismatch,
}
use tinfoil_rs.Attestation.Types.{
  SnpPolicy, SnpPlatformInfo, TcbParts, ValidationOptions, flag, policy_from_u64,
  platform_info_from_u64, tcb_from_u64, meets_minimum,
}
use tinfoil_rs.Attestation.Constants.{
  committed_tcb_offset, current_tcb_offset, committed_build_offset, current_build_offset,
  committed_minor_offset, current_minor_offset, committed_major_offset, current_major_offset,
  vmpl_offset, signature_algo_offset, signature_algo_ecdsa_p384_sha384, policy_offset,
  guest_svn_offset, reported_tcb_offset, launch_tcb_offset, platform_info_offset,
  report_data_offset, report_data_size, host_data_offset, host_data_size, image_id_offset,
  image_id_size, family_id_offset, family_id_size, report_id_offset, report_id_size,
  report_id_ma_offset, report_id_ma_size, measurement_offset, measurement_size, chip_id_offset,
  chip_id_size,
}
use tinfoil_rs.Attestation.Bytes.{u8_at, slice, le_at, bytes_eq}
use tinfoil_rs.Attestation.Report.{Attested, validate_mbz_fields, validate_signer_info}

-- The committed and the current value of one byte of the firmware version.
unfoldable pub same_version_byte : List ℕ → String → ℕ → ℕ → Attested (Unit {0})
same_version_byte report name committed_offset current_offset = do
  committed ← u8_at report committed_offset
  current ← u8_at report current_offset
  ensure (committed == current) (provisional_version name committed current)

unfoldable pub validate_committed_tcb : List ℕ → Attested (Unit {0})
validate_committed_tcb report = do
  committed_tcb ← le_at 8 report committed_tcb_offset
  current_tcb ← le_at 8 report current_tcb_offset
  ensure (committed_tcb == current_tcb) (provisional_tcb committed_tcb current_tcb)
  same_version_byte report "build" committed_build_offset current_build_offset
  same_version_byte report "minor" committed_minor_offset current_minor_offset
  same_version_byte report "major" committed_major_offset current_major_offset

-- `(major as u16) << 8 | minor`, of two bytes.
abbrev pub version_word : ℕ → ℕ → ℕ
version_word major minor = major * 256 + minor

unfoldable pub validate_policy : SnpPolicy → SnpPolicy → Attested (Unit {0})
validate_policy report required = do
  reject_if
      (ltb (version_word report.abi_major report.abi_minor)
        (version_word required.abi_major required.abi_minor))
      (abi_version required.abi_major required.abi_minor report.abi_major report.abi_minor)
  reject_if (not required.migrate_ma && report.migrate_ma)
      (message "Unauthorized migration agent capability")
  reject_if (not required.debug && report.debug) (message "Debug mode not allowed")
  reject_if (not required.smt && report.smt) (message "Unauthorized SMT capability")
  reject_if (not required.cxl_allowed && report.cxl_allowed) (message "Unauthorized CXL capability")
  reject_if (not required.mem_aes256_xts && report.mem_aes256_xts)
      (message "Unauthorized memory encryption mode (AES-256-XTS)")
  reject_if (required.mem_aes256_xts && not report.mem_aes256_xts)
      (message "AES-256-XTS memory encryption required but not present")
  reject_if (required.single_socket && not report.single_socket)
      (message "Single socket restriction required but not present")
  reject_if (required.rapl_dis && not report.rapl_dis)
      (message "RAPL disabled required but not present")
  reject_if (required.ciphertext_hiding_dram && not report.ciphertext_hiding_dram)
      (message "Ciphertext hiding in DRAM required but not enforced")
  reject_if (required.page_swap_disabled && not report.page_swap_disabled)
      (message "Page swap disabled required but not present")

unfoldable pub validate_platform_info : SnpPlatformInfo → SnpPlatformInfo → Attested (Unit {0})
validate_platform_info report required = do
  reject_if (report.smt_enabled && not required.smt_enabled)
      (message "Unauthorized platform feature SMT enabled")
  reject_if (required.tsme_enabled && not report.tsme_enabled)
      (message "TSME required but not enabled on platform")
  reject_if (required.ecc_enabled && not report.ecc_enabled)
      (message "ECC required but not enabled on platform")
  reject_if (required.rapl_disabled && not report.rapl_disabled)
      (message "RAPL disabled required but RAPL is enabled on platform")
  reject_if (required.ciphertext_hiding_dram_enabled && not report.ciphertext_hiding_dram_enabled)
      (message "Ciphertext hiding in DRAM required but not enabled on platform")
  reject_if (required.alias_check_complete && not report.alias_check_complete)
      (message "Alias check completion required but not complete on platform")
  reject_if (required.tio_enabled && not report.tio_enabled)
      (message "TIO required but not enabled on platform")

-- A check that is made if an option is set.
abbrev pub if_set {ℓ} : {A : Type ℓ} → Option A → (A → Attested (Unit {0})) → Attested (Unit {0})
if_set none check = ok tt
if_set (some a) check = check a

unfoldable pub validate_vmpl : List ℕ → Option ℕ → Attested (Unit {0})
validate_vmpl report expected_vmpl = do
  vmpl ← le_at 4 report vmpl_offset
  reject_if (ltb 3 vmpl) (vmpl_out_of_range vmpl)
  if_set expected_vmpl (λ expected. ensure (vmpl == expected) (vmpl_mismatch expected vmpl))

-- The parts of `validate_report_fields_with_options`, in its order.

unfoldable pub validate_signature_algo : List ℕ → Attested (Unit {0})
validate_signature_algo report = do
  algo ← le_at 4 report signature_algo_offset
  ensure (algo == signature_algo_ecdsa_p384_sha384) (signature_algo algo)

-- Bit 17 must be one and bits 63 to 26 zero.
unfoldable pub validate_guest_policy : List ℕ → Option SnpPolicy → Attested (Unit {0})
validate_guest_policy report guest_policy = do
  policy_raw ← le_at 8 report policy_offset
  ensure (flag policy_raw 17) (message "Policy bit 17 must be 1 (reserved)")
  ensure (policy_raw / 2 ^ 26 == 0) (policy_high_bits (policy_raw / 2 ^ 26))
  if_set guest_policy (validate_policy (policy_from_u64 policy_raw))

unfoldable pub validate_guest_svn : List ℕ → Option ℕ → Attested (Unit {0})
validate_guest_svn report minimum = if_set minimum λ min_guest_svn. do
  guest_svn ← le_at 4 report guest_svn_offset
  reject_if (ltb guest_svn min_guest_svn) (guest_svn_below guest_svn min_guest_svn)

unfoldable pub validate_build : List ℕ → ℕ → Option ℕ → Attested (Unit {0})
validate_build report build minimum = if_set minimum λ min_build. do
  reject_if (ltb build min_build) (build_below "Current" build min_build)
  committed_build ← u8_at report committed_build_offset
  reject_if (ltb committed_build min_build) (build_below "Committed" committed_build min_build)

-- The message prints the two bytes of the minimum.
abbrev pub version_too_low : String → ℕ → ℕ → ℕ → Reason
version_too_low which major minor min_version =
    version_below which major minor (min_version / 256) (min_version % 256)

unfoldable pub validate_version : List ℕ → ℕ → ℕ → Option ℕ → Attested (Unit {0})
validate_version report major minor minimum = if_set minimum λ min_version. do
  reject_if (ltb (version_word major minor) min_version)
      (version_too_low "Current" major minor min_version)
  committed_major ← u8_at report committed_major_offset
  committed_minor ← u8_at report committed_minor_offset
  reject_if (ltb (version_word committed_major committed_minor) min_version)
      (version_too_low "Committed" committed_major committed_minor min_version)

unfoldable pub validate_firmware : List ℕ → Option ℕ → Option ℕ → Attested (Unit {0})
validate_firmware report minimum_build minimum_version = do
  build ← u8_at report current_build_offset
  minor ← u8_at report current_minor_offset
  major ← u8_at report current_major_offset
  validate_build report build minimum_build
  validate_version report major minor minimum_version

-- One TCB field against a minimum.
unfoldable pub validate_tcb_at : List ℕ → String → ℕ → TcbParts → Attested (Unit {0})
validate_tcb_at report name offset min_tcb = do
  tcb ← le_at 8 report offset
  ensure (meets_minimum (tcb_from_u64 tcb) min_tcb) (tcb_below name (tcb_from_u64 tcb) min_tcb)

unfoldable pub validate_minimum_tcb : List ℕ → Option TcbParts → Attested (Unit {0})
validate_minimum_tcb report minimum = if_set minimum λ min_tcb. do
  validate_tcb_at report "Reported" reported_tcb_offset min_tcb
  validate_tcb_at report "Current" current_tcb_offset min_tcb
  validate_tcb_at report "Committed" committed_tcb_offset min_tcb

unfoldable pub validate_minimum_launch_tcb : List ℕ → Option TcbParts → Attested (Unit {0})
validate_minimum_launch_tcb report minimum =
    if_set minimum (validate_tcb_at report "Launch" launch_tcb_offset)

-- The valid bits are 0 to 5 and 7: the mask 0b10111111.
abbrev pub reserved_clear : ℕ → Bool
reserved_clear raw = not (flag raw 6) && raw / 2 ^ 8 == 0

unfoldable pub validate_report_platform_info : List ℕ → Option SnpPlatformInfo → Attested (Unit {0})
validate_report_platform_info report required = if_set required λ required_platform_info. do
  platform_info_raw ← le_at 8 report platform_info_offset
  ensure (reserved_clear platform_info_raw) (platform_info_reserved platform_info_raw)
  validate_platform_info (platform_info_from_u64 platform_info_raw) required_platform_info

-- An optional field equality check.
unfoldable pub validate_field : List ℕ → String → ℕ → ℕ → Option (List ℕ) → Attested (Unit {0})
validate_field report name offset size expected = if_set expected λ value. do
  actual ← slice report offset (offset + size)
  ensure (bytes_eq actual value) (field_mismatch name value actual)

unfoldable pub validate_field_equalities : List ℕ → ValidationOptions → Attested (Unit {0})
validate_field_equalities report options = do
  validate_field report "report_data" report_data_offset report_data_size options.report_data
  validate_field report "host_data" host_data_offset host_data_size options.host_data
  validate_field report "image_id" image_id_offset image_id_size options.image_id
  validate_field report "family_id" family_id_offset family_id_size options.family_id
  validate_field report "report_id" report_id_offset report_id_size options.report_id
  validate_field report "report_id_ma" report_id_ma_offset report_id_ma_size options.report_id_ma
  validate_field report "measurement" measurement_offset measurement_size options.measurement
  validate_field report "chip_id" chip_id_offset chip_id_size options.chip_id

-- Returns the mask-chip-key flag.
unfoldable pub validate_report_fields_with_options : List ℕ → ValidationOptions → Attested Bool
validate_report_fields_with_options report options = do
  validate_mbz_fields report
  validate_signature_algo report
  mask_chip_key ← validate_signer_info report
  reject_if options.permit_provisional_firmware
      (message "permit_provisional_firmware=true is not supported")
  validate_committed_tcb report
  validate_guest_policy report options.guest_policy
  validate_guest_svn report options.minimum_guest_svn
  validate_firmware report options.minimum_build options.minimum_version
  validate_minimum_tcb report options.minimum_tcb
  validate_minimum_launch_tcb report options.minimum_launch_tcb
  validate_report_platform_info report options.platform_info
  validate_vmpl report options.vmpl
  validate_field_equalities report options
  ok mask_chip_key
