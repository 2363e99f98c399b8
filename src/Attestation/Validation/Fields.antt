-- ===== src/Attestation/Validation/Fields.antt =====
-- Which values of the report's fields are accepted, check by check. A report has its full size, so
-- that every read is in range.
use Prim.Native.String.{String}
use tinfoil_rs.Prelude.{ℕ, ◌+◌, ◌≤◌, ◌<◌, ◌≡◌, List, Option, arith, length, ==_iff}
use tinfoil_rs.Decides.{Decides, ensure-Decides, reject_if-Decides, >>-Decides, Decides-map, IfSet}
use tinfoil_rs.Attestation.Reason.{Reason}
use tinfoil_rs.Attestation.Types.{SnpPolicy, SnpPlatformInfo, TcbParts}
use tinfoil_rs.Attestation.Constants.{
  report_size, committed_tcb_offset, current_tcb_offset, committed_build_offset,
  current_build_offset, committed_minor_offset, current_minor_offset, committed_major_offset,
  current_major_offset, vmpl_offset, signature_algo_offset, policy_offset, guest_svn_offset,
  launch_tcb_offset, platform_info_offset,
}
use tinfoil_rs.Attestation.Bytes.{
  bytes_of, word_of, byte_of, slice-in_range, le_at-in_range, u8_at-in_range,
}
use tinfoil_rs.Attestation.Validation.{
  same_version_byte, validate_committed_tcb, validate_vmpl, validate_signature_algo,
  validate_guest_policy, validate_guest_svn, validate_build, validate_version, validate_firmware,
  validate_tcb_at, validate_minimum_tcb, validate_minimum_launch_tcb, validate_report_platform_info,
  validate_field,
}
use tinfoil_rs.Attestation.Validation.Policy.{
  validate_policy-Decides, validate_platform_info-Decides, ltb_iff,
}
use tinfoil_rs.Attestation.Validation.Conditions.{
  if_set-Decides, bytes_eq_iff, TcbAtLeast, meets_minimum_iff, tcb_of, flag_iff, reserved_clear_iff,
  NotProvisional, BuildAtLeast, VersionAtLeast, PolicyField, PlatformField, VmplField, TcbsAtLeast,
}

module _ (report : List ℕ) (fits : report_size ≤ length report) where
  same_version_byte-Decides :
      (name : String) (committed current : ℕ)
      → committed < report_size
      → current < report_size
      → Decides
          (same_version_byte report name committed current)
          (byte_of report committed ≡ byte_of report current)
  unfolding same_version_byte
  same_version_byte-Decides name committed current h k =
      rw
        (
          u8_at-in_range {E = Reason} report committed (omega arith),
          u8_at-in_range {E = Reason} report current (omega arith),
        )
        (ensure-Decides _ _ (==_iff _ _))

  pub validate_committed_tcb-Decides :
      Decides (validate_committed_tcb report) (NotProvisional report)
  unfolding validate_committed_tcb
  validate_committed_tcb-Decides =
      rw
        (
          le_at-in_range {E = Reason} report committed_tcb_offset 8 (omega arith),
          le_at-in_range {E = Reason} report current_tcb_offset 8 (omega arith),
        )
        (Decides-map (λ (a, (b, (c, d))). record { tcb = a; build = b; minor = c; major = d })
          (λ r. (r.tcb, (r.build, (r.minor, r.major))))
          (>>-Decides (ensure-Decides _ _ (==_iff _ _)) (
            >>-Decides (same_version_byte-Decides _ _ _ (omega arith) (omega arith)) (
              >>-Decides (same_version_byte-Decides _ _ _ (omega arith) (omega arith))
                (same_version_byte-Decides _ _ _ (omega arith) (omega arith))))))

  pub validate_signature_algo-Decides :
      Decides (validate_signature_algo report) (word_of report signature_algo_offset 4 ≡ 1)
  unfolding validate_signature_algo
  validate_signature_algo-Decides =
      rw (le_at-in_range {E = Reason} report signature_algo_offset 4 (omega arith))
        (ensure-Decides _ _ (==_iff _ 1))

  pub validate_guest_policy-Decides :
      (required : Option SnpPolicy)
      → Decides
          (validate_guest_policy report required)
          (PolicyField (word_of report policy_offset 8) required)
  unfolding validate_guest_policy
  validate_guest_policy-Decides required =
      rw (le_at-in_range {E = Reason} report policy_offset 8 (omega arith)) (
        Decides-map (λ (a, (b, c)). record { bit_17 = a; high_bits = b; allowed = c })
          (λ r. (r.bit_17, (r.high_bits, r.allowed)))
          (>>-Decides (ensure-Decides _ _ (flag_iff _ 17)) (
            >>-Decides (ensure-Decides _ _ (==_iff _ 0))
              (if_set-Decides required _ (validate_policy-Decides _)))))

  pub validate_guest_svn-Decides :
      (minimum : Option ℕ)
      → Decides
          (validate_guest_svn report minimum)
          (IfSet minimum (λ min. min ≤ word_of report guest_svn_offset 4))
  unfolding validate_guest_svn
  validate_guest_svn-Decides minimum = if_set-Decides minimum _ (λ min.
      rw (le_at-in_range {E = Reason} report guest_svn_offset 4 (omega arith))
        (reject_if-Decides _ _ (ltb_iff _ _)))

  validate_build-Decides :
      (minimum : Option ℕ)
      → Decides
          (validate_build report (byte_of report current_build_offset) minimum)
          (IfSet minimum (BuildAtLeast report))
  unfolding validate_build
  validate_build-Decides minimum = if_set-Decides minimum _ (λ min.
      rw (u8_at-in_range {E = Reason} report committed_build_offset (omega arith))
        (>>-Decides (reject_if-Decides _ _ (ltb_iff _ _)) (reject_if-Decides _ _ (ltb_iff _ _))))

  validate_version-Decides :
      (minimum : Option ℕ)
      → Decides
          (validate_version report
            (byte_of report current_major_offset)
            (byte_of report current_minor_offset)
            minimum)
          (IfSet minimum (VersionAtLeast report))
  unfolding validate_version
  validate_version-Decides minimum = if_set-Decides minimum _ (λ min.
      rw
        (
          u8_at-in_range {E = Reason} report committed_major_offset (omega arith),
          u8_at-in_range {E = Reason} report committed_minor_offset (omega arith),
        )
        (>>-Decides (reject_if-Decides _ _ (ltb_iff _ _)) (reject_if-Decides _ _ (ltb_iff _ _))))

  pub validate_firmware-Decides :
      (minimum_build minimum_version : Option ℕ)
      → Decides (validate_firmware report minimum_build minimum_version) (
          IfSet minimum_build (BuildAtLeast report) × IfSet minimum_version (VersionAtLeast report))
  unfolding validate_firmware
  validate_firmware-Decides minimum_build minimum_version =
      rw
        (
          u8_at-in_range {E = Reason} report current_build_offset (omega arith),
          u8_at-in_range {E = Reason} report current_minor_offset (omega arith),
          u8_at-in_range {E = Reason} report current_major_offset (omega arith),
        )
        (>>-Decides (validate_build-Decides minimum_build)
          (validate_version-Decides minimum_version))

  validate_tcb_at-Decides :
      (name : String) (offset : ℕ) (min : TcbParts)
      → offset + 8 ≤ report_size
      → Decides (validate_tcb_at report name offset min) (TcbAtLeast (tcb_of report offset) min)
  unfolding validate_tcb_at
  validate_tcb_at-Decides name offset min h =
      rw (le_at-in_range {E = Reason} report offset 8 (omega arith))
        (ensure-Decides _ _ (meets_minimum_iff _ min))

  pub validate_minimum_tcb-Decides :
      (minimum : Option TcbParts)
      → Decides (validate_minimum_tcb report minimum) (IfSet minimum (TcbsAtLeast report))
  unfolding validate_minimum_tcb
  validate_minimum_tcb-Decides minimum = if_set-Decides minimum _ (λ min.
      Decides-map (λ (a, (b, c)). record { reported = a; current = b; committed = c })
        (λ r. (r.reported, (r.current, r.committed)))
        (>>-Decides (validate_tcb_at-Decides _ _ min (omega arith)) (
          >>-Decides (validate_tcb_at-Decides _ _ min (omega arith))
            (validate_tcb_at-Decides _ _ min (omega arith)))))

  pub validate_minimum_launch_tcb-Decides :
      (minimum : Option TcbParts)
      → Decides
          (validate_minimum_launch_tcb report minimum)
          (IfSet minimum (TcbAtLeast (tcb_of report launch_tcb_offset)))
  unfolding validate_minimum_launch_tcb
  validate_minimum_launch_tcb-Decides minimum =
      if_set-Decides minimum _ (λ min. validate_tcb_at-Decides _ _ min (omega arith))

  pub validate_report_platform_info-Decides :
      (required : Option SnpPlatformInfo)
      → Decides
          (validate_report_platform_info report required)
          (IfSet required (PlatformField (word_of report platform_info_offset 8)))
  unfolding validate_report_platform_info
  validate_report_platform_info-Decides required = if_set-Decides required _ (λ info.
      rw (le_at-in_range {E = Reason} report platform_info_offset 8 (omega arith)) (
        Decides-map (λ ((a, b), c). record { bit_6 = a; high_bits = b; allowed = c })
          (λ r. ((r.bit_6, r.high_bits), r.allowed))
          (>>-Decides (ensure-Decides _ _ (reserved_clear_iff _))
            (validate_platform_info-Decides _ info))))

  pub validate_vmpl-Decides :
      (expected : Option ℕ)
      → Decides (validate_vmpl report expected) (VmplField (word_of report vmpl_offset 4) expected)
  unfolding validate_vmpl
  validate_vmpl-Decides expected =
      rw (le_at-in_range {E = Reason} report vmpl_offset 4 (omega arith)) (
        Decides-map (λ (a, b). record { range = a; expected_value = b })
          (λ r. (r.range, r.expected_value))
          (>>-Decides (reject_if-Decides _ _ (ltb_iff _ _))
            (if_set-Decides expected _ (λ e. ensure-Decides _ _ (==_iff _ e)))))

  pub validate_field-Decides :
      (name : String) (offset size : ℕ) (expected : Option (List ℕ))
      → offset + size ≤ report_size
      → Decides
          (validate_field report name offset size expected)
          (IfSet expected (λ value. bytes_of report offset size ≡ value))
  unfolding validate_field
  validate_field-Decides name offset size expected h = if_set-Decides expected _ (λ value.
      rw (slice-in_range {E = Reason} report offset size (omega arith))
        (ensure-Decides _ _ (bytes_eq_iff _ value)))
