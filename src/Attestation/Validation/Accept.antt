-- ===== src/Attestation/Validation/Accept.antt =====
-- Which reports the whole validation accepts.
use tinfoil_rs.Prelude.{ℕ, ◌≤◌, ◌≡◌, false, List, Option, arith, length}
use tinfoil_rs.Decides.{
  Decides, DecidesTo, ok-Decides, reject_if-Decides, >>-Decides, >>=-Decides, Decides-map, IfSet,
}
use tinfoil_rs.Attestation.Types.{ValidationOptions, flag}
use tinfoil_rs.Attestation.Constants.{
  report_size, vmpl_offset, signature_algo_offset, policy_offset, guest_svn_offset,
  signer_info_offset, launch_tcb_offset, platform_info_offset, report_data_offset, report_data_size,
  host_data_offset, host_data_size, image_id_offset, image_id_size, family_id_offset,
  family_id_size, report_id_offset, report_id_size, report_id_ma_offset, report_id_ma_size,
  measurement_offset, measurement_size, chip_id_offset, chip_id_size,
}
use tinfoil_rs.Attestation.Bytes.{bytes_of, word_of}
use tinfoil_rs.Attestation.Report.Structure.{
  MbzFields, validate_mbz_fields-Decides, SignerAllowed, validate_signer_info-Decides,
}
use tinfoil_rs.Attestation.Validation.{
  validate_field_equalities, validate_report_fields_with_options,
}
use tinfoil_rs.Attestation.Validation.Fields.{
  validate_committed_tcb-Decides, validate_signature_algo-Decides, validate_guest_policy-Decides,
  validate_guest_svn-Decides, validate_firmware-Decides, validate_minimum_tcb-Decides,
  validate_minimum_launch_tcb-Decides, validate_report_platform_info-Decides, validate_vmpl-Decides,
  validate_field-Decides,
}
use tinfoil_rs.Attestation.Validation.Conditions.{
  NotProvisional, BuildAtLeast, VersionAtLeast, PolicyField, PlatformField, VmplField, TcbsAtLeast,
  TcbAtLeast, tcb_of,
}

-- A field of the report has the value that is asked for, if one is.
abbrev pub FieldIs : List ℕ → ℕ → ℕ → Option (List ℕ) → Type 0
FieldIs report offset size expected = IfSet expected (λ value. bytes_of report offset size ≡ value)

pub record FieldsEqual (report : List ℕ) (options : ValidationOptions) : Type 0 where
  pub report_data : FieldIs report report_data_offset report_data_size options.report_data
  pub host_data : FieldIs report host_data_offset host_data_size options.host_data
  pub image_id : FieldIs report image_id_offset image_id_size options.image_id
  pub family_id : FieldIs report family_id_offset family_id_size options.family_id
  pub report_id : FieldIs report report_id_offset report_id_size options.report_id
  pub report_id_ma : FieldIs report report_id_ma_offset report_id_ma_size options.report_id_ma
  pub measurement : FieldIs report measurement_offset measurement_size options.measurement
  pub chip_id : FieldIs report chip_id_offset chip_id_size options.chip_id

-- What the options ask of a report, said of the numbers that its bytes hold.
pub record IsAcceptable (report : List ℕ) (options : ValidationOptions) : Type 0 where
  pub reserved : MbzFields report
  pub signature_algo : word_of report signature_algo_offset 4 ≡ 1
  pub signer : SignerAllowed (word_of report signer_info_offset 4)
  pub no_provisional_option : options.permit_provisional_firmware ≡ false
  pub not_provisional : NotProvisional report
  pub policy : PolicyField (word_of report policy_offset 8) options.guest_policy
  pub guest_svn : IfSet options.minimum_guest_svn (λ min. min ≤ word_of report guest_svn_offset 4)
  pub build : IfSet options.minimum_build (BuildAtLeast report)
  pub version : IfSet options.minimum_version (VersionAtLeast report)
  pub tcb : IfSet options.minimum_tcb (TcbsAtLeast report)
  pub launch_tcb : IfSet options.minimum_launch_tcb (TcbAtLeast (tcb_of report launch_tcb_offset))
  pub platform : IfSet options.platform_info (PlatformField (word_of report platform_info_offset 8))
  pub vmpl : VmplField (word_of report vmpl_offset 4) options.vmpl
  pub fields : FieldsEqual report options

module _ (report : List ℕ) (fits : report_size ≤ length report) (options : ValidationOptions) where
  validate_field_equalities-Decides :
      Decides (validate_field_equalities report options) (FieldsEqual report options)
  unfolding validate_field_equalities
  validate_field_equalities-Decides =
      Decides-map
        (λ (a, (b, (c, (d, (e, (f, (g, h))))))). record {
          report_data = a;
          host_data = b;
          image_id = c;
          family_id = d;
          report_id = e;
          report_id_ma = f;
          measurement = g;
          chip_id = h;
        })
        (λ r. (
          r.report_data,
          (
            r.host_data,
            (
              r.image_id,
              (r.family_id, (r.report_id, (r.report_id_ma, (r.measurement, r.chip_id)))),
            ),
          ),
        ))
        (>>-Decides (validate_field-Decides report fits _ _ _ options.report_data (omega arith)) (
          >>-Decides (validate_field-Decides report fits _ _ _ options.host_data (omega arith)) (
            >>-Decides (validate_field-Decides report fits _ _ _ options.image_id (omega arith)) (
              >>-Decides (validate_field-Decides report fits _ _ _ options.family_id (omega arith))
                (>>-Decides
                  (validate_field-Decides report fits _ _ _ options.report_id (omega arith))
                  (>>-Decides
                    (validate_field-Decides report fits _ _ _ options.report_id_ma (omega arith))
                    (>>-Decides
                      (validate_field-Decides report fits _ _ _ options.measurement (omega arith))
                      (validate_field-Decides report fits _ _ _ options.chip_id
                        (omega arith)))))))))

  -- On a report of full size the validation answers with bit 1 of the signer information exactly
  -- where the report is acceptable under the options, and with an error, never a panic, elsewhere.
  pub validate_report_fields-Decides :
      DecidesTo
        (validate_report_fields_with_options report options)
        (flag (word_of report signer_info_offset 4) 1)
        (IsAcceptable report options)
  unfolding validate_report_fields_with_options
  validate_report_fields-Decides =
      Decides-map
        (λ (a, (b, (c, (d, (e, (f, (g, ((h, i), (j, (k, (l, (m, (n, _))))))))))))). record {
          reserved = a;
          signature_algo = b;
          signer = c;
          no_provisional_option = d;
          not_provisional = e;
          policy = f;
          guest_svn = g;
          build = h;
          version = i;
          tcb = j;
          launch_tcb = k;
          platform = l;
          vmpl = m;
          fields = n;
        })
        (λ r. (
          r.reserved,
          (
            r.signature_algo,
            (
              r.signer,
              (
                r.no_provisional_option,
                (
                  r.not_provisional,
                  (
                    r.policy,
                    (
                      r.guest_svn,
                      (
                        (r.build, r.version),
                        (r.tcb, (r.launch_tcb, (r.platform, (r.vmpl, (r.fields, tt))))),
                      ),
                    ),
                  ),
                ),
              ),
            ),
          ),
        ))
        (>>-Decides (validate_mbz_fields-Decides report fits) (
          >>-Decides (validate_signature_algo-Decides report fits) (
            >>=-Decides _ _ (validate_signer_info-Decides report fits) (
              >>-Decides (reject_if-Decides options.permit_provisional_firmware _ (λ h. h, λ h. h))
                (>>-Decides (validate_committed_tcb-Decides report fits) (
                  >>-Decides (validate_guest_policy-Decides report fits options.guest_policy) (
                    >>-Decides (validate_guest_svn-Decides report fits options.minimum_guest_svn) (
                      >>-Decides
                        (validate_firmware-Decides report fits options.minimum_build
                          options.minimum_version)
                        (>>-Decides (validate_minimum_tcb-Decides report fits options.minimum_tcb) (
                          >>-Decides
                            (validate_minimum_launch_tcb-Decides report fits
                              options.minimum_launch_tcb)
                            (>>-Decides
                              (validate_report_platform_info-Decides report fits
                                options.platform_info)
                              (>>-Decides (validate_vmpl-Decides report fits options.vmpl) (
                                >>-Decides validate_field_equalities-Decides
                                  (ok-Decides _))))))))))))))
