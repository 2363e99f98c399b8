-- ===== src/Attestation/Constants.antt =====
-- The offsets and sizes of src/verifier/attestation/constants.rs. Object identifiers are their dotted
-- texts.
use Prim.Native.String.{String}
use tinfoil_rs.Prelude.{ℕ, ◌^◌}

abbrev pub report_size : ℕ
report_size = 1184

abbrev pub guest_svn_offset : ℕ
guest_svn_offset = 0x04

abbrev pub policy_offset : ℕ
policy_offset = 8

abbrev pub family_id_offset : ℕ
family_id_offset = 0x10

abbrev pub family_id_size : ℕ
family_id_size = 16

abbrev pub image_id_offset : ℕ
image_id_offset = 0x20

abbrev pub image_id_size : ℕ
image_id_size = 16

abbrev pub vmpl_offset : ℕ
vmpl_offset = 0x30

abbrev pub signature_algo_offset : ℕ
signature_algo_offset = 0x34

abbrev pub signature_algo_ecdsa_p384_sha384 : ℕ
signature_algo_ecdsa_p384_sha384 = 1

abbrev pub current_tcb_offset : ℕ
current_tcb_offset = 0x38

abbrev pub platform_info_offset : ℕ
platform_info_offset = 0x40

abbrev pub signer_info_offset : ℕ
signer_info_offset = 0x48

abbrev pub report_data_offset : ℕ
report_data_offset = 80

abbrev pub report_data_size : ℕ
report_data_size = 64

abbrev pub host_data_offset : ℕ
host_data_offset = 0xC0

abbrev pub host_data_size : ℕ
host_data_size = 32

abbrev pub measurement_offset : ℕ
measurement_offset = 144

abbrev pub measurement_size : ℕ
measurement_size = 48

abbrev pub report_id_offset : ℕ
report_id_offset = 0x140

abbrev pub report_id_size : ℕ
report_id_size = 32

abbrev pub report_id_ma_offset : ℕ
report_id_ma_offset = 0x160

abbrev pub report_id_ma_size : ℕ
report_id_ma_size = 32

abbrev pub reported_tcb_offset : ℕ
reported_tcb_offset = 384

abbrev pub chip_id_offset : ℕ
chip_id_offset = 416

abbrev pub chip_id_size : ℕ
chip_id_size = 64

abbrev pub committed_tcb_offset : ℕ
committed_tcb_offset = 0x1E0

abbrev pub committed_build_offset : ℕ
committed_build_offset = 0x1EC

abbrev pub committed_minor_offset : ℕ
committed_minor_offset = 0x1ED

abbrev pub committed_major_offset : ℕ
committed_major_offset = 0x1EE

abbrev pub current_build_offset : ℕ
current_build_offset = 488

abbrev pub current_minor_offset : ℕ
current_minor_offset = 489

abbrev pub current_major_offset : ℕ
current_major_offset = 490

abbrev pub launch_tcb_offset : ℕ
launch_tcb_offset = 0x1F0

abbrev pub signature_offset : ℕ
signature_offset = 672

abbrev pub signature_size : ℕ
signature_size = 512

abbrev pub ecdsa_p384_signature_size : ℕ
ecdsa_p384_signature_size = 144

abbrev pub sig_component_size : ℕ
sig_component_size = 72

abbrev pub sig_value_size : ℕ
sig_value_size = 48

abbrev pub policy_reserved_bit_17 : ℕ
policy_reserved_bit_17 = 2 ^ 17

abbrev pub oid_bl_spl : String
oid_bl_spl = "1.3.6.1.4.1.3704.1.3.1"

abbrev pub oid_tee_spl : String
oid_tee_spl = "1.3.6.1.4.1.3704.1.3.2"

abbrev pub oid_snp_spl : String
oid_snp_spl = "1.3.6.1.4.1.3704.1.3.3"

abbrev pub oid_ucode_spl : String
oid_ucode_spl = "1.3.6.1.4.1.3704.1.3.8"

abbrev pub oid_hwid : String
oid_hwid = "1.3.6.1.4.1.3704.1.4"

abbrev pub oid_product_name : String
oid_product_name = "1.3.6.1.4.1.3704.1.2"

abbrev pub oid_csp_id : String
oid_csp_id = "1.3.6.1.4.1.3704.1.5"

abbrev pub amd_ark_genoa_spki_fingerprint : String
amd_ark_genoa_spki_fingerprint = "429a69c9422aa258ee4d8db5fcda9c6470ef15f8cd5a9cebd6cbc7d90b863831"
