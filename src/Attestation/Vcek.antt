-- ===== src/Attestation/Vcek.antt =====
-- The checks of the VCEK certificate against the report, the first part of
-- src/verifier/attestation/sev/cert_chain.rs. Errors of parsers are told apart by what is parsed.
pub mod Match
use Prim.Native.String.{String}
use text.Mathlib.Text.{◌==◌ as str_eq}
use tinfoil_rs.Prelude.{ℕ, Bool, List, [], ◌∷◌, Option, none, some, ◌==◌, if◌then◌else◌, length}
use tinfoil_rs.Outcome.{ok, err, panic, ◌>>=◌, ◌>>◌, ensure, reject_if, ok_or}
use tinfoil_rs.Word.{from_le_bytes}
use tinfoil_rs.Attestation.Types.{tcb_from_u64}
use tinfoil_rs.Attestation.Constants.{
  oid_bl_spl, oid_tee_spl, oid_snp_spl, oid_ucode_spl, oid_hwid, oid_product_name, oid_csp_id,
}
use tinfoil_rs.Attestation.Reason.{
  message, der_integer_too_long, spl_mismatch, product_name_mismatch, hwid_length, hwid_mismatch,
  parse_failed, missing_in_vcek,
}
use tinfoil_rs.Attestation.Report.{Attested}
use tinfoil_rs.Attestation.Bytes.{any_non_zero, bytes_eq}
use tinfoil_rs.Attestation.X509.{X509}

-- The value of the first extension with an object identifier.
unfoldable pub find_extension : String → List (String × List ℕ) → Option (List ℕ)
find_extension oid [] = none
find_extension oid ((id, value) ∷ rest) =
    if str_eq id oid then some value else find_extension oid rest

-- `u64::from_le_bytes(bytes.try_into().unwrap())`, which panics unless there are eight bytes.
unfoldable pub u64_of_slice : List ℕ → Attested ℕ
u64_of_slice bytes = if length bytes == 8 then ok (from_le_bytes bytes) else panic

-- The value of an integer's bytes: none or one.
unfoldable pub single_byte : List ℕ → Attested ℕ
single_byte [] = ok 0
single_byte (b ∷ []) = ok b
single_byte (b ∷ c ∷ rest) = err (der_integer_too_long (b ∷ c ∷ rest))

module _ (x509 : X509) where
  open x509 use {Certificate, from_der, extensions, uint_bytes, ia5_text}

  unfoldable pub decode_der_integer : List ℕ → Attested ℕ
  unfolding single_byte
  decode_der_integer der = do
    bytes ← ok_or (uint_bytes der) (parse_failed "DER INTEGER")
    single_byte bytes

  -- Of a certificate without extensions, no value.
  unfoldable pub certificate_extension : Certificate → String → Option (List ℕ)
  certificate_extension cert oid = elim (extensions cert) [
    | none ↦ none
    | some list ↦ find_extension oid list
  ]

  unfoldable pub get_vcek_extension : List ℕ → String → Attested (Option (List ℕ))
  get_vcek_extension vcek_der target_oid = do
    cert ← ok_or (from_der vcek_der) (parse_failed "VCEK")
    ok (certificate_extension cert target_oid)

  unfoldable pub validate_vcek_hwid : List ℕ → List ℕ → Bool → Attested (Unit {0})
  validate_vcek_hwid vcek_der chip_id mask_chip_key =
      if mask_chip_key
      then reject_if (any_non_zero chip_id) (message "maskChipKey is set but CHIP_ID is not zeroed")
      else do
        extension ← get_vcek_extension vcek_der oid_hwid
        hwid ← ok_or extension (missing_in_vcek "HWID")
        ensure (length hwid == 64) (hwid_length (length hwid))
        ensure (bytes_eq hwid chip_id) (hwid_mismatch chip_id hwid)

  -- One security patch level of the certificate against the report's.
  unfoldable pub validate_spl : List ℕ → String → String → ℕ → Attested (Unit {0})
  validate_spl vcek_der name oid spl = do
    extension ← get_vcek_extension vcek_der oid
    der ← ok_or extension (missing_in_vcek name)
    value ← decode_der_integer der
    ensure (value == spl) (spl_mismatch name value spl)

  unfoldable pub validate_product_name : List ℕ → Attested (Unit {0})
  validate_product_name vcek_der = do
    extension ← get_vcek_extension vcek_der oid_product_name
    der ← ok_or extension (missing_in_vcek "PRODUCT_NAME")
    product_name ← ok_or (ia5_text der) (parse_failed "PRODUCT_NAME")
    ensure (str_eq product_name "Genoa") (product_name_mismatch product_name)

  unfoldable pub validate_no_csp_id : List ℕ → Attested (Unit {0})
  validate_no_csp_id vcek_der = do
    extension ← get_vcek_extension vcek_der oid_csp_id
    elim extension [
      | none ↦ ok tt
      | some _ ↦ err (message "VCEK contains unexpected CSP_ID extension")
    ]

  unfoldable pub validate_vcek_extensions : List ℕ → List ℕ → Attested (Unit {0})
  validate_vcek_extensions vcek_der reported_tcb = do
    tcb_val ← u64_of_slice reported_tcb
    let tcb = tcb_from_u64 tcb_val
    validate_spl vcek_der "BL_SPL" oid_bl_spl tcb.bl_spl
    validate_spl vcek_der "TEE_SPL" oid_tee_spl tcb.tee_spl
    validate_spl vcek_der "SNP_SPL" oid_snp_spl tcb.snp_spl
    validate_spl vcek_der "UCODE_SPL" oid_ucode_spl tcb.ucode_spl
    validate_product_name vcek_der
    validate_no_csp_id vcek_der
