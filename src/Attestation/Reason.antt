-- ===== src/Attestation/Reason.antt =====
-- What the messages of `Error::AttestationVerification` say: a constructor for each message that
-- prints values, with those values, and `message` for the fixed texts.
use Prim.Native.String.{String}
use tinfoil_rs.Prelude.{ℕ, List}
use tinfoil_rs.Attestation.Types.{TcbParts}

pub data Reason : Type 0 where
  message : String → Reason
  -- Base64 and gzip.
  base64_failed gzip_failed : Reason
  exceeds_maximum_size : ℕ → Reason
  -- The report's structure.
  report_too_small : ℕ → ℕ → Reason
  unsupported_version : ℕ → Reason
  mbz_non_zero : String → ℕ → ℕ → Reason
  tcb_reserved_bits : String → ℕ → Reason
  signer_info_reserved : ℕ → Reason
  signing_key_not_vcek : ℕ → Reason
  -- The report's fields.
  provisional_tcb : ℕ → ℕ → Reason
  provisional_version : String → ℕ → ℕ → Reason
  abi_version : ℕ → ℕ → ℕ → ℕ → Reason
  vmpl_out_of_range fetch_status : ℕ → Reason
  vmpl_mismatch : ℕ → ℕ → Reason
  signature_algo : ℕ → Reason
  policy_high_bits : ℕ → Reason
  guest_svn_below : ℕ → ℕ → Reason
  build_below : String → ℕ → ℕ → Reason
  version_below : String → ℕ → ℕ → ℕ → ℕ → Reason
  tcb_below : String → TcbParts → TcbParts → Reason
  platform_info_reserved : ℕ → Reason
  field_mismatch : String → List ℕ → List ℕ → Reason
  -- The VCEK certificate.
  der_integer_too_long : List ℕ → Reason
  spl_mismatch : String → ℕ → ℕ → Reason
  product_name_mismatch : String → Reason
  hwid_length : ℕ → Reason
  hwid_mismatch : List ℕ → List ℕ → Reason
  not_yet_valid expired : String → ℕ → ℕ → Reason
  about_certificate : String → String → Reason
  unexpected_cn : String → String → String → Reason
  parse_failed missing_in_vcek : String → Reason
  -- A fixed text about what the first string names, and with a value that it prints.
  printed : String → String → Reason
  missing_attribute : String → String → Reason
  invalid_attribute : String → String → Reason → Reason
  attribute_mismatch : String → String → String → String → Reason
  curve_mismatch verification_failed : String → Reason
