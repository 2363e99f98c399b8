-- ===== src/Attestation/Sev/Tests.antt =====
-- A chain of three certificates over small stand-ins for the third-party parsers, an attestation
-- that is verified with it, and the theorems at these.
use Prim.Native.String.{String}
use tinfoil_rs.Prelude.{
  ℕ, ◌≡◌, refl, true, false, List, [], ◌∷◌, Option, none, some, ◌==◌, ==_iff, length, replicate,
  if◌then◌else◌,
}
use tinfoil_rs.Outcome.{ok}
use tinfoil_rs.Decides.{Decides, Has}
use tinfoil_rs.Answers.{Answers}
use tinfoil_rs.Word.{from_le_bytes}
use tinfoil_rs.Attestation.Types.{
  default_options, sev_guest_v2, tcb_from_u64, policy_from_u64, platform_info_from_u64,
  meets_minimum,
}
use tinfoil_rs.Attestation.Constants.{
  oid_bl_spl, oid_tee_spl, oid_snp_spl, oid_ucode_spl, oid_hwid, oid_product_name,
  amd_ark_genoa_spki_fingerprint,
}
use tinfoil_rs.Attestation.Bytes.{slice, le_at, u8_at, any_non_zero, bytes_eq}
use tinfoil_rs.Attestation.Report.{
  decode_report, validate_report_structure, validate_mbz_fields, validate_mbz_ranges,
  validate_mbz_bytes, validate_mbz_tcbs, validate_tcb_mbz, validate_signer_info,
}
use tinfoil_rs.Attestation.Validation.{
  validate_report_fields_with_options, validate_signature_algo, validate_committed_tcb,
  same_version_byte, validate_guest_policy, validate_policy, validate_guest_svn, validate_firmware,
  validate_build, validate_version, validate_minimum_tcb, validate_minimum_launch_tcb,
  validate_tcb_at, validate_report_platform_info, validate_platform_info, validate_vmpl,
  validate_field_equalities, validate_field,
}
use tinfoil_rs.Attestation.Tests.{bytes_from, good_report, good_report-size}
use tinfoil_rs.Attestation.X509.{X509, utf8_string}
use tinfoil_rs.Attestation.Vcek.{
  find_extension, single_byte, decode_der_integer, certificate_extension, get_vcek_extension,
  validate_vcek_hwid, validate_spl, validate_product_name, validate_no_csp_id,
  validate_vcek_extensions, u64_of_slice,
}
use tinfoil_rs.Attestation.Vcek.Match.{VcekMatches, validate_vcek_extensions-Decides}
use tinfoil_rs.Attestation.CertChain.{
  ClockReadings, oid_ec_public_key, oid_secp384r1, oid_rsassa_pss, oid_mgf1, oid_sha_384, is_oid,
  find_value, find_attribute, parse_pem_chain, compute_spki_fingerprint, extract_pubkey_from_cert,
  extract_tbs_from_cert, validate_certificate_validity, check_basic_constraints,
  validate_basic_constraints, validate_signature_algorithm_consistency,
  parse_rsa_pss_sha384_salt_len, verify_rsa_pss_signature,
}
use tinfoil_rs.Attestation.CertChain.Names.{
  decode_tagged, decode_directory_string, extract_name_attr, require_name_attr,
  validate_amd_location, extract_cn, validate_cn,
}
use tinfoil_rs.Attestation.CertChain.Verify.{
  validate_vcek_format, first_two, validate_chain_format, validate_ark_fingerprint,
  validate_chain_names, verify_signed, verify_chain_signatures, verify_cert_chain_crypto,
}
use tinfoil_rs.Attestation.CertChain.Trusted.{ChainAccepted, verify_cert_chain_crypto-Decides}
use tinfoil_rs.Attestation.Signature.{
  parse_signature_components, verify_report_signature, IsReportSigned,
  verify_report_signature-Decides,
}
use tinfoil_rs.Attestation.Sev.{
  Surroundings, answered, verify_full_with_options, verify_with_vcek, validate_report_with_chain,
  fetch_vcek, vcek_of_answer, parsed_cache, extract_verification,
}
use tinfoil_rs.Attestation.Sev.Verified.{IsVerified, verify_full-Answers}

-- The certificates are ARK, ASK and VCEK, and their encodings start with a byte.
pub data Certificate : Type 0 where
  ark ask vcek : Certificate

abbrev certificate_of : List ℕ → Option Certificate
certificate_of [] = none
certificate_of (b ∷ bs) = if b == 0 then some ark else if b == 1 then some ask else some vcek

-- An extension's bytes are its value.
abbrev extensions_of : Certificate → Option (List (String × List ℕ))
extensions_of vcek = some (
    (oid_bl_spl, 7 ∷ [])
    ∷ (oid_tee_spl, [])
    ∷ (oid_snp_spl, 0xe ∷ [])
    ∷ (oid_ucode_spl, 0x48 ∷ [])
    ∷ (oid_product_name, 1 ∷ [])
    ∷ (oid_hwid, replicate 64 0)
    ∷ [])
extensions_of _ = none

-- A name is the number of its certificate, and its CN.
abbrev cn_of : ℕ → String
cn_of n = if n == 0 then "ARK-Genoa" else if n == 1 then "SEV-Genoa" else "SEV-VCEK"

abbrev pub toy : X509
toy = record {
  Certificate = Certificate;
  Name = ℕ;
  Value = String;
  Algorithm = ℕ;
  RsaPublicKey = ℕ;
  RsaSignature = List ℕ;
  from_der = certificate_of;
  is_v3 = λ _. true;
  key_algorithm = λ _. oid_ec_public_key;
  key_parameters = λ _. some oid_secp384r1;
  as_oid = λ value. some value;
  extensions = extensions_of;
  basic_constraints = λ c. elim c [ vcek ↦ some none | _ ↦ some (some true) ];
  not_before = λ _. 100;
  not_after = λ _. 200;
  issuer = λ c. elim c [ vcek ↦ 1 | _ ↦ 0 ];
  subject = λ c. elim c [ ark ↦ 0 | ask ↦ 1 | vcek ↦ 2 ];
  signature_algorithm = λ _. 1;
  tbs_signature = λ _. 1;
  signature_bytes = λ c. elim c [ vcek ↦ 1 ∷ [] | _ ↦ 0 ∷ [] ];
  public_key = λ _. [];
  spki_der = λ c. elim c [ ark ↦ some (0 ∷ []) | ask ↦ some (1 ∷ []) | vcek ↦ some (2 ∷ []) ];
  tbs_der = λ _. some [];
  name_eq = λ m n. m == n;
  attributes = λ n.
      (("C", "US")
        ∷ ("ST", "CA")
        ∷ ("L", "Santa Clara")
        ∷ ("O", "Advanced Micro Devices")
        ∷ ("OU", "Engineering")
        ∷ [])
      ∷ (("CN", cn_of n) ∷ [])
      ∷ [];
  tag = λ _. utf8_string;
  string_of = λ _ value. some value;
  algorithm_eq = λ a b. a == b;
  algorithm_oid = λ _. oid_rsassa_pss;
  algorithm_parameters = λ _. some "";
  to_der = λ _. some [];
  pss_params = λ _. some (record {
    hash = oid_sha_384;
    mask_gen = oid_mgf1;
    mask_gen_hash = some oid_sha_384;
    salt_len = 48;
  });
  uint_bytes = λ bytes. some bytes;
  ia5_text = λ _. some "Genoa";
  parse_pems = λ _. some ((1 ∷ []) ∷ (0 ∷ []) ∷ []);
  sha256_hex = λ _. amd_ark_genoa_spki_fingerprint;
  rsa_public_key = λ der. elim der [ [] ↦ none | b ∷ _ ↦ some b ];
  rsa_signature = λ bytes. some bytes;
  rsa_pss_verify = λ key _ _ signature. elim signature [ [] ↦ false | b ∷ _ ↦ b == key ];
  EcdsaKey = ℕ;
  EcdsaSignature = List ℕ;
  ecdsa_signature = λ bytes. some bytes;
  ecdsa_key = λ _. some 0;
  ecdsa_verify = λ _ body signature. length body == 672;
  oid_c = "C";
  oid_st = "ST";
  oid_l = "L";
  oid_o = "O";
  oid_ou = "OU";
  oid_cn = "CN";
  name_eq_iff = ==_iff;
  algorithm_eq_iff = ==_iff;
}

abbrev readings : ClockReadings
readings = record { at_vcek = some 150; at_ask = some 151; at_ark = some 152 }

abbrev pub surroundings : Surroundings
surroundings = record {
  base64_decode = λ _. some [];
  inflate = λ _ _. some good_report;
  hex_encode = λ _. "hex";
  clock = readings;
  cached = λ _ _. none;
  kds = λ _. answered 200 (some (2 ∷ []));
  genoa_cert_chain = [];
}

accepts_chain : verify_cert_chain_crypto toy readings (2 ∷ []) [] ≡ ok tt
unfolding is_oid find_value find_attribute parse_pem_chain compute_spki_fingerprint
    extract_pubkey_from_cert extract_tbs_from_cert validate_certificate_validity
    check_basic_constraints validate_basic_constraints validate_signature_algorithm_consistency
    parse_rsa_pss_sha384_salt_len verify_rsa_pss_signature decode_tagged decode_directory_string
    extract_name_attr require_name_attr validate_amd_location extract_cn validate_cn
    validate_vcek_format first_two validate_chain_format validate_ark_fingerprint
    validate_chain_names verify_signed verify_chain_signatures verify_cert_chain_crypto
accepts_chain = refl

abbrev least_tcb : List ℕ
least_tcb = 7 ∷ 0 ∷ 0 ∷ 0 ∷ 0 ∷ 0 ∷ 0xe ∷ 0x48 ∷ []

matches : validate_vcek_extensions toy (2 ∷ []) least_tcb ≡ ok tt
unfolding find_extension single_byte decode_der_integer certificate_extension get_vcek_extension
    validate_spl validate_product_name validate_no_csp_id validate_vcek_extensions u64_of_slice
    from_le_bytes tcb_from_u64
matches = refl

pub accepts_attestation :
    verify_full_with_options toy surroundings "body" default_options
    ≡ ok (record {
      measurement = record { type_ = sev_guest_v2; registers = "hex" ∷ [] };
      tls_public_key_fp = "hex";
      hpke_public_key = some "hex";
    })
unfolding good_report bytes_from validate_report_fields_with_options validate_mbz_fields
    validate_mbz_ranges validate_mbz_bytes validate_mbz_tcbs validate_tcb_mbz validate_signer_info
    slice le_at u8_at any_non_zero bytes_eq from_le_bytes validate_signature_algo
    validate_committed_tcb same_version_byte validate_guest_policy validate_policy
    validate_guest_svn validate_firmware validate_build validate_version validate_minimum_tcb
    validate_minimum_launch_tcb validate_tcb_at validate_report_platform_info validate_platform_info
    validate_vmpl validate_field_equalities validate_field policy_from_u64 platform_info_from_u64
    tcb_from_u64 meets_minimum is_oid find_value find_attribute parse_pem_chain
    compute_spki_fingerprint extract_pubkey_from_cert extract_tbs_from_cert
    validate_certificate_validity check_basic_constraints validate_basic_constraints
    validate_signature_algorithm_consistency parse_rsa_pss_sha384_salt_len verify_rsa_pss_signature
    decode_tagged decode_directory_string extract_name_attr require_name_attr validate_amd_location
    extract_cn validate_cn validate_vcek_format first_two validate_chain_format
    validate_ark_fingerprint validate_chain_names verify_signed verify_chain_signatures
    verify_cert_chain_crypto validate_vcek_extensions find_extension single_byte decode_der_integer
    certificate_extension get_vcek_extension validate_spl validate_product_name validate_no_csp_id
    u64_of_slice verify_full_with_options verify_with_vcek validate_report_with_chain fetch_vcek
    vcek_of_answer parsed_cache extract_verification verify_report_signature
    parse_signature_components decode_report validate_report_structure validate_vcek_hwid
accepts_attestation = refl

verify_cert_chain_crypto-Decides_example :
    Decides
      (verify_cert_chain_crypto toy readings (2 ∷ []) [])
      (ChainAccepted toy readings (2 ∷ []) [])
verify_cert_chain_crypto-Decides_example = verify_cert_chain_crypto-Decides toy readings (2 ∷ []) []

validate_vcek_extensions-Decides_example :
    Decides (validate_vcek_extensions toy (2 ∷ []) least_tcb) (
      Has
        (certificate_of (2 ∷ []))
        λ cert. VcekMatches toy cert (tcb_from_u64 (from_le_bytes least_tcb)))
validate_vcek_extensions-Decides_example =
    validate_vcek_extensions-Decides toy (2 ∷ []) least_tcb refl

verify_report_signature-Decides_example :
    Decides
      (verify_report_signature toy good_report (2 ∷ []))
      (IsReportSigned toy good_report (2 ∷ []))
verify_report_signature-Decides_example =
    verify_report_signature-Decides toy good_report (2 ∷ []) good_report-size

verify_full-Answers_example :
    Answers
      (verify_full_with_options toy surroundings "body" default_options)
      (IsVerified toy surroundings "body" default_options)
verify_full-Answers_example = verify_full-Answers toy surroundings "body" default_options
