-- ===== src/Attestation/CertChain/Names.antt =====
-- The names in the certificates: `decode_directory_string`, `extract_name_attr`,
-- `require_name_attr`, `validate_amd_location` and `extract_cn`.
use Prim.Native.String.{String}
use text.Mathlib.Text.{◌==◌ as str_eq}
use tinfoil_rs.Prelude.{Option, none, some}
use tinfoil_rs.Outcome.{ok, err, panic, ◌>>=◌, ◌>>◌, ensure, ok_or}
use tinfoil_rs.Attestation.Reason.{
  Reason, message, parse_failed, unexpected_cn, missing_attribute, invalid_attribute,
  attribute_mismatch,
}
use tinfoil_rs.Attestation.Report.{Attested}
use tinfoil_rs.Attestation.X509.{
  X509, Tag, utf8_string, printable_string, ia5_string, teletex_string, other_tag,
}
use tinfoil_rs.Attestation.CertChain.{find_attribute}

-- `map_err`
abbrev pub map_err : {A : Type 0} → (Reason → Reason) → Attested A → Attested A
map_err f (ok a) = ok a
map_err f (err e) = err (f e)
map_err f panic = panic

module _ (x509 : X509) where
  open x509 use {
    Name, Value, attributes, tag, string_of, oid_c, oid_st, oid_l, oid_o, oid_ou, oid_cn,
  }

  unfoldable pub decode_tagged : Tag → Value → Attested String
  decode_tagged utf8_string value = ok_or (string_of utf8_string value) (parse_failed "UTF8String")
  decode_tagged printable_string value =
      ok_or (string_of printable_string value) (parse_failed "PrintableString")
  decode_tagged ia5_string value = ok_or (string_of ia5_string value) (parse_failed "IA5String")
  decode_tagged teletex_string value =
      ok_or (string_of teletex_string value) (parse_failed "TeletexString")
  decode_tagged other_tag value = err (message "Unsupported X.509 name attribute tag")

  unfoldable pub decode_directory_string : Value → Attested String
  unfolding decode_tagged
  decode_directory_string value = decode_tagged (tag value) value

  unfoldable pub extract_name_attr : Name → String → Option (Attested String)
  extract_name_attr name oid = elim (find_attribute oid (attributes name)) [
    | none ↦ none
    | some value ↦ some (decode_directory_string value)
  ]

  unfoldable pub require_name_attr : Name → String → String → String → String → Attested (Unit {0})
  require_name_attr name oid cert_name attr_label expected = do
    decoded ← ok_or (extract_name_attr name oid) (missing_attribute cert_name attr_label)
    value ← map_err (invalid_attribute cert_name attr_label) decoded
    ensure (str_eq value expected) (attribute_mismatch cert_name attr_label expected value)

  unfoldable pub validate_amd_location : Name → String → Attested (Unit {0})
  validate_amd_location name cert_name = do
    require_name_attr name oid_c cert_name "country" "US"
    require_name_attr name oid_st cert_name "state" "CA"
    require_name_attr name oid_l cert_name "locality" "Santa Clara"
    require_name_attr name oid_o cert_name "organization" "Advanced Micro Devices"
    require_name_attr name oid_ou cert_name "organizational unit" "Engineering"

  unfoldable pub extract_cn : Name → Attested String
  extract_cn name = do
    decoded ← ok_or (extract_name_attr name oid_cn) (message "No CN found in certificate")
    decoded

  -- The comparison of a name's CN.
  unfoldable pub validate_cn : Name → String → String → Attested (Unit {0})
  validate_cn name cert_name expected = do
    cn ← extract_cn name
    ensure (str_eq cn expected) (unexpected_cn cert_name cn expected)
