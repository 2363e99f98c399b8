-- ===== src/Attestation/CertChain/Attributes.antt =====
-- Which names pass the checks of their attributes.
use Prim.Native.String.{String}
use text.Mathlib.TextEquality.{eq_iff}
use text.Mathlib.Text.{◌==◌ as str_eq}
use tinfoil_rs.Prelude.{◌≡◌, inr, refl, Option, none, some}
use tinfoil_rs.Outcome.{Outcome, ok, err, ◌>>=◌, ensure, ok_or}
use tinfoil_rs.Decides.{Decides, ensure-Decides, >>-Decides, Decides-map, Has}
use tinfoil_rs.Attestation.Reason.{Reason}
use tinfoil_rs.Attestation.Report.{Attested}
use tinfoil_rs.Attestation.X509.{
  X509, Tag, utf8_string, printable_string, ia5_string, teletex_string, other_tag,
}
use tinfoil_rs.Attestation.CertChain.{find_attribute}
use tinfoil_rs.Attestation.CertChain.Names.{
  map_err, decode_tagged, decode_directory_string, extract_name_attr, require_name_attr,
  validate_amd_location, extract_cn, validate_cn,
}

-- A text that was parsed or not, against the expected one.
parsed_Decides :
    (o : Option String) (r : Reason) (f : Reason → Reason) (expected : String) (e : String → Reason)
    → Decides
        (map_err f (ok_or o r) >>= λ value. ensure (str_eq value expected) (e value))
        (Has o λ text. text ≡ expected)
parsed_Decides none r f expected e = inr (f r, refl, λ h. h)
parsed_Decides (some text) r f expected e = ensure-Decides _ _ (eq_iff text expected)

map_err_id : (m : Attested String) → map_err (λ e. e) m ≡ m
map_err_id (ok a) = refl
map_err_id (err e) = refl
map_err_id Outcome.panic = refl

module _ (x509 : X509) where
  open x509 use {
    Name, Value, attributes, tag, string_of, oid_c, oid_st, oid_l, oid_o, oid_ou, oid_cn,
  }

  -- The text of a value, of one of the four tags.
  abbrev pub text_of : Tag → Value → Option String
  text_of utf8_string value = string_of utf8_string value
  text_of printable_string value = string_of printable_string value
  text_of ia5_string value = string_of ia5_string value
  text_of teletex_string value = string_of teletex_string value
  text_of other_tag value = none

  decode_tagged-Decides :
      (t : Tag) (value : Value) (f : Reason → Reason) (expected : String) (e : String → Reason)
      → Decides
          (map_err f (decode_tagged x509 t value) >>= λ text.
            ensure (str_eq text expected) (e text))
          (Has (text_of t value) λ text. text ≡ expected)
  unfolding decode_tagged
  decode_tagged-Decides utf8_string value f expected e = parsed_Decides _ _ f expected e
  decode_tagged-Decides printable_string value f expected e = parsed_Decides _ _ f expected e
  decode_tagged-Decides ia5_string value f expected e = parsed_Decides _ _ f expected e
  decode_tagged-Decides teletex_string value f expected e = parsed_Decides _ _ f expected e
  decode_tagged-Decides other_tag value f expected e = inr (_, refl, λ h. h)

  -- The first attribute with an object identifier is a text.
  abbrev pub HasAttribute : Name → String → String → Type 0
  HasAttribute name oid expected =
      Has (find_attribute oid (attributes name))
        λ value. Has (text_of (tag value) value) λ text. text ≡ expected

  attribute_Decides :
      (o : Option Value) (r : Reason) (f : Reason → Reason) (expected : String)
      (e : String → Reason)
      → Decides
          (ok_or (elim o [ none ↦ none | some value ↦ some (decode_directory_string x509 value) ]) r
            >>= λ decoded. map_err f decoded >>= λ text. ensure (str_eq text expected) (e text))
          (Has o λ value. Has (text_of (tag value) value) λ text. text ≡ expected)
  unfolding decode_directory_string
  attribute_Decides none r f expected e = inr (r, refl, λ h. h)
  attribute_Decides (some value) r f expected e =
      decode_tagged-Decides (tag value) value f expected e

  pub require_name_attr-Decides :
      (name : Name) (oid cert_name label expected : String)
      → Decides
          (require_name_attr x509 name oid cert_name label expected)
          (HasAttribute name oid expected)
  unfolding require_name_attr extract_name_attr
  require_name_attr-Decides name oid cert_name label expected =
      attribute_Decides (find_attribute oid (attributes name)) _ _ expected _

  cn_Decides :
      (o : Option Value) (r : Reason) (expected : String) (e : String → Reason)
      → Decides
          (ok_or (elim o [ none ↦ none | some value ↦ some (decode_directory_string x509 value) ]) r
            >>= (λ decoded. decoded)
            >>= λ text. ensure (str_eq text expected) (e text))
          (Has o λ value. Has (text_of (tag value) value) λ text. text ≡ expected)
  unfolding decode_directory_string
  cn_Decides none r expected e = inr (r, refl, λ h. h)
  cn_Decides (some value) r expected e =
      rw (map_err_id (decode_tagged x509 (tag value) value)) at
        (decode_tagged-Decides (tag value) value (λ x. x) expected e)

  pub validate_cn-Decides :
      (name : Name) (cert_name expected : String)
      → Decides (validate_cn x509 name cert_name expected) (HasAttribute name oid_cn expected)
  unfolding validate_cn extract_cn extract_name_attr
  validate_cn-Decides name cert_name expected =
      cn_Decides (find_attribute oid_cn (attributes name)) _ expected _

  -- AMD's location.
  pub record IsAmdLocation (name : Name) : Type 0 where
    pub country : HasAttribute name oid_c "US"
    pub state : HasAttribute name oid_st "CA"
    pub locality : HasAttribute name oid_l "Santa Clara"
    pub organization : HasAttribute name oid_o "Advanced Micro Devices"
    pub organizational_unit : HasAttribute name oid_ou "Engineering"

  pub validate_amd_location-Decides :
      (name : Name) (cert_name : String)
      → Decides (validate_amd_location x509 name cert_name) (IsAmdLocation name)
  unfolding validate_amd_location
  validate_amd_location-Decides name cert_name =
      Decides-map
        (λ (a, (b, (c, (d, e)))). record {
          country = a;
          state = b;
          locality = c;
          organization = d;
          organizational_unit = e;
        })
        (λ l. (l.country, (l.state, (l.locality, (l.organization, l.organizational_unit)))))
        (>>-Decides (require_name_attr-Decides name _ cert_name _ _) (
          >>-Decides (require_name_attr-Decides name _ cert_name _ _) (
            >>-Decides (require_name_attr-Decides name _ cert_name _ _) (
              >>-Decides (require_name_attr-Decides name _ cert_name _ _)
                (require_name_attr-Decides name _ cert_name _ _)))))
