-- ===== src/Attestation/X509.antt =====
-- What the verifier uses of the third-party crates x509_cert, der, pem, rsa, p384 and sha2. A
-- parser answers nothing where the crate's answers an error. Object identifiers are their dotted
-- texts.
use Prim.Native.String.{String}
use tinfoil_rs.Prelude.{ℕ, ◌≡◌, ◌↔◌, Bool, true, List, Option}

-- The tags that `decode_directory_string` tells apart.
pub data Tag : Type 0 where
  utf8_string printable_string ia5_string teletex_string : Tag
  other_tag : Tag

-- The fields that are read of `RsaPssParams`; `mask_gen_hash` is the object identifier in the
-- parameters of its mask generation function.
pub record RsaPssParams : Type 0 where
  pub hash : String
  pub mask_gen : String
  pub mask_gen_hash : Option String
  pub salt_len : ℕ

pub record X509 : Type 1 where
  pub Certificate : Type 0
  pub Name : Type 0
  pub Value : Type 0
  pub Algorithm : Type 0
  pub RsaPublicKey : Type 0
  pub RsaSignature : Type 0
  -- `Certificate::from_der` and the fields of its result.
  pub from_der : List ℕ → Option Certificate
  pub is_v3 : Certificate → Bool
  pub key_algorithm : Certificate → String
  -- The parameters of the key's algorithm, and these as an object identifier.
  pub key_parameters : Certificate → Option Value
  pub as_oid : Value → Option String
  pub extensions : Certificate → Option (List (String × List ℕ))
  -- `get::<BasicConstraints>()`: nothing if it does not parse, and the `ca` flag if it is there.
  pub basic_constraints : Certificate → Option (Option Bool)
  -- In seconds since the epoch.
  pub not_before : Certificate → ℕ
  pub not_after : Certificate → ℕ
  pub issuer : Certificate → Name
  pub subject : Certificate → Name
  pub signature_algorithm : Certificate → Algorithm
  pub tbs_signature : Certificate → Algorithm
  pub signature_bytes : Certificate → List ℕ
  -- The bits of the public key.
  pub public_key : Certificate → List ℕ
  -- `to_der` of the public key's structure and of the part that is signed.
  pub spki_der : Certificate → Option (List ℕ)
  pub tbs_der : Certificate → Option (List ℕ)
  -- Names: their attributes, and the text of an attribute of a tag.
  pub name_eq : Name → Name → Bool
  pub attributes : Name → List (List (String × Value))
  pub tag : Value → Tag
  pub string_of : Tag → Value → Option String
  -- Signature algorithms.
  pub algorithm_eq : Algorithm → Algorithm → Bool
  pub algorithm_oid : Algorithm → String
  pub algorithm_parameters : Algorithm → Option Value
  pub to_der : Value → Option (List ℕ)
  pub pss_params : List ℕ → Option RsaPssParams
  -- `UintRef::from_der(..).as_bytes()` and `Ia5StringRef::from_der(..).as_str()`.
  pub uint_bytes : List ℕ → Option (List ℕ)
  pub ia5_text : List ℕ → Option String
  -- The contents of `pem::parse_many`.
  pub parse_pems : List ℕ → Option (List (List ℕ))
  -- `hex::encode(Sha256::digest(..))`.
  pub sha256_hex : List ℕ → String
  -- RSASSA-PSS with SHA-384: the key of a structure in DER, a signature of its bytes, and whether
  -- it verifies for a salt length and a message.
  pub rsa_public_key : List ℕ → Option RsaPublicKey
  pub rsa_signature : List ℕ → Option RsaSignature
  pub rsa_pss_verify : RsaPublicKey → ℕ → List ℕ → RsaSignature → Bool
  -- ECDSA on P-384 with SHA-384: `Signature::from_slice`, `VerifyingKey::from_sec1_bytes` and
  -- whether a signature of a message verifies.
  pub EcdsaKey : Type 0
  pub EcdsaSignature : Type 0
  pub ecdsa_signature : List ℕ → Option EcdsaSignature
  pub ecdsa_key : List ℕ → Option EcdsaKey
  pub ecdsa_verify : EcdsaKey → List ℕ → EcdsaSignature → Bool
  -- The object identifiers of rfc4519.
  pub oid_c : String
  pub oid_st : String
  pub oid_l : String
  pub oid_o : String
  pub oid_ou : String
  pub oid_cn : String
  -- `==` on names and on algorithms decides their equality.
  pub name_eq_iff : (m n : Name) → (name_eq m n ≡ true) ↔ (m ≡ n)
  pub algorithm_eq_iff : (a b : Algorithm) → (algorithm_eq a b ≡ true) ↔ (a ≡ b)
