-- ===== src/Sigstore/Rooted/Toys.antt =====
-- Toy packages of a trusted root. Values of JSON are texts, and a field of a value is its name, but for
-- those that `get` lists.
use Prim.Native.String.{String}
use text.Mathlib.Text.{◌==◌ as str_eq}
use tinfoil_rs.Prelude.{
  ℕ, true, List, [], ◌∷◌, Option, none, some, ◌==◌, ==_iff, if◌then◌else◌, replicate,
}
use tinfoil_rs.Outcome.{ok}
use tinfoil_rs.Attestation.Bytes.{bytes_eq}
use tinfoil_rs.Attestation.Validation.Conditions.{bytes_eq_iff}
use tinfoil_rs.Merkle.Hasher.{Hasher}
use tinfoil_rs.Sigstore.Release.{in_toto, multiplatform}
use tinfoil_rs.Sigstore.Dsse.{BundlePackage}
use tinfoil_rs.Sigstore.Checkpoint.{LogPackage}
use tinfoil_rs.Sigstore.Trust.{TrustedRoot, seconds}
use tinfoil_rs.Sigstore.Fulcio.{Curve, oid_ecdsa_sha_256, oid_secp_256_r_1}
use tinfoil_rs.Sigstore.Rekor.Json.{RekorPackage}
use tinfoil_rs.Sigstore.Tests.{keys, certificates, extensions}
use tinfoil_rs.Sigstore.Rooted.{RootPackage}

abbrev pub zeros : List ℕ
zeros = replicate 32 0

abbrev pub get : String → String → Option String
get name value =
    if str_eq name "payloadType"
    then some in_toto
    else if str_eq name "snp_measurement"
    then some "hex"
    else if str_eq name "kind"
    then some "dsse"
    else if str_eq name "version"
    then some "0.0.1"
    else if str_eq name "apiVersion"
    then some "0.0.1"
    else if str_eq name "integratedTime"
    then some "5"
    else if str_eq name "logIndex"
    then some "0"
    else if str_eq name "treeSize"
    then some "1"
    else if str_eq name "algorithm"
    then some "SHA2_256"
    else if str_eq name "envelope"
    then some "log\n1\nh\n\n— log s"
    else some name

abbrev pub decode_b64 : String → Option (List ℕ)
decode_b64 text =
    if str_eq text "sig"
    then some (9 ∷ [])
    else if str_eq text "signature"
    then some (9 ∷ [])
    else if str_eq text "keyId"
    then some (1 ∷ 2 ∷ 3 ∷ 4 ∷ [])
    else if str_eq text "rootHash"
    then some zeros
    else some []

abbrev pub bundles : BundlePackage
bundles = record {
  Value = String;
  get = get;
  as_str = λ value. some value;
  as_array = λ value. if str_eq value "hashes" then some [] else some (value ∷ []);
  decode_b64 = decode_b64;
  x509 = certificates;
  crypto = keys;
  key_from_sec1 = λ bytes. some bytes;
  signature_from_slice = λ bytes. some bytes;
}

abbrev pub first_is_h : List ℕ → Option (List ℕ)
first_is_h [] = none
first_is_h (c ∷ s) = if c == b'h' then some zeros else some (1 ∷ 2 ∷ 3 ∷ 4 ∷ [])

abbrev pub logs : LogPackage keys
logs = record {
  base64_decode = first_is_h;
  base64_encode = λ bytes. b'h' ∷ [];
  key_from_der = λ der. some der;
  Ed25519Key = List ℕ;
  Ed25519Signature = List ℕ;
  ed25519_key = λ bytes. none;
  ed25519_signature = λ bytes. none;
  ed25519_verifies = λ key message signature. true;
}

-- Every leaf has one hash.
abbrev pub hasher : Hasher (List ℕ)
hasher = record {
  empty_root = [];
  hash_leaf = λ leaf. zeros;
  hash_children = λ left right. left;
  beq = bytes_eq;
  beq_iff = bytes_eq_iff;
  hex = λ bytes. "";
}

abbrev pub rekor : RekorPackage
rekor = record {
  bundles = bundles;
  logs = logs;
  as_u64 = λ value. none;
  from_slice = λ bytes. some "value";
  from_utf8 = λ bytes. some "pem";
  parse_pem = λ text. some [];
  sha256 = λ bytes. [];
  hex = λ bytes. [];
  Output = List ℕ;
  hasher = hasher;
  to_output = λ bytes. some bytes;
}

abbrev pub curve : Curve
curve = record {
  VerifyingKey = List ℕ;
  Signature = List ℕ;
  from_sec1_bytes = λ bytes. some bytes;
  from_der = λ bytes. some bytes;
  verify_prehash = λ key digest signature. true;
}

abbrev pub root : TrustedRoot
root = record {
  tlogs =
      record {
        base_url = "https://log/";
        public_key = record {
          raw_bytes = "log";
          key_details = "PKIX_ECDSA_P256_SHA_256";
          valid_for = some (record { start = "3"; end = none });
        };
        key_id = "keyId";
      }
      ∷ [];
  certificate_authorities =
      record { certificates = "ca" ∷ []; valid_for = record { start = "0"; end = some "9" } } ∷ [];
  ctlogs =
      record {
        raw_bytes = "ct";
        key_details = "PKIX_ECDSA_P256_SHA_256";
        valid_for = some (record { start = "3"; end = none });
      }
      ∷ [];
  timestamp_authorities = [];
}

abbrev pub package_of : Option TrustedRoot → RootPackage
package_of json = record {
  rekor = rekor;
  parse_statement = λ bytes. some (record {
    type_ = "https://in-toto.io/Statement/v1";
    predicate_type = multiplatform;
    predicate = "predicate";
    subject = record { name = "subject"; digest = λ name. some "digest" } ∷ [];
  });
  escape = λ text. text;
  regex = λ pattern. some (λ text. str_eq text "flow");
  to_lowercase = λ text. text;
  fulcio = record {
    from_der = λ der. some extensions;
    Name = ℕ;
    issuer = λ cert. 0;
    subject = λ cert. 0;
    name_eq = ◌==◌;
    name_eq_iff = ==_iff;
    spki_to_der = λ cert. some (4 ∷ []);
    tbs_to_der = λ cert. some [];
    signature = λ cert. [];
    public_key = λ cert. [];
    curve_oid = λ cert. some oid_secp_256_r_1;
    algorithm_eq = λ cert. true;
    algorithm_oid = λ cert. oid_ecdsa_sha_256;
    sha256 = λ bytes. bytes;
    sha384 = λ bytes. bytes;
    sha512 = λ bytes. bytes;
    p256 = curve;
    p384 = curve;
  };
  trust = record {
    decode_b64 = λ text. if str_eq text "ct" then some (7 ∷ []) else some [];
    rfc3339 = λ text.
        if str_eq text "3"
        then some (seconds 3)
        else if str_eq text "9"
        then some (seconds 9)
        else some (seconds 0);
  };
  trusted_root_json = json;
  verify_timestamps = λ bundle signature authorities. ok ([], []);
}

abbrev pub toy_root : RootPackage
toy_root = package_of (some root)
