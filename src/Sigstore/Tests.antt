-- ===== src/Sigstore/Tests.antt =====
-- A release over toy packages: keys, certificates and messages are lists of numbers, JSON values are
-- texts, and every field of a value is its name. The theorems at this release.
use Prim.Native.String.{String}
use text.Mathlib.Text.{◌==◌ as str_eq}
use tinfoil_rs.Prelude.{
  ℕ, ◌≡◌, ◌⊎◌, ◌/◌, refl, true, List, [], ◌∷◌, Option, none, some, arith, get_or, ◌==◌,
  if◌then◌else◌,
}
use tinfoil_rs.Outcome.{Outcome, ok, err}
use tinfoil_rs.Decides.{Decides, Has}
use tinfoil_rs.Errors.{Error}
use tinfoil_rs.Attestation.Types.{snp_tdx_multi_platform_v1}
use tinfoil_rs.Attestation.Complete.{SigstoreResult}
use tinfoil_rs.Attestation.Bytes.{bytes_eq}
use tinfoil_rs.Sigstore.Keyring.{
  KeyPackage, Key, Keyring, Entry, id_ec_public_key, secp_256_r_1, get, new_with_validity,
  verify_at, verify, key_not_found, key_not_valid_at_time,
}
use tinfoil_rs.Sigstore.Keyring.Valid.{IsSignedAt, verify_at-Decides}
use tinfoil_rs.Sigstore.Keyring.Entries.{IsFrom, new_with_validity-IsFrom}
use tinfoil_rs.Sigstore.Transparency.{
  SctPackage, Extension, SignedCertificateTimestamp, CertificateEmbeddedSct, ct_precert_scts_oid,
  signed_by, new_with_spki, verify_sct,
}
use tinfoil_rs.Sigstore.Transparency.Signed.{verify_sct-Decides}
use tinfoil_rs.Sigstore.Certificate.{
  CertificatePackage, CertificateInfo, id_kp_code_signing, oidc_issuer_v1, oidc_issuer_v2,
  build_signer_uri, github_workflow_repository, source_repository_uri, extract_certificate_info,
  without_prefix,
}
use tinfoil_rs.Sigstore.Certificate.Identity.{States, extract_certificate_info_sound}
use tinfoil_rs.Sigstore.Dsse.Pae.{compute_pae, decode_pae, decode_pae-compute_pae}
use tinfoil_rs.Sigstore.Dsse.{BundlePackage, Ring, verify_dsse_signature}
use tinfoil_rs.Sigstore.Dsse.Envelope.{IsSigned, verify_dsse_signature_sound}
use tinfoil_rs.Sigstore.Release.{
  FetchedRelease, StatementPackage, github_actions, in_toto, multiplatform, verify_repo,
}
use tinfoil_rs.Sigstore.Release.Verified.{IsVerifiedRelease, verify_repo_sound}

abbrev pub keys : KeyPackage
keys = record {
  Spki = List ℕ;
  VerifyingKey = List ℕ;
  Signature = List ℕ;
  from_der = λ bytes. some bytes;
  algorithm = λ spki. id_ec_public_key;
  parameters = λ spki. some (some secp_256_r_1);
  public_key = λ spki. some spki;
  encode = λ spki. some spki;
  sha256 = λ bytes. bytes;
  signature_from_der = λ bytes. some bytes;
  verifies = λ key message signature. bytes_eq signature key;
}

-- The log's key, valid from the second 3 on.
abbrev pub entries : List Entry
entries = ((7 ∷ []), some 3, none) ∷ []

abbrev pub log_key : Key (List ℕ)
log_key = record { inner = 7 ∷ []; fingerprint = 7 ∷ []; valid_from = some 3; valid_until = none }

abbrev pub ring : Keyring (List ℕ)
ring = ((7 ∷ []), log_key) ∷ []

built : new_with_validity keys entries ≡ ok ring
unfolding new_with_validity
built = refl

found : get ring (7 ∷ []) ≡ some log_key
unfolding get bytes_eq
found = refl

too_early : verify_at keys ring (7 ∷ []) (7 ∷ []) [] 2 ≡ err key_not_valid_at_time
unfolding verify_at bytes_eq
too_early = refl

unknown_log : verify keys ring (8 ∷ []) (7 ∷ []) [] ≡ err key_not_found
unfolding verify bytes_eq
unknown_log = refl

new_with_validity-IsFrom_example : IsFrom keys entries (7 ∷ []) log_key
new_with_validity-IsFrom_example =
    new_with_validity-IsFrom keys entries ring (7 ∷ []) log_key built found

verify_at-Decides_example :
    Decides
      (verify_at keys ring (7 ∷ []) (7 ∷ []) [] 3)
      (IsSignedAt keys ring (7 ∷ []) (7 ∷ []) [] 3)
verify_at-Decides_example = verify_at-Decides keys ring (7 ∷ []) (7 ∷ []) [] 3

abbrev pub sct : SignedCertificateTimestamp
sct = record { key_id = 7 ∷ []; timestamp = 5000; extensions = []; signature = 7 ∷ [] }

abbrev pub extensions : List Extension
extensions =
    record { extn_id = oidc_issuer_v1; extn_value = 2 ∷ [] }
    ∷ record { extn_id = ct_precert_scts_oid; extn_value = [] }
    ∷ record { extn_id = oidc_issuer_v2; extn_value = 1 ∷ [] }
    ∷ record { extn_id = build_signer_uri; extn_value = 2 ∷ [] }
    ∷ record { extn_id = source_repository_uri; extn_value = 3 ∷ [] }
    ∷ []

abbrev pub scts : SctPackage
scts = record {
  Certificate = List Extension;
  extensions_of = λ cert. some cert;
  encode_tbs = λ cert others. some [];
  parse_list = λ bytes. ok ([] ∷ []);
  parse_timestamp = λ bytes. ok sct;
  sha256 = λ bytes. bytes;
  tls_serialize = λ structure. some [];
}

unfoldable pub text_of : List ℕ → Option String
text_of bytes =
    if get_or bytes 0 0 == 1
    then some github_actions
    else if get_or bytes 0 0 == 2
    then some "flow"
    else some "https://github.com/owner/repo"

abbrev pub certificates : CertificatePackage
certificates = record {
  scts = scts;
  from_der = λ bytes. some extensions;
  key_usage = λ cert. ok (some true);
  ext_key_usage = λ cert. ok (some (id_kp_code_signing ∷ []));
  public_key_bytes = λ cert. 9 ∷ [];
  not_before = λ cert. 1;
  not_after = λ cert. 9;
  utf8_string = λ bytes. none;
  ia5_string = text_of;
  printable_string = λ bytes. none;
  from_utf8 = λ bytes. none;
}

abbrev pub embedded : CertificateEmbeddedSct scts
embedded = record { cert = extensions; sct = sct; issuer_id = 4 ∷ [] }

first_sct : new_with_spki scts extensions (4 ∷ []) ≡ ok embedded
unfolding new_with_spki
first_sct = refl

verify_sct-Decides_example : Decides (verify_sct scts keys embedded ring) (
    Has
      (scts.tls_serialize (signed_by scts embedded []))
      (λ message. IsSignedAt keys ring (7 ∷ []) (7 ∷ []) message (sct.timestamp / 1000)))
verify_sct-Decides_example = verify_sct-Decides scts keys embedded ring [] refl

abbrev pub info : CertificateInfo
info = record { issuer = github_actions; subject_workflow = "flow"; repository = "owner/repo" }

identified : extract_certificate_info certificates extensions ≡ ok info
unfolding extract_certificate_info text_of
identified = refl

abbrev pub bundles : BundlePackage
bundles = record {
  Value = String;
  get = λ name value.
      if str_eq name "payloadType"
      then some in_toto
      else if str_eq name "snp_measurement"
      then some "hex"
      else some name;
  as_str = λ value. some value;
  as_array = λ value. some (value ∷ []);
  decode_b64 = λ text. if str_eq text "sig" then some (9 ∷ []) else some [];
  x509 = certificates;
  crypto = keys;
  key_from_sec1 = λ bytes. some bytes;
  signature_from_slice = λ bytes. some bytes;
}

abbrev pub load_keyring : Outcome Error (Ring bundles)
load_keyring = ok ring

abbrev pub find_spki : List Extension → Outcome Error (List ℕ)
find_spki cert = ok (4 ∷ [])

signed : verify_dsse_signature bundles find_spki load_keyring "bundle" ≡ ok tt
unfolding verify_dsse_signature bytes_eq verify_sct verify_at
signed = refl

abbrev pub packages : StatementPackage
packages = record {
  bundles = bundles;
  from_slice = λ bytes. some "bundle";
  parse_statement = λ bytes. some (record {
    type_ = "https://in-toto.io/Statement/v1";
    predicate_type = multiplatform;
    predicate = "predicate";
    subject = record { name = "subject"; digest = λ name. some "digest" } ∷ [];
  });
  escape = λ text. text;
  regex = λ pattern. some (λ text. str_eq text "flow");
  to_lowercase = λ text. text;
}

abbrev pub release : FetchedRelease
release = record { tag = "v1"; digest = "digest" }

abbrev pub result : SigstoreResult
result = record {
  measurement = record {
    type_ = snp_tdx_multi_platform_v1;
    registers = "hex" ∷ "rtmr1" ∷ "rtmr2" ∷ [];
  };
  digest = "digest";
  release_tag = "v1";
}

abbrev pub rekor : String → ℕ → ℕ → Outcome Error (Unit {0})
rekor bundle not_before not_after = ok tt

abbrev pub fulcio : List ℕ → ℕ → Outcome Error (Unit {0})
fulcio cert_der not_before = ok tt

abbrev pub fetched : Outcome Error FetchedRelease
fetched = ok release

abbrev pub fetch_bundle : String → Outcome Error (List ℕ)
fetch_bundle digest = ok []

pub verified :
    verify_repo packages find_spki load_keyring rekor fulcio "owner/repo" fetched fetch_bundle
    ≡ ok result
unfolding verify_repo bytes_eq text_of verify_sct verify_at
verified = refl

extract_certificate_info_sound_example :
    (States certificates extensions oidc_issuer_v2 github_actions
      ⊎ States certificates extensions oidc_issuer_v1 github_actions)
    × States certificates extensions build_signer_uri "flow"
    × (States certificates extensions github_workflow_repository "owner/repo"
        ⊎ ((uri : String) × States certificates extensions source_repository_uri uri
            × (info.repository ≡ without_prefix "https://github.com/" uri)))
extract_certificate_info_sound_example =
    extract_certificate_info_sound certificates extensions identified

decode_pae-compute_pae_example :
    decode_pae (compute_pae (b'a' ∷ []) (32 ∷ b'b' ∷ [])) ≡ some ((b'a' ∷ []), (32 ∷ b'b' ∷ []))
decode_pae-compute_pae_example =
    decode_pae-compute_pae (b'a' ∷ []) (32 ∷ b'b' ∷ []) (omega arith) (omega arith)

verify_dsse_signature_sound_example : IsSigned bundles find_spki load_keyring "bundle"
verify_dsse_signature_sound_example =
    verify_dsse_signature_sound bundles find_spki load_keyring "bundle" signed

verify_repo_sound_example :
    IsVerifiedRelease packages find_spki load_keyring rekor fulcio "owner/repo" fetched fetch_bundle
      result
verify_repo_sound_example =
    verify_repo_sound packages find_spki load_keyring rekor fulcio "owner/repo" fetched fetch_bundle
      result verified
