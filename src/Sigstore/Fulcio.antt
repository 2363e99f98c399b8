-- ===== src/Sigstore/Fulcio.antt =====
-- The chain of a signing certificate (src/verifier/sigstore/fulcio.rs). The parser of X.509, hashes and
-- keys are parameters. The authorities are an argument: what `trust::load_fulcio_cas` answers.
pub mod Chain
pub mod Trusted
use Prim.Native.String.{String}
use text.Mathlib.Text.{◌==◌ as str_eq}
use tinfoil_rs.Prelude.{
  ℕ, ◌≡◌, ◌↔◌, Bool, true, false, List, [], ◌∷◌, Option, none, some, ltb, if◌then◌else◌,
}
use tinfoil_rs.Outcome.{Outcome, ok, err, panic, ◌>>=◌, ◌>>◌, ensure, ok_or}
use tinfoil_rs.Errors.{Error}
use tinfoil_rs.Sigstore.Dsse.{failure}
use tinfoil_rs.Sigstore.Trust.{FulcioCa}

-- A curve: its keys and its check of a signature of a digest.
pub record Curve : Type 1 where
  pub VerifyingKey : Type 0
  pub Signature : Type 0
  pub from_sec1_bytes : List ℕ → Option VerifyingKey
  pub from_der : List ℕ → Option Signature
  pub verify_prehash : VerifyingKey → List ℕ → Signature → Bool

-- `curve_oid` is the parameters of the algorithm of the certificate's key, if they are an OID;
-- `algorithm_eq` compares the certificate's outer signature algorithm with the inner one.
pub record FulcioPackage (Certificate : Type 0) : Type 1 where
  pub from_der : List ℕ → Option Certificate
  pub Name : Type 0
  pub issuer : Certificate → Name
  pub subject : Certificate → Name
  pub name_eq : Name → Name → Bool
  pub name_eq_iff : (a b : Name) → (name_eq a b ≡ true) ↔ (a ≡ b)
  pub spki_to_der : Certificate → Option (List ℕ)
  pub tbs_to_der : Certificate → Option (List ℕ)
  pub signature : Certificate → List ℕ
  pub public_key : Certificate → List ℕ
  pub curve_oid : Certificate → Option String
  pub algorithm_eq : Certificate → Bool
  pub algorithm_oid : Certificate → String
  pub sha256 : List ℕ → List ℕ
  pub sha384 : List ℕ → List ℕ
  pub sha512 : List ℕ → List ℕ
  pub p256 : Curve
  pub p384 : Curve

-- The curves that are supported.
pub data Supported : Type 0 where
  secp_256_r_1 secp_384_r_1 : Supported

abbrev pub oid_secp_256_r_1 : String
oid_secp_256_r_1 = "1.2.840.10045.3.1.7"

abbrev pub oid_secp_384_r_1 : String
oid_secp_384_r_1 = "1.3.132.0.34"

abbrev pub oid_ecdsa_sha_256 : String
oid_ecdsa_sha_256 = "1.2.840.10045.4.3.2"

abbrev pub oid_ecdsa_sha_384 : String
oid_ecdsa_sha_384 = "1.2.840.10045.4.3.3"

abbrev pub oid_ecdsa_sha_512 : String
oid_ecdsa_sha_512 = "1.2.840.10045.4.3.4"

-- `verify_ecdsa_p256` and `verify_ecdsa_p384`.
unfoldable pub verify_ecdsa : Curve → List ℕ → List ℕ → List ℕ → Bool
verify_ecdsa c digest sig_bytes pubkey_bytes = elim (c.from_sec1_bytes pubkey_bytes) [
  | none ↦ false
  | some key ↦ elim (c.from_der sig_bytes) [
    | none ↦ false
    | some sig ↦ c.verify_prehash key digest sig
  ]
]

-- The authority is valid at the time, in seconds.
unfoldable pub is_in_time : ℕ → FulcioCa → Bool
is_in_time time ca =
    if ltb time ca.valid_from
    then false
    else elim ca.valid_until [ none ↦ true | some end ↦ if ltb end time then false else true ]

abbrev pub has_chain : FulcioCa → Bool
has_chain ca = elim ca.cert_chain_der [ [] ↦ false | first ∷ others ↦ true ]

module _ {Certificate : Type 0} (p : FulcioPackage Certificate) where
  open p use {
    from_der, issuer, subject, name_eq, spki_to_der, tbs_to_der, signature, public_key, curve_oid,
    algorithm_eq, algorithm_oid, sha256, sha384, sha512, p256, p384,
  }

  unfoldable pub issuer_spki_in : Certificate → List FulcioCa → Outcome Error (List ℕ)
  issuer_spki_in cert [] = err (failure "Could not find issuer certificate for SCT verification")
  issuer_spki_in cert (ca ∷ cas) =
      let rest = issuer_spki_in cert cas in
      elim ca.cert_chain_der [
        | [] ↦ rest
        | first ∷ others ↦ elim (from_der first) [
          | none ↦ rest
          | some issuer_cert ↦
              if name_eq (issuer cert) (subject issuer_cert)
              then ok_or (spki_to_der issuer_cert) (failure "Failed to encode issuer SPKI")
              else rest
        ]
      ]

  unfoldable pub find_issuer_spki :
      Outcome Error (List FulcioCa) → Certificate → Outcome Error (List ℕ)
  unfolding issuer_spki_in
  find_issuer_spki load_fulcio_cas cert = do
    fulcio_cas ← load_fulcio_cas
    issuer_spki_in cert fulcio_cas

  unfoldable pub digest_of : String → List ℕ → Outcome Error (List ℕ)
  digest_of oid tbs_bytes =
      if str_eq oid oid_ecdsa_sha_256
      then ok (sha256 tbs_bytes)
      else if str_eq oid oid_ecdsa_sha_384
      then ok (sha384 tbs_bytes)
      else if str_eq oid oid_ecdsa_sha_512
      then ok (sha512 tbs_bytes)
      else err (failure "unsupported signature algorithm")

  unfoldable pub curve_of : Option String → Outcome Error Supported
  curve_of none = err (failure "issuer uses unsupported curve")
  curve_of (some oid) =
      if str_eq oid oid_secp_256_r_1
      then ok secp_256_r_1
      else if str_eq oid oid_secp_384_r_1
      then ok secp_384_r_1
      else err (failure "issuer uses unsupported curve")

  abbrev pub curve : Supported → Curve
  curve secp_256_r_1 = p256
  curve secp_384_r_1 = p384

  unfoldable pub verify_issued_by : Certificate → Certificate → Outcome Error (Unit {0})
  unfolding digest_of curve_of verify_ecdsa
  verify_issued_by child issuer_cert = do
    ensure (name_eq (issuer child) (subject issuer_cert))
        (failure "issuer DN does not match issuer subject")
    tbs_bytes ← ok_or (tbs_to_der child) (failure "Failed to encode TBS")
    ensure (algorithm_eq child) (failure "outer signature algorithm does not match tbs.signature")
    digest ← digest_of (algorithm_oid child) tbs_bytes
    named ← curve_of (curve_oid issuer_cert)
    ensure (verify_ecdsa (curve named) digest (signature child) (public_key issuer_cert))
        (failure "signature did not verify against issuer")

  unfoldable pub parse_chain : List (List ℕ) → Outcome Error (List Certificate)
  parse_chain [] = ok []
  parse_chain (der ∷ ders) = do
    cert ← ok_or (from_der der) (failure "Failed to parse Fulcio chain cert")
    certs ← parse_chain ders
    ok (cert ∷ certs)

  unfoldable pub verify_root : Certificate → Outcome Error (Unit {0})
  unfolding verify_issued_by
  verify_root root = do
    ensure (name_eq (subject root) (issuer root))
        (failure "Fulcio chain does not end in a self-signed root")
    verify_issued_by root root

  -- Each is issued by the next one, and the last one by itself.
  unfoldable pub walk_chain : Certificate → List Certificate → Outcome Error (Unit {0})
  unfolding verify_issued_by verify_root
  walk_chain cert [] = verify_root cert
  walk_chain cert (next ∷ certs) = do verify_issued_by cert next; walk_chain next certs

  -- `chain_certs[0]` is out of range if there are none.
  unfoldable pub verify_certs : Certificate → List Certificate → Outcome Error (Unit {0})
  unfolding verify_issued_by walk_chain
  verify_certs leaf [] = panic
  verify_certs leaf (first ∷ certs) = do verify_issued_by leaf first; walk_chain first certs

  unfoldable pub verify_against_chain : Certificate → List (List ℕ) → Outcome Error (Unit {0})
  unfolding parse_chain verify_certs
  verify_against_chain leaf chain_der = do
    chain_certs ← parse_chain chain_der
    verify_certs leaf chain_certs

  unfoldable pub any_ca : Certificate → ℕ → List FulcioCa → Outcome Error (Unit {0})
  unfolding is_in_time verify_against_chain
  any_ca signing_cert cert_not_before [] =
      err (failure "Certificate not issued by any trusted Fulcio CA")
  any_ca signing_cert cert_not_before (ca ∷ cas) =
      let rest = any_ca signing_cert cert_not_before cas in
      if is_in_time cert_not_before ca
      then if has_chain ca
        then elim (verify_against_chain signing_cert ca.cert_chain_der) [
          | ok _ ↦ ok tt
          | err _ ↦ rest
          | panic ↦ panic
        ]
        else rest
      else rest

  unfoldable pub verify_fulcio_chain :
      Outcome Error (List FulcioCa) → List ℕ → ℕ → Outcome Error (Unit {0})
  unfolding any_ca
  verify_fulcio_chain load_fulcio_cas cert_der cert_not_before = do
    signing_cert ← ok_or (from_der cert_der) (failure "Failed to parse signing certificate")
    fulcio_cas ← load_fulcio_cas
    any_ca signing_cert cert_not_before fulcio_cas
