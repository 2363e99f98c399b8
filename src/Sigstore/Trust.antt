-- ===== src/Sigstore/Trust.antt =====
-- The keys and authorities of the trusted root (src/verifier/sigstore/trust.rs). The root is what JSON
-- gives of the embedded file, and `none` where it is malformed; the parsers of base64 and of times
-- are parameters.
pub mod Safe
use Prim.Native.String.{String}
use text.Mathlib.Text.{◌==◌ as str_eq}
use tinfoil_rs.Prelude.{ℕ, not, ◌&&◌, List, [], ◌∷◌, Option, none, some, ◌==◌, if◌then◌else◌}
use tinfoil_rs.Outcome.{Outcome, ok, err, ◌>>=◌, ok_or}
use tinfoil_rs.Text.{codes, split}
use tinfoil_rs.Errors.{Error}
use tinfoil_rs.Sigstore.Certificate.{or_text}
use tinfoil_rs.Sigstore.Keyring.{KeyPackage, Keyring, Entry, new_with_validity}
use tinfoil_rs.Sigstore.Dsse.{failure}

pub record ValidityPeriod : Type 0 where
  pub start : String
  pub end : Option String

pub record PublicKeyInfo : Type 0 where
  pub raw_bytes : String
  pub key_details : String
  pub valid_for : Option ValidityPeriod

pub record Tlog : Type 0 where
  pub base_url : String
  pub public_key : PublicKeyInfo
  pub key_id : String

-- The certificates of a chain are given by their `raw_bytes`.
pub record CertificateAuthority : Type 0 where
  pub certificates : List String
  pub valid_for : ValidityPeriod

pub record TimestampAuthorityEntry : Type 0 where
  pub certificates : List String
  pub valid_for : Option ValidityPeriod

-- A CT log is given by its `public_key`.
pub record TrustedRoot : Type 0 where
  pub tlogs : List Tlog
  pub certificate_authorities : List CertificateAuthority
  pub ctlogs : List PublicKeyInfo
  pub timestamp_authorities : List TimestampAuthorityEntry

pub record FulcioCa : Type 0 where
  pub cert_chain_der : List (List ℕ)
  pub valid_from : ℕ
  pub valid_until : Option ℕ

-- The host is the codes of its characters.
pub record RekorKey : Type 0 where
  pub key_id : String
  pub host : List ℕ
  pub key_der : List ℕ
  pub key_type : String
  pub valid_from : Option ℕ
  pub valid_until : Option ℕ

pub record TimestampAuthority : Type 0 where
  pub cert_chain_der : List (List ℕ)
  pub valid_from : Option ℕ
  pub valid_until : Option ℕ

-- A Unix time, if it is not before the epoch.
pub data UnixTime : Type 0 where
  before_epoch : UnixTime
  seconds : ℕ → UnixTime

pub record TrustPackage : Type 0 where
  pub decode_b64 : String → Option (List ℕ)
  pub rfc3339 : String → Option UnixTime

-- After the last "://", if there is one.
unfoldable pub after_last : List ℕ → Option (List ℕ)
after_last (c ∷ (d ∷ (e ∷ s))) =
    let later = after_last s in
    let next = after_last (d ∷ (e ∷ s)) in
    if c == b':' && (d == b'/' && e == b'/')
    then elim later [ none ↦ some s | some rest ↦ some rest ]
    else next
after_last _ = none

abbrev pub last_part : List ℕ → List ℕ
last_part s = elim (after_last s) [ none ↦ s | some rest ↦ rest ]

unfoldable pub host_of : String → List ℕ
unfolding after_last split
host_of base_url = (split b'/' (last_part (codes base_url))).0

unfoldable pub unix_time : UnixTime → Outcome Error ℕ
unix_time before_epoch = err (failure "Timestamp before Unix epoch")
unix_time (seconds n) = ok n

module _ (p : TrustPackage) where
  open p use {decode_b64, rfc3339}

  unfoldable pub parse_rfc3339_to_unix : String → Outcome Error ℕ
  unfolding unix_time
  parse_rfc3339_to_unix s = do
    dt ← ok_or (rfc3339 s) (failure "Invalid RFC3339 timestamp")
    unix_time dt

  unfoldable pub parse_end : Option String → Outcome Error (Option ℕ)
  unfolding parse_rfc3339_to_unix
  parse_end none = ok none
  parse_end (some end) = do until ← parse_rfc3339_to_unix end; ok (some until)

  unfoldable pub parse_validity : Option ValidityPeriod → Outcome Error (Option ℕ × Option ℕ)
  unfolding parse_rfc3339_to_unix parse_end
  parse_validity none = ok (none, none)
  parse_validity (some vf) = do
    from ← parse_rfc3339_to_unix vf.start
    until ← parse_end vf.end
    ok (some from, until)

  unfoldable pub decode_chain : String → List String → Outcome Error (List (List ℕ))
  decode_chain message [] = ok []
  decode_chain message (raw_bytes ∷ others) = do
    der ← ok_or (decode_b64 raw_bytes) (failure message)
    chain ← decode_chain message others
    ok (der ∷ chain)

  unfoldable pub timestamp_authorities_of :
      List TimestampAuthorityEntry → Outcome Error (List TimestampAuthority)
  unfolding decode_chain parse_validity
  timestamp_authorities_of [] = ok []
  timestamp_authorities_of (tsa ∷ others) = do
    chain ← decode_chain "Failed to decode TSA cert" tsa.certificates
    validity ← parse_validity tsa.valid_for
    tsas ← timestamp_authorities_of others
    ok (record { cert_chain_der = chain; valid_from = validity.0; valid_until = validity.1 } ∷ tsas)

  unfoldable pub rekor_keys_of : List Tlog → Outcome Error (List RekorKey)
  unfolding parse_validity host_of
  rekor_keys_of [] = ok []
  rekor_keys_of (tlog ∷ others) = do
    key_der ← ok_or (decode_b64 tlog.public_key.raw_bytes) (failure "Failed to decode Rekor key")
    validity ← parse_validity tlog.public_key.valid_for
    keys ← rekor_keys_of others
    ok (
        record {
          key_id = tlog.key_id;
          host = host_of tlog.base_url;
          key_der = key_der;
          key_type = tlog.public_key.key_details;
          valid_from = validity.0;
          valid_until = validity.1;
        }
        ∷ keys)

  unfoldable pub ctlog_entry : PublicKeyInfo → Outcome Error Entry
  unfolding parse_validity
  ctlog_entry ctlog = do
    der ← ok_or (decode_b64 ctlog.raw_bytes) (failure "Failed to decode CT log key")
    validity ← parse_validity ctlog.valid_for
    ok (der, validity.0, validity.1)

  -- Only P-256 keys are taken.
  unfoldable pub ctlog_entries : List PublicKeyInfo → Outcome Error (List Entry)
  unfolding ctlog_entry
  ctlog_entries [] = ok []
  ctlog_entries (ctlog ∷ others) =
      let rest = ctlog_entries others in
      if not (str_eq ctlog.key_details "PKIX_ECDSA_P256_SHA_256")
      then rest
      else ctlog_entry ctlog >>= λ entry. rest >>= λ entries. ok (entry ∷ entries)

  unfoldable pub fulcio_cas_of : List CertificateAuthority → Outcome Error (List FulcioCa)
  unfolding decode_chain parse_rfc3339_to_unix parse_end
  fulcio_cas_of [] = ok []
  fulcio_cas_of (ca ∷ others) = do
    chain ← decode_chain "Failed to decode Fulcio cert" ca.certificates
    from ← parse_rfc3339_to_unix ca.valid_for.start
    until ← parse_end ca.valid_for.end
    cas ← fulcio_cas_of others
    ok (record { cert_chain_der = chain; valid_from = from; valid_until = until } ∷ cas)

  module _ (json : Option TrustedRoot) where
    unfoldable pub trusted_root : Outcome Error TrustedRoot
    trusted_root = ok_or json (failure "Failed to parse trusted root")

    unfoldable pub load_timestamp_authorities : Outcome Error (List TimestampAuthority)
    unfolding trusted_root timestamp_authorities_of
    load_timestamp_authorities = do
      root ← trusted_root
      timestamp_authorities_of root.timestamp_authorities

    unfoldable pub load_rekor_keys : Outcome Error (List RekorKey)
    unfolding trusted_root rekor_keys_of
    load_rekor_keys = do root ← trusted_root; rekor_keys_of root.tlogs

    unfoldable pub load_fulcio_cas : Outcome Error (List FulcioCa)
    unfolding trusted_root fulcio_cas_of
    load_fulcio_cas = do root ← trusted_root; fulcio_cas_of root.certificate_authorities

    unfoldable pub load_ctlog_keyring :
        (crypto : KeyPackage) → Outcome Error (Keyring crypto.VerifyingKey)
    unfolding trusted_root ctlog_entries
    load_ctlog_keyring crypto = do
      root ← trusted_root
      entries ← ctlog_entries root.ctlogs
      or_text (new_with_validity crypto entries) "Failed to create CT log keyring"
