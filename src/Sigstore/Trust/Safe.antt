-- ===== src/Sigstore/Trust/Safe.antt =====
-- No trusted root makes its loading panic (src/verifier/sigstore/trust.rs).
use Prim.Native.String.{String}
use tinfoil_rs.Prelude.{ℕ, ◌≢◌, arith, List, [], ◌∷◌, Option, none, some}
use tinfoil_rs.Outcome.{reject_if, or_panic}
use tinfoil_rs.Answers.{
  IsSafe, >>=-IsSafe, >>-IsSafe, ok_IsSafe, reject_if-IsSafe, or_panic-IsSafe, ok_or_then-IsSafe,
}
use tinfoil_rs.Sigstore.Keyring.{KeyPackage, Entry, new_key, new_with_validity}
use tinfoil_rs.Sigstore.Dsse.Safe.{or_text-IsSafe}
use tinfoil_rs.Sigstore.Trust.{
  TrustPackage, TrustedRoot, UnixTime, before_epoch, seconds, ValidityPeriod, PublicKeyInfo, Tlog,
  CertificateAuthority, TimestampAuthorityEntry, unix_time, parse_rfc3339_to_unix, parse_end,
  parse_validity, decode_chain, timestamp_authorities_of, rekor_keys_of, ctlog_entry, ctlog_entries,
  fulcio_cas_of, trusted_root, load_timestamp_authorities, load_rekor_keys, load_fulcio_cas,
  load_ctlog_keyring,
}

module _ (p : TrustPackage) where
  unix_time-IsSafe : (t : UnixTime) → IsSafe (unix_time t)
  unfolding unix_time
  unix_time-IsSafe before_epoch h = cc
  unix_time-IsSafe (seconds n) h = cc

  parse_rfc3339_to_unix-IsSafe : (s : String) → IsSafe (parse_rfc3339_to_unix p s)
  unfolding parse_rfc3339_to_unix
  parse_rfc3339_to_unix-IsSafe s = ok_or_then-IsSafe (p.rfc3339 s) _ _ unix_time-IsSafe

  parse_end-IsSafe : (end : Option String) → IsSafe (parse_end p end)
  unfolding parse_end
  parse_end-IsSafe none h = cc
  parse_end-IsSafe (some end) h = ground (arith, h, parse_rfc3339_to_unix-IsSafe end)

  parse_validity-IsSafe : (period : Option ValidityPeriod) → IsSafe (parse_validity p period)
  unfolding parse_validity
  parse_validity-IsSafe none h = cc
  parse_validity-IsSafe (some vf) h =
      ground (arith, h, parse_rfc3339_to_unix-IsSafe vf.start, parse_end-IsSafe vf.end)

  decode_chain-IsSafe :
      (message : String) (texts : List String) → IsSafe (decode_chain p message texts)
  unfolding decode_chain
  decode_chain-IsSafe message [] h = cc
  decode_chain-IsSafe message (text ∷ texts) h =
      ground (arith, h, decode_chain-IsSafe message texts)

  timestamp_authorities_of-IsSafe :
      (tsas : List TimestampAuthorityEntry) → IsSafe (timestamp_authorities_of p tsas)
  unfolding timestamp_authorities_of
  timestamp_authorities_of-IsSafe [] h = cc
  timestamp_authorities_of-IsSafe (tsa ∷ tsas) h = ground (
    arith,
    h,
    decode_chain-IsSafe "Failed to decode TSA cert" tsa.certificates,
    parse_validity-IsSafe tsa.valid_for,
    timestamp_authorities_of-IsSafe tsas,
  )

  rekor_keys_of-IsSafe : (tlogs : List Tlog) → IsSafe (rekor_keys_of p tlogs)
  unfolding rekor_keys_of
  rekor_keys_of-IsSafe [] h = cc
  rekor_keys_of-IsSafe (tlog ∷ tlogs) h =
      ground (arith, h, parse_validity-IsSafe tlog.public_key.valid_for, rekor_keys_of-IsSafe tlogs)

  ctlog_entries-IsSafe : (ctlogs : List PublicKeyInfo) → IsSafe (ctlog_entries p ctlogs)
  unfolding ctlog_entries ctlog_entry
  ctlog_entries-IsSafe [] h = cc
  ctlog_entries-IsSafe (ctlog ∷ ctlogs) h =
      ground (arith, h, parse_validity-IsSafe ctlog.valid_for, ctlog_entries-IsSafe ctlogs)

  fulcio_cas_of-IsSafe : (cas : List CertificateAuthority) → IsSafe (fulcio_cas_of p cas)
  unfolding fulcio_cas_of
  fulcio_cas_of-IsSafe [] h = cc
  fulcio_cas_of-IsSafe (ca ∷ cas) h = ground (
    arith,
    h,
    decode_chain-IsSafe "Failed to decode Fulcio cert" ca.certificates,
    parse_rfc3339_to_unix-IsSafe ca.valid_for.start,
    parse_end-IsSafe ca.valid_for.end,
    fulcio_cas_of-IsSafe cas,
  )

  module _ (json : Option TrustedRoot) where
    pub load_timestamp_authorities-IsSafe : IsSafe (load_timestamp_authorities p json)
    unfolding load_timestamp_authorities trusted_root
    load_timestamp_authorities-IsSafe =
        ok_or_then-IsSafe json _ _
          λ root. timestamp_authorities_of-IsSafe root.timestamp_authorities

    pub load_rekor_keys-IsSafe : IsSafe (load_rekor_keys p json)
    unfolding load_rekor_keys trusted_root
    load_rekor_keys-IsSafe = ok_or_then-IsSafe json _ _ λ root. rekor_keys_of-IsSafe root.tlogs

    pub load_fulcio_cas-IsSafe : IsSafe (load_fulcio_cas p json)
    unfolding load_fulcio_cas trusted_root
    load_fulcio_cas-IsSafe =
        ok_or_then-IsSafe json _ _ λ root. fulcio_cas_of-IsSafe root.certificate_authorities

    module _ (crypto : KeyPackage)
        (encodes_key : (spki : crypto.Spki) → crypto.encode spki ≢ none) where
      new_key-IsSafe : (der : List ℕ) → IsSafe (new_key crypto der)
      unfolding new_key
      new_key-IsSafe der = ok_or_then-IsSafe (crypto.from_der der) _ _ λ spki.
          ok_or_then-IsSafe (crypto.parameters spki) _ _ λ params.
            ok_or_then-IsSafe params _ _ λ oid. >>-IsSafe (reject_if _ _) _ (reject_if-IsSafe _ _) (
              ok_or_then-IsSafe (crypto.public_key spki) _ _ λ inner.
                >>=-IsSafe (or_panic (crypto.encode spki)) _ (or_panic-IsSafe _ (encodes_key spki))
                  λ encoded. ok_IsSafe _)

      new_with_validity-IsSafe : (entries : List Entry) → IsSafe (new_with_validity crypto entries)
      unfolding new_with_validity
      new_with_validity-IsSafe [] h = cc
      new_with_validity-IsSafe ((der, from, until) ∷ entries) h =
          ground (arith, h, new_key-IsSafe der, new_with_validity-IsSafe entries)

      pub load_ctlog_keyring-IsSafe : IsSafe (load_ctlog_keyring p json crypto)
      unfolding load_ctlog_keyring trusted_root
      load_ctlog_keyring-IsSafe = ok_or_then-IsSafe json _ _ λ root.
          >>=-IsSafe (ctlog_entries p root.ctlogs) _ (ctlog_entries-IsSafe root.ctlogs)
            λ entries. or_text-IsSafe _ _ (new_with_validity-IsSafe entries)
