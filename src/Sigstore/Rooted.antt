-- ===== src/Sigstore/Rooted.antt =====
-- The verification of a release with the checks of the log entry and of the certificate's chain in
-- place, over the embedded trusted root (`verify_repo` of src/verifier/sigstore/mod.rs with
-- rekor.rs, fulcio.rs and trust.rs). What `tsa::verify_timestamps` answers stays an argument.
pub mod Safe
pub mod Toys
pub mod Tests
use Prim.Native.String.{String}
use tinfoil_rs.Prelude.{ℕ, Bool, ◌≡◌, List, Option}
use tinfoil_rs.Word.{Build}
use tinfoil_rs.Outcome.{Outcome, ok}
use tinfoil_rs.Answers.{>>=-parts}
use tinfoil_rs.Errors.{Error}
use tinfoil_rs.Attestation.Complete.{SigstoreResult}
use tinfoil_rs.Sigstore.Dsse.{Cert, Ring}
use tinfoil_rs.Sigstore.Trust.{
  TrustPackage, TrustedRoot, RekorKey, TimestampAuthority, FulcioCa, load_fulcio_cas,
  load_rekor_keys, load_ctlog_keyring, load_timestamp_authorities,
}
use tinfoil_rs.Sigstore.Fulcio.{FulcioPackage, find_issuer_spki, verify_fulcio_chain}
use tinfoil_rs.Sigstore.Fulcio.Chain.{IsChained, verify_fulcio_chain_sound}
use tinfoil_rs.Sigstore.Rekor.Json.{RekorPackage}
use tinfoil_rs.Sigstore.Rekor.{verify_rekor_entry}
use tinfoil_rs.Sigstore.Rekor.Included.{IsLogged, verify_rekor_entry_with_trust_sound}
use tinfoil_rs.Sigstore.Release.{FetchedRelease, InTotoStatement, StatementPackage, verify_repo}
use tinfoil_rs.Sigstore.Release.Verified.{IsVerifiedRelease, verify_repo_sound}

-- All packages, the embedded root as JSON gives it, and the verification of timestamps.
pub record RootPackage : Type 1 where
  pub rekor : RekorPackage
  pub parse_statement : List ℕ → Option (InTotoStatement rekor.bundles.Value)
  pub escape : String → String
  pub regex : String → Option (String → Bool)
  pub to_lowercase : String → String
  pub fulcio : FulcioPackage (Cert rekor.bundles)
  pub trust : TrustPackage
  pub trusted_root_json : Option TrustedRoot
  pub verify_timestamps :
      rekor.bundles.Value → List ℕ → List TimestampAuthority → Outcome Error (List ℕ × List Error)

module _ (p : RootPackage) (b : Build) where
  open p use {rekor, fulcio, trust, trusted_root_json, verify_timestamps}

  abbrev pub statements : StatementPackage
  statements = record {
    bundles = rekor.bundles;
    from_slice = rekor.from_slice;
    parse_statement = p.parse_statement;
    escape = p.escape;
    regex = p.regex;
    to_lowercase = p.to_lowercase;
  }

  abbrev pub fulcio_cas : Outcome Error (List FulcioCa)
  fulcio_cas = load_fulcio_cas trust trusted_root_json

  abbrev pub issuer_of : Cert rekor.bundles → Outcome Error (List ℕ)
  issuer_of = find_issuer_spki fulcio fulcio_cas

  abbrev pub ctlog_keyring : Outcome Error (Ring rekor.bundles)
  ctlog_keyring = load_ctlog_keyring trust trusted_root_json rekor.bundles.crypto

  abbrev pub check_entry : rekor.bundles.Value → ℕ → ℕ → Outcome Error (Unit {0})
  check_entry =
      verify_rekor_entry rekor b verify_timestamps (load_rekor_keys trust trusted_root_json)
        (load_timestamp_authorities trust trusted_root_json)

  abbrev pub check_chain : List ℕ → ℕ → Outcome Error (Unit {0})
  check_chain = verify_fulcio_chain fulcio fulcio_cas

  unfoldable pub verify_rooted_repo :
      String
      → Outcome Error FetchedRelease
      → (String → Outcome Error (List ℕ))
      → Outcome Error SigstoreResult
  unfolding verify_repo verify_rekor_entry verify_fulcio_chain find_issuer_spki load_fulcio_cas
      load_rekor_keys load_ctlog_keyring load_timestamp_authorities
  verify_rooted_repo repo fetched fetch_bundle =
      verify_repo statements issuer_of ctlog_keyring check_entry check_chain repo fetched
        fetch_bundle

  -- A verified release whose bundle is logged and whose certificate is chained, by the keys and the
  -- authorities of the trusted root.
  pub record IsRooted (repo : String) (fetched : Outcome Error FetchedRelease)
      (fetch_bundle : String → Outcome Error (List ℕ)) (result : SigstoreResult) : Type 0 where
    pub verified :
        IsVerifiedRelease statements issuer_of ctlog_keyring check_entry check_chain repo fetched
          fetch_bundle result
    pub keys : List RekorKey
    pub authorities : List TimestampAuthority
    pub has_keys : load_rekor_keys trust trusted_root_json ≡ ok keys
    pub has_authorities : load_timestamp_authorities trust trusted_root_json ≡ ok authorities
    pub logged :
        IsLogged rekor b verify_timestamps verified.bundle verified.validity.1 verified.validity.2
          keys authorities
    pub chained : IsChained fulcio fulcio_cas verified.validity.0 verified.validity.1

  entry_parts :
      (bundle : rekor.bundles.Value) (from until : ℕ)
      → check_entry bundle from until ≡ ok tt
      → (keys : List RekorKey) × (authorities : List TimestampAuthority) × (load_rekor_keys trust
            trusted_root_json
          ≡ ok keys)
        × (load_timestamp_authorities trust trusted_root_json ≡ ok authorities)
        × IsLogged rekor b verify_timestamps bundle from until keys authorities
  unfolding verify_rekor_entry
  entry_parts bundle from until h =
      let (keys, e1, h1) = >>=-parts (load_rekor_keys trust trusted_root_json) h in
      let (authorities, e2, h2) =
        >>=-parts (load_timestamp_authorities trust trusted_root_json) h1 in
      (
        keys,
        authorities,
        e1,
        e2,
        verify_rekor_entry_with_trust_sound rekor b verify_timestamps bundle from until keys
            authorities h2,
      )

  -- A release that passes is verified, and over the same bundle and certificate: its only log entry
  -- passes under the log keys and timestamp authorities of the trusted root, within the
  -- certificate's validity, and the certificate hangs on an authority of the trusted root that is
  -- valid at the start of that validity.
  pub verify_rooted_repo_sound :
      (repo : String) (fetched : Outcome Error FetchedRelease)
      (fetch_bundle : String → Outcome Error (List ℕ)) (result : SigstoreResult)
      → verify_rooted_repo repo fetched fetch_bundle ≡ ok result
      → IsRooted repo fetched fetch_bundle result
  unfolding verify_rooted_repo
  verify_rooted_repo_sound repo fetched fetch_bundle result h =
      let verified =
        verify_repo_sound statements issuer_of ctlog_keyring check_entry check_chain repo fetched
          fetch_bundle result h in
      let (keys, authorities, e1, e2, logged) =
        entry_parts verified.bundle verified.validity.1 verified.validity.2 verified.logged in
      record {
        verified = verified;
        keys = keys;
        authorities = authorities;
        has_keys = e1;
        has_authorities = e2;
        logged = logged;
        chained =
            verify_fulcio_chain_sound fulcio fulcio_cas verified.validity.0 verified.validity.1
              verified.chained;
      }
