-- ===== src/Sigstore/Rooted/Safe.antt =====
-- No release makes its verification panic in a release build (src/verifier/sigstore/mod.rs).
use Prim.Native.String.{String}
use tinfoil_rs.Prelude.{ℕ, ◌≢◌, arith, List, [], ◌∷◌, none}
use tinfoil_rs.Word.{release}
use tinfoil_rs.Outcome.{Outcome}
use tinfoil_rs.Answers.{IsSafe, Decides-IsSafe, >>=-IsSafe}
use tinfoil_rs.Errors.{Error}
use tinfoil_rs.Sigstore.Dsse.Safe.{IsReliable}
use tinfoil_rs.Sigstore.Trust.{
  FulcioCa, TimestampAuthority, load_rekor_keys, load_timestamp_authorities,
}
use tinfoil_rs.Sigstore.Trust.Safe.{
  load_timestamp_authorities-IsSafe, load_rekor_keys-IsSafe, load_fulcio_cas-IsSafe,
  load_ctlog_keyring-IsSafe,
}
use tinfoil_rs.Sigstore.Fulcio.{FulcioPackage, issuer_spki_in, find_issuer_spki}
use tinfoil_rs.Sigstore.Fulcio.Trusted.{verify_fulcio_chain-Decides}
use tinfoil_rs.Sigstore.Rekor.{verify_rekor_entry}
use tinfoil_rs.Sigstore.Rekor.Safe.{verify_rekor_entry_with_trust-IsSafe}
use tinfoil_rs.Sigstore.Release.{FetchedRelease}
use tinfoil_rs.Sigstore.Release.Safe.{verify_repo-IsSafe}
use tinfoil_rs.Sigstore.Rooted.{
  RootPackage, statements, fulcio_cas, issuer_of, ctlog_keyring, check_entry, check_chain,
  verify_rooted_repo,
}

module _ {Certificate : Type 0} (p : FulcioPackage Certificate) where
  issuer_spki_in-IsSafe :
      (cert : Certificate) (cas : List FulcioCa) → IsSafe (issuer_spki_in p cert cas)
  unfolding issuer_spki_in
  issuer_spki_in-IsSafe cert [] h = cc
  issuer_spki_in-IsSafe cert (ca ∷ cas) h = ground (arith, h, issuer_spki_in-IsSafe cert cas)

  find_issuer_spki-IsSafe :
      (load_fulcio_cas : Outcome Error (List FulcioCa)) (cert : Certificate)
      → IsSafe load_fulcio_cas
      → IsSafe (find_issuer_spki p load_fulcio_cas cert)
  unfolding find_issuer_spki
  find_issuer_spki-IsSafe load_fulcio_cas cert safe =
      >>=-IsSafe load_fulcio_cas _ safe (issuer_spki_in-IsSafe cert)

module _ (p : RootPackage) where
  open p use {rekor, fulcio, trust, trusted_root_json, verify_timestamps}

  check_entry-IsSafe :
      ((bundle : rekor.bundles.Value) (signature : List ℕ) (authorities : List TimestampAuthority)
        → IsSafe (verify_timestamps bundle signature authorities))
      → (bundle : rekor.bundles.Value) (from until : ℕ)
      → IsSafe (check_entry p release bundle from until)
  unfolding verify_rekor_entry
  check_entry-IsSafe stamps bundle from until =
      >>=-IsSafe (load_rekor_keys trust trusted_root_json) _
        (load_rekor_keys-IsSafe trust trusted_root_json)
        λ keys.
          >>=-IsSafe (load_timestamp_authorities trust trusted_root_json) _
            (load_timestamp_authorities-IsSafe trust trusted_root_json)
            (verify_rekor_entry_with_trust-IsSafe rekor verify_timestamps stamps bundle from until
              keys)

  -- Over any trusted root and any release, the verification of a release answers a result or an
  -- error, if the fetches, the parsers and the verification of timestamps do not panic and if every
  -- certificate and key that is parsed can be encoded again.
  pub verify_rooted_repo-IsSafe :
      IsReliable rekor.bundles.x509
      → ((spki : rekor.bundles.crypto.Spki) → rekor.bundles.crypto.encode spki ≢ none)
      → ((bundle : rekor.bundles.Value) (signature : List ℕ) (authorities : List TimestampAuthority)
          → IsSafe (verify_timestamps bundle signature authorities))
      → (repo : String) (fetched : Outcome Error FetchedRelease)
        (fetch_bundle : String → Outcome Error (List ℕ))
      → IsSafe fetched
      → ((digest : String) → IsSafe (fetch_bundle digest))
      → IsSafe (verify_rooted_repo p release repo fetched fetch_bundle)
  unfolding verify_rooted_repo
  verify_rooted_repo-IsSafe reliable encodes_key stamps repo fetched fetch_bundle fetches
        bundles_fetched =
      verify_repo-IsSafe (statements p release) reliable (issuer_of p release)
        (ctlog_keyring p release) (check_entry p release) (check_chain p release)
        (λ cert.
          find_issuer_spki-IsSafe fulcio (fulcio_cas p release) cert
            (load_fulcio_cas-IsSafe trust trusted_root_json))
        (load_ctlog_keyring-IsSafe trust trusted_root_json rekor.bundles.crypto encodes_key)
        (check_entry-IsSafe stamps)
        (λ der time. Decides-IsSafe (
          verify_fulcio_chain-Decides fulcio (fulcio_cas p release) der time
            (load_fulcio_cas-IsSafe trust trusted_root_json)))
        repo fetched fetch_bundle fetches bundles_fetched
