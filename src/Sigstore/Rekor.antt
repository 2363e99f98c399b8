-- ===== src/Sigstore/Rekor.antt =====
-- The entry of a bundle in the transparency log (src/verifier/sigstore/rekor.rs). The packages for
-- JSON, keys, hashes and PEM are parameters, and what `tsa::verify_timestamps` answers is an
-- argument. The children have the parts: the entry and its time, the tree head, the checks that bind an
-- entry to its bundle, and the proof. The messages of errors are texts without the values that they
-- print.
pub mod Json
pub mod Binding
pub mod Observed
pub mod Head
pub mod Proof
pub mod Logged
pub mod Timed
pub mod Bound
pub mod Anchored
pub mod Included
pub mod InTree
pub mod Safe
use Prim.Native.String.{String}
use tinfoil_rs.Prelude.{ℕ, List, [], ◌∷◌}
use tinfoil_rs.Word.{Build}
use tinfoil_rs.Outcome.{Outcome, ◌>>=◌, ◌>>◌, ok_or}
use tinfoil_rs.Errors.{Error}
use tinfoil_rs.Sigstore.Dsse.{failure}
use tinfoil_rs.Sigstore.Checkpoint.{decode}
use tinfoil_rs.Sigstore.Trust.{RekorKey, TimestampAuthority}
use tinfoil_rs.Sigstore.Rekor.Json.{
  RekorPackage, get_path, or_default, text_at, entry_kind, entry_version,
}
use tinfoil_rs.Sigstore.Rekor.Binding.{bundle_dsse_signature, verify_kind_version}
use tinfoil_rs.Sigstore.Rekor.Observed.{tlog_entry, entry_body, check_times, observer_time}
use tinfoil_rs.Sigstore.Rekor.Head.{find_key, verified_root}
use tinfoil_rs.Sigstore.Rekor.Proof.{verify_included}

module _ (p : RekorPackage) where
  open p use {bundles, logs, as_u64, from_slice, hex, Output, hasher, to_output}
  open bundles use {Value, get, as_str, as_array, decode_b64}

  -- From the observer time on.
  unfoldable pub verify_entry_at :
      Build → Value → Value → List ℕ → String → ℕ → List RekorKey → Outcome Error (Unit {0})
  unfolding get_path find_key verified_root verify_included
  verify_entry_at b bundle entry body_bytes version time rekor_keys = do
    inclusion_proof ←
        ok_or (get "inclusionProof" entry) (failure "Missing inclusion proof in tlog entry")
    log_id ←
        ok_or (text_at bundles ("logId" ∷ "keyId" ∷ []) entry)
          (failure "Missing logId in tlog entry")
    log_id_bytes ← ok_or (decode_b64 log_id) (failure "Failed to decode logId")
    rekor_key ← ok_or (find_key rekor_keys log_id time) (failure "No Rekor key valid at the time")
    root_hash ← verified_root p entry version inclusion_proof rekor_key log_id_bytes
    verify_included p b bundle body_bytes inclusion_proof root_hash

  module _ (b : Build)
      (verify_timestamps : Value
        → List ℕ
        → List TimestampAuthority
        → Outcome Error (List ℕ × List Error)) where
    unfoldable pub verify_rekor_entry_with_trust :
        Value → ℕ → ℕ → List RekorKey → List TimestampAuthority → Outcome Error (Unit {0})
    unfolding tlog_entry entry_body verify_kind_version bundle_dsse_signature check_times
        observer_time verify_entry_at
    verify_rekor_entry_with_trust bundle cert_not_before cert_not_after rekor_keys authorities = do
      entry ← tlog_entry p bundle
      body_bytes ← entry_body p entry
      verify_kind_version p entry body_bytes
      signature ← bundle_dsse_signature p bundle
      tsa ← verify_timestamps bundle signature authorities
      check_times cert_not_before cert_not_after tsa.0
      time ←
          observer_time p entry (or_default (entry_kind bundles entry) "")
            (or_default (entry_version bundles entry) "") cert_not_before cert_not_after tsa.0
      verify_entry_at b bundle entry body_bytes (or_default (entry_version bundles entry) "") time
          rekor_keys

    -- With the embedded trust root.
    unfoldable pub verify_rekor_entry :
        Outcome Error (List RekorKey)
        → Outcome Error (List TimestampAuthority)
        → Value
        → ℕ
        → ℕ
        → Outcome Error (Unit {0})
    unfolding verify_rekor_entry_with_trust
    verify_rekor_entry load_keys load_authorities bundle cert_not_before cert_not_after = do
      rekor_keys ← load_keys
      authorities ← load_authorities
      verify_rekor_entry_with_trust bundle cert_not_before cert_not_after rekor_keys authorities
