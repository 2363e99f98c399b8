-- ===== src/Sigstore/Rekor/Safe.antt =====
-- No bundle makes the verification of its log entry panic in a release build
-- (src/verifier/sigstore/rekor.rs).
pub mod Binding
pub mod Head
use Prim.Native.String.{String}
use tinfoil_rs.Prelude.{ℕ, arith, List, [], ◌∷◌}
use tinfoil_rs.Word.{release}
use tinfoil_rs.Outcome.{Outcome, ok, err}
use tinfoil_rs.Answers.{IsSafe, >>=-IsSafe, >>-IsSafe, ok_or_then-IsSafe}
use tinfoil_rs.Errors.{Error}
use tinfoil_rs.Merkle.Safe.{verify_inclusion-IsSafe}
use tinfoil_rs.Sigstore.Dsse.{and_then, failure}
use tinfoil_rs.Sigstore.Trust.{RekorKey, TimestampAuthority}
use tinfoil_rs.Sigstore.Rekor.Json.{
  RekorPackage, get_path, text_at, or_default, entry_kind, entry_version,
}
use tinfoil_rs.Sigstore.Rekor.Binding.{bundle_dsse_signature}
use tinfoil_rs.Sigstore.Rekor.Observed.{
  tlog_entry, entry_body, check_times, integrated_time, observer_time,
}
use tinfoil_rs.Sigstore.Rekor.Head.{find_key, verified_root}
use tinfoil_rs.Sigstore.Rekor.Proof.{
  u64_field, all_texts, all_bytes, all_outputs, proof_hashes, verify_included,
}
use tinfoil_rs.Sigstore.Rekor.{verify_entry_at, verify_rekor_entry_with_trust}
use tinfoil_rs.Sigstore.Rekor.Safe.Binding.{
  bytes_of-IsSafe, bundle_dsse_signature-IsSafe, verify_kind_version-IsSafe,
  verify_certificate_binding-IsSafe, verify_signature_binding-IsSafe,
  verify_payload_hash_binding-IsSafe,
}
use tinfoil_rs.Sigstore.Rekor.Safe.Head.{verified_root-IsSafe}
use tinfoil_rs.Sigstore.Dsse.Safe.{or_text-IsSafe}

check_times-IsSafe : (from until : ℕ) (times : List ℕ) → IsSafe (check_times from until times)
unfolding check_times
check_times-IsSafe from until [] h = cc
check_times-IsSafe from until (t ∷ times) h = ground (arith, check_times-IsSafe from until times)

module _ (p : RekorPackage) where
  open p use {bundles, hasher, Output, to_output}
  open bundles use {Value, get, as_array, decode_b64}

  only_IsSafe :
      (entries : List Value)
      → IsSafe {E = Error} (elim entries [
        | [] ↦ err (failure "Expected exactly 1 tlog entry")
        | entry ∷ others ↦ elim others [
          | [] ↦ ok entry
          | _ ∷ _ ↦ err (failure "Expected exactly 1 tlog entry")
        ]
      ])
  only_IsSafe [] h = cc
  only_IsSafe (entry ∷ []) h = cc
  only_IsSafe (entry ∷ (other ∷ others)) h = cc

  tlog_entry-IsSafe : (bundle : Value) → IsSafe (tlog_entry p bundle)
  unfolding tlog_entry
  tlog_entry-IsSafe bundle =
      ok_or_then-IsSafe
        (and_then (get_path bundles ("verificationMaterial" ∷ "tlogEntries" ∷ []) bundle) as_array)
        _ _ only_IsSafe

  entry_body-IsSafe : (entry : Value) → IsSafe (entry_body p entry)
  unfolding entry_body
  entry_body-IsSafe entry = bytes_of-IsSafe p _ _ _

  integrated_time-IsSafe :
      (entry : Value) (from until : ℕ) → IsSafe (integrated_time p entry from until)
  unfolding integrated_time
  integrated_time-IsSafe entry from until h = ground arith

  observer_time-IsSafe :
      (entry : Value) (kind version : String) (from until : ℕ) (times : List ℕ)
      → IsSafe (observer_time p entry kind version from until times)
  unfolding observer_time
  observer_time-IsSafe entry kind version from until times h =
      ground (arith, integrated_time-IsSafe entry from until)

  u64_field-IsSafe :
      (name : String) (value : Value) (missing : String) → IsSafe (u64_field p name value missing)
  unfolding u64_field
  u64_field-IsSafe name value missing h = ground arith

  all_texts-IsSafe : (values : List Value) → IsSafe (all_texts p values)
  unfolding all_texts
  all_texts-IsSafe [] h = cc
  all_texts-IsSafe (value ∷ values) h = ground (arith, all_texts-IsSafe values)

  all_bytes-IsSafe : (texts : List String) → IsSafe (all_bytes p texts)
  unfolding all_bytes
  all_bytes-IsSafe [] h = cc
  all_bytes-IsSafe (text ∷ texts) h = ground (arith, all_bytes-IsSafe texts)

  all_outputs-IsSafe : (hashes : List (List ℕ)) → IsSafe (all_outputs p hashes)
  unfolding all_outputs
  all_outputs-IsSafe [] h = cc
  all_outputs-IsSafe (hash ∷ hashes) h = ground (arith, all_outputs-IsSafe hashes)

  proof_hashes-IsSafe : (inclusion_proof : Value) → IsSafe (proof_hashes p inclusion_proof)
  unfolding proof_hashes
  proof_hashes-IsSafe inclusion_proof =
      ok_or_then-IsSafe (and_then (get "hashes" inclusion_proof) as_array) _ _
        λ values. >>=-IsSafe (all_texts p values) _ (all_texts-IsSafe values) all_bytes-IsSafe

  verify_included-IsSafe :
      (bundle : Value) (body : List ℕ) (inclusion_proof : Value) (root_hash : List ℕ)
      → IsSafe (verify_included p release bundle body inclusion_proof root_hash)
  unfolding verify_included
  verify_included-IsSafe bundle body inclusion_proof root_hash =
      >>=-IsSafe (u64_field p "logIndex" inclusion_proof _) _ (u64_field-IsSafe _ _ _) λ index.
        >>=-IsSafe (u64_field p "treeSize" inclusion_proof _) _ (u64_field-IsSafe _ _ _) λ size.
          >>=-IsSafe (proof_hashes p inclusion_proof) _ (proof_hashes-IsSafe inclusion_proof)
            λ hashes. >>-IsSafe _ _ (verify_certificate_binding-IsSafe p bundle body) (
              >>-IsSafe _ _ (verify_signature_binding-IsSafe p bundle body) (
                >>-IsSafe _ _ (verify_payload_hash_binding-IsSafe p bundle body) (
                  >>=-IsSafe _ _ (all_outputs-IsSafe hashes) λ outputs.
                    ok_or_then-IsSafe (to_output root_hash) _ _ λ root. or_text-IsSafe _ _ (
                      verify_inclusion-IsSafe hasher index (hasher.hash_leaf body) size outputs
                        root))))

  verify_entry_at-IsSafe :
      (bundle entry : Value) (body : List ℕ) (version : String) (time : ℕ) (keys : List RekorKey)
      → IsSafe (verify_entry_at p release bundle entry body version time keys)
  unfolding verify_entry_at
  verify_entry_at-IsSafe bundle entry body version time keys =
      ok_or_then-IsSafe (get "inclusionProof" entry) _ _ λ inclusion_proof.
        ok_or_then-IsSafe (text_at bundles ("logId" ∷ "keyId" ∷ []) entry) _ _ λ log_id.
          ok_or_then-IsSafe (decode_b64 log_id) _ _ λ log_id_bytes.
            ok_or_then-IsSafe (find_key keys log_id time) _ _ λ key.
              >>=-IsSafe (verified_root p entry version inclusion_proof key log_id_bytes) _
                (verified_root-IsSafe p entry version inclusion_proof key log_id_bytes)
                λ root_hash. verify_included-IsSafe bundle body inclusion_proof root_hash

  -- A release build never panics on a bundle, whatever its JSON and for any keys, if the verification
  -- of timestamps does not: it passes the entry or answers an error.
  pub verify_rekor_entry_with_trust-IsSafe :
      (verify_timestamps : Value
        → List ℕ
        → List TimestampAuthority
        → Outcome Error (List ℕ × List Error))
      → ((bundle : Value) (signature : List ℕ) (authorities : List TimestampAuthority)
          → IsSafe (verify_timestamps bundle signature authorities))
      → (bundle : Value) (from until : ℕ) (keys : List RekorKey)
        (authorities : List TimestampAuthority)
      → IsSafe (
          verify_rekor_entry_with_trust p release verify_timestamps bundle from until keys
            authorities)
  unfolding verify_rekor_entry_with_trust
  verify_rekor_entry_with_trust-IsSafe verify_timestamps safe bundle from until keys authorities =
      >>=-IsSafe (tlog_entry p bundle) _ (tlog_entry-IsSafe bundle) λ entry.
        >>=-IsSafe (entry_body p entry) _ (entry_body-IsSafe entry) λ body.
          >>-IsSafe _ _ (verify_kind_version-IsSafe p entry body) (
            >>=-IsSafe (bundle_dsse_signature p bundle) _ (bundle_dsse_signature-IsSafe p bundle)
              λ signature. >>=-IsSafe _ _ (safe bundle signature authorities) λ tsa.
                >>-IsSafe _ _ (check_times-IsSafe from until tsa.0) (
                  >>=-IsSafe _ _
                    (observer_time-IsSafe entry (or_default (entry_kind bundles entry) "")
                      (or_default (entry_version bundles entry) "") from until tsa.0)
                    λ time.
                      verify_entry_at-IsSafe bundle entry body
                        (or_default (entry_version bundles entry) "") time keys))
