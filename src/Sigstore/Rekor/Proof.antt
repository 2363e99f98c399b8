-- ===== src/Sigstore/Rekor/Proof.antt =====
-- The proof that an entry is in the tree (src/verifier/sigstore/rekor.rs).
use Prim.Native.String.{String}
use tinfoil_rs.Prelude.{ℕ, List, [], ◌∷◌}
use tinfoil_rs.Word.{Build}
use tinfoil_rs.Outcome.{Outcome, ok, ◌>>=◌, ◌>>◌, ok_or}
use tinfoil_rs.Text.{codes, parse_u64}
use tinfoil_rs.Errors.{Error}
use tinfoil_rs.Merkle.Proof.{verify_inclusion}
use tinfoil_rs.Sigstore.Certificate.{or_text}
use tinfoil_rs.Sigstore.Dsse.{failure, and_then, field}
use tinfoil_rs.Sigstore.Rekor.Json.{RekorPackage}
use tinfoil_rs.Sigstore.Rekor.Binding.{
  verify_certificate_binding, verify_signature_binding, verify_payload_hash_binding,
}

module _ (p : RekorPackage) where
  open p use {bundles, logs, as_u64, from_slice, hex, Output, hasher, to_output}
  open bundles use {Value, get, as_str, as_array, decode_b64}

  unfoldable pub u64_field : String → Value → String → Outcome Error ℕ
  unfolding parse_u64
  u64_field name value missing =
      ok_or (and_then (field bundles name value) (λ s. parse_u64 (codes s))) (failure missing)

  unfoldable pub all_texts : List Value → Outcome Error (List String)
  all_texts [] = ok []
  all_texts (value ∷ values) = do
    text ← ok_or (as_str value) (failure "Non-string element in inclusion proof hashes")
    texts ← all_texts values
    ok (text ∷ texts)

  unfoldable pub all_bytes : List String → Outcome Error (List (List ℕ))
  all_bytes [] = ok []
  all_bytes (text ∷ texts) = do
    bytes ← ok_or (decode_b64 text) (failure "Failed to decode proof hash")
    others ← all_bytes texts
    ok (bytes ∷ others)

  unfoldable pub all_outputs : List (List ℕ) → Outcome Error (List Output)
  all_outputs [] = ok []
  all_outputs (bytes ∷ others) = do
    output ← ok_or (to_output bytes) (failure "Invalid proof hash length (expected 32 bytes)")
    outputs ← all_outputs others
    ok (output ∷ outputs)

  unfoldable pub proof_hashes : Value → Outcome Error (List (List ℕ))
  unfolding all_texts all_bytes
  proof_hashes inclusion_proof = do
    values ←
        ok_or (and_then (get "hashes" inclusion_proof) as_array)
          (failure "Missing hashes in inclusion proof")
    texts ← all_texts values
    all_bytes texts

  -- The entry is about the bundle, and its body is in the tree.
  unfoldable pub verify_included :
      Build → Value → List ℕ → Value → List ℕ → Outcome Error (Unit {0})
  unfolding u64_field proof_hashes verify_certificate_binding verify_signature_binding
      verify_payload_hash_binding all_outputs verify_inclusion or_text
  verify_included b bundle body_bytes inclusion_proof root_hash = do
    log_index ← u64_field "logIndex" inclusion_proof "Missing logIndex in inclusion proof"
    tree_size ← u64_field "treeSize" inclusion_proof "Missing treeSize in inclusion proof"
    hashes ← proof_hashes inclusion_proof
    verify_certificate_binding p bundle body_bytes
    verify_signature_binding p bundle body_bytes
    verify_payload_hash_binding p bundle body_bytes
    proof_outputs ← all_outputs hashes
    root_output ←
        ok_or (to_output root_hash) (failure "Invalid root hash length (expected 32 bytes)")
    or_text
        (verify_inclusion hasher b log_index (hasher.hash_leaf body_bytes) tree_size proof_outputs
          root_output)
        "Merkle inclusion proof verification failed"
