-- ===== src/Sigstore/Rekor/Anchored.antt =====
-- The tree head of an entry and its place in the tree (src/verifier/sigstore/rekor.rs).
use Prim.Native.String.{String}
use tinfoil_rs.Prelude.{ℕ, ◌≡◌, List, [], ◌∷◌, some}
use tinfoil_rs.Word.{Build}
use tinfoil_rs.Outcome.{ok, ok_or}
use tinfoil_rs.Answers.{>>=-parts, ok_or_found}
use tinfoil_rs.Text.{codes, parse_u64}
use tinfoil_rs.Merkle.Proof.{verify_inclusion}
use tinfoil_rs.Sigstore.Dsse.{failure, and_then, field}
use tinfoil_rs.Sigstore.Dsse.Scts.{Any}
use tinfoil_rs.Sigstore.Dsse.Envelope.{or_text_kept}
use tinfoil_rs.Sigstore.Trust.{RekorKey}
use tinfoil_rs.Sigstore.Rekor.Json.{RekorPackage, text_at}
use tinfoil_rs.Sigstore.Rekor.Head.{find_key, verified_root, verify_promise}
use tinfoil_rs.Sigstore.Rekor.Binding.{
  verify_certificate_binding, verify_signature_binding, verify_payload_hash_binding,
}
use tinfoil_rs.Sigstore.Rekor.Proof.{u64_field, proof_hashes, all_outputs, verify_included}
use tinfoil_rs.Sigstore.Rekor.Logged.{IsKeyAt, IsHead, find_key_sound, verified_root_sound}
use tinfoil_rs.Sigstore.Rekor.Bound.{IsBound, bindings_sound}
use tinfoil_rs.Sigstore.Rekor.{verify_entry_at}

module _ (p : RekorPackage) (b : Build) where
  open p use {bundles, hasher, Output, to_output}
  open bundles use {Value, get, as_array, decode_b64}

  -- The body is bound to the bundle, and a proof that it is in the tree is accepted.
  pub record IsIncluded (bundle : Value) (body : List ℕ) (inclusion_proof : Value)
      (root_hash : List ℕ) : Type 0 where
    pub index : ℕ
    pub size : ℕ
    pub proof : List Output
    pub root : Output
    pub has_index :
        and_then (field bundles "logIndex" inclusion_proof) (λ s. parse_u64 (codes s)) ≡ some index
    pub has_size :
        and_then (field bundles "treeSize" inclusion_proof) (λ s. parse_u64 (codes s)) ≡ some size
    pub is_root : to_output root_hash ≡ some root
    pub bound : IsBound p bundle body
    pub accepted : verify_inclusion hasher b index (hasher.hash_leaf body) size proof root ≡ ok tt

  verify_included_sound :
      (bundle : Value) (body : List ℕ) (inclusion_proof : Value) (root_hash : List ℕ)
      → verify_included p b bundle body inclusion_proof root_hash ≡ ok tt
      → IsIncluded bundle body inclusion_proof root_hash
  unfolding verify_included u64_field
  verify_included_sound bundle body inclusion_proof root_hash h =
      let (index, e1, h1) =
        >>=-parts (u64_field p "logIndex" inclusion_proof "Missing logIndex in inclusion proof")
          h in
      let (size, e2, h2) =
        >>=-parts (u64_field p "treeSize" inclusion_proof "Missing treeSize in inclusion proof")
          h1 in
      let (hashes, e3, h3) = >>=-parts (proof_hashes p inclusion_proof) h2 in
      let (_, e4, h4) = >>=-parts (verify_certificate_binding p bundle body) h3 in
      let (_, e5, h5) = >>=-parts (verify_signature_binding p bundle body) h4 in
      let (_, e6, h6) = >>=-parts (verify_payload_hash_binding p bundle body) h5 in
      let (proof, e7, h7) = >>=-parts (all_outputs p hashes) h6 in
      let (root, e8, h8) =
        >>=-parts
          (ok_or (to_output root_hash) (failure "Invalid root hash length (expected 32 bytes)"))
          h7 in
      record {
        index = index;
        size = size;
        proof = proof;
        root = root;
        has_index = ok_or_found _ _ e1;
        has_size = ok_or_found _ _ e2;
        is_root = ok_or_found _ _ e8;
        bound = bindings_sound p bundle body e4 e5 e6;
        accepted =
            or_text_kept (verify_inclusion hasher b index (hasher.hash_leaf body) size proof root)
              "Merkle inclusion proof verification failed" h8;
      }

  -- What is established of an entry at its time.
  pub record IsAnchored (bundle entry : Value) (body : List ℕ) (version : String) (time : ℕ)
      (keys : List RekorKey) : Type 0 where
    pub key : RekorKey
    pub inclusion_proof : Value
    pub log_id : String
    pub log_id_bytes : List ℕ
    pub root_hash : List ℕ
    pub trusted : Any (λ k. k ≡ key) keys
    pub key_at : IsKeyAt log_id time key
    pub has_log_id : text_at bundles ("logId" ∷ "keyId" ∷ []) entry ≡ some log_id
    pub log_id_decodes : decode_b64 log_id ≡ some log_id_bytes
    pub has_proof : get "inclusionProof" entry ≡ some inclusion_proof
    pub head : IsHead p inclusion_proof key log_id_bytes root_hash
    pub promised : verify_promise p entry version key ≡ ok tt
    pub included : IsIncluded bundle body inclusion_proof root_hash

  pub verify_entry_at_sound :
      (bundle entry : Value) (body : List ℕ) (version : String) (time : ℕ) (keys : List RekorKey)
      → verify_entry_at p b bundle entry body version time keys ≡ ok tt
      → IsAnchored bundle entry body version time keys
  unfolding verify_entry_at
  verify_entry_at_sound bundle entry body version time keys h =
      let (inclusion_proof, e1, h1) =
        >>=-parts
          (ok_or (get "inclusionProof" entry) (failure "Missing inclusion proof in tlog entry"))
          h in
      let (log_id, e2, h2) =
        >>=-parts
          (ok_or (text_at bundles ("logId" ∷ "keyId" ∷ []) entry)
            (failure "Missing logId in tlog entry"))
          h1 in
      let (log_id_bytes, e3, h3) =
        >>=-parts (ok_or (decode_b64 log_id) (failure "Failed to decode logId")) h2 in
      let (key, e4, h4) =
        >>=-parts (ok_or (find_key keys log_id time) (failure "No Rekor key valid at the time"))
          h3 in
      let (root_hash, e5, h5) =
        >>=-parts (verified_root p entry version inclusion_proof key log_id_bytes) h4 in
      let (head, promised) =
        verified_root_sound p entry version inclusion_proof key log_id_bytes root_hash e5 in
      let (key_at, trusted) = find_key_sound keys log_id time (ok_or_found _ _ e4) in
      record {
        key = key;
        inclusion_proof = inclusion_proof;
        log_id = log_id;
        log_id_bytes = log_id_bytes;
        root_hash = root_hash;
        trusted = trusted;
        key_at = key_at;
        has_log_id = ok_or_found _ _ e2;
        log_id_decodes = ok_or_found _ _ e3;
        has_proof = ok_or_found _ _ e1;
        head = head;
        promised = promised;
        included = verify_included_sound bundle body inclusion_proof root_hash h5;
      }
