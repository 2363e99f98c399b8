-- ===== src/Sigstore/Rekor/Safe/Head.antt =====
-- The reading of a tree head and the check of its promise never panic (src/verifier/sigstore/rekor.rs
-- and checkpoint.rs).
use Prim.Native.String.{String}
use tinfoil_rs.Prelude.{ℕ, arith, List, [], ◌∷◌, Option, none, some}
use tinfoil_rs.Outcome.{ensure}
use tinfoil_rs.Answers.{
  IsSafe, Decides-IsSafe, >>=-IsSafe, >>-IsSafe, ok_or_then-IsSafe, ensure-IsSafe, ok_IsSafe,
}
use tinfoil_rs.Text.{codes, split}
use tinfoil_rs.Attestation.Bytes.{bytes_eq}
use tinfoil_rs.Sigstore.Dsse.{field}
use tinfoil_rs.Sigstore.Checkpoint.{
  SignedCheckpoint, hash_of, split_key, unmarshal_lines, unmarshal, signature_of_parts,
  decode_signature_line, decode_signatures, decode, verify_signature,
}
use tinfoil_rs.Sigstore.Checkpoint.Signed.{verify_signature-Decides, verify_log_signature-IsSafe}
use tinfoil_rs.Sigstore.Dsse.Safe.{or_text-IsSafe}
use tinfoil_rs.Sigstore.Trust.{RekorKey}
use tinfoil_rs.Sigstore.Rekor.Json.{RekorPackage, bytes_of, text_at}
use tinfoil_rs.Sigstore.Rekor.Head.{
  text_field, int_field, verify_signed_entry_timestamp, verify_promise, verified_root,
}
use tinfoil_rs.Sigstore.Rekor.Safe.Binding.{bytes_of-IsSafe}

module _ (p : RekorPackage) where
  open p use {bundles, logs}
  open bundles use {Value}

  hash_of-IsSafe : (bytes : Option (List ℕ)) → IsSafe (hash_of bytes)
  unfolding hash_of
  hash_of-IsSafe none h = cc
  hash_of-IsSafe (some bytes) h = ground arith

  unmarshal_lines-IsSafe : (parts : List ℕ × List (List ℕ)) → IsSafe (unmarshal_lines logs parts)
  unfolding unmarshal_lines
  unmarshal_lines-IsSafe (origin, []) h = cc
  unmarshal_lines-IsSafe (origin, size_line ∷ []) h = cc
  unmarshal_lines-IsSafe (origin, size_line ∷ (hash_line ∷ other_lines)) h =
      grind (arith, hash_of-IsSafe)

  unmarshal-IsSafe : (s : List ℕ) → IsSafe (unmarshal logs s)
  unfolding unmarshal
  unmarshal-IsSafe s = unmarshal_lines-IsSafe (split 10 s)

  split_key-IsSafe : (name sig : List ℕ) → IsSafe (split_key name sig)
  unfolding split_key
  split_key-IsSafe name sig h = ground arith

  signature_of_parts-IsSafe :
      (parts : List ℕ × List (List ℕ)) → IsSafe (signature_of_parts logs parts)
  unfolding signature_of_parts
  signature_of_parts-IsSafe (dash, []) h = cc
  signature_of_parts-IsSafe (dash, name ∷ []) h = cc
  signature_of_parts-IsSafe (dash, name ∷ (sig_b64 ∷ [])) h = grind (arith, split_key-IsSafe)
  signature_of_parts-IsSafe (dash, name ∷ (sig_b64 ∷ (other ∷ others))) h = cc

  decode_signature_line-IsSafe : (line : List ℕ) → IsSafe (decode_signature_line logs line)
  unfolding decode_signature_line
  decode_signature_line-IsSafe line h = grind (arith, signature_of_parts-IsSafe)

  decode_signatures-IsSafe : (lines : List (List ℕ)) → IsSafe (decode_signatures logs lines)
  unfolding decode_signatures
  decode_signatures-IsSafe [] h = cc
  decode_signatures-IsSafe (line ∷ lines) h =
      ground (arith, decode_signature_line-IsSafe line, decode_signatures-IsSafe lines)

  decode-IsSafe : (s : List ℕ) → IsSafe (decode logs s)
  unfolding decode
  decode-IsSafe s h = grind (arith, decode_signatures-IsSafe, unmarshal-IsSafe)

  verify_signed_entry_timestamp-IsSafe :
      (entry : Value) (key : RekorKey) → IsSafe (verify_signed_entry_timestamp p entry key)
  unfolding verify_signed_entry_timestamp text_field int_field
  verify_signed_entry_timestamp-IsSafe entry key h =
      grind (arith, or_text-IsSafe, verify_log_signature-IsSafe)

  verify_promise-IsSafe :
      (entry : Value) (version : String) (key : RekorKey)
      → IsSafe (verify_promise p entry version key)
  unfolding verify_promise
  verify_promise-IsSafe entry version key h =
      ground (arith, verify_signed_entry_timestamp-IsSafe entry key)

  verify_signature-IsSafe :
      (signed : SignedCheckpoint) (key_der : List ℕ) (key_type : String) (name log_id : List ℕ)
      → IsSafe (verify_signature logs signed key_der key_type name log_id)
  verify_signature-IsSafe signed key_der key_type name log_id =
      Decides-IsSafe (verify_signature-Decides logs signed key_der key_type name log_id)

  pub verified_root-IsSafe :
      (entry : Value) (version : String) (inclusion_proof : Value) (key : RekorKey)
      (log_id : List ℕ)
      → IsSafe (verified_root p entry version inclusion_proof key log_id)
  unfolding verified_root
  verified_root-IsSafe entry version inclusion_proof key log_id =
      ok_or_then-IsSafe (text_at bundles ("checkpoint" ∷ "envelope" ∷ []) inclusion_proof) _ _
        λ envelope.
          >>-IsSafe (verify_promise p entry version key) _ (verify_promise-IsSafe entry version key)
            (>>=-IsSafe (decode logs (codes envelope)) _ (decode-IsSafe (codes envelope)) λ signed.
              >>-IsSafe _ _
                (verify_signature-IsSafe signed key.key_der key.key_type key.host log_id)
                (>>=-IsSafe
                  (bytes_of bundles (field bundles "rootHash" inclusion_proof)
                    "Missing rootHash in inclusion proof" "Failed to decode rootHash")
                  _ (bytes_of-IsSafe p _ _ _)
                  λ root_hash.
                    >>-IsSafe (ensure (bytes_eq signed.note.hash root_hash) _) _ (ensure-IsSafe _ _)
                      (ok_IsSafe root_hash)))
