-- ===== src/Merkle/Safe.antt =====
-- No proof makes a release build panic (src/verifier/sigstore/merkle/proof_verification.rs).
use tinfoil_rs.Prelude.{ℕ, List, arith}
use tinfoil_rs.Word.{release, shr64, sub64}
use tinfoil_rs.Answers.{IsSafe, >>=-IsSafe, >>-IsSafe, ensure-IsSafe, reject_if-IsSafe, ok_IsSafe}
use tinfoil_rs.Merkle.Hasher.{Hasher}
use tinfoil_rs.Merkle.Proof.{
  inner_proof_size, decomp_inclusion_proof, root_from_inclusion_proof, verify_inclusion,
}

module _ {E : Type 0} where
  sub64-IsSafe : (a b : ℕ) → IsSafe (sub64 {E = E} release a b)
  unfolding sub64
  sub64-IsSafe a b h = ground arith

  shr64-IsSafe : (x s : ℕ) → IsSafe (shr64 {E = E} release x s)
  unfolding shr64
  shr64-IsSafe x s h = ground arith

decomp_inclusion_proof-IsSafe :
    (index tree_size : ℕ) → IsSafe (decomp_inclusion_proof release index tree_size)
unfolding decomp_inclusion_proof inner_proof_size
decomp_inclusion_proof-IsSafe index tree_size =
    >>=-IsSafe (inner_proof_size release index tree_size) _
      (>>=-IsSafe _ _ (sub64-IsSafe tree_size 1) λ last. ok_IsSafe _)
      λ inner. >>=-IsSafe _ _ (shr64-IsSafe index inner) λ upper. ok_IsSafe _

module _ {O : Type 0} (hasher : Hasher O) where
  pub verify_inclusion-IsSafe :
      (index : ℕ) (leaf_hash : O) (tree_size : ℕ) (proof_hashes : List O) (root_hash : O)
      → IsSafe (verify_inclusion hasher release index leaf_hash tree_size proof_hashes root_hash)
  unfolding verify_inclusion root_from_inclusion_proof
  verify_inclusion-IsSafe index leaf_hash tree_size proof_hashes root_hash =
      >>-IsSafe _ _ (reject_if-IsSafe _ _) (
        >>=-IsSafe (root_from_inclusion_proof hasher release index leaf_hash tree_size proof_hashes)
          _
          (>>-IsSafe _ _ (reject_if-IsSafe _ _) (
            >>=-IsSafe _ _ (decomp_inclusion_proof-IsSafe index tree_size)
              λ sizes. >>-IsSafe _ _ (ensure-IsSafe _ _) (ok_IsSafe _)))
          λ calc_root. ensure-IsSafe _ _)
