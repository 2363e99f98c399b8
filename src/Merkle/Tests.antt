-- ===== src/Merkle/Tests.antt =====
-- Runs of the proof verifier over a small hasher, and its theorems at concrete inputs.
use tinfoil_rs.Prelude.{
  ℕ, ◌+◌, ◌*◌, ◌^◌, ◌≡◌, ◌↔◌, ◌⊎◌, refl, List, [], ◌∷◌, arith, ◌==◌, ==_iff, length, some,
  get_elem?,
}
use tinfoil_rs.Outcome.{ok, err, panic}
use tinfoil_rs.Word.{debug, release, leading_zeros, trailing_zeros, count_ones, shr64, sub64}
use tinfoil_rs.Merkle.Hasher.{Hasher}
use tinfoil_rs.Merkle.Proof.{
  inner_proof_size, decomp_inclusion_proof, chain_inner_from, chain_inner_right_from,
  chain_border_right, root_from_inclusion_proof, verify_inclusion, consistency_of_sizes,
  verify_consistency, wrong_proof_size, new_tree_smaller,
}
use tinfoil_rs.Merkle.Tree.{TreeHash, leaf, node}
use tinfoil_rs.Merkle.AuditPath.{AuditPath}
use tinfoil_rs.Merkle.Accept.{verify_inclusion_iff, verify_inclusion_overflow}
use tinfoil_rs.Merkle.Inclusion.{Collision, verify_inclusion_sound, verify_inclusion_complete}

-- Numbers for hashes.
abbrev digits : Hasher ℕ
digits = record {
  empty_root = 0;
  hash_leaf = λ bytes. length bytes;
  hash_children = λ a b. 10 * a + b + 1000;
  beq = λ a b. a == b;
  beq_iff = ==_iff;
  hex = λ _. "";
}

abbrev h : ℕ → ℕ → ℕ
h a b = 10 * a + b + 1000

abbrev leaves : List ℕ
leaves = 1 ∷ 2 ∷ 3 ∷ 4 ∷ 5 ∷ []

abbrev root : ℕ
root = h (h (h 1 2) (h 3 4)) 5

pair : (a b : ℕ) → TreeHash digits (a ∷ b ∷ []) (h a b)
pair a b = node 0 {xs = a ∷ []} refl (omega arith) (omega arith) (leaf a) (leaf b)

tree : TreeHash digits leaves root
tree =
    node 2 {xs = 1 ∷ 2 ∷ 3 ∷ 4 ∷ []} refl (omega arith) (omega arith)
      (node 1 {xs = 1 ∷ 2 ∷ []} refl (omega arith) (omega arith) (pair 1 2) (pair 3 4)) (leaf 5)

abbrev proof_of_third : List ℕ
proof_of_third = 4 ∷ h 1 2 ∷ 5 ∷ []

accepts_third : verify_inclusion digits debug 2 3 5 proof_of_third root ≡ ok tt
unfolding verify_inclusion root_from_inclusion_proof decomp_inclusion_proof inner_proof_size shr64
    sub64 leading_zeros count_ones chain_inner_from chain_border_right
accepts_third = refl

rejects_short : verify_inclusion digits release 2 3 5 (4 ∷ []) root ≡ err (wrong_proof_size 1 3)
unfolding verify_inclusion root_from_inclusion_proof decomp_inclusion_proof inner_proof_size shr64
    sub64 leading_zeros count_ones chain_inner_from chain_border_right
rejects_short = refl

-- From three leaves to five.
consistent : verify_consistency digits debug 3 5 (3 ∷ 4 ∷ h 1 2 ∷ 5 ∷ []) (h (h 1 2) 3) root ≡ ok tt
unfolding verify_consistency consistency_of_sizes decomp_inclusion_proof inner_proof_size shr64
    sub64 leading_zeros trailing_zeros count_ones chain_inner_from chain_inner_right_from
    chain_border_right
consistent = refl

inconsistent : verify_consistency digits debug 5 3 [] 0 0 ≡ err (new_tree_smaller 3 5)
unfolding verify_consistency
inconsistent = refl

verify_inclusion_sound_example : (get_elem? leaves 2 ≡ some 3) ⊎ Collision digits
verify_inclusion_sound_example =
    verify_inclusion_sound digits debug 2 3 root leaves proof_of_third tree (omega arith)
      accepts_third

verify_inclusion_complete_example :
    (p : List ℕ) × (verify_inclusion digits release 4 5 5 p root ≡ ok tt)
verify_inclusion_complete_example =
    verify_inclusion_complete digits release 4 5 root leaves tree (omega arith) refl

verify_inclusion_iff_example :
    (verify_inclusion digits debug 2 3 5 proof_of_third root ≡ ok tt)
    ↔ AuditPath digits 2 4 3 proof_of_third root
verify_inclusion_iff_example =
    verify_inclusion_iff digits debug 2 4 3 root proof_of_third (omega arith) (omega arith)

verify_inclusion_overflow_example :
    verify_inclusion digits debug 7 3 (2 ^ 63 + 1) proof_of_third root ≡ panic
verify_inclusion_overflow_example =
    verify_inclusion_overflow digits 7 (2 ^ 63) 3 root proof_of_third (omega arith) (omega arith)
      (omega arith)
