-- ===== src/Merkle/Proof.antt =====
-- `MerkleProofVerifier` of src/verifier/sigstore/merkle/proof_verification.rs. A `u64` is a number
-- below 2 ^ 64; the operations that may overflow take the build, whose checks panic or wrap.
use Prim.Native.Nat.{bit_xor, compare, Ordering}
use Prim.Native.String.{String}
use tinfoil_rs.Prelude.{
  ℕ, suc, ◌+◌, ◌-◌, ◌/◌, ◌^◌, List, [], ◌∷◌, leb, ◌==◌, if◌then◌else◌, length, take, drop,
}
use tinfoil_rs.Outcome.{Outcome, ok, err, ◌>>=◌, ◌>>◌, ensure, reject_if}
use tinfoil_rs.Word.{Build, leading_zeros, trailing_zeros, count_ones, bit, shr64, sub64}
use tinfoil_rs.Merkle.Hasher.{Hasher}

pub data MerkleProofError : Type 0 where
  -- expected, got
  mismatched_root : String → String → MerkleProofError
  index_gt_tree_size : MerkleProofError
  unexpected_non_empty_proof : MerkleProofError
  unexpected_empty_proof : MerkleProofError
  -- new, old
  new_tree_smaller : ℕ → ℕ → MerkleProofError
  -- got, want
  wrong_proof_size : ℕ → ℕ → MerkleProofError
  wrong_empty_tree_hash : MerkleProofError

abbrev pub Checked : Type 0 → Type 0
Checked = Outcome MerkleProofError

-- `u64::BITS - (index ^ (tree_size - 1)).leading_zeros()`
unfoldable pub inner_proof_size : Build → ℕ → ℕ → Checked ℕ
inner_proof_size b index tree_size = do
  last ← sub64 b tree_size 1
  ok (64 - leading_zeros 64 (bit_xor index last))

unfoldable pub decomp_inclusion_proof : Build → ℕ → ℕ → Checked (ℕ × ℕ)
decomp_inclusion_proof b index tree_size = do
  inner ← inner_proof_size b index tree_size
  upper ← shr64 b index inner
  ok (inner, count_ones 64 upper)

module _ {O : Type 0} (hasher : Hasher O) where
  open hasher use {hash_children, beq, hex, empty_root}

  -- The fold over the enumerated hashes, from number `i` on.
  unfoldable pub chain_inner_from : ℕ → O → List O → ℕ → O
  chain_inner_from i seed [] index = seed
  chain_inner_from i seed (h ∷ hs) index =
      chain_inner_from (suc i)
        (if bit index i == 0 then hash_children seed h else hash_children h seed) hs index

  abbrev pub chain_inner : O → List O → ℕ → O
  chain_inner = chain_inner_from 0

  unfoldable pub chain_inner_right_from : ℕ → O → List O → ℕ → O
  chain_inner_right_from i seed [] index = seed
  chain_inner_right_from i seed (h ∷ hs) index =
      chain_inner_right_from (suc i) (if bit index i == 1 then hash_children h seed else seed) hs
        index

  abbrev pub chain_inner_right : O → List O → ℕ → O
  chain_inner_right = chain_inner_right_from 0

  unfoldable pub chain_border_right : O → List O → O
  chain_border_right seed [] = seed
  chain_border_right seed (h ∷ hs) = chain_border_right (hash_children h seed) hs

  -- The length test stands before the slices, so that `take` and `drop` stay in range.
  unfoldable pub root_from_inclusion_proof : Build → ℕ → O → ℕ → List O → Checked O
  root_from_inclusion_proof b index leaf_hash tree_size proof_hashes = do
    reject_if (leb tree_size index) index_gt_tree_size
    (inner, border) ← decomp_inclusion_proof b index tree_size
    ensure (length proof_hashes == inner + border)
        (wrong_proof_size (length proof_hashes) (inner + border))
    let res_left = chain_inner leaf_hash (take inner proof_hashes) index
    ok (chain_border_right res_left (drop inner proof_hashes))

  -- `verify_match(a, b).map_err(...)`
  abbrev pub verify_match : O → O → MerkleProofError → Checked (Unit {0})
  verify_match a b e = ensure (beq a b) e

  unfoldable pub verify_inclusion : Build → ℕ → O → ℕ → List O → O → Checked (Unit {0})
  verify_inclusion b index leaf_hash tree_size proof_hashes root_hash = do
    reject_if (leb tree_size index) index_gt_tree_size
    calc_root ← root_from_inclusion_proof b index leaf_hash tree_size proof_hashes
    verify_match calc_root root_hash (mismatched_root (hex calc_root) (hex root_hash))

  -- What `verify_consistency` does for 0 < old_size < new_size and a proof that is not empty, given
  -- as its first hash and the others.
  unfoldable pub consistency_of_sizes : Build → ℕ → ℕ → O → List O → O → O → Checked (Unit {0})
  consistency_of_sizes b old_size new_size first rest old_root new_root = do
    let shift = trailing_zeros 64 old_size
    (inner', border) ← decomp_inclusion_proof b (old_size - 1) new_size
    inner ← sub64 b inner' shift
    let whole = old_size == 2 ^ shift
    let seed = if whole then old_root else first
    let start : ℕ = if whole then 0 else 1
    let got = suc (length rest)
    ensure (got == start + inner + border) (wrong_proof_size got (start + inner + border))
    let proof = if whole then first ∷ rest else rest
    let mask = (old_size - 1) / 2 ^ shift
    let hash1 =
        chain_border_right (chain_inner_right seed (take inner proof) mask) (drop inner proof)
    verify_match hash1 old_root (mismatched_root (hex hash1) (hex old_root))
    let hash2 = chain_border_right (chain_inner seed (take inner proof) mask) (drop inner proof)
    verify_match hash2 new_root (mismatched_root (hex hash2) (hex new_root))

  unfoldable pub verify_consistency : Build → ℕ → ℕ → List O → O → O → Checked (Unit {0})
  verify_consistency b old_size new_size proof_hashes old_root new_root =
      elim (compare old_size new_size) [
        | Ordering.gt ↦ err (new_tree_smaller new_size old_size)
        | Ordering.eq ↦ elim proof_hashes [
          | [] ↦ verify_match old_root new_root (mismatched_root (hex old_root) (hex new_root))
          | _ ∷ _ ↦ err unexpected_non_empty_proof
        ]
        | Ordering.lt ↦ elim proof_hashes [
          | [] ↦
              if old_size == 0
              then verify_match old_root empty_root wrong_empty_tree_hash
              else err unexpected_empty_proof
          | first ∷ rest ↦
              if old_size == 0
              then err unexpected_non_empty_proof
              else consistency_of_sizes b old_size new_size first rest old_root new_root
        ]
      ]
