-- ===== src/Merkle/Hasher.antt =====
-- The hashing trait of src/verifier/sigstore/merkle/rfc6962.rs, and what the proof verifier needs
-- of the type of hashes.
use Prim.Native.String.{String}
use tinfoil_rs.Prelude.{ℕ, ◌≡◌, ◌↔◌, Bool, true, List, [], ◌∷◌, ◌++◌}

-- `Rfc6269HasherTrait<O>` on leaves of bytes, with `O: Eq + AsRef<[u8]>`: `hex` is `hex::encode` of
-- the bytes, which the error values hold.
pub record Hasher (O : Type 0) : Type 0 where
  pub empty_root : O
  pub hash_leaf : List ℕ → O
  pub hash_children : O → O → O
  pub beq : O → O → Bool
  pub beq_iff : (a b : O) → (beq a b ≡ true) ↔ (a ≡ b)
  pub hex : O → String

pub data Rfc6269HashPrefix : Type 0 where
  rfc6962_leaf_hash_prefix rfc6962_node_hash_prefix : Rfc6269HashPrefix

unfoldable pub prefix_byte : Rfc6269HashPrefix → ℕ
prefix_byte rfc6962_leaf_hash_prefix = 0
prefix_byte rfc6962_node_hash_prefix = 1

-- The implementation for every `T: Digest`. `digest` is the third-party hash function on bytes, and
-- `as_ref` the bytes of an `Output<T>`.
module _ {O : Type 0} (digest : List ℕ → O) (as_ref : O → List ℕ) where
  unfoldable pub digest_empty_root : O
  digest_empty_root = digest []

  unfoldable pub digest_hash_leaf : List ℕ → O
  unfolding prefix_byte
  digest_hash_leaf leaf = digest (prefix_byte rfc6962_leaf_hash_prefix ∷ leaf)

  unfoldable pub digest_hash_children : O → O → O
  unfolding prefix_byte
  digest_hash_children left right =
      digest (prefix_byte rfc6962_node_hash_prefix ∷ (as_ref left ++ as_ref right))

  abbrev pub digest_hasher :
      (beq : O → O → Bool) → ((a b : O) → (beq a b ≡ true) ↔ (a ≡ b)) → (O → String) → Hasher O
  digest_hasher beq beq_iff hex = record {
    empty_root = digest_empty_root;
    hash_leaf = digest_hash_leaf;
    hash_children = digest_hash_children;
    beq = beq;
    beq_iff = beq_iff;
    hex = hex;
  }
