-- ===== src/Merkle/Tree.antt =====
-- The tree hash of RFC 6962, section 2.1.
use tinfoil_rs.Prelude.{ℕ, ◌^◌, ◌≡◌, ◌≤◌, ◌<◌, List, [], ◌∷◌, ◌++◌, length}
use tinfoil_rs.Merkle.Hasher.{Hasher}

-- `TreeHash hasher xs r`: the leaf hashes `xs` have the root `r`. Two or more leaves split at the
-- largest power of two that is below their number.
pub data TreeHash {O : Type 0} (hasher : Hasher O) : List O → O → Type 0 where
  leaf : (x : O) → TreeHash hasher (x ∷ []) x
  node :
      (m : ℕ) {xs ys : List O} {a b : O}
      → length xs ≡ 2 ^ m
      → 0 < length ys
      → length ys ≤ 2 ^ m
      → TreeHash hasher xs a
      → TreeHash hasher ys b
      → TreeHash hasher (xs ++ ys) (hasher.hash_children a b)
