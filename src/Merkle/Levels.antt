-- ===== src/Merkle/Levels.antt =====
-- A tree of hashes bottom-up: each level joins the neighbours of the one below, and a last hash
-- without a neighbour goes up unchanged.
use native.Mathlib.Nat.{pow-suc, pow-le-pow_right}
use native.Mathlib.Decide.{dec_lt}
use tinfoil_rs.Prelude.{
  ℕ, zero, suc, ◌+◌, ◌-◌, ◌/◌, ◌%◌, ◌^◌, ◌≤◌, ◌<◌, ◌≡◌, refl, sym, ap, ◌∙◌, inl, inr, ◌⊎◌, arith,
  List, [], ◌∷◌, ◌++◌, length, length-append, get_elem?, some,
}
use tinfoil_rs.Merkle.Hasher.{Hasher}
use tinfoil_rs.Merkle.Tree.{TreeHash, leaf, node}

half_suc : (i : ℕ) → suc (suc i) / 2 ≡ suc (i / 2)
half_suc i = omega arith

exponent-lt : (m k n : ℕ) → 2 ^ m < n → n ≤ 2 ^ k → m < k
exponent-lt m k n lo hi = elim (dec_lt m k) [
  | yes less ↦ less
  | no more ↦
      let order : 2 ^ k ≤ 2 ^ m = pow-le-pow_right (omega arith) (omega arith) in
      absurd (omega arith)
]

module _ {O : Type 0} (hasher : Hasher O) where
  open hasher use {hash_children}

  pub join_level : List O → List O
  join_level [] = []
  join_level (x ∷ []) = x ∷ []
  join_level (x ∷ y ∷ zs) = hash_children x y ∷ join_level zs

  pub join_levels : ℕ → List O → List O
  join_levels zero xs = xs
  join_levels (suc k) xs = join_levels k (join_level xs)

  pub join_levels_step :
      (k : ℕ) (xs : List O) → join_levels (suc k) xs ≡ join_levels k (join_level xs)
  unfolding join_levels
  join_levels_step k xs = refl

  pub length-join_level : (xs : List O) → length (join_level xs) ≡ (length xs + 1) / 2
  unfolding join_level
  length-join_level [] = omega arith
  length-join_level (x ∷ []) = omega arith
  length-join_level (x ∷ y ∷ zs) = omega (arith, length-join_level zs)

  join_level-append :
      (xs ys : List O) → length xs % 2 ≡ 0 → join_level (xs ++ ys) ≡ join_level xs ++ join_level ys
  unfolding join_level
  join_level-append [] ys even = refl
  join_level-append (x ∷ []) ys even = absurd (omega arith)
  join_level-append (x ∷ y ∷ zs) ys even =
      ap (λ t. hash_children x y ∷ t) (join_level-append zs ys (omega arith))

  -- A left part of 2 ^ m hashes keeps to itself for m levels.
  join_levels-append :
      (m : ℕ) (xs ys : List O)
      → length xs ≡ 2 ^ m
      → join_levels m (xs ++ ys) ≡ join_levels m xs ++ join_levels m ys
  unfolding join_levels
  join_levels-append zero xs ys size = refl
  join_levels-append (suc m) xs ys size =
      ap (join_levels m) (join_level-append xs ys (omega (arith, pow-suc 2 m)))
      ∙ join_levels-append m (join_level xs) (join_level ys)
          (omega (arith, pow-suc 2 m, length-join_level xs))

  pub join_levels-single : (k : ℕ) (x : O) → join_levels k (x ∷ []) ≡ x ∷ []
  unfolding join_levels join_level
  join_levels-single zero x = refl
  join_levels-single (suc k) x = join_levels-single k x

  pub join_levels_root :
      (k : ℕ) (xs : List O) (r : O) → length xs ≡ 1 → join_levels k xs ≡ r ∷ [] → xs ≡ r ∷ []
  join_levels_root k [] r size ends = absurd (omega arith)
  join_levels_root k (x ∷ []) r size ends = sym (join_levels-single k x) ∙ ends
  join_levels_root k (x ∷ y ∷ xs) r size ends = absurd (omega arith)

  join_levels-add :
      (m k : ℕ) (xs : List O) → join_levels (m + k) xs ≡ join_levels k (join_levels m xs)
  unfolding join_levels
  join_levels-add zero k xs = let e : zero + k ≡ k = omega arith in ap (λ t. join_levels t xs) e
  join_levels-add (suc m) k xs =
      let e : suc m + k ≡ suc (m + k) = omega arith in
      ap (λ t. join_levels t xs) e ∙ join_levels-add m k (join_level xs)

  join_levels-pair : (k : ℕ) (a b : O) → join_levels (suc k) (a ∷ b ∷ []) ≡ hash_children a b ∷ []
  unfolding join_levels join_level
  join_levels-pair k a b = join_levels-single k (hash_children a b)

  -- The levels end in the root of the recursive definition, once they are enough.
  pub TreeHash-join_levels :
      {xs : List O} {r : O} (k : ℕ)
      → TreeHash hasher xs r
      → length xs ≤ 2 ^ k
      → join_levels k xs ≡ r ∷ []
  TreeHash-join_levels k (leaf x) enough = join_levels-single k x
  TreeHash-join_levels k (node m {xs} {ys} {a} {b} size some_right right t u) enough =
      let below = exponent-lt m k (length (xs ++ ys)) (omega (arith, length-append xs ys)) enough in
      let split : k ≡ m + suc (k - m - 1) = omega arith in
      ap (λ t. join_levels t (xs ++ ys)) split
      ∙ join_levels-add m (suc (k - m - 1)) (xs ++ ys)
      ∙ ap (join_levels (suc (k - m - 1))) (
          join_levels-append m xs ys size
          ∙ rw (TreeHash-join_levels m t (omega arith), TreeHash-join_levels m u right))
      ∙ join_levels-pair (k - m - 1) a b

  -- What the next level holds above place `i`, which holds `x`.
  abbrev pub Above : ℕ → List O → O → Type 0
  Above i xs x =
      ((i % 2 ≡ 0)
        × (suc i < length xs)
        × ((h : O) × (get_elem? (join_level xs) (i / 2) ≡ some (hash_children x h))))
      ⊎ ((i % 2 ≡ 1) × ((h : O) × (get_elem? (join_level xs) (i / 2) ≡ some (hash_children h x))))
      ⊎ ((i % 2 ≡ 0) × (suc i ≡ length xs) × (get_elem? (join_level xs) (i / 2) ≡ some x))

  pub above : (xs : List O) (i : ℕ) (x : O) → get_elem? xs i ≡ some x → Above i xs x
  unfolding join_level
  above [] i x e = cc
  above (y ∷ []) zero x e = inr (inr (omega arith, omega arith, e))
  above (y ∷ []) (suc i) x e = cc
  above (y ∷ z ∷ zs) zero x e = inl (omega arith, omega arith, (z, cc))
  above (y ∷ z ∷ zs) (suc zero) x e = inr (inl (omega arith, (y, cc)))
  above (y ∷ z ∷ zs) (suc (suc i)) x e = elim (above zs i x e) [
    | inl (even, room, (h, q)) ↦ inl (omega arith, omega arith, (h, rw half_suc q))
    | inr (inl (odd, (h, q))) ↦ inr (inl (omega arith, (h, rw half_suc q)))
    | inr (inr (even, end, q)) ↦ inr (inr (omega arith, omega arith, rw half_suc q))
  ]
