-- ===== src/Merkle/Inclusion.antt =====
-- Inclusion proofs against the tree hash of RFC 6962: what is accepted is in the tree, and what is
-- in the tree has a proof that is accepted.
use mathlib.Core.Path.{subst}
use native.Mathlib.Decide.{dec_lt}
use native.Mathlib.Nat.{pow-suc}
use tinfoil_rs.Prelude.{
  ℕ, zero, suc, ◌/◌, ◌%◌, ◌^◌, ◌≤◌, ◌<◌, ◌≡◌, refl, sym, ap, ◌∙◌, inl, inr, ◌⊎◌, arith, List, [],
  ◌∷◌, length, get_elem?, some, Bool-cases,
}
use tinfoil_rs.Outcome.{ok}
use tinfoil_rs.Word.{Build}
use tinfoil_rs.Merkle.Hasher.{Hasher}
use tinfoil_rs.Merkle.Proof.{verify_inclusion}
use tinfoil_rs.Merkle.Tree.{TreeHash}
use tinfoil_rs.Merkle.AuditPath.{AuditPath, at_root, alone, on_left, on_right}
use tinfoil_rs.Merkle.Accept.{verify_inclusion_iff, verify_inclusion-out_of_range}
use tinfoil_rs.Merkle.Levels.{
  join_level, join_levels, length-join_level, join_levels_root, join_levels_step,
  TreeHash-join_levels, Above, above,
}

-- Two different pairs of hashes with one parent.
pub record Collision {O : Type 0} (hasher : Hasher O) : Type 0 where
  pub left : O
  pub right : O
  pub left' : O
  pub right' : O
  pub differ : ¬ ((left ≡ left') × (right ≡ right'))
  pub same_parent : hasher.hash_children left right ≡ hasher.hash_children left' right'

get_elem?-in_range {ℓ} :
    {A : Type ℓ} (xs : List A) (i : ℕ) → i < length xs → (x : A) × (get_elem? xs i ≡ some x)
get_elem?-in_range [] i h = absurd (omega arith)
get_elem?-in_range (x ∷ xs) zero h = (x, refl)
get_elem?-in_range (x ∷ xs) (suc i) h = get_elem?-in_range xs i (omega arith)

get_elem?-lt {ℓ} :
    {A : Type ℓ} (xs : List A) (i : ℕ) {x : A} → get_elem? xs i ≡ some x → i < length xs
get_elem?-lt [] i e = cc
get_elem?-lt (x ∷ xs) zero e = omega arith
get_elem?-lt (x ∷ xs) (suc i) e = omega (arith, get_elem?-lt xs i e)

module _ {O : Type 0} (hasher : Hasher O) where
  open hasher use {hash_children, beq, beq_iff}

  same_or_Collision :
      (a b c d : O) → hash_children a b ≡ hash_children c d → ((a ≡ c) × (b ≡ d)) ⊎ Collision hasher
  same_or_Collision a b c d e = elim (Bool-cases (beq a c)) [
    | inr differs ↦ inr (record {
      left = a;
      right = b;
      left' = c;
      right' = d;
      differ = λ h. cc ((beq_iff a c).1 h.0);
      same_parent = e;
    })
    | inl left_same ↦ elim (Bool-cases (beq b d)) [
      | inr differs ↦ inr (record {
        left = a;
        right = b;
        left' = c;
        right' = d;
        differ = λ h. cc ((beq_iff b d).1 h.1);
        same_parent = e;
      })
      | inl right_same ↦ inl ((beq_iff a c).0 left_same, (beq_iff b d).0 right_same)
    ]
  ]

  root_of_single :
      (xs : List O) (i : ℕ) (x r : O) → xs ≡ r ∷ [] → get_elem? xs i ≡ some x → (i ≡ 0) × (x ≡ r)
  root_of_single [] i x r single e = cc
  root_of_single (y ∷ ys) zero x r single e = (refl, cc)
  root_of_single (y ∷ []) (suc i) x r single e = cc
  root_of_single (y ∷ z ∷ ys) (suc i) x r single e = cc

  half_size :
      (xs : List O) (last : ℕ)
      → length xs ≡ suc last
      → 0 < last
      → length (join_level hasher xs) ≡ suc (last / 2)
  half_size xs last size pos = omega (arith, length-join_level hasher xs)

  half_small : (k last : ℕ) → last < 2 ^ suc k → last / 2 < 2 ^ k
  half_small k last small = omega (arith, pow-suc 2 k)

  zero_cases : (n : ℕ) → (n ≡ 0) ⊎ (0 < n)
  zero_cases zero = inl refl
  zero_cases (suc n) = inr (omega arith)

  -- The audit path of the only hash of a level.
  top_path :
      (k : ℕ) (xs : List O) (i last : ℕ) (x r : O)
      → length xs ≡ suc last
      → last ≡ 0
      → join_levels hasher k xs ≡ r ∷ []
      → get_elem? xs i ≡ some x
      → (p : List O) × AuditPath hasher i last x p r
  top_path k xs i last x r size top ends e =
      let (here, same) =
        root_of_single xs i x r (join_levels_root hasher k xs r (omega arith) ends) e in
      ([], subst (AuditPath hasher i last x []) same (at_root here top))

  abbrev HasPaths : List O → ℕ → ℕ → O → Type 0
  HasPaths xs i last r =
      (x : O) → get_elem? xs i ≡ some x → (p : List O) × AuditPath hasher i last x p r

  higher_path :
      (xs : List O) (i last : ℕ) (x r : O)
      → length xs ≡ suc last
      → 0 < last
      → i ≤ last
      → HasPaths (join_level hasher xs) (i / 2) (last / 2) r
      → Above hasher i xs x
      → (p : List O) × AuditPath hasher i last x p r
  higher_path xs i last x r size pos le ih (inl (even, room, (h, q))) =
      let (p, a) = ih (hash_children x h) q in (h ∷ p, on_left (omega arith) even a)
  higher_path xs i last x r size pos le ih (inr (inl (odd, (h, q)))) =
      let (p, a) = ih (hash_children h x) q in (h ∷ p, on_right (omega arith) odd a)
  higher_path xs i last x r size pos le ih (inr (inr (even, end, q))) =
      let (p, a) = ih x q in (p, alone (omega arith) pos even a)

  -- Every place of a level has an audit path to the root.
  audit_path :
      (k : ℕ) (xs : List O) (i last : ℕ) (r : O)
      → length xs ≡ suc last
      → last < 2 ^ k
      → join_levels hasher k xs ≡ r ∷ []
      → HasPaths xs i last r
  audit_path zero xs i last r size small ends x e =
      top_path zero xs i last x r size (omega arith) ends e
  audit_path (suc k) xs i last r size small ends x e = elim (zero_cases last) [
    | inl top ↦ top_path (suc k) xs i last x r size top ends e
    | inr pos ↦
        higher_path xs i last x r size pos (omega (arith, get_elem?-lt xs i e))
          (audit_path k (join_level hasher xs) (i / 2) (last / 2) r (half_size xs last size pos)
            (half_small k last small) (sym (join_levels_step hasher k xs) ∙ ends))
          (above hasher xs i x e)
  ]

  -- One step of the soundness proof: the parent is in its place, or there is a collision.
  abbrev Holds : List O → ℕ → O → Type 0
  Holds xs i x = (get_elem? xs i ≡ some x) ⊎ Collision hasher

  same_parent_place :
      (xs ys : List O) (i : ℕ) {y a b c d : O}
      → get_elem? xs i ≡ some y
      → get_elem? ys (i / 2) ≡ some (hash_children a b)
      → get_elem? ys (i / 2) ≡ some (hash_children c d)
      → ((a ≡ c) × (b ≡ d)) ⊎ Collision hasher
  same_parent_place xs ys i {a = a} {b = b} {c = c} {d = d} e q h = same_or_Collision a b c d (cc)

  left_Holds :
      (xs : List O) (i : ℕ) (x y h : O)
      → suc i < length xs
      → i % 2 ≡ 0
      → get_elem? xs i ≡ some y
      → Above hasher i xs y
      → get_elem? (join_level hasher xs) (i / 2) ≡ some (hash_children x h)
      → Holds xs i x
  left_Holds xs i x y h room even e (inl (_, _, (h', q))) up =
      elim (same_parent_place xs _ i e q up) [
        | inl (same, _) ↦ inl (e ∙ ap some same)
        | inr c ↦ inr c
      ]
  left_Holds xs i x y h room even e (inr (inl (odd, _))) up = absurd (omega arith)
  left_Holds xs i x y h room even e (inr (inr (_, end, _))) up = absurd (omega arith)

  right_Holds :
      (xs : List O) (i : ℕ) (x y h : O)
      → i % 2 ≡ 1
      → get_elem? xs i ≡ some y
      → Above hasher i xs y
      → get_elem? (join_level hasher xs) (i / 2) ≡ some (hash_children h x)
      → Holds xs i x
  right_Holds xs i x y h odd e (inr (inl (_, (h', q)))) up =
      elim (same_parent_place xs _ i e q up) [
        | inl (_, same) ↦ inl (e ∙ ap some same)
        | inr c ↦ inr c
      ]
  right_Holds xs i x y h odd e (inl (even, _, _)) up = absurd (omega arith)
  right_Holds xs i x y h odd e (inr (inr (even, _, _))) up = absurd (omega arith)

  alone_Holds :
      (xs : List O) (i : ℕ) (x y : O)
      → suc i ≡ length xs
      → i % 2 ≡ 0
      → get_elem? xs i ≡ some y
      → Above hasher i xs y
      → get_elem? (join_level hasher xs) (i / 2) ≡ some x
      → Holds xs i x
  alone_Holds xs i x y end even e (inr (inr (_, _, q))) up = inl (e ∙ sym q ∙ up)
  alone_Holds xs i x y end even e (inl (_, room, _)) up = absurd (omega arith)
  alone_Holds xs i x y end even e (inr (inl (odd, _))) up = absurd (omega arith)

  -- An audit path to the root of a tree starts from what the tree holds at its place.
  AuditPath-Holds :
      {i last : ℕ} {x r : O} {p : List O} (k : ℕ) (xs : List O)
      → AuditPath hasher i last x p r
      → length xs ≡ suc last
      → i ≤ last
      → last < 2 ^ k
      → join_levels hasher k xs ≡ r ∷ []
      → Holds xs i x
  AuditPath-Holds {i} k xs (at_root {x = x} here top) size le small ends =
      inl (rw (join_levels_root hasher k xs x (omega arith) ends, here))
  AuditPath-Holds zero xs (alone same pos even a) size le small ends = absurd (omega arith)
  AuditPath-Holds zero xs (on_left less even a) size le small ends = absurd (omega arith)
  AuditPath-Holds zero xs (on_right le' odd a) size le small ends = absurd (omega arith)
  AuditPath-Holds {i} (suc k) xs (alone {last = last} {x = x} same pos even a) size le small ends =
      let (y, e) = get_elem?-in_range xs i (omega arith) in
      elim (AuditPath-Holds k (join_level hasher xs) a (half_size xs last size pos) (omega arith)
        (half_small k last small) (sym (join_levels_step hasher k xs) ∙ ends)) [
          | inl up ↦ alone_Holds xs i x y (omega arith) even e (above hasher xs i y e) up
          | inr c ↦ inr c
        ]
  AuditPath-Holds {i} (suc k) xs (on_left {last = last} {x = x} {h = h} less even a) size le small
        ends =
      let (y, e) = get_elem?-in_range xs i (omega arith) in
      elim (AuditPath-Holds k (join_level hasher xs) a (half_size xs last size (omega arith))
        (omega arith) (half_small k last small) (sym (join_levels_step hasher k xs) ∙ ends)) [
          | inl up ↦ left_Holds xs i x y h (omega arith) even e (above hasher xs i y e) up
          | inr c ↦ inr c
        ]
  AuditPath-Holds {i} (suc k) xs (on_right {last = last} {x = x} {h = h} le' odd a) size le small
        ends =
      let (y, e) = get_elem?-in_range xs i (omega arith) in
      elim (AuditPath-Holds k (join_level hasher xs) a (half_size xs last size (omega arith))
        (omega arith) (half_small k last small) (sym (join_levels_step hasher k xs) ∙ ends)) [
          | inl up ↦ right_Holds xs i x y h odd e (above hasher xs i y e) up
          | inr c ↦ inr c
        ]

-- If the leaf hashes `xs` have the RFC 6962 root `r`, and the verifier accepts a proof for the leaf
-- hash `x` at index `i` in a tree of that size, at most 2 ^ 63, against `r`, then `x` is the leaf
-- hash at index `i`, or two different pairs of hashes with one parent are exhibited.
pub verify_inclusion_sound :
    {O : Type 0} (hasher : Hasher O) (b : Build) (i : ℕ) (x r : O) (xs p : List O)
    → TreeHash hasher xs r
    → length xs ≤ 2 ^ 63
    → verify_inclusion hasher b i x (length xs) p r ≡ ok tt
    → (get_elem? xs i ≡ some x) ⊎ Collision hasher
verify_inclusion_sound hasher b i x r [] p t fits accepted =
    cc (verify_inclusion-out_of_range hasher b i 0 x r p (omega arith))
verify_inclusion_sound hasher b i x r (y ∷ ys) p t fits accepted = elim (dec_lt (length ys) i) [
  | yes beyond ↦ cc (verify_inclusion-out_of_range hasher b i (length (y ∷ ys)) x r p (omega arith))
  | no within ↦
      AuditPath-Holds hasher 64 (y ∷ ys)
        ((verify_inclusion_iff hasher b i (length ys) x r p (omega arith) fits).0 accepted) refl
        (omega arith) (omega arith) (TreeHash-join_levels hasher 64 t (omega arith))
]

-- If the leaf hashes `xs`, at most 2 ^ 63, have the RFC 6962 root `r` and `x` is the one at index
-- `i`, then there is a proof that the verifier accepts for `x` at `i` against `r`.
pub verify_inclusion_complete :
    {O : Type 0} (hasher : Hasher O) (b : Build) (i : ℕ) (x r : O) (xs : List O)
    → TreeHash hasher xs r
    → length xs ≤ 2 ^ 63
    → get_elem? xs i ≡ some x
    → (p : List O) × (verify_inclusion hasher b i x (length xs) p r ≡ ok tt)
verify_inclusion_complete hasher b i x r [] t fits e = cc
verify_inclusion_complete hasher b i x r (y ∷ ys) t fits e =
    let ends = TreeHash-join_levels hasher 64 t (omega arith) in
    let (p, a) = audit_path hasher 64 (y ∷ ys) i (length ys) r refl (omega arith) ends x e in
    let le : i ≤ length ys = omega (arith, get_elem?-lt (y ∷ ys) i e) in
    (p, (verify_inclusion_iff hasher b i (length ys) x r p le fits).1 a)
