-- ===== src/Merkle/AuditPath.antt =====
-- Audit paths described level by level, and that the verifier accepts exactly these.
use tinfoil_rs.Prelude.{
  ℕ, zero, suc, ◌+◌, ◌/◌, ◌%◌, ◌^◌, ◌≤◌, ◌<◌, ◌≡◌, refl, sym, ◌∙◌, inl, inr, ◌⊎◌, arith, List, [],
  ◌∷◌, length,
}
use mathlib.Core.Path.{subst}
use native.Mathlib.Nat.{pow-suc}
use tinfoil_rs.Merkle.Hasher.{Hasher}
use tinfoil_rs.Merkle.Decomp.{
  proof_length, proof_length-zero, proof_length_last, proof_length_below, chained_root,
  chained_root_nil, chained_root_even_last, chained_root_odd_last, chained_root_below,
}

-- `AuditPath hasher i last x p r`: from the hash `x`, at place `i` of a level whose last place is
-- `last`, the sibling hashes `p`, the lowest first, lead to the root `r`. The last hash of a level
-- goes up unchanged if it has no sibling.
pub data AuditPath {O : Type 0} (hasher : Hasher O) : ℕ → ℕ → O → List O → O → Type 0 where
  at_root : {i last : ℕ} {x : O} → i ≡ 0 → last ≡ 0 → AuditPath hasher i last x [] x
  alone :
      {i last : ℕ} {x r : O} {p : List O}
      → i ≡ last
      → 0 < last
      → i % 2 ≡ 0
      → AuditPath hasher (i / 2) (last / 2) x p r
      → AuditPath hasher i last x p r
  on_left :
      {i last : ℕ} {x h r : O} {p : List O}
      → i < last
      → i % 2 ≡ 0
      → AuditPath hasher (i / 2) (last / 2) (hasher.hash_children x h) p r
      → AuditPath hasher i last x (h ∷ p) r
  on_right :
      {i last : ℕ} {x h r : O} {p : List O}
      → i ≤ last
      → i % 2 ≡ 1
      → AuditPath hasher (i / 2) (last / 2) (hasher.hash_children h x) p r
      → AuditPath hasher i last x (h ∷ p) r

le-cases : (i last : ℕ) → i ≤ last → ((last ≡ 0) ⊎ ((0 < last) × (i ≡ last))) ⊎ (i < last)
le-cases i last h = ground arith

parity : (i : ℕ) → (i % 2 ≡ 0) ⊎ (i % 2 ≡ 1)
parity i = omega arith

module _ {O : Type 0} (hasher : Hasher O) where
  open hasher use {hash_children}

  -- Every right number of siblings at these places is an audit path.
  abbrev Complete : ℕ → ℕ → Type 0
  Complete i last =
      (x : O) (p : List O)
      → length p ≡ proof_length i last
      → AuditPath hasher i last x p (chained_root hasher i last x p)

  zero-Complete : (i last : ℕ) → i ≡ 0 → last ≡ 0 → Complete i last
  zero-Complete i last ei el x [] len =
      subst (AuditPath hasher i last x []) (rw (ei, el) (sym (chained_root_nil hasher 0 x)))
        (at_root ei el)
  zero-Complete i last ei el x (h ∷ p) len =
      let none : proof_length i last ≡ 0 = rw (ei, el) proof_length-zero in absurd (omega arith)

  last-Complete : (i : ℕ) → 0 < i → i < 2 ^ 64 → Complete (i / 2) (i / 2) → Complete i i
  last-Complete i pos fits ih x p len = elim (parity i) [
    | inl even ↦
        subst (AuditPath hasher i i x p) (sym (chained_root_even_last hasher i x p))
          (alone refl pos even (ih x p (omega (arith, proof_length_last i fits))))
    | inr odd ↦ odd_case p odd (len ∙ proof_length_last i fits)
  ]
    where
      odd_case :
          (p : List O)
          → i % 2 ≡ 1
          → length p ≡ i % 2 + proof_length (i / 2) (i / 2)
          → AuditPath hasher i i x p (chained_root hasher i i x p)
      odd_case [] odd len = absurd (omega arith)
      odd_case (h ∷ p) odd len =
          subst (AuditPath hasher i i x (h ∷ p)) (sym (chained_root_odd_last hasher i x h p))
            (on_right (omega arith) odd (ih (hash_children h x) p (omega arith)))

  below-Complete :
      (i last : ℕ) → i < last → last < 2 ^ 64 → Complete (i / 2) (last / 2) → Complete i last
  below-Complete i last less fits ih x [] len =
      absurd (omega (arith, proof_length_below i last less fits))
  below-Complete i last less fits ih x (h ∷ p) len =
      let up = chained_root_below hasher i last x h p less fits in
      let rest : length p ≡ proof_length (i / 2) (last / 2) =
        omega (arith, proof_length_below i last less fits) in
      elim (parity i) [
        | inl even ↦
            subst (AuditPath hasher i last x (h ∷ p)) (sym (rw even at up))
              (on_left less even (ih (hash_children x h) p rest))
        | inr odd ↦
            subst (AuditPath hasher i last x (h ∷ p)) (sym (rw odd at up))
              (on_right (omega arith) odd (ih (hash_children h x) p rest))
      ]

  AuditPath-Complete : (k i last : ℕ) → i ≤ last → last < 2 ^ k → last < 2 ^ 64 → Complete i last
  AuditPath-Complete zero i last le small fits = zero-Complete i last (omega arith) (omega arith)
  AuditPath-Complete (suc k) i last le small fits =
      let ih =
        AuditPath-Complete k (i / 2) (last / 2) (omega arith) (omega (arith, pow-suc 2 k))
          (omega arith) in
      elim (le-cases i last le) [
        | inl (inl e) ↦ zero-Complete i last (omega arith) e
        | inl (inr (pos, same)) ↦
            subst (λ m. Complete m last) (sym same)
              (last-Complete last pos fits (subst (λ m. Complete (m / 2) (last / 2)) same ih))
        | inr less ↦ below-Complete i last less fits ih
      ]

  -- Siblings of the right number are an audit path to the root that the verifier computes.
  pub chained_root-AuditPath :
      (i last : ℕ) (x : O) (p : List O)
      → i ≤ last
      → last < 2 ^ 64
      → length p ≡ proof_length i last
      → AuditPath hasher i last x p (chained_root hasher i last x p)
  chained_root-AuditPath i last x p le fits = AuditPath-Complete 64 i last le fits fits x p

  abbrev Computes : ℕ → ℕ → O → List O → O → Type 0
  Computes i last x p r = (length p ≡ proof_length i last) × (chained_root hasher i last x p ≡ r)

  alone-Computes :
      (i : ℕ) (x r : O) (p : List O)
      → i < 2 ^ 64
      → i % 2 ≡ 0
      → Computes (i / 2) (i / 2) x p r
      → Computes i i x p r
  alone-Computes i x r p fits even (len, root) =
      (omega (arith, proof_length_last i fits), chained_root_even_last hasher i x p ∙ root)

  on_left-Computes :
      (i last : ℕ) (x h r : O) (p : List O)
      → i < last
      → last < 2 ^ 64
      → i % 2 ≡ 0
      → Computes (i / 2) (last / 2) (hash_children x h) p r
      → Computes i last x (h ∷ p) r
  on_left-Computes i last x h r p less fits even (len, root) = (
    omega (arith, proof_length_below i last less fits),
    (rw even at (chained_root_below hasher i last x h p less fits)) ∙ root,
  )

  on_right-Computes :
      (i last : ℕ) (x h r : O) (p : List O)
      → i ≤ last
      → last < 2 ^ 64
      → i % 2 ≡ 1
      → Computes (i / 2) (last / 2) (hash_children h x) p r
      → Computes i last x (h ∷ p) r
  on_right-Computes i last x h r p le fits odd (len, root) = elim (le-cases i last le) [
    | inr less ↦ (
      omega (arith, proof_length_below i last less fits),
      (rw odd at (chained_root_below hasher i last x h p less fits)) ∙ root,
    )
    | inl at_end ↦
        let same : i ≡ last = omega arith in
        subst (λ l. Computes i l x (h ∷ p) r) same
          (
            omega (
              arith,
              proof_length_last i (omega arith),
              subst (λ l. length p ≡ proof_length (i / 2) (l / 2)) (sym same) len,
            ),
            chained_root_odd_last hasher i x h p
                ∙ subst (λ l. chained_root hasher (i / 2) (l / 2) (hash_children h x) p ≡ r)
                    (sym same) root,
          )
  ]

  -- Every audit path has that number of siblings, and leads to that root.
  pub AuditPath-chained_root :
      {i last : ℕ} {x r : O} {p : List O}
      → AuditPath hasher i last x p r
      → i ≤ last
      → last < 2 ^ 64
      → Computes i last x p r
  AuditPath-chained_root {i} {last} {x} (at_root ei el) le fits =
      (rw (ei, el) (sym proof_length-zero), rw (ei, el) (chained_root_nil hasher 0 x))
  AuditPath-chained_root {i} {last} {x} {r} {p} (alone same pos even a) le fits =
      subst (λ l. Computes i l x p r) same
        (alone-Computes i x r p (omega arith) even (
          subst (λ l. Computes (i / 2) (l / 2) x p r) (sym same)
            (AuditPath-chained_root a (omega arith) (omega arith))))
  AuditPath-chained_root {i} {last} (on_left {x = x} {h = h} {r = r} {p = p} less even a) le fits =
      on_left-Computes i last x h r p less fits even
        (AuditPath-chained_root a (omega arith) (omega arith))
  AuditPath-chained_root {i} {last} (on_right {x = x} {h = h} {r = r} {p = p} le' odd a) le fits =
      on_right-Computes i last x h r p le fits odd
        (AuditPath-chained_root a (omega arith) (omega arith))
