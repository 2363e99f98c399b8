-- ===== src/Merkle/Accept.antt =====
-- `verify_inclusion` accepts exactly the audit paths to the given root, and what it answers beyond
-- 2 ^ 63 leaves.
use tinfoil_rs.Prelude.{
  ℕ, suc, ◌-◌, ◌^◌, ◌≤◌, ◌<◌, ◌≡◌, ◌↔◌, Bool, refl, sym, ◌∙◌, inl, inr, arith, List, ◌==◌, leb,
  length, true, false, Bool-cases, ==_iff, le→leb,
}
use mathlib.Core.Path.{subst}
use tinfoil_rs.Outcome.{ok, err, panic, ensure, ◌>>◌}
use tinfoil_rs.Word.{Build, debug}
use tinfoil_rs.Merkle.Hasher.{Hasher}
use tinfoil_rs.Merkle.Proof.{
  root_from_inclusion_proof, verify_inclusion, mismatched_root, wrong_proof_size,
  index_gt_tree_size,
}
use tinfoil_rs.Merkle.Decomp.{
  proof_length, chained_root, decomp_inclusion_proof_lem, decomp_inclusion_proof_overflow,
}
use tinfoil_rs.Merkle.AuditPath.{AuditPath, chained_root-AuditPath, AuditPath-chained_root}

in_range : (i last : ℕ) → i ≤ last → leb (suc last) i ≡ false
in_range i last le = ground arith

module _ {O : Type 0} (hasher : Hasher O) where
  open hasher use {beq, beq_iff, hex}

  root_from_inclusion_proof_lem :
      (b : Build) (i last : ℕ) (x : O) (p : List O)
      → i ≤ last
      → last < 2 ^ 63
      → root_from_inclusion_proof hasher b i x (suc last) p ≡ (
          ensure
            (length p == proof_length i last)
            (wrong_proof_size (length p) (proof_length i last))
          >> ok (chained_root hasher i last x p))
  unfolding root_from_inclusion_proof proof_length chained_root
  root_from_inclusion_proof_lem b i last x p le fits =
      rw (in_range i last le) (rw (decomp_inclusion_proof_lem b i last le fits))

  verify_inclusion_lem :
      (b : Build) (i last : ℕ) (x root : O) (p : List O)
      → i ≤ last
      → last < 2 ^ 63
      → length p ≡ proof_length i last
      → verify_inclusion hasher b i x (suc last) p root
        ≡ ensure
            (beq (chained_root hasher i last x p) root)
            (mismatched_root (hex (chained_root hasher i last x p)) (hex root))
  unfolding verify_inclusion
  verify_inclusion_lem b i last x root p le fits len = rw (in_range i last le) (
      rw (root_from_inclusion_proof_lem b i last x p le fits)
        (rw ((==_iff (length p) (proof_length i last)).1 len)))

  verify_inclusion_wrong_size :
      (b : Build) (i last : ℕ) (x root : O) (p : List O)
      → i ≤ last
      → last < 2 ^ 63
      → (length p == proof_length i last) ≡ false
      → verify_inclusion hasher b i x (suc last) p root
        ≡ err (wrong_proof_size (length p) (proof_length i last))
  unfolding verify_inclusion
  verify_inclusion_wrong_size b i last x root p le fits len =
      rw (in_range i last le) (rw (root_from_inclusion_proof_lem b i last x p le fits) (rw len))

  ensure-eq-ok : {E : Type 0} (t : Bool) (e : E) → ensure t e ≡ ok tt → t ≡ true
  ensure-eq-ok true e h = refl
  ensure-eq-ok false e h = cc

  verify_inclusion-AuditPath :
      (b : Build) (i last : ℕ) (x root : O) (p : List O)
      → i ≤ last
      → last < 2 ^ 63
      → verify_inclusion hasher b i x (suc last) p root ≡ ok tt
      → AuditPath hasher i last x p root
  verify_inclusion-AuditPath b i last x root p le fits accepted =
      elim (Bool-cases (length p == proof_length i last)) [
        | inr wrong ↦ cc (verify_inclusion_wrong_size b i last x root p le fits wrong)
        | inl right ↦
            let len = (==_iff (length p) (proof_length i last)).0 right in
            let same = (beq_iff _ _).0 (
              ensure-eq-ok _ _
                (sym (verify_inclusion_lem b i last x root p le fits len) ∙ accepted)) in
            subst (AuditPath hasher i last x p) same
              (chained_root-AuditPath hasher i last x p le (omega arith) len)
      ]

  AuditPath-verify_inclusion :
      (b : Build) (i last : ℕ) {x root : O} {p : List O}
      → i ≤ last
      → last < 2 ^ 63
      → AuditPath hasher i last x p root
      → verify_inclusion hasher b i x (suc last) p root ≡ ok tt
  AuditPath-verify_inclusion b i last {x} {root} {p} le fits a =
      let (len, same) = AuditPath-chained_root hasher a le (omega arith) in
      verify_inclusion_lem b i last x root p le fits len ∙ rw ((beq_iff _ _).1 same)

  -- For an index below a tree size of at most 2 ^ 63, in either build, the verifier accepts a proof
  -- exactly when its hashes are an audit path from the leaf hash, at that index of the level, to
  -- the given root.
  pub verify_inclusion_iff :
      (b : Build) (i last : ℕ) (x root : O) (p : List O)
      → i ≤ last
      → last < 2 ^ 63
      → (verify_inclusion hasher b i x (suc last) p root ≡ ok tt) ↔ AuditPath hasher i last x p root
  verify_inclusion_iff b i last x root p le fits = (
    verify_inclusion-AuditPath b i last x root p le fits,
    AuditPath-verify_inclusion b i last le fits,
  )

  pub verify_inclusion-out_of_range :
      (b : Build) (i size : ℕ) (x root : O) (p : List O)
      → size ≤ i
      → verify_inclusion hasher b i x size p root ≡ err index_gt_tree_size
  unfolding verify_inclusion
  verify_inclusion-out_of_range b i size x root p h = rw (le→leb size i h)

  -- For a tree size above 2 ^ 63 and below 2 ^ 64 and an index below 2 ^ 63, a build with overflow
  -- checks panics on every proof: `decomp_inclusion_proof` shifts by the width of the word.
  pub verify_inclusion_overflow :
      (i last : ℕ) (x root : O) (p : List O)
      → i < 2 ^ 63
      → 2 ^ 63 ≤ last
      → last < 2 ^ 64 - 1
      → verify_inclusion hasher debug i x (suc last) p root ≡ panic
  unfolding verify_inclusion root_from_inclusion_proof
  verify_inclusion_overflow i last x root p lower upper fits =
      rw (in_range i last (omega arith))
        (rw (decomp_inclusion_proof_overflow i last lower upper (omega arith)))
