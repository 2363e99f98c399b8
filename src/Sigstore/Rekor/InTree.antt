-- ===== src/Sigstore/Rekor/InTree.antt =====
-- An entry that passes is in the tree whose root the log signs (src/verifier/sigstore/rekor.rs).
use mathlib.Core.Path.{subst}
use tinfoil_rs.Prelude.{
  ℕ, ◌≤◌, ◌≡◌, ◌≢◌, ◌⊎◌, ◌==◌, Bool-cases, ◌∙◌, ◌^◌, ap, sym, inl, inr, List, some, arith, length,
  get_elem?,
}
use tinfoil_rs.Word.{Build}
use tinfoil_rs.Outcome.{Outcome, ok}
use tinfoil_rs.Errors.{Error}
use tinfoil_rs.Merkle.Proof.{verify_inclusion}
use tinfoil_rs.Merkle.Tree.{TreeHash}
use tinfoil_rs.Merkle.Inclusion.{Collision, verify_inclusion_sound}
use tinfoil_rs.Sigstore.Trust.{RekorKey, TimestampAuthority}
use tinfoil_rs.Sigstore.Rekor.Json.{RekorPackage}
use tinfoil_rs.Sigstore.Rekor.{verify_rekor_entry_with_trust}
use tinfoil_rs.Sigstore.Rekor.Included.{IsLogged, verify_rekor_entry_with_trust_sound}

module _ (p : RekorPackage) (b : Build) where
  open p use {bundles, hasher, Output, to_output}
  open bundles use {Value, get, as_array, decode_b64}

  module _
      (verify_timestamps : Value
        → List ℕ
        → List TimestampAuthority
        → Outcome Error (List ℕ × List Error)) where
    logged_in_tree :
        (bundle : Value) (from until : ℕ) (keys : List RekorKey)
        (authorities : List TimestampAuthority)
        (logged : IsLogged p b verify_timestamps bundle from until keys authorities)
        (leaves : List Output)
        → TreeHash hasher leaves logged.anchored.included.root
        → length leaves ≡ logged.anchored.included.size
        → length leaves ≤ 2 ^ 63
        → (get_elem? leaves logged.anchored.included.index ≡ some (hasher.hash_leaf logged.body))
          ⊎ Collision hasher
    logged_in_tree bundle from until keys authorities logged leaves tree size fits =
        verify_inclusion_sound hasher b logged.anchored.included.index
          (hasher.hash_leaf logged.body) logged.anchored.included.root leaves
          logged.anchored.included.proof tree fits
          (ap
              (λ n.
                verify_inclusion hasher b logged.anchored.included.index
                  (hasher.hash_leaf logged.body) n logged.anchored.included.proof
                  logged.anchored.included.root)
              size
            ∙ logged.anchored.included.accepted)

    -- A tree of at most 2 ^ 63 leaves with a root: an entry that passes has its body as the leaf at the
    -- index of its proof, unless the signed checkpoint has another root, the proof states another
    -- size, or two different pairs of hashes with one parent are exhibited.
    pub verify_rekor_entry_in_tree :
        (bundle : Value) (from until : ℕ) (keys : List RekorKey)
        (authorities : List TimestampAuthority) (leaves : List Output) (root : Output)
        → TreeHash hasher leaves root
        → length leaves ≤ 2 ^ 63
        → verify_rekor_entry_with_trust p b verify_timestamps bundle from until keys authorities
          ≡ ok tt
        → (logged : IsLogged p b verify_timestamps bundle from until keys authorities) × ((get_elem?
                leaves logged.anchored.included.index
              ≡ some (hasher.hash_leaf logged.body))
            ⊎ (logged.anchored.included.root ≢ root)
            ⊎ (logged.anchored.included.size ≢ length leaves)
            ⊎ Collision hasher)
    verify_rekor_entry_in_tree bundle from until keys authorities leaves root tree fits h =
        let logged =
          verify_rekor_entry_with_trust_sound p b verify_timestamps bundle from until keys
            authorities h in
        elim (Bool-cases (hasher.beq logged.anchored.included.root root)) [
          | inr differs ↦
              (logged, inr (inl (λ e. let is = (hasher.beq_iff _ _).1 e in let no : ⊥ = cc in no)))
          | inl same ↦ elim (Bool-cases (logged.anchored.included.size == length leaves)) [
            | inr other ↦ (logged, inr (inr (inl (λ e. ground (arith, e, other)))))
            | inl equal ↦
                let as_root : root ≡ logged.anchored.included.root =
                  sym ((hasher.beq_iff _ _).0 same) in
                elim (logged_in_tree bundle from until keys authorities logged leaves
                  (subst (TreeHash hasher leaves) as_root tree) (ground (arith, equal)) fits) [
                    | inl there ↦ (logged, inl there)
                    | inr collision ↦ (logged, inr (inr (inr collision)))
                  ]
          ]
        ]
