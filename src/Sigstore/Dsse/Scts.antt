-- ===== src/Sigstore/Dsse/Scts.antt =====
-- The SCTs of a certificate: different logs, and one that verifies (src/verifier/sigstore/dsse.rs).
use tinfoil_rs.Prelude.{ℕ, ◌≡◌, ◌↔◌, ◌⊎◌, refl, inl, inr, false, List, [], ◌∷◌, arith}
use tinfoil_rs.Outcome.{ok}
use tinfoil_rs.Outcome.{Outcome-cases}
use tinfoil_rs.Decides.{Decides, reject_if-Decides, >>-Decides, Decides-map}
use tinfoil_rs.Answers.{IsSafe}
use tinfoil_rs.Attestation.Validation.Conditions.{bytes_eq_iff}
use tinfoil_rs.Sigstore.Transparency.{log_id}
use tinfoil_rs.Sigstore.Transparency
use tinfoil_rs.Sigstore.Dsse.{BundlePackage, Ring, Sct, was_seen, reject_duplicates, any_valid}

abbrev pub All : {A : Type 0} → (A → Type 0) → List A → Type 0
All P [] = Unit
All P (x ∷ xs) = P x × All P xs

abbrev pub Any : {A : Type 0} → (A → Type 0) → List A → Type 0
Any P [] = ⊥
Any P (x ∷ xs) = P x ⊎ Any P xs

was_seen_iff :
    (seen : List (List ℕ)) (key_id : List ℕ)
    → (was_seen seen key_id ≡ false) ↔ All (λ s. ¬ (s ≡ key_id)) seen
unfolding was_seen
was_seen_iff [] key_id = ((λ h. tt), λ h. refl)
was_seen_iff (s ∷ seen) key_id = ground (arith, bytes_eq_iff s key_id, was_seen_iff seen key_id)

module _ (p : BundlePackage) where
  open p use {x509, crypto}

  -- No two SCTs, and no SCT and a log of `seen`, are of the same log.
  abbrev pub AreOfDifferentLogs : List (List ℕ) → List (Sct p) → Type 0
  AreOfDifferentLogs seen [] = Unit
  AreOfDifferentLogs seen (sct ∷ scts) =
      All (λ s. ¬ (s ≡ sct.sct.key_id)) seen × AreOfDifferentLogs (sct.sct.key_id ∷ seen) scts

  pub reject_duplicates-Decides :
      (seen : List (List ℕ)) (scts : List (Sct p))
      → Decides (reject_duplicates p seen scts) (AreOfDifferentLogs seen scts)
  unfolding reject_duplicates log_id
  reject_duplicates-Decides seen [] = inl (refl, tt)
  reject_duplicates-Decides seen (sct ∷ scts) =
      >>-Decides (reject_if-Decides _ _ (was_seen_iff seen sct.sct.key_id))
        (reject_duplicates-Decides (sct.sct.key_id ∷ seen) scts)

  abbrev pub IsVerified : Ring p → Sct p → Type 0
  IsVerified ring sct = Transparency.verify_sct x509.scts crypto sct ring ≡ ok tt

  pub any_valid-Decides :
      (ring : Ring p) (scts : List (Sct p))
      → All (λ sct. IsSafe (Transparency.verify_sct x509.scts crypto sct ring)) scts
      → Decides (any_valid p ring scts) (Any (IsVerified ring) scts)
  unfolding any_valid
  any_valid-Decides ring [] safe = inr (_, refl, λ h. h)
  any_valid-Decides ring (sct ∷ scts) (safe, rest) =
      elim (Outcome-cases (Transparency.verify_sct x509.scts crypto sct ring)) [
        | inl (_, verified) ↦ inl (rw (any_valid, verified), inl verified)
        | inr (inr panics) ↦ absurd (safe panics)
        | inr (inl (e, refused)) ↦
            rw (any_valid, refused)
              (Decides-map inr (λ h. elim h [ inl verified ↦ absurd cc | inr later ↦ later ])
                (any_valid-Decides ring scts rest))
      ]

  -- One of the SCTs verifies, if the check of them passes; this needs no premise.
  pub any_valid_sound :
      (ring : Ring p) (scts : List (Sct p))
      → any_valid p ring scts ≡ ok tt
      → Any (IsVerified ring) scts
  unfolding any_valid
  any_valid_sound ring [] h = cc
  any_valid_sound ring (sct ∷ scts) h =
      elim (Outcome-cases (Transparency.verify_sct x509.scts crypto sct ring)) [
        | inl (_, verified) ↦ inl verified
        | inr (inr panics) ↦ absurd (ground (arith, panics))
        | inr (inl (e, refused)) ↦ inr (any_valid_sound ring scts (ground (arith, refused)))
      ]
