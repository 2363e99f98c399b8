-- ===== src/Attestation/Complete/Safe.antt =====
-- No document and no release make the complete verification panic
-- (src/verifier/attestation/mod.rs and types.rs).
use Prim.Native.String.{String}
use tinfoil_rs.Prelude.{
  ℕ, ◌≤◌, ◌<◌, refl, inl, inr, arith, List, [], ◌∷◌, length, Bool-cases, ltb, zero, suc, ◌≢◌,
  Option, none,
}
use tinfoil_rs.Outcome.{Outcome, ok, err, panic}
use tinfoil_rs.Answers.{
  IsSafe, >>=-IsSafe, >>-IsSafe, err-IsSafe, ok_IsSafe, ensure-IsSafe, or_panic-IsSafe,
  Answers-IsSafe,
}
use tinfoil_rs.Errors.{Error}
use tinfoil_rs.Attestation.Types.{
  PredicateType, sev_guest_v2, tdx_guest_v2, snp_tdx_multi_platform_v1, unknown, Measurement,
  AttestationDocument,
}
use tinfoil_rs.Attestation.Measurement.{
  register, compare_tdx, compare_snp, compare_registers, compare_multiplatform, equals,
}
use tinfoil_rs.Attestation.X509.{X509}
use tinfoil_rs.Attestation.Sev.{Surroundings, verify_full_with_options}
use tinfoil_rs.Attestation.Sev.Verified.{verify_full-Answers}
use tinfoil_rs.Attestation.Types.{ValidationOptions}
use tinfoil_rs.Attestation.Complete.{
  SigstoreResult, SoftwareIdentity, with_error, verify_format, verify_document, verify_full,
  verification_timestamp, verify_complete,
}

-- A register in range.
register-IsSafe : (rs : List String) (i : ℕ) → i < length rs → IsSafe (register rs i)
register-IsSafe [] i low h = omega (arith, low)
register-IsSafe (r ∷ rs) zero low h = cc
register-IsSafe (r ∷ rs) (suc i) low h = register-IsSafe rs i (omega (arith, low)) h

compare_tdx-IsSafe : (own theirs : List String) → 3 ≤ length own → IsSafe (compare_tdx own theirs)
unfolding compare_tdx
compare_tdx-IsSafe own theirs full h = elim (Bool-cases (ltb (length theirs) 5)) [
  | inl short ↦ ground (arith, short, h)
  | inr long ↦ ground (
    arith,
    h,
    long,
    register-IsSafe own 1 (omega (arith, full)),
    register-IsSafe own 2 (omega (arith, full)),
    register-IsSafe theirs 2 (ground (arith, long)),
    register-IsSafe theirs 3 (ground (arith, long)),
    register-IsSafe theirs 4 (ground (arith, long)),
  )
]

compare_snp-IsSafe : (own theirs : List String) → 3 ≤ length own → IsSafe (compare_snp own theirs)
unfolding compare_snp
compare_snp-IsSafe own theirs full h =
    ground (arith, h, register-IsSafe own 0 (omega (arith, full)))

compare_registers-IsSafe :
    (own : List String) (type_ : PredicateType) (theirs : List String)
    → 3 ≤ length own
    → IsSafe (compare_registers own type_ theirs)
unfolding compare_registers
compare_registers-IsSafe own snp_tdx_multi_platform_v1 theirs full = ensure-IsSafe _ _
compare_registers-IsSafe own sev_guest_v2 theirs full = compare_snp-IsSafe own theirs full
compare_registers-IsSafe own tdx_guest_v2 theirs full = compare_tdx-IsSafe own theirs full
compare_registers-IsSafe own unknown theirs full = err-IsSafe _

compare_multiplatform-IsSafe : (m other : Measurement) → IsSafe (compare_multiplatform m other)
unfolding compare_multiplatform
compare_multiplatform-IsSafe m other h = elim (Bool-cases (ltb (length m.registers) 3)) [
  | inl short ↦ ground (arith, short, h)
  | inr long ↦ ground (
    arith,
    h,
    long,
    compare_registers-IsSafe m.registers other.type_ other.registers (ground (arith, long)),
  )
]

pub equals-IsSafe : (m other : Measurement) → IsSafe (equals m other)
unfolding equals
equals-IsSafe m other h =
    ground (arith, h, compare_multiplatform-IsSafe m other, compare_multiplatform-IsSafe other m)

with_error-IsSafe :
    {E : Type 0} {A : Type 0} (f : E → Error) (m : Outcome E A) → IsSafe m → IsSafe (with_error f m)
unfolding with_error
with_error-IsSafe f (ok a) safe h = cc
with_error-IsSafe f (err e) safe h = cc
with_error-IsSafe f panic safe h = safe refl

module _ (x509 : X509) (here : Surroundings) where
  verify_format-IsSafe :
      (format : PredicateType) (body : String) (options : ValidationOptions)
      → IsSafe (verify_format x509 here format body options)
  unfolding verify_format
  verify_format-IsSafe sev_guest_v2 body options =
      with_error-IsSafe _ (verify_full_with_options x509 here body options)
        (Answers-IsSafe (verify_full-Answers x509 here body options))
  verify_format-IsSafe tdx_guest_v2 body options = err-IsSafe _
  verify_format-IsSafe snp_tdx_multi_platform_v1 body options = err-IsSafe _
  verify_format-IsSafe unknown body options = err-IsSafe _

  module _ (sha256_hex : String → String) (identity : SoftwareIdentity)
      (formatted : Option String) where
    -- The complete verification does not panic, if its fetches do not and the time can be
    -- formatted.
    pub verify_complete-IsSafe :
        (repo : String) (fetched : Outcome Error AttestationDocument)
        (released : Outcome Error SigstoreResult)
        → formatted ≢ none
        → IsSafe fetched
        → IsSafe released
        → IsSafe (verify_complete x509 here sha256_hex identity formatted repo fetched released)
    unfolding verify_complete verify_full verify_document verification_timestamp
    verify_complete-IsSafe repo fetched released there fetches releases =
        >>=-IsSafe fetched _ fetches λ doc.
          >>=-IsSafe (verify_full x509 here doc) _ (verify_format-IsSafe doc.format doc.body _)
            λ enclave. >>=-IsSafe released _ releases λ release.
              >>-IsSafe (with_error _ (equals enclave.measurement release.measurement)) _
                (with_error-IsSafe _ _ (equals-IsSafe enclave.measurement release.measurement))
                (>>=-IsSafe (verification_timestamp formatted) _ (or_panic-IsSafe formatted there)
                  λ at. ok_IsSafe _)
