-- ===== src/Attestation/Measurement.antt =====
-- Comparison and fingerprints of measurements (src/verifier/attestation/types.rs). Texts are
-- compared byte for byte; `sha256_hex` stands for the third-party hash of a text, in hex.
pub mod Covers
pub mod Match
pub mod Fingerprint
use Prim.Native.String.{String}
use Prim.Native.String
use text.Mathlib.Text.{◌==◌ as str_eq}
use tinfoil_rs.Prelude.{
  ℕ, zero, suc, ◌&&◌, Bool, true, false, List, [], ◌∷◌, if◌then◌else◌, length, ltb, get_elem?, none,
  some,
}
use tinfoil_rs.Outcome.{Outcome, ok, err, panic, ◌>>=◌, ◌>>◌, ensure, reject_if}
use tinfoil_rs.Attestation.Types.{
  PredicateType, sev_guest_v2, tdx_guest_v2, snp_tdx_multi_platform_v1, unknown, Measurement,
  as_url, AttestationDocument,
}

pub data MeasurementError : Type 0 where
  format_mismatch register_mismatch too_few_registers snp_mismatch : MeasurementError
  rtmr1_mismatch rtmr2_mismatch rtmr3_mismatch : MeasurementError

unfoldable pub registers_eq : List String → List String → Bool
registers_eq [] [] = true
registers_eq (x ∷ xs) (y ∷ ys) = str_eq x y && registers_eq xs ys
registers_eq _ _ = false

-- The derived `==` of the enum.
unfoldable pub type_eq : PredicateType → PredicateType → Bool
type_eq sev_guest_v2 sev_guest_v2 = true
type_eq tdx_guest_v2 tdx_guest_v2 = true
type_eq snp_tdx_multi_platform_v1 snp_tdx_multi_platform_v1 = true
type_eq unknown unknown = true
type_eq _ _ = false

-- `"0".repeat(n)`
unfoldable pub zeros : ℕ → String
zeros zero = ""
zeros (suc n) = String.◌++◌ "0" (zeros n)

abbrev pub Compared : Type 0
Compared = Outcome MeasurementError (Unit {0})

-- `registers[i]`, which panics out of range.
abbrev pub register : List String → ℕ → Outcome MeasurementError String
register rs i = elim (get_elem? rs i) [ none ↦ panic | some r ↦ ok r ]

-- The arm of `compare_multiplatform` for TDX.
unfoldable pub compare_tdx : List String → List String → Compared
compare_tdx own theirs = do
  reject_if (ltb (length theirs) 5) too_few_registers
  expected_rtmr1 ← register own 1
  expected_rtmr2 ← register own 2
  actual_rtmr1 ← register theirs 2
  actual_rtmr2 ← register theirs 3
  ensure (str_eq expected_rtmr1 actual_rtmr1) rtmr1_mismatch
  ensure (str_eq expected_rtmr2 actual_rtmr2) rtmr2_mismatch
  rtmr3 ← register theirs 4
  ensure (str_eq rtmr3 (zeros 96)) rtmr3_mismatch

-- The arm for SEV-SNP.
unfoldable pub compare_snp : List String → List String → Compared
compare_snp own theirs = do
  expected_snp ← register own 0
  actual_snp ← elim (get_elem? theirs 0) [ none ↦ err too_few_registers | some r ↦ ok r ]
  ensure (str_eq expected_snp actual_snp) snp_mismatch

unfoldable pub compare_registers : List String → PredicateType → List String → Compared
unfolding compare_snp compare_tdx registers_eq
compare_registers own snp_tdx_multi_platform_v1 theirs =
    ensure (registers_eq own theirs) register_mismatch
compare_registers own sev_guest_v2 theirs = compare_snp own theirs
compare_registers own tdx_guest_v2 theirs = compare_tdx own theirs
compare_registers own unknown theirs = err format_mismatch

unfoldable pub compare_multiplatform : Measurement → Measurement → Compared
unfolding compare_registers
compare_multiplatform m other = do
  reject_if (ltb (length m.registers) 3) too_few_registers
  compare_registers m.registers other.type_ other.registers

unfoldable pub equals : Measurement → Measurement → Compared
unfolding compare_multiplatform type_eq registers_eq
equals m other =
    if type_eq m.type_ snp_tdx_multi_platform_v1
    then compare_multiplatform m other
    else if type_eq other.type_ snp_tdx_multi_platform_v1
    then compare_multiplatform other m
    else do
      ensure (type_eq m.type_ other.type_) format_mismatch
      ensure (registers_eq m.registers other.registers) register_mismatch

-- `registers.first().map(|s| s.as_str()).unwrap_or("")`
unfoldable pub first_or_empty : List String → String
first_or_empty [] = ""
first_or_empty (r ∷ rs) = r

-- `registers.join("")`
unfoldable pub join : List String → String
join [] = ""
join (r ∷ rs) = String.◌++◌ r (join rs)

-- The registers that a fingerprint for `target` covers.
unfoldable pub covered_registers : PredicateType → PredicateType → List String → List String
unfolding first_or_empty
covered_registers snp_tdx_multi_platform_v1 sev_guest_v2 rs = first_or_empty rs ∷ []
covered_registers sev_guest_v2 _ rs = first_or_empty rs ∷ []
covered_registers _ _ rs = rs

module _ (sha256_hex : String → String) where
  unfoldable pub fingerprint_of : PredicateType → List String → String
  unfolding join as_url
  fingerprint_of t (r ∷ []) = r
  fingerprint_of t rs = sha256_hex (String.◌++◌ (as_url t) (join rs))

  unfoldable pub fingerprint_for_target : Measurement → PredicateType → String
  unfolding fingerprint_of covered_registers
  fingerprint_for_target m target =
      fingerprint_of m.type_ (covered_registers m.type_ target m.registers)

  unfoldable pub fingerprint : Measurement → String
  unfolding fingerprint_for_target
  fingerprint m = fingerprint_for_target m m.type_

  -- `AttestationDocument::hash`
  unfoldable pub document_hash : AttestationDocument → String
  document_hash d = sha256_hex (String.◌++◌ (as_url d.format) d.body)
