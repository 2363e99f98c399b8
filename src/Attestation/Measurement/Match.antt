-- ===== src/Attestation/Measurement/Match.antt =====
-- Which measurements `equals` accepts.
use Prim.Native.String.{String}
use tinfoil_rs.Prelude.{◌≡◌, ◌≢◌, ◌↔◌, sym, ◌∙◌, inl, inr, true, false, List, arith, Bool-cases}
use tinfoil_rs.Outcome.{ok, ensure, ◌>>◌}
use tinfoil_rs.Attestation.Types.{
  PredicateType, sev_guest_v2, snp_tdx_multi_platform_v1, Measurement,
}
use tinfoil_rs.Attestation.Measurement.{
  registers_eq, type_eq, compare_multiplatform, equals, format_mismatch, register_mismatch,
}
use tinfoil_rs.Attestation.Measurement.Covers.{
  Covers, registers_eq_iff, compare_multiplatform_iff, all_registers,
}

type_eq_iff : (t o : PredicateType) → (type_eq t o ≡ true) ↔ (t ≡ o)
unfolding type_eq
type_eq_iff sev_guest_v2 o = ground arith
type_eq_iff _ o = ground arith

-- The measurements that match: one is multi-platform and covers the other, or neither is and they
-- are the same.
pub data Matches (m other : Measurement) : Type 0 where
  own_covers :
      m.type_ ≡ snp_tdx_multi_platform_v1
      → Covers m.registers other.type_ other.registers
      → Matches m other
  other_covers :
      other.type_ ≡ snp_tdx_multi_platform_v1
      → Covers other.registers m.type_ m.registers
      → Matches m other
  same :
      m.type_ ≢ snp_tdx_multi_platform_v1
      → m.type_ ≡ other.type_
      → m.registers ≡ other.registers
      → Matches m other

same_iff :
    (t o : PredicateType) (own theirs : List String)
    → ((ensure (type_eq t o) format_mismatch >> ensure (registers_eq own theirs) register_mismatch)
        ≡ ok tt)
      ↔ ((t ≡ o) × (own ≡ theirs))
same_iff t o own theirs = ground (arith, type_eq_iff t o, registers_eq_iff own theirs)

Covers-swap :
    {rs ss : List String}
    → Covers rs snp_tdx_multi_platform_v1 ss
    → Covers ss snp_tdx_multi_platform_v1 rs
Covers-swap {rs} {ss} (all_registers h e) = all_registers (rw (← e) h) (sym e)

own_Covers :
    {m other : Measurement}
    → Matches m other
    → m.type_ ≡ snp_tdx_multi_platform_v1
    → Covers m.registers other.type_ other.registers
own_Covers (own_covers e c) t = c
own_Covers {m} {other} (other_covers e c) t = rw e (Covers-swap (rw t at c))
own_Covers (same ne e f) t = absurd (ne t)

other_Covers :
    {m other : Measurement}
    → Matches m other
    → m.type_ ≢ snp_tdx_multi_platform_v1
    → other.type_ ≡ snp_tdx_multi_platform_v1
    → Covers other.registers m.type_ m.registers
other_Covers (own_covers e c) ne t = absurd (ne e)
other_Covers (other_covers e c) ne t = c
other_Covers (same ne' e f) ne t = absurd (ne (e ∙ t))

same_of_Matches :
    {m other : Measurement}
    → Matches m other
    → m.type_ ≢ snp_tdx_multi_platform_v1
    → other.type_ ≢ snp_tdx_multi_platform_v1
    → (m.type_ ≡ other.type_) × (m.registers ≡ other.registers)
same_of_Matches (own_covers e c) ne ne' = absurd (ne e)
same_of_Matches (other_covers e c) ne ne' = absurd (ne' e)
same_of_Matches (same n e f) ne ne' = (e, f)

type_ne : (t o : PredicateType) → type_eq t o ≡ false → t ≢ o
type_ne t o h e = cc ((type_eq_iff t o).1 e)

module _ (m other : Measurement) where
  equals_own :
      type_eq m.type_ snp_tdx_multi_platform_v1 ≡ true
      → equals m other ≡ compare_multiplatform m other
  unfolding equals
  equals_own h = rw h

  equals_other :
      type_eq m.type_ snp_tdx_multi_platform_v1 ≡ false
      → type_eq other.type_ snp_tdx_multi_platform_v1 ≡ true
      → equals m other ≡ compare_multiplatform other m
  unfolding equals
  equals_other h k = rw (h, k)

  equals_single :
      type_eq m.type_ snp_tdx_multi_platform_v1 ≡ false
      → type_eq other.type_ snp_tdx_multi_platform_v1 ≡ false
      → equals m other ≡ (
          ensure (type_eq m.type_ other.type_) format_mismatch
          >> ensure (registers_eq m.registers other.registers) register_mismatch)
  unfolding equals
  equals_single h k = rw (h, k)

-- `equals` accepts exactly the measurements that match: a multi-platform one, of at least three
-- registers, covers the other, or neither is multi-platform and they are the same.
pub equals_iff : (m other : Measurement) → (equals m other ≡ ok tt) ↔ Matches m other
equals_iff m other = elim (Bool-cases (type_eq m.type_ snp_tdx_multi_platform_v1)) [
  | inl own_multi ↦
      let t = (type_eq_iff _ _).0 own_multi in
      let covers = compare_multiplatform_iff m.registers m.type_ other.type_ other.registers in
      let step = equals_own m other own_multi in
      (λ h. own_covers t (covers.0 (sym step ∙ h)), λ x. step ∙ covers.1 (own_Covers x t))
  | inr own_single ↦ elim (Bool-cases (type_eq other.type_ snp_tdx_multi_platform_v1)) [
    | inl other_multi ↦
        let t = (type_eq_iff _ _).0 other_multi in
        let covers = compare_multiplatform_iff other.registers other.type_ m.type_ m.registers in
        let step = equals_other m other own_single other_multi in
        (
          λ h. other_covers t (covers.0 (sym step ∙ h)),
          λ x. step ∙ covers.1 (other_Covers x (type_ne _ _ own_single) t),
        )
    | inr other_single ↦
        let both = same_iff m.type_ other.type_ m.registers other.registers in
        let step = equals_single m other own_single other_single in
        let ne = type_ne _ _ own_single in
        (
          λ h. let (t, r) = both.0 (sym step ∙ h) in same ne t r,
          λ x. step ∙ both.1 (same_of_Matches x ne (type_ne _ _ other_single)),
        )
  ]
]

Matches-symm : {m other : Measurement} → Matches m other → Matches other m
Matches-symm (own_covers e c) = other_covers e c
Matches-symm (other_covers e c) = own_covers e c
Matches-symm {m} {other} (same ne e f) = same (λ t. ne (e ∙ t)) (sym e) (sym f)

-- Comparing in either order accepts the same measurements.
pub equals_symm : (m other : Measurement) → (equals m other ≡ ok tt) → (equals other m ≡ ok tt)
equals_symm m other h = (equals_iff other m).1 (Matches-symm ((equals_iff m other).0 h))
