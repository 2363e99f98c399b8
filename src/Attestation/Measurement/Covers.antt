-- ===== src/Attestation/Measurement/Covers.antt =====
-- Which measurements a multi-platform measurement covers.
use Prim.Native.String.{String}
use text.Mathlib.TextEquality.{eq_iff}
use tinfoil_rs.Prelude.{
  ℕ, suc, ◌≤◌, ◌<◌, ◌≡◌, ◌↔◌, refl, Bool, true, false, List, [], ◌∷◌, arith, length, ltb,
}
use tinfoil_rs.Outcome.{ok, err, ensure}
use tinfoil_rs.Attestation.Types.{
  PredicateType, sev_guest_v2, tdx_guest_v2, snp_tdx_multi_platform_v1, unknown, Measurement,
}
use tinfoil_rs.Attestation.Measurement.{
  registers_eq, zeros, compare_snp, compare_tdx, compare_registers, compare_multiplatform,
  too_few_registers,
}

-- What a multi-platform measurement, as its registers, says of another measurement: the SNP
-- register of an SEV-SNP guest, or the registers RTMR1 and RTMR2 of a TDX guest whose RTMR3 is
-- zero.
pub data Covers : List String → PredicateType → List String → Type 0 where
  all_registers :
      {rs ss : List String} → 3 ≤ length rs → rs ≡ ss → Covers rs snp_tdx_multi_platform_v1 ss
  snp :
      {s s' r1 r2 : String} {rs ss : List String}
      → s ≡ s'
      → Covers (s ∷ r1 ∷ r2 ∷ rs) sev_guest_v2 (s' ∷ ss)
  tdx :
      {s r1 r2 m r0 r1' r2' r3 : String} {rs ss : List String}
      → r1 ≡ r1'
      → r2 ≡ r2'
      → r3 ≡ zeros 96
      → Covers (s ∷ r1 ∷ r2 ∷ rs) tdx_guest_v2 (m ∷ r0 ∷ r1' ∷ r2' ∷ r3 ∷ ss)

pub registers_eq_iff : (xs ys : List String) → (registers_eq xs ys ≡ true) ↔ (xs ≡ ys)
unfolding registers_eq
registers_eq_iff [] [] = ground arith
registers_eq_iff (x ∷ xs) (y ∷ ys) = ground (arith, eq_iff x y, registers_eq_iff xs ys)
registers_eq_iff _ _ = ground arith

pub snp-inv :
    {s t r1 r2 : String} {rs ss : List String}
    → Covers (s ∷ r1 ∷ r2 ∷ rs) sev_guest_v2 (t ∷ ss)
    → s ≡ t
snp-inv (snp e) = e

pub tdx-inv :
    {s r1 r2 m r0 r1' r2' r3 : String} {rs ss : List String}
    → Covers (s ∷ r1 ∷ r2 ∷ rs) tdx_guest_v2 (m ∷ r0 ∷ r1' ∷ r2' ∷ r3 ∷ ss)
    → (r1 ≡ r1') × (r2 ≡ r2') × (r3 ≡ zeros 96)
tdx-inv (tdx e f g) = (e, f, g)

pub ensure_iff {ε} : {E : Type ε} (b : Bool) (e : E) → (ensure b e ≡ ok tt) ↔ (b ≡ true)
ensure_iff true e = (λ h. refl, λ h. refl)
ensure_iff false e = (λ h. cc, λ h. cc)

pub compare_snp_iff :
    (s r1 r2 : String) (rs ss : List String)
    → (compare_snp (s ∷ r1 ∷ r2 ∷ rs) ss ≡ ok tt) ↔ Covers (s ∷ r1 ∷ r2 ∷ rs) sev_guest_v2 ss
unfolding compare_snp
compare_snp_iff s r1 r2 rs [] = (λ e. cc, λ c. elim c [ ])
compare_snp_iff s r1 r2 rs (t ∷ ss) = (
  λ e. snp ((eq_iff s t).0 ((ensure_iff _ _).0 e)),
  λ c. (ensure_iff _ _).1 ((eq_iff s t).1 (snp-inv c)),
)

pub compare_tdx_five :
    (s r1 r2 m r0 r1' r2' r3 : String) (rs ss : List String)
    → (compare_tdx (s ∷ r1 ∷ r2 ∷ rs) (m ∷ r0 ∷ r1' ∷ r2' ∷ r3 ∷ ss) ≡ ok tt)
      ↔ ((r1 ≡ r1') × (r2 ≡ r2') × (r3 ≡ zeros 96))
unfolding compare_tdx
compare_tdx_five s r1 r2 m r0 r1' r2' r3 rs ss =
    ground (arith, eq_iff r1 r1', eq_iff r2 r2', eq_iff r3 (zeros 96))

pub compare_tdx_short :
    (own theirs : List String) → length theirs < 5 → compare_tdx own theirs ≡ err too_few_registers
unfolding compare_tdx
compare_tdx_short own theirs h = ground arith

pub compare_tdx_iff :
    (s r1 r2 : String) (rs ss : List String)
    → (compare_tdx (s ∷ r1 ∷ r2 ∷ rs) ss ≡ ok tt) ↔ Covers (s ∷ r1 ∷ r2 ∷ rs) tdx_guest_v2 ss
compare_tdx_iff s r1 r2 rs (m ∷ r0 ∷ r1' ∷ r2' ∷ r3 ∷ ss) =
    let five = compare_tdx_five s r1 r2 m r0 r1' r2' r3 rs ss in
    (λ e. let (a, b, c) = five.0 e in tdx a b c, λ c. five.1 (tdx-inv c))
compare_tdx_iff s r1 r2 rs [] =
    (λ e. cc (compare_tdx_short (s ∷ r1 ∷ r2 ∷ rs) [] (omega arith)), λ c. elim c [ ])
compare_tdx_iff s r1 r2 rs (a ∷ []) =
    (λ e. cc (compare_tdx_short (s ∷ r1 ∷ r2 ∷ rs) (a ∷ []) (omega arith)), λ c. elim c [ ])
compare_tdx_iff s r1 r2 rs (a ∷ b ∷ []) =
    (λ e. cc (compare_tdx_short (s ∷ r1 ∷ r2 ∷ rs) (a ∷ b ∷ []) (omega arith)), λ c. elim c [ ])
compare_tdx_iff s r1 r2 rs (a ∷ b ∷ d ∷ []) =
    (λ e. cc (compare_tdx_short (s ∷ r1 ∷ r2 ∷ rs) (a ∷ b ∷ d ∷ []) (omega arith)), λ c. elim c [ ])
compare_tdx_iff s r1 r2 rs (a ∷ b ∷ d ∷ f ∷ []) = (
  λ e. cc (compare_tdx_short (s ∷ r1 ∷ r2 ∷ rs) (a ∷ b ∷ d ∷ f ∷ []) (omega arith)),
  λ c. elim c [ ],
)

pub all_registers-inv : {rs ss : List String} → Covers rs snp_tdx_multi_platform_v1 ss → rs ≡ ss
all_registers-inv (all_registers h e) = e

pub compare_registers_iff :
    (s r1 r2 : String) (rs : List String) (t : PredicateType) (ss : List String)
    → (compare_registers (s ∷ r1 ∷ r2 ∷ rs) t ss ≡ ok tt) ↔ Covers (s ∷ r1 ∷ r2 ∷ rs) t ss
unfolding compare_registers
compare_registers_iff s r1 r2 rs sev_guest_v2 ss = compare_snp_iff s r1 r2 rs ss
compare_registers_iff s r1 r2 rs tdx_guest_v2 ss = compare_tdx_iff s r1 r2 rs ss
compare_registers_iff s r1 r2 rs unknown ss = (λ e. cc, λ c. elim c [ ])
compare_registers_iff s r1 r2 rs snp_tdx_multi_platform_v1 ss = (
  λ e.
      all_registers (omega arith)
        ((registers_eq_iff (s ∷ r1 ∷ r2 ∷ rs) ss).0 ((ensure_iff _ _).0 e)),
  λ c. (ensure_iff _ _).1 ((registers_eq_iff (s ∷ r1 ∷ r2 ∷ rs) ss).1 (all_registers-inv c)),
)

pub Covers-length : {rs ss : List String} {t : PredicateType} → Covers rs t ss → 3 ≤ length rs
Covers-length (all_registers h e) = h
Covers-length (snp e) = omega arith
Covers-length (tdx e f g) = omega arith

pub compare_multiplatform_short :
    (m other : Measurement)
    → length m.registers < 3
    → compare_multiplatform m other ≡ err too_few_registers
unfolding compare_multiplatform
compare_multiplatform_short m other h = ground arith

pub short_iff :
    (m other : Measurement)
    → length m.registers < 3
    → (compare_multiplatform m other ≡ ok tt) ↔ Covers m.registers other.type_ other.registers
short_iff m other h =
    (λ e. cc (compare_multiplatform_short m other h), λ c. absurd (omega (arith, Covers-length c)))

pub three : (n : ℕ) → ltb (suc (suc (suc n))) 3 ≡ false
three n = ground arith

pub compare_multiplatform_iff :
    (own : List String) (t o : PredicateType) (theirs : List String)
    → (compare_multiplatform
          (record { type_ = t; registers = own })
          (record { type_ = o; registers = theirs })
        ≡ ok tt)
      ↔ Covers own o theirs
unfolding compare_multiplatform
compare_multiplatform_iff (s ∷ r1 ∷ r2 ∷ rs) t o theirs =
    rw (three (length rs)) (compare_registers_iff s r1 r2 rs o theirs)
compare_multiplatform_iff [] t o theirs =
    short_iff (record { type_ = t; registers = [] }) (record { type_ = o; registers = theirs })
      (omega arith)
compare_multiplatform_iff (a ∷ []) t o theirs =
    short_iff (record { type_ = t; registers = a ∷ [] }) (record { type_ = o; registers = theirs })
      (omega arith)
compare_multiplatform_iff (a ∷ b ∷ []) t o theirs =
    short_iff (record { type_ = t; registers = a ∷ b ∷ [] })
      (record { type_ = o; registers = theirs }) (omega arith)
