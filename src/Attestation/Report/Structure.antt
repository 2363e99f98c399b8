-- ===== src/Attestation/Report/Structure.antt =====
-- Which reports have the reserved bytes, bits and signer information that the validation asks for.
use tinfoil_rs.Prelude.{
  ℕ, ◌/◌, ◌%◌, ◌^◌, ◌≤◌, ◌<◌, ◌≡◌, ◌↔◌, refl, Bool, true, false, List, arith, leb, if◌then◌else◌,
  length, ==_iff,
}
use Prim.Native.String.{String}
use tinfoil_rs.Decides.{
  Decides, DecidesTo, ok-Decides, if-Decides, ensure-Decides, >>-Decides, Decides-map,
}
use tinfoil_rs.Attestation.Types.{flag}
use tinfoil_rs.Attestation.Reason.{Reason}
use tinfoil_rs.Attestation.Constants.{
  report_size, current_tcb_offset, reported_tcb_offset, committed_tcb_offset, launch_tcb_offset,
  signer_info_offset,
}
use tinfoil_rs.Attestation.Bytes.{word_of, le_at-in_range}
use tinfoil_rs.Attestation.Report.{
  validate_mbz_bytes, validate_tcb_mbz, validate_mbz_ranges, validate_mbz_tcbs, validate_mbz_fields,
  validate_signer_info,
}
use tinfoil_rs.Attestation.Report.Zeroed.{IsZeroed, validate_mbz_bytes-Decides}

-- Bits 47 to 16 of a TCB field are zero.
abbrev pub TcbReserved : ℕ → Type 0
TcbReserved tcb = tcb / 2 ^ 16 % 2 ^ 32 ≡ 0

validate_tcb_mbz-Decides :
    (tcb : ℕ) (name : String) → Decides (validate_tcb_mbz tcb name) (TcbReserved tcb)
unfolding validate_tcb_mbz
validate_tcb_mbz-Decides tcb name = ensure-Decides _ _ (==_iff _ 0)

-- The reserved ranges of a report of the given version.
pub record MbzRanges (version : ℕ) (report : List ℕ) : Type 0 where
  pub after_signer_info : IsZeroed report 0x4C 0x50
  pub before_chip_id_v3 : 3 ≤ version → IsZeroed report 0x18B 0x1A0
  pub before_chip_id_v2 : version < 3 → IsZeroed report 0x188 0x1A0
  pub after_current_version : IsZeroed report 0x1EB 0x1EC
  pub after_committed_version : IsZeroed report 0x1EF 0x1F0
  pub before_signature_v5 : 5 ≤ version → IsZeroed report 0x208 0x2A0
  pub before_signature_v2 : version < 5 → IsZeroed report 0x1F8 0x2A0
  pub signature_padding : IsZeroed report 816 report_size

le_iff : (a b : ℕ) → (leb a b ≡ true) ↔ (a ≤ b)
le_iff a b = ground arith

lt_iff : (a b : ℕ) → (leb a b ≡ false) ↔ (b < a)
lt_iff a b = ground arith

choose_start :
    (report : List ℕ) (b : Bool)
    → 0x2A0 ≤ length report
    → Decides
        (validate_mbz_bytes report (if b then 0x208 else 0x1F8) 0x2A0 "reserved_before_signature")
        ((b ≡ true → IsZeroed report 0x208 0x2A0) × (b ≡ false → IsZeroed report 0x1F8 0x2A0))
choose_start report true fits =
    Decides-map (λ z. (λ h. z, λ h. cc)) (λ h. h.0 refl)
      (validate_mbz_bytes-Decides report 0x208 0x98 _ fits)
choose_start report false fits =
    Decides-map (λ z. (λ h. cc, λ h. z)) (λ h. h.1 refl)
      (validate_mbz_bytes-Decides report 0x1F8 0xA8 _ fits)

validate_mbz_ranges-Decides :
    (version : ℕ) (report : List ℕ)
    → report_size ≤ length report
    → Decides (validate_mbz_ranges version report) (MbzRanges version report)
unfolding validate_mbz_ranges
validate_mbz_ranges-Decides version report fits =
    Decides-map
      (λ (a, ((b, c), (d, (e, ((f, g), h))))). record {
        after_signer_info = a;
        before_chip_id_v3 = λ t. b ((le_iff 3 version).1 t);
        before_chip_id_v2 = λ t. c ((lt_iff 3 version).1 t);
        after_current_version = d;
        after_committed_version = e;
        before_signature_v5 = λ t. f ((le_iff 5 version).1 t);
        before_signature_v2 = λ t. g ((lt_iff 5 version).1 t);
        signature_padding = h;
      })
      (λ r. (
        r.after_signer_info,
        (
          (
            λ t. r.before_chip_id_v3 ((le_iff 3 version).0 t),
            λ t. r.before_chip_id_v2 ((lt_iff 3 version).0 t),
          ),
          (
            r.after_current_version,
            (
              r.after_committed_version,
              (
                (
                  λ t. r.before_signature_v5 ((le_iff 5 version).0 t),
                  λ t. r.before_signature_v2 ((lt_iff 5 version).0 t),
                ),
                r.signature_padding,
              ),
            ),
          ),
        ),
      ))
      (>>-Decides (validate_mbz_bytes-Decides report 0x4C 4 _ (omega arith)) (
        >>-Decides
          (if-Decides (leb 3 version) (validate_mbz_bytes-Decides report 0x18B 0x15 _ (omega arith))
            (validate_mbz_bytes-Decides report 0x188 0x18 _ (omega arith)))
          (>>-Decides (validate_mbz_bytes-Decides report 0x1EB 1 _ (omega arith)) (
            >>-Decides (validate_mbz_bytes-Decides report 0x1EF 1 _ (omega arith)) (
              >>-Decides (choose_start report (leb 5 version) (omega arith))
                (validate_mbz_bytes-Decides report 816 368 _ fits))))))

-- The TCB fields have no reserved bit set.
pub record MbzTcbs (report : List ℕ) : Type 0 where
  pub current : TcbReserved (word_of report current_tcb_offset 8)
  pub reported : TcbReserved (word_of report reported_tcb_offset 8)
  pub committed : TcbReserved (word_of report committed_tcb_offset 8)
  pub launch : TcbReserved (word_of report launch_tcb_offset 8)

validate_mbz_tcbs-Decides :
    (report : List ℕ)
    → report_size ≤ length report
    → Decides (validate_mbz_tcbs report) (MbzTcbs report)
unfolding validate_mbz_tcbs
validate_mbz_tcbs-Decides report fits =
    rw
      (
        le_at-in_range {E = Reason} report current_tcb_offset 8 (omega arith),
        le_at-in_range {E = Reason} report reported_tcb_offset 8 (omega arith),
        le_at-in_range {E = Reason} report committed_tcb_offset 8 (omega arith),
        le_at-in_range {E = Reason} report launch_tcb_offset 8 (omega arith),
      )
      (Decides-map
        (λ (a, (b, (c, d))). record { current = a; reported = b; committed = c; launch = d })
        (λ r. (r.current, (r.reported, (r.committed, r.launch))))
        (>>-Decides (validate_tcb_mbz-Decides _ _) (
          >>-Decides (validate_tcb_mbz-Decides _ _)
            (>>-Decides (validate_tcb_mbz-Decides _ _) (validate_tcb_mbz-Decides _ _)))))

-- The reserved parts of a report, by the version that it states.
abbrev pub MbzFields : List ℕ → Type 0
MbzFields report = MbzRanges (word_of report 0 4) report × MbzTcbs report

-- On a report of full size the check of the reserved fields passes exactly when every reserved
-- range of the report's version is zero and no TCB field has a reserved bit set, and is an error
-- otherwise.
pub validate_mbz_fields-Decides :
    (report : List ℕ)
    → report_size ≤ length report
    → Decides (validate_mbz_fields report) (MbzFields report)
unfolding validate_mbz_fields
validate_mbz_fields-Decides report fits =
    rw (le_at-in_range {E = Reason} report 0 4 (omega arith)) (
      >>-Decides (validate_mbz_ranges-Decides _ report fits)
        (validate_mbz_tcbs-Decides report fits))

-- No reserved bit is set, and the signing key is the VCEK.
abbrev pub SignerAllowed : ℕ → Type 0
SignerAllowed signer_info = signer_info / 2 ^ 5 ≡ 0 × signer_info / 2 ^ 2 % 8 ≡ 0

-- On a report of full size the signer information is accepted, with bit 1 as the mask-chip-key flag,
-- exactly when it is allowed, and is an error otherwise.
pub validate_signer_info-Decides :
    (report : List ℕ)
    → report_size ≤ length report
    → DecidesTo
        (validate_signer_info report)
        (flag (word_of report signer_info_offset 4) 1)
        (SignerAllowed (word_of report signer_info_offset 4))
unfolding validate_signer_info
validate_signer_info-Decides report fits =
    rw (le_at-in_range {E = Reason} report signer_info_offset 4 (omega arith)) (
      Decides-map (λ (a, (b, _)). (a, b)) (λ (a, b). (a, (b, tt)))
        (>>-Decides (ensure-Decides _ _ (==_iff _ 0))
          (>>-Decides (ensure-Decides _ _ (==_iff _ 0)) (ok-Decides _))))
