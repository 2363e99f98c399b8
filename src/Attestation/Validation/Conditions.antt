-- ===== src/Attestation/Validation/Conditions.antt =====
-- What is asked of the fields of a report, said of the numbers that its bytes hold.
use tinfoil_rs.Prelude.{
  ℕ, ◌/◌, ◌%◌, ◌^◌, ◌≤◌, ◌≡◌, ◌↔◌, true, List, [], ◌∷◌, Option, none, some, arith, ==_iff,
}
use tinfoil_rs.Decides.{Decides, ok-Decides, IfSet}
use tinfoil_rs.Attestation.Types.{
  SnpPolicy, SnpPlatformInfo, TcbParts, flag, policy_from_u64, platform_info_from_u64, tcb_from_u64,
  meets_minimum,
}
use tinfoil_rs.Attestation.Constants.{
  committed_tcb_offset, current_tcb_offset, committed_build_offset, current_build_offset,
  committed_minor_offset, current_minor_offset, committed_major_offset, current_major_offset,
  reported_tcb_offset,
}
use tinfoil_rs.Attestation.Bytes.{word_of, byte_of, bytes_eq}
use tinfoil_rs.Attestation.Report.{Attested}
use tinfoil_rs.Attestation.Validation.{if_set, reserved_clear, version_word}
use tinfoil_rs.Attestation.Validation.Policy.{PolicyAllowed, PlatformAllowed}

pub if_set-Decides {ℓ} :
    {A : Type ℓ} {P : A → Type 0} (o : Option A) (check : A → Attested (Unit {0}))
    → ((a : A) → Decides (check a) (P a))
    → Decides (if_set o check) (IfSet o P)
if_set-Decides none check d = ok-Decides tt
if_set-Decides (some a) check d = d a

pub bytes_eq_iff : (xs ys : List ℕ) → (bytes_eq xs ys ≡ true) ↔ (xs ≡ ys)
unfolding bytes_eq
bytes_eq_iff [] [] = ground arith
bytes_eq_iff (x ∷ xs) (y ∷ ys) = ground (arith, bytes_eq_iff xs ys)
bytes_eq_iff _ _ = ground arith

-- Component by component.
pub record TcbAtLeast (t min : TcbParts) : Type 0 where
  pub bl_spl : min.bl_spl ≤ t.bl_spl
  pub tee_spl : min.tee_spl ≤ t.tee_spl
  pub snp_spl : min.snp_spl ≤ t.snp_spl
  pub ucode_spl : min.ucode_spl ≤ t.ucode_spl

-- A TCB meets a minimum exactly when each of its four components does.
pub meets_minimum_iff : (t min : TcbParts) → (meets_minimum t min ≡ true) ↔ TcbAtLeast t min
unfolding meets_minimum
meets_minimum_iff t min = (λ h. ground arith, λ a. ground arith)

abbrev pub tcb_of : List ℕ → ℕ → TcbParts
tcb_of report offset = tcb_from_u64 (word_of report offset 8)

pub flag_iff : (raw i : ℕ) → (flag raw i ≡ true) ↔ (raw / 2 ^ i % 2 ≡ 1)
flag_iff raw i = ==_iff _ 1

pub reserved_clear_iff :
    (raw : ℕ) → (reserved_clear raw ≡ true) ↔ ((raw / 2 ^ 6 % 2 ≡ 0) × (raw / 2 ^ 8 ≡ 0))
reserved_clear_iff raw = ground arith

-- The committed and the current firmware are the same.
pub record NotProvisional (report : List ℕ) : Type 0 where
  pub tcb : word_of report committed_tcb_offset 8 ≡ word_of report current_tcb_offset 8
  pub build : byte_of report committed_build_offset ≡ byte_of report current_build_offset
  pub minor : byte_of report committed_minor_offset ≡ byte_of report current_minor_offset
  pub major : byte_of report committed_major_offset ≡ byte_of report current_major_offset

-- Current and committed values of at least the minimum.
abbrev pub BuildAtLeast : List ℕ → ℕ → Type 0
BuildAtLeast report min =
    min ≤ byte_of report current_build_offset × min ≤ byte_of report committed_build_offset

abbrev pub VersionAtLeast : List ℕ → ℕ → Type 0
VersionAtLeast report min =
    min ≤ version_word (byte_of report current_major_offset) (byte_of report current_minor_offset)
    × min
      ≤ version_word (byte_of report committed_major_offset) (byte_of report committed_minor_offset)

pub record PolicyField (raw : ℕ) (required : Option SnpPolicy) : Type 0 where
  pub bit_17 : raw / 2 ^ 17 % 2 ≡ 1
  pub high_bits : raw / 2 ^ 26 ≡ 0
  pub allowed : IfSet required (PolicyAllowed (policy_from_u64 raw))

pub record PlatformField (raw : ℕ) (required : SnpPlatformInfo) : Type 0 where
  pub bit_6 : raw / 2 ^ 6 % 2 ≡ 0
  pub high_bits : raw / 2 ^ 8 ≡ 0
  pub allowed : PlatformAllowed (platform_info_from_u64 raw) required

pub record VmplField (vmpl : ℕ) (expected : Option ℕ) : Type 0 where
  pub range : vmpl ≤ 3
  pub expected_value : IfSet expected (λ e. vmpl ≡ e)

-- The three TCB fields of one minimum.
pub record TcbsAtLeast (report : List ℕ) (min : TcbParts) : Type 0 where
  pub reported : TcbAtLeast (tcb_of report reported_tcb_offset) min
  pub current : TcbAtLeast (tcb_of report current_tcb_offset) min
  pub committed : TcbAtLeast (tcb_of report committed_tcb_offset) min
