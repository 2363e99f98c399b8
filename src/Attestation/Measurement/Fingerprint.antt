-- ===== src/Attestation/Measurement/Fingerprint.antt =====
-- The fingerprints that `verify_complete` reports for the source and for an SEV-SNP enclave.
use Prim.Native.String.{String}
use tinfoil_rs.Prelude.{◌≡◌, List}
use tinfoil_rs.Outcome.{ok}
use tinfoil_rs.Attestation.Types.{sev_guest_v2, snp_tdx_multi_platform_v1, Measurement}
use tinfoil_rs.Attestation.Measurement.{
  equals, fingerprint_of, fingerprint_for_target, fingerprint, covered_registers,
}
use tinfoil_rs.Attestation.Measurement.Match.{Matches, own_covers, other_covers, same, equals_iff}
use tinfoil_rs.Attestation.Measurement.Covers.{Covers, snp}

module _ (sha256_hex : String → String) where
  Covers-fingerprint :
      {own theirs : List String}
      → Covers own sev_guest_v2 theirs
      → fingerprint_of sha256_hex snp_tdx_multi_platform_v1
          (covered_registers snp_tdx_multi_platform_v1 sev_guest_v2 own)
        ≡ fingerprint_of sha256_hex sev_guest_v2
            (covered_registers sev_guest_v2 sev_guest_v2 theirs)
  unfolding fingerprint_of covered_registers
  Covers-fingerprint (snp e) = e

  Matches-fingerprint :
      {enclave code : Measurement}
      → enclave.type_ ≡ sev_guest_v2
      → Matches enclave code
      → fingerprint_for_target sha256_hex code enclave.type_ ≡ fingerprint sha256_hex enclave
  unfolding fingerprint
  Matches-fingerprint sev (own_covers e c) = cc
  Matches-fingerprint {enclave} {code} sev (other_covers e c) =
      rw (e, sev) (Covers-fingerprint (rw sev at c))
  Matches-fingerprint {enclave} {code} sev (same ne e f) = rw (← e, ← f)

-- If the measurement of an SEV-SNP enclave equals that of the source, then the source's fingerprint
-- for the enclave's type is the enclave's own fingerprint.
pub fingerprint-equals :
    (sha256_hex : String → String) (enclave code : Measurement)
    → enclave.type_ ≡ sev_guest_v2
    → equals enclave code ≡ ok tt
    → fingerprint_for_target sha256_hex code enclave.type_ ≡ fingerprint sha256_hex enclave
fingerprint-equals sha256_hex enclave code sev h =
    Matches-fingerprint sha256_hex sev ((equals_iff enclave code).0 h)
