-- ===== src/Attestation/Validation/Policy.antt =====
-- Which guest policies and platforms are accepted.
use tinfoil_rs.Prelude.{ℕ, ◌≤◌, ◌≡◌, ◌↔◌, refl, Bool, true, false, not, ◌&&◌, arith, ltb}
use tinfoil_rs.Decides.{Decides, reject_if-Decides, >>-Decides, Decides-map}
use tinfoil_rs.Attestation.Types.{SnpPolicy, SnpPlatformInfo}
use tinfoil_rs.Attestation.Validation.{validate_policy, validate_platform_info, version_word}

-- `q` is set wherever `p` is.
abbrev pub Implies : Bool → Bool → Type 0
Implies p q = p ≡ true → q ≡ true

not_and_iff : (p q : Bool) → ((not q && p) ≡ false) ↔ Implies p q
not_and_iff true true = (λ e h. refl, λ h. refl)
not_and_iff true false = (λ e h. cc, λ h. cc (h refl))
not_and_iff false true = (λ e h. cc, λ h. refl)
not_and_iff false false = (λ e h. cc, λ h. refl)

and_not_iff : (p q : Bool) → ((p && not q) ≡ false) ↔ Implies p q
and_not_iff true true = (λ e h. refl, λ h. refl)
and_not_iff true false = (λ e h. cc, λ h. cc (h refl))
and_not_iff false true = (λ e h. cc, λ h. refl)
and_not_iff false false = (λ e h. cc, λ h. refl)

pub ltb_iff : (a b : ℕ) → (ltb a b ≡ false) ↔ (b ≤ a)
ltb_iff a b = ground arith

-- A report's policy against the required one: no capability that is not granted, and every
-- restriction that is demanded.
pub record PolicyAllowed (report required : SnpPolicy) : Type 0 where
  pub abi :
      version_word required.abi_major required.abi_minor
      ≤ version_word report.abi_major report.abi_minor
  pub migrate_ma : Implies report.migrate_ma required.migrate_ma
  pub debug : Implies report.debug required.debug
  pub smt : Implies report.smt required.smt
  pub cxl_allowed : Implies report.cxl_allowed required.cxl_allowed
  pub mem_aes256_xts : Implies report.mem_aes256_xts required.mem_aes256_xts
  pub mem_aes256_xts_kept : Implies required.mem_aes256_xts report.mem_aes256_xts
  pub single_socket : Implies required.single_socket report.single_socket
  pub rapl_dis : Implies required.rapl_dis report.rapl_dis
  pub ciphertext_hiding_dram : Implies required.ciphertext_hiding_dram report.ciphertext_hiding_dram
  pub page_swap_disabled : Implies required.page_swap_disabled report.page_swap_disabled

-- For every pair of policies the check passes exactly when the report's ABI version is at least the
-- required one, the report has no capability that is not granted, and it has every restriction that
-- is demanded; it is an error, never a panic, otherwise.
pub validate_policy-Decides :
    (report required : SnpPolicy)
    → Decides (validate_policy report required) (PolicyAllowed report required)
unfolding validate_policy
validate_policy-Decides r q =
    Decides-map
      (λ (a, (b, (c, (d, (e, (f, (g, (h, (i, (j, k)))))))))). record {
        abi = a;
        migrate_ma = b;
        debug = c;
        smt = d;
        cxl_allowed = e;
        mem_aes256_xts = f;
        mem_aes256_xts_kept = g;
        single_socket = h;
        rapl_dis = i;
        ciphertext_hiding_dram = j;
        page_swap_disabled = k;
      })
      (λ p. (
        p.abi,
        (
          p.migrate_ma,
          (
            p.debug,
            (
              p.smt,
              (
                p.cxl_allowed,
                (
                  p.mem_aes256_xts,
                  (
                    p.mem_aes256_xts_kept,
                    (
                      p.single_socket,
                      (p.rapl_dis, (p.ciphertext_hiding_dram, p.page_swap_disabled)),
                    ),
                  ),
                ),
              ),
            ),
          ),
        ),
      ))
      (>>-Decides (reject_if-Decides _ _ (ltb_iff _ _)) (
        >>-Decides (reject_if-Decides _ _ (not_and_iff r.migrate_ma q.migrate_ma)) (
          >>-Decides (reject_if-Decides _ _ (not_and_iff r.debug q.debug)) (
            >>-Decides (reject_if-Decides _ _ (not_and_iff r.smt q.smt)) (
              >>-Decides (reject_if-Decides _ _ (not_and_iff r.cxl_allowed q.cxl_allowed)) (
                >>-Decides (reject_if-Decides _ _ (not_and_iff r.mem_aes256_xts q.mem_aes256_xts)) (
                  >>-Decides (reject_if-Decides _ _ (and_not_iff q.mem_aes256_xts r.mem_aes256_xts))
                    (>>-Decides
                      (reject_if-Decides _ _ (and_not_iff q.single_socket r.single_socket))
                      (>>-Decides (reject_if-Decides _ _ (and_not_iff q.rapl_dis r.rapl_dis)) (
                        >>-Decides
                          (reject_if-Decides _ _
                            (and_not_iff q.ciphertext_hiding_dram r.ciphertext_hiding_dram))
                          (reject_if-Decides _ _
                            (and_not_iff q.page_swap_disabled r.page_swap_disabled))))))))))))

-- SMT only if it is granted, and every feature that is demanded.
pub record PlatformAllowed (report required : SnpPlatformInfo) : Type 0 where
  pub smt_enabled : Implies report.smt_enabled required.smt_enabled
  pub tsme_enabled : Implies required.tsme_enabled report.tsme_enabled
  pub ecc_enabled : Implies required.ecc_enabled report.ecc_enabled
  pub rapl_disabled : Implies required.rapl_disabled report.rapl_disabled
  pub ciphertext_hiding_dram_enabled :
      Implies required.ciphertext_hiding_dram_enabled report.ciphertext_hiding_dram_enabled
  pub alias_check_complete : Implies required.alias_check_complete report.alias_check_complete
  pub tio_enabled : Implies required.tio_enabled report.tio_enabled

pub validate_platform_info-Decides :
    (report required : SnpPlatformInfo)
    → Decides (validate_platform_info report required) (PlatformAllowed report required)
unfolding validate_platform_info
validate_platform_info-Decides r q =
    Decides-map
      (λ (a, (b, (c, (d, (e, (f, g)))))). record {
        smt_enabled = a;
        tsme_enabled = b;
        ecc_enabled = c;
        rapl_disabled = d;
        ciphertext_hiding_dram_enabled = e;
        alias_check_complete = f;
        tio_enabled = g;
      })
      (λ p. (
        p.smt_enabled,
        (
          p.tsme_enabled,
          (
            p.ecc_enabled,
            (
              p.rapl_disabled,
              (p.ciphertext_hiding_dram_enabled, (p.alias_check_complete, p.tio_enabled)),
            ),
          ),
        ),
      ))
      (>>-Decides (reject_if-Decides _ _ (and_not_iff r.smt_enabled q.smt_enabled)) (
        >>-Decides (reject_if-Decides _ _ (and_not_iff q.tsme_enabled r.tsme_enabled)) (
          >>-Decides (reject_if-Decides _ _ (and_not_iff q.ecc_enabled r.ecc_enabled)) (
            >>-Decides (reject_if-Decides _ _ (and_not_iff q.rapl_disabled r.rapl_disabled)) (
              >>-Decides
                (reject_if-Decides _ _
                  (and_not_iff q.ciphertext_hiding_dram_enabled r.ciphertext_hiding_dram_enabled))
                (>>-Decides
                  (reject_if-Decides _ _
                    (and_not_iff q.alias_check_complete r.alias_check_complete))
                  (reject_if-Decides _ _ (and_not_iff q.tio_enabled r.tio_enabled))))))))
