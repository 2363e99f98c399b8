-- ===== src/Attestation/CertChain/Checks.antt =====
-- Which certificates pass each check of the chain.
use Prim.Native.String.{String}
use text.Mathlib.TextEquality.{eq_iff}
use tinfoil_rs.Prelude.{
  ℕ, ◌≤◌, ◌≡◌, ◌↔◌, inl, inr, refl, Bool, true, false, not, ◌&&◌, List, Option, none, some,
}
use tinfoil_rs.Outcome.{◌>>=◌}
use tinfoil_rs.Decides.{
  Decides, ensure-Decides, reject_if-Decides, >>-Decides, >>-then-Decides, Has, IfSet,
  ok_or-Decides, ok_or_then-Decides,
}
use tinfoil_rs.Attestation.Report.{Attested}
use tinfoil_rs.Attestation.X509.{X509}
use tinfoil_rs.Attestation.Validation.Policy.{ltb_iff}
use tinfoil_rs.Attestation.CertChain.{
  oid_rsassa_pss, oid_mgf1, oid_sha_384, is_oid, validate_certificate_validity,
  check_basic_constraints, validate_basic_constraints, validate_signature_algorithm_consistency,
  parse_rsa_pss_sha384_salt_len, verify_rsa_pss_signature,
}

is_oid_iff : (o : Option String) (oid : String) → (is_oid o oid ≡ true) ↔ Has o (λ id. id ≡ oid)
unfolding is_oid
is_oid_iff none oid = (λ h. cc, λ h. absurd h)
is_oid_iff (some id) oid = eq_iff id oid

leaf_iff : (ca : Bool) → ((not false && ca) ≡ false) ↔ (ca ≡ false)
leaf_iff ca = (λ h. h, λ h. h)

module _ (x509 : X509) where
  open x509 use {
    Certificate, Name, Value, Algorithm, not_before, not_after, basic_constraints, algorithm_eq,
    algorithm_eq_iff, signature_algorithm, tbs_signature, algorithm_oid, algorithm_parameters,
    to_der, pss_params, rsa_public_key, rsa_signature, rsa_pss_verify, attributes, tag, string_of,
    oid_c, oid_st, oid_l, oid_o, oid_ou, oid_cn,
  }

  abbrev pub IsValidAt : Certificate → Option ℕ → Type 0
  IsValidAt cert clock = Has clock λ now. (not_before cert ≤ now) × (now ≤ not_after cert)

  pub validate_certificate_validity-Decides :
      (clock : Option ℕ) (cert : Certificate) (name : String)
      → Decides (validate_certificate_validity x509 clock cert name) (IsValidAt cert clock)
  unfolding validate_certificate_validity
  validate_certificate_validity-Decides clock cert name = ok_or-Decides clock _ λ now.
      >>-Decides (reject_if-Decides _ _ (ltb_iff now (not_before cert)))
        (reject_if-Decides _ _ (ltb_iff (not_after cert) now))

  -- The extension is there and marks a certificate authority.
  abbrev pub IsAuthority : Certificate → Type 0
  IsAuthority cert = Has (basic_constraints cert) λ bc. Has bc λ ca. ca ≡ true

  -- The extension parses and does not mark a certificate authority.
  abbrev pub IsLeaf : Certificate → Type 0
  IsLeaf cert = Has (basic_constraints cert) λ bc. IfSet bc λ ca. ca ≡ false

  authority_Decides :
      (bc : Option (Option Bool)) (name : String)
      → Decides (check_basic_constraints x509 bc name true) (Has bc λ b. Has b λ ca. ca ≡ true)
  unfolding check_basic_constraints
  authority_Decides none name = inr (_, refl, λ h. h)
  authority_Decides (some none) name = inr (_, refl, λ h. h)
  authority_Decides (some (some true)) name = inl (refl, refl)
  authority_Decides (some (some false)) name = inr (_, refl, λ h. cc)

  leaf_Decides :
      (bc : Option (Option Bool)) (name : String)
      → Decides (check_basic_constraints x509 bc name false) (Has bc λ b. IfSet b λ ca. ca ≡ false)
  unfolding check_basic_constraints
  leaf_Decides none name = inr (_, refl, λ h. h)
  leaf_Decides (some none) name = inl (refl, tt)
  leaf_Decides (some (some true)) name = inr (_, refl, λ h. cc)
  leaf_Decides (some (some false)) name = inl (refl, refl)

  pub validate_basic_constraints_ca-Decides :
      (cert : Certificate) (name : String)
      → Decides (validate_basic_constraints x509 cert name true) (IsAuthority cert)
  unfolding validate_basic_constraints
  validate_basic_constraints_ca-Decides cert name = authority_Decides (basic_constraints cert) name

  pub validate_basic_constraints_end-Decides :
      (cert : Certificate) (name : String)
      → Decides (validate_basic_constraints x509 cert name false) (IsLeaf cert)
  unfolding validate_basic_constraints
  validate_basic_constraints_end-Decides cert name = leaf_Decides (basic_constraints cert) name

  pub validate_consistency-Decides :
      (cert : Certificate) (name : String)
      → Decides
          (validate_signature_algorithm_consistency x509 cert name)
          (signature_algorithm cert ≡ tbs_signature cert)
  unfolding validate_signature_algorithm_consistency
  validate_consistency-Decides cert name = ensure-Decides _ _ (algorithm_eq_iff _ _)

  -- RSASSA-PSS with SHA-384 for both hashes, with a salt length that has a property.
  abbrev pub IsPssSha384 : Algorithm → (ℕ → Type 0) → Type 0
  IsPssSha384 alg P =
      (algorithm_oid alg ≡ oid_rsassa_pss)
      × (Has (algorithm_parameters alg) λ any. Has (to_der any) λ der.
          Has (pss_params der) λ params.
            (params.hash ≡ oid_sha_384)
            × ((params.mask_gen ≡ oid_mgf1)
                × (Has params.mask_gen_hash (λ oid. oid ≡ oid_sha_384) × P params.salt_len)))

  pub parse_salt_len-Decides :
      (alg : Algorithm) (name : String) (k : ℕ → Attested (Unit {0})) {P : ℕ → Type 0}
      → ((salt : ℕ) → Decides (k salt) (P salt))
      → Decides (parse_rsa_pss_sha384_salt_len x509 alg name >>= k) (IsPssSha384 alg P)
  unfolding parse_rsa_pss_sha384_salt_len
  parse_salt_len-Decides alg name k d =
      >>-then-Decides _ k (ensure-Decides _ _ (eq_iff (algorithm_oid alg) oid_rsassa_pss)) (
        ok_or_then-Decides _ k (algorithm_parameters alg) _ λ any.
          ok_or_then-Decides _ k (to_der any) _ λ der.
            ok_or_then-Decides _ k (pss_params der) _ λ params.
              >>-then-Decides _ k (ensure-Decides _ _ (eq_iff params.hash oid_sha_384)) (
                >>-then-Decides _ k (ensure-Decides _ _ (eq_iff params.mask_gen oid_mgf1)) (
                  >>-then-Decides _ k
                    (ensure-Decides _ _ (is_oid_iff params.mask_gen_hash oid_sha_384))
                    (d params.salt_len))))

  -- The signature's bytes verify under the key in DER.
  abbrev pub Verifies : List ℕ → List ℕ → List ℕ → ℕ → Type 0
  Verifies tbs signature spki salt =
      Has (rsa_public_key spki)
        λ key. Has (rsa_signature signature) λ sig. rsa_pss_verify key salt tbs sig ≡ true

  pub verify_rsa_pss_signature-Decides :
      (tbs signature spki : List ℕ) (salt : ℕ) (context : String)
      → Decides
          (verify_rsa_pss_signature x509 tbs signature spki salt context)
          (Verifies tbs signature spki salt)
  unfolding verify_rsa_pss_signature
  verify_rsa_pss_signature-Decides tbs signature spki salt context =
      ok_or-Decides (rsa_public_key spki) _ λ key.
        ok_or-Decides (rsa_signature signature) _
          λ sig. ensure-Decides (rsa_pss_verify key salt tbs sig) _ (λ h. h, λ h. h)
