-- ===== src/Attestation/CertChain/Format.antt =====
-- Which certificates have the format and the names of the chain.
use text.Mathlib.TextEquality.{eq_iff}
use tinfoil_rs.Prelude.{◌≡◌, true}
use tinfoil_rs.Decides.{
  Decides, ensure-Decides, >>-Decides, Decides-map, Has, ok_or-Decides, ok_or_then-Decides,
}
use tinfoil_rs.Attestation.Constants.{amd_ark_genoa_spki_fingerprint}
use tinfoil_rs.Attestation.X509.{X509}
use tinfoil_rs.Attestation.CertChain.{
  oid_ec_public_key, oid_secp384r1, ClockReadings, compute_spki_fingerprint,
}
use tinfoil_rs.Attestation.CertChain.Verify.{
  validate_vcek_format, validate_chain_format, validate_ark_fingerprint, validate_chain_names,
}
use tinfoil_rs.Attestation.CertChain.Checks.{
  IsValidAt, validate_certificate_validity-Decides, IsAuthority,
  validate_basic_constraints_ca-Decides, IsLeaf, validate_basic_constraints_end-Decides,
}
use tinfoil_rs.Attestation.CertChain.Attributes.{
  HasAttribute, validate_cn-Decides, IsAmdLocation, validate_amd_location-Decides,
}

module _ (x509 : X509) where
  open x509 use {
    Certificate, from_der, is_v3, key_algorithm, key_parameters, as_oid, name_eq_iff, issuer,
    subject, signature_algorithm, tbs_signature, signature_bytes, parse_pems, spki_der, tbs_der,
    sha256_hex, oid_cn,
  }

  -- Version 3, with a key on the curve P-384.
  pub record IsVcekFormat (vcek : Certificate) : Type 0 where
    pub version : is_v3 vcek ≡ true
    pub key : key_algorithm vcek ≡ oid_ec_public_key
    pub curve : Has (key_parameters vcek) λ params. Has (as_oid params) λ oid. oid ≡ oid_secp384r1

  pub validate_vcek_format-Decides :
      (vcek : Certificate) → Decides (validate_vcek_format x509 vcek) (IsVcekFormat vcek)
  unfolding validate_vcek_format
  validate_vcek_format-Decides vcek =
      Decides-map (λ (a, (b, c)). record { version = a; key = b; curve = c })
        (λ f. (f.version, (f.key, f.curve)))
        (>>-Decides (ensure-Decides (is_v3 vcek) _ (λ h. h, λ h. h)) (
          >>-Decides (ensure-Decides _ _ (eq_iff (key_algorithm vcek) oid_ec_public_key)) (
            ok_or-Decides (key_parameters vcek) _ λ params.
              ok_or-Decides (as_oid params) _
                λ oid. ensure-Decides _ _ (eq_iff oid oid_secp384r1))))

  -- Version 3 of the two authorities, the periods of validity, and who may issue certificates.
  pub record IsChainFormat (clock : ClockReadings) (vcek ask ark : Certificate) : Type 0 where
    pub ark_version : is_v3 ark ≡ true
    pub ask_version : is_v3 ask ≡ true
    pub vcek_valid : IsValidAt x509 vcek clock.at_vcek
    pub ask_valid : IsValidAt x509 ask clock.at_ask
    pub ark_valid : IsValidAt x509 ark clock.at_ark
    pub ark_authority : IsAuthority x509 ark
    pub ask_authority : IsAuthority x509 ask
    pub vcek_leaf : IsLeaf x509 vcek

  pub validate_chain_format-Decides :
      (clock : ClockReadings) (vcek ask ark : Certificate)
      → Decides (validate_chain_format x509 clock vcek ask ark) (IsChainFormat clock vcek ask ark)
  unfolding validate_chain_format
  validate_chain_format-Decides clock vcek ask ark =
      Decides-map
        (λ (a, (b, (c, (d, (e, (f, (g, h))))))). record {
          ark_version = a;
          ask_version = b;
          vcek_valid = c;
          ask_valid = d;
          ark_valid = e;
          ark_authority = f;
          ask_authority = g;
          vcek_leaf = h;
        })
        (λ f. (
          f.ark_version,
          (
            f.ask_version,
            (
              f.vcek_valid,
              (f.ask_valid, (f.ark_valid, (f.ark_authority, (f.ask_authority, f.vcek_leaf)))),
            ),
          ),
        ))
        (>>-Decides (ensure-Decides (is_v3 ark) _ (λ h. h, λ h. h)) (
          >>-Decides (ensure-Decides (is_v3 ask) _ (λ h. h, λ h. h)) (
            >>-Decides (validate_certificate_validity-Decides x509 clock.at_vcek vcek _) (
              >>-Decides (validate_certificate_validity-Decides x509 clock.at_ask ask _) (
                >>-Decides (validate_certificate_validity-Decides x509 clock.at_ark ark _) (
                  >>-Decides (validate_basic_constraints_ca-Decides x509 ark _) (
                    >>-Decides (validate_basic_constraints_ca-Decides x509 ask _)
                      (validate_basic_constraints_end-Decides x509 vcek _))))))))

  -- The public key's hash is the pinned one.
  abbrev pub IsPinned : Certificate → Type 0
  IsPinned ark = Has (spki_der ark) λ der. sha256_hex der ≡ amd_ark_genoa_spki_fingerprint

  pub validate_ark_fingerprint-Decides :
      (ark : Certificate) → Decides (validate_ark_fingerprint x509 ark) (IsPinned ark)
  unfolding validate_ark_fingerprint compute_spki_fingerprint
  validate_ark_fingerprint-Decides ark =
      ok_or_then-Decides _ _ (spki_der ark) _
        λ der. ensure-Decides _ _ (eq_iff (sha256_hex der) amd_ark_genoa_spki_fingerprint)

  -- Who issued whom, and the names of the three.
  pub record IsChainNames (vcek ask ark : Certificate) : Type 0 where
    pub vcek_issuer : issuer vcek ≡ subject ask
    pub ask_issuer : issuer ask ≡ subject ark
    pub ark_issuer : issuer ark ≡ subject ark
    pub ark_cn : HasAttribute x509 (subject ark) oid_cn "ARK-Genoa"
    pub ask_cn : HasAttribute x509 (subject ask) oid_cn "SEV-Genoa"
    pub vcek_cn : HasAttribute x509 (subject vcek) oid_cn "SEV-VCEK"
    pub ark_location : IsAmdLocation x509 (subject ark)
    pub ask_location : IsAmdLocation x509 (subject ask)
    pub vcek_location : IsAmdLocation x509 (subject vcek)

  pub validate_chain_names-Decides :
      (vcek ask ark : Certificate)
      → Decides (validate_chain_names x509 vcek ask ark) (IsChainNames vcek ask ark)
  unfolding validate_chain_names
  validate_chain_names-Decides vcek ask ark =
      Decides-map
        (λ (a, (b, (c, (d, (e, (f, (g, (h, i)))))))). record {
          vcek_issuer = a;
          ask_issuer = b;
          ark_issuer = c;
          ark_cn = d;
          ask_cn = e;
          vcek_cn = f;
          ark_location = g;
          ask_location = h;
          vcek_location = i;
        })
        (λ n. (
          n.vcek_issuer,
          (
            n.ask_issuer,
            (
              n.ark_issuer,
              (
                n.ark_cn,
                (n.ask_cn, (n.vcek_cn, (n.ark_location, (n.ask_location, n.vcek_location)))),
              ),
            ),
          ),
        ))
        (>>-Decides (ensure-Decides _ _ (name_eq_iff _ _)) (
          >>-Decides (ensure-Decides _ _ (name_eq_iff _ _)) (
            >>-Decides (ensure-Decides _ _ (name_eq_iff _ _)) (
              >>-Decides (validate_cn-Decides x509 (subject ark) _ _) (
                >>-Decides (validate_cn-Decides x509 (subject ask) _ _) (
                  >>-Decides (validate_cn-Decides x509 (subject vcek) _ _) (
                    >>-Decides (validate_amd_location-Decides x509 (subject ark) _) (
                      >>-Decides (validate_amd_location-Decides x509 (subject ask) _)
                        (validate_amd_location-Decides x509 (subject vcek) _)))))))))
