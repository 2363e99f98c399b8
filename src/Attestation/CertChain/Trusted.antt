-- ===== src/Attestation/CertChain/Trusted.antt =====
-- Which certificates `verify_cert_chain_crypto` accepts.
use Prim.Native.String.{String}
use tinfoil_rs.Prelude.{ℕ, ◌≡◌, inr, refl, List, [], ◌∷◌}
use tinfoil_rs.Outcome.{◌>>=◌, ◌>>◌}
use tinfoil_rs.Decides.{Decides, >>-Decides, Decides-map, Has, ok_or-Decides}
use tinfoil_rs.Attestation.Report.{Attested}
use tinfoil_rs.Attestation.X509.{X509}
use tinfoil_rs.Attestation.CertChain.{
  ClockReadings, parse_pem_chain, extract_pubkey_from_cert, extract_tbs_from_cert,
}
use tinfoil_rs.Attestation.CertChain.Verify.{
  first_two, validate_chain_format, validate_ark_fingerprint, validate_chain_names, verify_signed,
  verify_chain_signatures, verify_cert_chain_crypto,
}
use tinfoil_rs.Attestation.CertChain.Checks.{
  validate_consistency-Decides, IsPssSha384, parse_salt_len-Decides, Verifies,
  verify_rsa_pss_signature-Decides,
}
use tinfoil_rs.Attestation.CertChain.Format.{
  IsVcekFormat, validate_vcek_format-Decides, IsChainFormat, validate_chain_format-Decides,
  IsPinned, validate_ark_fingerprint-Decides, IsChainNames, validate_chain_names-Decides,
}

-- The first two elements of a list, with a property.
abbrev pub FirstTwo : {A : Type 0} → List A → (A → A → Type 0) → Type 0
FirstTwo (x ∷ y ∷ rest) P = P x y
FirstTwo _ P = ⊥

first_two-Decides :
    (certs : List (List ℕ)) (k : List ℕ × List ℕ → Attested (Unit {0}))
    {P : List ℕ → List ℕ → Type 0}
    → ((x y : List ℕ) → Decides (k (x, y)) (P x y))
    → Decides (first_two certs >>= k) (FirstTwo certs P)
unfolding first_two
first_two-Decides [] k d = inr (_, refl, λ h. h)
first_two-Decides (x ∷ []) k d = inr (_, refl, λ h. h)
first_two-Decides (x ∷ y ∷ rest) k d = d x y

module _ (x509 : X509) where
  open x509 use {
    Certificate, from_der, signature_algorithm, tbs_signature, signature_bytes, parse_pems,
    spki_der, tbs_der,
  }

  -- A certificate's signature verifies, by RSASSA-PSS with SHA-384 and the salt length that the
  -- certificate declares, under an issuer's key.
  abbrev pub IsSigned : Certificate → List ℕ → Type 0
  IsSigned cert issuer_key = Has (tbs_der cert) λ tbs.
      IsPssSha384 x509 (signature_algorithm cert)
        λ salt. Verifies x509 tbs (signature_bytes cert) issuer_key salt

  verify_signed-Decides :
      (cert : Certificate) (name : String) (issuer_key : List ℕ) (context : String)
      → Decides (verify_signed x509 cert name issuer_key context) (IsSigned cert issuer_key)
  unfolding verify_signed extract_tbs_from_cert
  verify_signed-Decides cert name issuer_key context = ok_or-Decides (tbs_der cert) _ λ tbs.
      parse_salt_len-Decides x509 (signature_algorithm cert) name _ λ salt.
        verify_rsa_pss_signature-Decides x509 tbs (signature_bytes cert) issuer_key salt context

  -- ARK's key signed ARK and ASK, and ASK's key signed VCEK.
  pub record IsSignedChain (vcek ask ark : Certificate) : Type 0 where
    pub ark_algorithm : signature_algorithm ark ≡ tbs_signature ark
    pub ask_algorithm : signature_algorithm ask ≡ tbs_signature ask
    pub vcek_algorithm : signature_algorithm vcek ≡ tbs_signature vcek
    pub signatures : Has (spki_der ark) λ ark_key.
        IsSigned ark ark_key
        × (IsSigned ask ark_key × (Has (spki_der ask) λ ask_key. IsSigned vcek ask_key))

  verify_chain_signatures-Decides :
      (vcek ask ark : Certificate)
      → Decides (verify_chain_signatures x509 vcek ask ark) (IsSignedChain vcek ask ark)
  unfolding verify_chain_signatures extract_pubkey_from_cert
  verify_chain_signatures-Decides vcek ask ark =
      Decides-map
        (λ (a, (b, (c, d))). record {
          ark_algorithm = a;
          ask_algorithm = b;
          vcek_algorithm = c;
          signatures = d;
        })
        (λ s. (s.ark_algorithm, (s.ask_algorithm, (s.vcek_algorithm, s.signatures))))
        (>>-Decides (validate_consistency-Decides x509 ark _) (
          >>-Decides (validate_consistency-Decides x509 ask _) (
            >>-Decides (validate_consistency-Decides x509 vcek _) (
              ok_or-Decides (spki_der ark) _ λ ark_key.
                >>-Decides (verify_signed-Decides ark _ ark_key _) (
                  >>-Decides (verify_signed-Decides ask _ ark_key _) (
                    ok_or-Decides (spki_der ask) _
                      λ ask_key. verify_signed-Decides vcek _ ask_key _))))))

  -- What makes the three certificates a chain from AMD's root to the chip.
  pub record IsTrustedChain (clock : ClockReadings) (vcek ask ark : Certificate) : Type 0 where
    pub chain_format : IsChainFormat x509 clock vcek ask ark
    pub pinned : IsPinned x509 ark
    pub names : IsChainNames x509 vcek ask ark
    pub signed : IsSignedChain vcek ask ark

  trusted_Decides :
      (clock : ClockReadings) (vcek ask ark : Certificate)
      → Decides
          (validate_chain_format x509 clock vcek ask ark
            >> (validate_ark_fingerprint x509 ark
                >> (validate_chain_names x509 vcek ask ark
                    >> verify_chain_signatures x509 vcek ask ark)))
          (IsTrustedChain clock vcek ask ark)
  trusted_Decides clock vcek ask ark =
      Decides-map
        (λ (a, (b, (c, d))). record { chain_format = a; pinned = b; names = c; signed = d })
        (λ t. (t.chain_format, (t.pinned, (t.names, t.signed))))
        (>>-Decides (validate_chain_format-Decides x509 clock vcek ask ark) (
          >>-Decides (validate_ark_fingerprint-Decides x509 ark) (
            >>-Decides (validate_chain_names-Decides x509 vcek ask ark)
              (verify_chain_signatures-Decides vcek ask ark))))

  -- The VCEK certificate parses to one of its format, the chain to at least two certificates, and
  -- the first two of these, ASK and ARK, form a trusted chain with it.
  abbrev pub ChainAccepted : ClockReadings → List ℕ → List ℕ → Type 0
  ChainAccepted clock vcek_der chain_pem = Has (from_der vcek_der) λ vcek.
      IsVcekFormat x509 vcek
      × (Has (parse_pems chain_pem) λ certs. FirstTwo certs λ ask_der ark_der.
          Has (from_der ask_der)
            λ ask. Has (from_der ark_der) λ ark. IsTrustedChain clock vcek ask ark)

  -- For all bytes and clock readings the verification of the chain passes exactly where the VCEK
  -- certificate and the first two certificates of the chain parse; all are of version 3 and VCEK's
  -- key is on P-384; each is valid at the time of its check; ARK and ASK are marked as authorities
  -- and VCEK is not; ARK's key is the pinned one; VCEK names ASK as its issuer, and ASK and ARK name
  -- ARK; the three have AMD's names and location; their two signature algorithms agree and are
  -- RSASSA-PSS with SHA-384; and the signatures of ARK and ASK verify under ARK's key and that of
  -- VCEK under ASK's. It is an error, never a panic, elsewhere.
  pub verify_cert_chain_crypto-Decides :
      (clock : ClockReadings) (vcek_der chain_pem : List ℕ)
      → Decides
          (verify_cert_chain_crypto x509 clock vcek_der chain_pem)
          (ChainAccepted clock vcek_der chain_pem)
  unfolding verify_cert_chain_crypto parse_pem_chain
  verify_cert_chain_crypto-Decides clock vcek_der chain_pem =
      ok_or-Decides (from_der vcek_der) _ λ vcek.
        >>-Decides (validate_vcek_format-Decides x509 vcek) (
          ok_or-Decides (parse_pems chain_pem) _ λ certs.
            first_two-Decides certs _ λ ask_der ark_der.
              ok_or-Decides (from_der ask_der) _
                λ ask. ok_or-Decides (from_der ark_der) _ λ ark. trusted_Decides clock vcek ask ark)
