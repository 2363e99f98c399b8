-- ===== src/Sigstore/Transparency/Signed.antt =====
-- What a verified SCT is a signature of (src/verifier/sigstore/transparency.rs).
use tinfoil_rs.Prelude.{ℕ, ◌/◌, ◌≡◌, inl, inr, List, some}
use tinfoil_rs.Outcome.{Outcome}
use tinfoil_rs.Decides.{Decides, Has, ok_or-Decides}
use tinfoil_rs.Sigstore.Keyring.{KeyPackage, KeyringError, Keyring}
use tinfoil_rs.Sigstore.Keyring.Valid.{IsSignedAt, verify_at-Decides}
use tinfoil_rs.Sigstore.Transparency.{
  SctPackage, CertificateEmbeddedSct, verification, as_verification, map_option, without_scts,
  signed_by, verify_sct,
}

as_verification-Decides :
    {P : Type 0} (m : Outcome KeyringError (Unit {0})) → Decides m P → Decides (as_verification m) P
unfolding as_verification
as_verification-Decides m (inl (passed, p)) = inl (rw (passed, as_verification), p)
as_verification-Decides m (inr (e, refused, no_p)) =
    inr (verification e, rw (refused, as_verification), no_p)

module _ (x509 : SctPackage) (crypto : KeyPackage) where
  open x509 use {extensions_of, encode_tbs, tls_serialize}

  -- The certificate's body, without its SCTs, has the encoding `der`.
  abbrev pub IsPrecertOf : CertificateEmbeddedSct x509 → List ℕ → Type 0
  IsPrecertOf value der =
      encode_tbs value.cert (map_option without_scts (extensions_of value.cert)) ≡ some der

  -- An SCT of a certificate whose body without its SCTs can be encoded passes exactly where the
  -- structure over this body, the issuer's hash and the SCT's time can be serialised, and the ring
  -- has a key of the SCT's log, valid at its time in seconds, under which its signature is one of
  -- this serialisation.
  pub verify_sct-Decides :
      (value : CertificateEmbeddedSct x509) (keyring : Keyring crypto.VerifyingKey) (der : List ℕ)
      → IsPrecertOf value der
      → Decides (verify_sct x509 crypto value keyring) (
          Has (tls_serialize (signed_by x509 value der)) (λ message.
            IsSignedAt crypto keyring value.sct.key_id value.sct.signature message
              (value.sct.timestamp / 1000)))
  unfolding verify_sct signed_by
  verify_sct-Decides value keyring der encodes = rw encodes (
      ok_or-Decides (tls_serialize (signed_by x509 value der)) _ (λ message.
        as_verification-Decides _ (
          verify_at-Decides crypto keyring value.sct.key_id value.sct.signature message
            (value.sct.timestamp / 1000))))
