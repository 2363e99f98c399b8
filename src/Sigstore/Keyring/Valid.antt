-- ===== src/Sigstore/Keyring/Valid.antt =====
-- What a key of the ring verifies, and when (src/verifier/sigstore/keyring.rs).
use tinfoil_rs.Prelude.{
  ℕ, ◌≤◌, ◌≡◌, ◌↔◌, refl, inl, true, false, List, Option, none, some, arith, ltb,
}
use tinfoil_rs.Decides.{
  Decides, ensure-Decides, reject_if-Decides, ok_or-Decides, >>-Decides, IfSet, Has,
}
use tinfoil_rs.Sigstore.Keyring.{
  KeyPackage, Key, Keyring, get, check_from, check_until, verify_with, verify_at,
}

not_below_iff : (a b : ℕ) → (ltb a b ≡ false) ↔ (b ≤ a)
not_below_iff a b = ground arith

check_from-Decides :
    (o : Option ℕ) (time : ℕ) → Decides (check_from o time) (IfSet o (λ from. from ≤ time))
unfolding check_from
check_from-Decides none time = inl (refl, tt)
check_from-Decides (some from) time = reject_if-Decides _ _ (not_below_iff time from)

check_until-Decides :
    (o : Option ℕ) (time : ℕ) → Decides (check_until o time) (IfSet o (λ until. time ≤ until))
unfolding check_until
check_until-Decides none time = inl (refl, tt)
check_until-Decides (some until) time = reject_if-Decides _ _ (not_below_iff until time)

module _ (crypto : KeyPackage) where
  open crypto use {VerifyingKey, Signature, signature_from_der, verifies}

  -- The signature is one, and is of the message and under the key.
  abbrev pub IsSigned : Key VerifyingKey → List ℕ → List ℕ → Type 0
  IsSigned key signature message =
      Has (signature_from_der signature) (λ sig. verifies key.inner message sig ≡ true)

  verify_with-Decides :
      (key : Key VerifyingKey) (signature message : List ℕ)
      → Decides (verify_with crypto key signature message) (IsSigned key signature message)
  unfolding verify_with
  verify_with-Decides key signature message =
      ok_or-Decides (signature_from_der signature) _ (λ sig. ensure-Decides _ _ ((λ h. h), λ h. h))

  abbrev pub IsSignedAt : Keyring VerifyingKey → List ℕ → List ℕ → List ℕ → ℕ → Type 0
  IsSignedAt ring key_id signature message time = Has (get ring key_id) (λ key.
      IfSet key.valid_from (λ from. from ≤ time)
      × (IfSet key.valid_until (λ until. time ≤ until) × IsSigned key signature message))

  -- A signature passes at a time exactly where the ring has a key of the identifier, the time is
  -- neither before the start nor after the end of the key's validity, as far as these are set, and
  -- the signature is one of the message under this key.
  pub verify_at-Decides :
      (ring : Keyring VerifyingKey) (key_id signature message : List ℕ) (time : ℕ)
      → Decides
          (verify_at crypto ring key_id signature message time)
          (IsSignedAt ring key_id signature message time)
  unfolding verify_at
  verify_at-Decides ring key_id signature message time = ok_or-Decides (get ring key_id) _ (λ key.
      >>-Decides (check_from-Decides key.valid_from time) (
        >>-Decides (check_until-Decides key.valid_until time)
          (verify_with-Decides key signature message)))
