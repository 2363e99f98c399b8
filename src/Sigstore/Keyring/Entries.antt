-- ===== src/Sigstore/Keyring/Entries.antt =====
-- Where the keys of a ring come from (src/verifier/sigstore/keyring.rs).
use tinfoil_rs.Prelude.{
  ℕ, ◌≡◌, ◌⊎◌, sym, ap, arith, inl, inr, List, [], ◌∷◌, none, some, Bool-cases, Option-cases,
}
use tinfoil_rs.Outcome.{ok, ok_injective}
use tinfoil_rs.Answers.{>>=-parts}
use tinfoil_rs.Attestation.Bytes.{bytes_eq}
use tinfoil_rs.Attestation.Validation.Conditions.{bytes_eq_iff}
use tinfoil_rs.Sigstore.Keyring.{
  KeyPackage, Key, Keyring, Entry, get, new_key, new_with_validity, with_validity,
}

module _ (crypto : KeyPackage) where
  open crypto use {VerifyingKey}

  -- One of the entries is of this key, under this identifier and with this validity.
  abbrev pub IsFrom : List Entry → List ℕ → Key VerifyingKey → Type 0
  IsFrom [] key_id key = ⊥
  IsFrom ((der, from, until) ∷ entries) key_id key =
      ((made : Key VerifyingKey) × (new_key crypto der ≡ ok made)
        × (made.fingerprint ≡ key_id)
        × (with_validity made from until ≡ key))
      ⊎ IsFrom entries key_id key

  get-nil :
      (ring : Keyring VerifyingKey) (key_id : List ℕ) {key : Key VerifyingKey}
      → ring ≡ []
      → get ring key_id ≡ some key
      → ⊥
  unfolding get
  get-nil ring key_id same h =
      let missing : get ring key_id ≡ none = ap (λ r. get r key_id) same in cc

  -- What a pair in front of a ring changes.
  get-cons :
      (fingerprint key_id : List ℕ) (made key : Key VerifyingKey) (ring : Keyring VerifyingKey)
      → get ((fingerprint, made) ∷ ring) key_id ≡ some key
      → (get ring key_id ≡ some key) ⊎ ((fingerprint ≡ key_id) × (made ≡ key))
  unfolding get
  get-cons fingerprint key_id made key ring h = elim (Option-cases (get ring key_id)) [
    | inr (later, found) ↦ inl (ground (arith, found))
    | inl missing ↦ elim (Bool-cases (bytes_eq fingerprint key_id)) [
      | inl same ↦ inr ((bytes_eq_iff fingerprint key_id).0 same, ground (arith, missing, same))
      | inr differs ↦ absurd (ground (arith, missing, differs))
    ]
  ]

  -- Each key that a ring built from entries yields under an identifier is the key of one of the
  -- entries, whose fingerprint is the identifier, with the validity of that entry.
  pub new_with_validity-IsFrom :
      (entries : List Entry) (ring : Keyring VerifyingKey) (key_id : List ℕ)
      (key : Key VerifyingKey)
      → new_with_validity crypto entries ≡ ok ring
      → get ring key_id ≡ some key
      → IsFrom entries key_id key
  unfolding new_with_validity
  new_with_validity-IsFrom [] ring key_id key h found =
      absurd (get-nil ring key_id (sym (ok_injective h)) found)
  new_with_validity-IsFrom ((der, from, until) ∷ entries) ring key_id key h found =
      let (made, is_made, rest) = >>=-parts (new_key crypto der) h in
      let (others, are_made, done) = >>=-parts (new_with_validity crypto entries) rest in
      elim (get-cons made.fingerprint key_id (with_validity made from until) key others
        (rw (ok_injective done) found)) [
          | inl later ↦ inr (new_with_validity-IsFrom entries others key_id key are_made later)
          | inr (same, is_key) ↦ inl (made, is_made, same, is_key)
        ]
