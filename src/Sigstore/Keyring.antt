-- ===== src/Sigstore/Keyring.antt =====
-- The keys of the transparency logs, by their identifier and with the time in which they are valid
-- (src/verifier/sigstore/keyring.rs). The packages for DER, keys and signatures are parameters.
pub mod Valid
pub mod Entries
use Prim.Native.String.{String}
use text.Mathlib.Text.{◌==◌ as str_eq}
use tinfoil_rs.Prelude.{ℕ, Bool, not, ◌||◌, List, [], ◌∷◌, Option, none, some, ltb, if◌then◌else◌}
use tinfoil_rs.Outcome.{Outcome, ok, ◌>>=◌, ◌>>◌, ensure, reject_if, ok_or, or_panic}
use tinfoil_rs.Attestation.Bytes.{bytes_eq}

pub data KeyringError : Type 0 where
  key_malformed algo_unsupported key_not_found key_not_valid_at_time verification_failed :
      KeyringError

-- `parameters` is the parameters of the key's algorithm, and their OID unless they are not one;
-- `public_key` reads the point of the key, and `encode` is the DER of the whole, if encoding it succeeds.
pub record KeyPackage : Type 1 where
  pub Spki : Type 0
  pub VerifyingKey : Type 0
  pub Signature : Type 0
  pub from_der : List ℕ → Option Spki
  pub algorithm : Spki → String
  pub parameters : Spki → Option (Option String)
  pub public_key : Spki → Option VerifyingKey
  pub encode : Spki → Option (List ℕ)
  pub sha256 : List ℕ → List ℕ
  pub signature_from_der : List ℕ → Option Signature
  pub verifies : VerifyingKey → List ℕ → Signature → Bool

abbrev pub id_ec_public_key : String
id_ec_public_key = "1.2.840.10045.2.1"

abbrev pub secp_256_r_1 : String
secp_256_r_1 = "1.2.840.10045.3.1.7"

pub record Key (VerifyingKey : Type 0) : Type 0 where
  pub inner : VerifyingKey
  pub fingerprint : List ℕ
  pub valid_from : Option ℕ
  pub valid_until : Option ℕ

unfoldable pub with_validity :
    {VerifyingKey : Type 0} → Key VerifyingKey → Option ℕ → Option ℕ → Key VerifyingKey
with_validity key valid_from valid_until = record key {
  valid_from = valid_from;
  valid_until = valid_until;
}

-- A hash map of keys as the pairs inserted: a later pair replaces an earlier one.
abbrev pub Keyring : Type 0 → Type 0
Keyring VerifyingKey = List (List ℕ × Key VerifyingKey)

unfoldable pub get :
    {VerifyingKey : Type 0} → Keyring VerifyingKey → List ℕ → Option (Key VerifyingKey)
get [] key_id = none
get ((fingerprint, key) ∷ ring) key_id = elim (get ring key_id) [
  | some later ↦ some later
  | none ↦ if bytes_eq fingerprint key_id then some key else none
]

-- A key and the bounds of its validity, as the trust root states them.
abbrev pub Entry : Type 0
Entry = List ℕ × Option ℕ × Option ℕ

-- The bounds of a key's validity, in seconds.
unfoldable pub check_from : Option ℕ → ℕ → Outcome KeyringError (Unit {0})
check_from none timestamp_secs = ok tt
check_from (some from) timestamp_secs = reject_if (ltb timestamp_secs from) key_not_valid_at_time

unfoldable pub check_until : Option ℕ → ℕ → Outcome KeyringError (Unit {0})
check_until none timestamp_secs = ok tt
check_until (some until) timestamp_secs = reject_if (ltb until timestamp_secs) key_not_valid_at_time

module _ (crypto : KeyPackage) where
  open crypto use {
    Spki, VerifyingKey, Signature, from_der, algorithm, parameters, public_key, encode, sha256,
    signature_from_der, verifies,
  }

  -- `Key::new`.
  unfoldable pub new_key : List ℕ → Outcome KeyringError (Key VerifyingKey)
  new_key spki_bytes = do
    spki ← ok_or (from_der spki_bytes) key_malformed
    params ← ok_or (parameters spki) algo_unsupported
    params_oid ← ok_or params algo_unsupported
    reject_if
        (not (str_eq (algorithm spki) id_ec_public_key) || not (str_eq params_oid secp_256_r_1))
        algo_unsupported
    inner ← ok_or (public_key spki) algo_unsupported
    encoded ← or_panic (encode spki)
    ok (record {
      inner = inner;
      fingerprint = sha256 encoded;
      valid_from = none;
      valid_until = none;
    })

  -- `Keyring::new_with_validity`.
  unfoldable pub new_with_validity : List Entry → Outcome KeyringError (Keyring VerifyingKey)
  unfolding new_key with_validity
  new_with_validity [] = ok []
  new_with_validity ((der, from, until) ∷ entries) = do
    key ← new_key der
    ring ← new_with_validity entries
    ok ((key.fingerprint, with_validity key from until) ∷ ring)

  -- `Keyring::new`.
  unfoldable pub new : List (List ℕ) → Outcome KeyringError (Keyring VerifyingKey)
  unfolding new_key
  new [] = ok []
  new (der ∷ keys) = do key ← new_key der; ring ← new keys; ok ((key.fingerprint, key) ∷ ring)

  unfoldable pub verify_with : Key VerifyingKey → List ℕ → List ℕ → Outcome KeyringError (Unit {0})
  verify_with key signature message = do
    sig ← ok_or (signature_from_der signature) verification_failed
    ensure (verifies key.inner message sig) verification_failed

  unfoldable pub verify :
      Keyring VerifyingKey → List ℕ → List ℕ → List ℕ → Outcome KeyringError (Unit {0})
  unfolding verify_with get
  verify ring key_id signature message = do
    key ← ok_or (get ring key_id) key_not_found
    verify_with key signature message

  unfoldable pub verify_at :
      Keyring VerifyingKey → List ℕ → List ℕ → List ℕ → ℕ → Outcome KeyringError (Unit {0})
  unfolding verify_with get check_from check_until
  verify_at ring key_id signature message timestamp_secs = do
    key ← ok_or (get ring key_id) key_not_found
    check_from key.valid_from timestamp_secs
    check_until key.valid_until timestamp_secs
    verify_with key signature message
