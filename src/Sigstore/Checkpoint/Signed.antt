-- ===== src/Sigstore/Checkpoint/Signed.antt =====
-- What a verified checkpoint is signed by (src/verifier/sigstore/checkpoint.rs).
use Prim.Native.String.{String}
use text.Mathlib.Text.{◌==◌ as str_eq}
use text.Mathlib.TextEquality.{eq_iff}
use tinfoil_rs.Prelude.{
  ℕ, ◌-◌, ◌≤◌, ◌≡◌, ◌↔◌, refl, inl, inr, true, List, [], ◌∷◌, some, arith, ltb, length, take, drop,
  Bool-cases,
}
use tinfoil_rs.Outcome.{ok, reject_if, ok_or, Outcome-cases}
use tinfoil_rs.Decides.{Decides, Decides-map}
use tinfoil_rs.Answers.{IsSafe, >>=-parts, ok_or_found, ensure_held}
use tinfoil_rs.Text.{encode_utf8}
use tinfoil_rs.Attestation.Validation.Conditions.{bytes_eq_iff}
use tinfoil_rs.Sigstore.Keyring.{KeyPackage}
use tinfoil_rs.Sigstore.Dsse.{failure}
use tinfoil_rs.Sigstore.Dsse.Scts.{Any}
use tinfoil_rs.Sigstore.Checkpoint.{
  LogPackage, CheckpointSignature, SignedCheckpoint, marshal, verify_ecdsa_p256, verify_ed25519,
  verify_log_signature, is_of_log, any_verifies, verify_signature,
}

-- The line is named as the log, whose identifier begins with the four bytes of the line's hint.
pub record IsOfLog (name log_id : List ℕ) (sig : CheckpointSignature) : Type 0 where
  pub named : sig.name ≡ name
  pub id_long : 4 ≤ length log_id
  pub hint : take 4 log_id ≡ sig.key_fingerprint

is_of_log_iff :
    (name log_id : List ℕ) (sig : CheckpointSignature)
    → (is_of_log name log_id sig ≡ true) ↔ IsOfLog name log_id sig
unfolding is_of_log
is_of_log_iff name log_id sig = (
  λ h. record {
    named = ground (arith, h, bytes_eq_iff sig.name name);
    id_long = ground (arith, h);
    hint = ground (arith, h, bytes_eq_iff (take 4 log_id) sig.key_fingerprint);
  },
  λ h.
      let named = h.named in
      let long = h.id_long in
      let hint = h.hint in
      ground (
        arith,
        named,
        long,
        hint,
        bytes_eq_iff sig.name name,
        bytes_eq_iff (take 4 log_id) sig.key_fingerprint,
      ),
)

module _ {crypto : KeyPackage} (p : LogPackage crypto) where
  open p use {
    key_from_der, Ed25519Key, Ed25519Signature, ed25519_key, ed25519_signature, ed25519_verifies,
  }

  -- A signature under a log's key, by the type of the key.
  pub data IsLogSignature (message signature key_der : List ℕ) (key_type : String) : Type 0 where
    ecdsa_p256 :
        (key : crypto.VerifyingKey) (sig : crypto.Signature)
        → key_type ≡ "PKIX_ECDSA_P256_SHA_256"
        → key_from_der key_der ≡ some key
        → crypto.signature_from_der signature ≡ some sig
        → crypto.verifies key message sig ≡ true
        → IsLogSignature message signature key_der key_type
    ed25519 :
        (key : Ed25519Key) (sig : Ed25519Signature)
        → key_type ≡ "PKIX_ED25519"
        → ed25519_key (drop (length key_der - 32) key_der) ≡ some key
        → ed25519_signature (take 64 signature) ≡ some sig
        → ed25519_verifies key message sig ≡ true
        → IsLogSignature message signature key_der key_type

  module _ (message signature key_der : List ℕ) where
    verify_ecdsa_p256-IsSafe : IsSafe (verify_ecdsa_p256 p message signature key_der)
    unfolding verify_ecdsa_p256
    verify_ecdsa_p256-IsSafe h = ground arith

    verify_ed25519-IsSafe : IsSafe (verify_ed25519 p message signature key_der)
    unfolding verify_ed25519
    verify_ed25519-IsSafe h = ground arith

    pub verify_log_signature-IsSafe :
        (key_type : String) → IsSafe (verify_log_signature p message signature key_der key_type)
    unfolding verify_log_signature
    verify_log_signature-IsSafe key_type h =
        ground (arith, verify_ecdsa_p256-IsSafe, verify_ed25519-IsSafe)

    ecdsa_parts :
        verify_ecdsa_p256 p message signature key_der ≡ ok tt
        → (key : crypto.VerifyingKey) × (sig : crypto.Signature) × (key_from_der key_der ≡ some key)
          × (crypto.signature_from_der signature ≡ some sig)
          × (crypto.verifies key message sig ≡ true)
    unfolding verify_ecdsa_p256
    ecdsa_parts h =
        let (key, e1, h1) =
          >>=-parts (ok_or (key_from_der key_der) (failure "Invalid Rekor ECDSA public key")) h in
        let (sig, e2, h2) =
          >>=-parts
            (ok_or (crypto.signature_from_der signature) (failure "Invalid ECDSA signature format"))
            h1 in
        (key, sig, ok_or_found _ _ e1, ok_or_found _ _ e2, ensure_held _ _ h2)

    ed25519_parts :
        verify_ed25519 p message signature key_der ≡ ok tt
        → (key : Ed25519Key) × (sig : Ed25519Signature) × (ed25519_key
              (drop (length key_der - 32) key_der)
            ≡ some key)
          × (ed25519_signature (take 64 signature) ≡ some sig)
          × (ed25519_verifies key message sig ≡ true)
    unfolding verify_ed25519
    ed25519_parts h =
        let (_, e1, h1) =
          >>=-parts
            (reject_if (ltb (length signature) 64)
              (failure "Ed25519 checkpoint signature too short"))
            h in
        let (_, e2, h2) =
          >>=-parts
            (reject_if (ltb (length key_der) 44) (failure "Invalid Ed25519 SPKI key length")) h1 in
        let (key, e3, h3) =
          >>=-parts
            (ok_or (ed25519_key (drop (length key_der - 32) key_der))
              (failure "Invalid Rekor Ed25519 public key"))
            h2 in
        let (sig, e4, h4) =
          >>=-parts
            (ok_or (ed25519_signature (take 64 signature))
              (failure "Invalid Ed25519 signature format"))
            h3 in
        (key, sig, ok_or_found _ _ e3, ok_or_found _ _ e4, ensure_held _ _ h4)

    pub verify_log_signature_sound :
        (key_type : String)
        → verify_log_signature p message signature key_der key_type ≡ ok tt
        → IsLogSignature message signature key_der key_type
    unfolding verify_log_signature
    verify_log_signature_sound key_type h =
        elim (Bool-cases (str_eq key_type "PKIX_ECDSA_P256_SHA_256")) [
          | inl is ↦
              let (key, sig, e1, e2, e3) = ecdsa_parts (ground (arith, is)) in
              ecdsa_p256 key sig ((eq_iff _ _).0 is) e1 e2 e3
          | inr other ↦ elim (Bool-cases (str_eq key_type "PKIX_ED25519")) [
            | inl is ↦
                let (key, sig, e1, e2, e3) = ed25519_parts (ground (arith, other, is)) in
                ed25519 key sig ((eq_iff _ _).0 is) e1 e2 e3
            | inr unknown ↦ absurd (ground (arith, other, unknown))
          ]
        ]

  -- A line of the log with its signature of a message.
  abbrev pub Signs : List ℕ → List ℕ → String → List ℕ → List ℕ → CheckpointSignature → Type 0
  Signs message key_der key_type name log_id sig =
      IsOfLog name log_id sig × (verify_log_signature p message sig.raw key_der key_type ≡ ok tt)

  any_verifies-Decides :
      (message key_der : List ℕ) (key_type : String) (name log_id : List ℕ)
      (sigs : List CheckpointSignature)
      → Decides
          (any_verifies p message key_der key_type name log_id sigs)
          (Any (Signs message key_der key_type name log_id) sigs)
  unfolding any_verifies
  any_verifies-Decides message key_der key_type name log_id [] = inr (_, refl, λ h. h)
  any_verifies-Decides message key_der key_type name log_id (sig ∷ sigs) =
      let later = any_verifies-Decides message key_der key_type name log_id sigs in
      elim (Bool-cases (is_of_log name log_id sig)) [
        | inr other ↦ rw other (
            Decides-map inr
              (λ h. elim h [
                | inl here ↦
                    let yes = (is_of_log_iff name log_id sig).1 here.0 in
                    let no : ⊥ = cc in absurd no
                | inr there ↦ there
              ])
              later)
        | inl own ↦
            rw own (elim (Outcome-cases (verify_log_signature p message sig.raw key_der key_type)) [
              | inl (_, verified) ↦
                  rw verified (inl (refl, inl ((is_of_log_iff name log_id sig).0 own, refl)))
              | inr (inr panics) ↦
                  absurd (verify_log_signature-IsSafe message sig.raw key_der key_type panics)
              | inr (inl (e, refused)) ↦ rw refused (
                  Decides-map inr
                    (λ h. elim h [ inl here ↦ absurd (let v = here.1 in cc) | inr there ↦ there ])
                    later)
            ])
      ]

  -- A checkpoint passes exactly where one of its lines is named as the log, has the first four bytes
  -- of the log's identifier as its hint, and a signature of the text of the note under the log's key;
  -- elsewhere there is an error. Lines of others, also ones that do not verify, do not matter.
  pub verify_signature-Decides :
      (checkpoint : SignedCheckpoint) (key_der : List ℕ) (key_type : String) (name log_id : List ℕ)
      → Decides (verify_signature p checkpoint key_der key_type name log_id) (
          Any
            (Signs (encode_utf8 (marshal p checkpoint.note)) key_der key_type name log_id)
            checkpoint.signatures)
  unfolding verify_signature
  verify_signature-Decides checkpoint key_der key_type name log_id =
      any_verifies-Decides (encode_utf8 (marshal p checkpoint.note)) key_der key_type name log_id
        checkpoint.signatures
