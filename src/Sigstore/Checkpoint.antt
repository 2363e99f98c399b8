-- ===== src/Sigstore/Checkpoint.antt =====
-- The signed tree heads of the logs (src/verifier/sigstore/checkpoint.rs). Texts are the codes of
-- their characters; base64 and the packages for keys are parameters.
pub mod Marshal
pub mod Signed
pub mod Tests
use Prim.Native.String.{String}
use text.Mathlib.Text.{◌==◌ as str_eq}
use tinfoil_rs.Prelude.{
  ℕ, ◌-◌, Bool, false, not, ◌||◌, List, [], ◌∷◌, ◌++◌, Option, none, some, ltb, ◌==◌, if◌then◌else◌,
  length, take, drop,
}
use tinfoil_rs.Outcome.{Outcome, ok, err, panic, ◌>>=◌, ◌>>◌, ensure, reject_if, ok_or}
use tinfoil_rs.Text.{
  split, split_once, drop_start, drop_end, is_nil, is_blank, is_whitespace, encode_utf8, parse_u64,
}
use tinfoil_rs.Errors.{Error}
use tinfoil_rs.Attestation.Bytes.{bytes_eq}
use tinfoil_rs.Sigstore.Keyring.{KeyPackage}
use tinfoil_rs.Sigstore.Dsse.{failure}
use tinfoil_rs.Sigstore.Dsse.Pae.{to_string}

-- `base64_decode` and `base64_encode` are those of `BASE64_STANDARD`.
pub record LogPackage (crypto : KeyPackage) : Type 1 where
  pub base64_decode : List ℕ → Option (List ℕ)
  pub base64_encode : List ℕ → List ℕ
  pub key_from_der : List ℕ → Option crypto.VerifyingKey
  pub Ed25519Key : Type 0
  pub Ed25519Signature : Type 0
  pub ed25519_key : List ℕ → Option Ed25519Key
  pub ed25519_signature : List ℕ → Option Ed25519Signature
  pub ed25519_verifies : Ed25519Key → List ℕ → Ed25519Signature → Bool

pub data OtherContent : Type 0 where
  key_value : List ℕ → List ℕ → OtherContent
  value : List ℕ → OtherContent

-- The hash is 32 bytes.
pub record Checkpoint : Type 0 where
  pub origin : List ℕ
  pub size : ℕ
  pub hash : List ℕ
  pub other_content : List OtherContent

-- The fingerprint is four bytes.
pub record CheckpointSignature : Type 0 where
  pub key_fingerprint : List ℕ
  pub raw : List ℕ
  pub name : List ℕ

pub record SignedCheckpoint : Type 0 where
  pub note : Checkpoint
  pub signatures : List CheckpointSignature

-- `Display` of a line of other content.
unfoldable pub display : OtherContent → List ℕ
display (key_value key text) = key ++ (b':' ∷ 32 ∷ text)
display (value text) = text

unfoldable pub lines_of : List OtherContent → List ℕ
unfolding display
lines_of [] = []
lines_of (content ∷ contents) = display content ++ (10 ∷ lines_of contents)

unfoldable pub content_of : List ℕ → Option (List ℕ × List ℕ) → OtherContent
content_of line none = value line
content_of line (some (key, text)) = key_value key text

-- The lines that are not empty.
unfoldable pub contents_of : List (List ℕ) → List OtherContent
unfolding content_of split_once
contents_of [] = []
contents_of (line ∷ lines) =
    let rest = contents_of lines in
    if is_nil line then rest else content_of line (split_once b':' 32 line) ∷ rest

-- The bytes are 32.
unfoldable pub hash_of : Option (List ℕ) → Outcome Error (List ℕ)
hash_of none = err (failure "Failed to decode checkpoint root hash")
hash_of (some bytes) =
    if length bytes == 32 then ok bytes else err (failure "Checkpoint root hash is not 32 bytes")

-- `str::lines` of the parts between line feeds: the last one is dropped if it is empty, and the
-- others lose a carriage return.
abbrev pub is_return : ℕ → Bool
is_return c = c == 13

unfoldable pub strip_return : List ℕ → List ℕ
strip_return [] = []
strip_return (c ∷ []) = if is_return c then [] else c ∷ []
strip_return (c ∷ (d ∷ s)) = c ∷ strip_return (d ∷ s)

unfoldable pub lines : List ℕ → List (List ℕ) → List (List ℕ)
unfolding strip_return
lines last [] = if is_nil last then [] else last ∷ []
lines line (next ∷ others) = strip_return line ∷ lines next others

abbrev pub em_dash : ℕ
em_dash = 0x2014

-- The key of a signature line and its signature.
unfoldable pub split_key : List ℕ → List ℕ → Outcome Error CheckpointSignature
split_key name sig =
    if ltb (length sig) 4
    then err (failure "Checkpoint signature too short for key fingerprint")
    else ok (record { key_fingerprint = take 4 sig; raw = drop 4 sig; name = name })

-- The line is named so, and its key hint is how the log's identifier begins.
unfoldable pub is_of_log : List ℕ → List ℕ → CheckpointSignature → Bool
is_of_log name log_id sig =
    if not (bytes_eq sig.name name) || ltb (length log_id) 4
    then false
    else bytes_eq (take 4 log_id) sig.key_fingerprint

abbrev pub first_is : ℕ → List ℕ → Bool
first_is c [] = false
first_is c (d ∷ s) = d == c

abbrev pub is_quote : ℕ → Bool
is_quote c = c == 0x22

abbrev pub is_line_feed : ℕ → Bool
is_line_feed c = c == 10

module _ {crypto : KeyPackage} (p : LogPackage crypto) where
  open p use {
    base64_decode, base64_encode, key_from_der, ed25519_key, ed25519_signature, ed25519_verifies,
  }

  unfoldable pub marshal : Checkpoint → List ℕ
  unfolding lines_of to_string
  marshal note =
      note.origin
      ++ (10
          ∷ (to_string note.size
              ++ (10 ∷ (base64_encode note.hash ++ (10 ∷ lines_of note.other_content)))))

  -- The note by its lines.
  unfoldable pub unmarshal_lines : List ℕ × List (List ℕ) → Outcome Error Checkpoint
  unfolding is_blank parse_u64 hash_of contents_of
  unmarshal_lines (origin, size_line ∷ (hash_line ∷ other_lines)) = do
    reject_if (is_blank origin) (failure "Checkpoint origin string must not be empty")
    size ← ok_or (parse_u64 size_line) (failure "Checkpoint size is not a valid decimal number")
    hash ← hash_of (base64_decode hash_line)
    ok (record {
      origin = origin;
      size = size;
      hash = hash;
      other_content = contents_of other_lines;
    })
  unmarshal_lines (origin, _) = err (failure "Checkpoint note not in expected format")

  unfoldable pub unmarshal : List ℕ → Outcome Error Checkpoint
  unfolding split unmarshal_lines
  unmarshal s = unmarshal_lines (split 10 s)

  unfoldable pub signature_of_parts : List ℕ × List (List ℕ) → Outcome Error CheckpointSignature
  unfolding drop_end is_whitespace split_key
  signature_of_parts (dash, name ∷ (sig_b64 ∷ [])) = do
    sig ←
        ok_or (base64_decode (drop_end is_whitespace sig_b64))
          (failure "Failed to decode checkpoint signature")
    split_key name sig
  signature_of_parts (dash, _) = err (failure "Unexpected checkpoint signature format")

  -- `CheckpointSignature::decode`.
  unfoldable pub decode_signature_line : List ℕ → Outcome Error CheckpointSignature
  unfolding drop_start drop_end split signature_of_parts
  decode_signature_line s =
      let line = drop_end is_line_feed (drop_start is_line_feed s) in
      if first_is em_dash line
      then signature_of_parts (split 32 line)
      else err (failure "Checkpoint signature line missing em dash")

  unfoldable pub decode_signatures : List (List ℕ) → Outcome Error (List CheckpointSignature)
  unfolding is_blank decode_signature_line
  decode_signatures [] = ok []
  decode_signatures (line ∷ lines) =
      let rest = decode_signatures lines in
      if is_blank line
      then rest
      else do signature ← decode_signature_line line; signatures ← rest; ok (signature ∷ signatures)

  -- `SignedCheckpoint::decode`.
  unfoldable pub decode : List ℕ → Outcome Error SignedCheckpoint
  unfolding drop_start drop_end split_once split lines decode_signatures unmarshal
  decode s = do
    (note_text, sigs) ←
        ok_or (split_once 10 10 (drop_end is_quote (drop_start is_quote s)))
          (failure "Invalid checkpoint format: missing signature section")
    signatures ← decode_signatures (lines (split 10 sigs).0 (split 10 sigs).1)
    reject_if (is_nil signatures) (failure "Checkpoint has no signatures")
    note ← unmarshal note_text
    ok (record { note = note; signatures = signatures })

  unfoldable pub verify_ecdsa_p256 : List ℕ → List ℕ → List ℕ → Outcome Error (Unit {0})
  verify_ecdsa_p256 message signature key_der = do
    verifying_key ← ok_or (key_from_der key_der) (failure "Invalid Rekor ECDSA public key")
    sig ← ok_or (crypto.signature_from_der signature) (failure "Invalid ECDSA signature format")
    ensure (crypto.verifies verifying_key message sig)
        (failure "Checkpoint ECDSA signature verification failed")

  unfoldable pub verify_ed25519 : List ℕ → List ℕ → List ℕ → Outcome Error (Unit {0})
  verify_ed25519 message signature key_der = do
    reject_if (ltb (length signature) 64) (failure "Ed25519 checkpoint signature too short")
    reject_if (ltb (length key_der) 44) (failure "Invalid Ed25519 SPKI key length")
    verifying_key ←
        ok_or (ed25519_key (drop (length key_der - 32) key_der))
          (failure "Invalid Rekor Ed25519 public key")
    sig ← ok_or (ed25519_signature (take 64 signature)) (failure "Invalid Ed25519 signature format")
    ensure (ed25519_verifies verifying_key message sig)
        (failure "Checkpoint Ed25519 signature verification failed")

  unfoldable pub verify_log_signature : List ℕ → List ℕ → List ℕ → String → Outcome Error (Unit {0})
  unfolding verify_ecdsa_p256 verify_ed25519
  verify_log_signature message signature key_der key_type =
      if str_eq key_type "PKIX_ECDSA_P256_SHA_256"
      then verify_ecdsa_p256 message signature key_der
      else if str_eq key_type "PKIX_ED25519"
      then verify_ed25519 message signature key_der
      else err (failure "Unsupported Rekor key type")

  unfoldable pub any_verifies :
      List ℕ
      → List ℕ
      → String
      → List ℕ
      → List ℕ
      → List CheckpointSignature
      → Outcome Error (Unit {0})
  unfolding is_of_log verify_log_signature
  any_verifies message key_der key_type name log_id [] =
      err (failure "No valid checkpoint signature found for log")
  any_verifies message key_der key_type name log_id (sig ∷ sigs) =
      let rest = any_verifies message key_der key_type name log_id sigs in
      if not (is_of_log name log_id sig)
      then rest
      else elim (verify_log_signature message sig.raw key_der key_type) [
        | ok _ ↦ ok tt
        | err _ ↦ rest
        | panic ↦ panic
      ]

  unfoldable pub verify_signature :
      SignedCheckpoint → List ℕ → String → List ℕ → List ℕ → Outcome Error (Unit {0})
  unfolding marshal encode_utf8 any_verifies
  verify_signature checkpoint key_der key_type name log_id =
      any_verifies (encode_utf8 (marshal checkpoint.note)) key_der key_type name log_id
        checkpoint.signatures
