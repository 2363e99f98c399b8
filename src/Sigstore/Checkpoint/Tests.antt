-- ===== src/Sigstore/Checkpoint/Tests.antt =====
-- Checkpoints over toy packages, and the theorems at them.
use tinfoil_rs.Prelude.{
  ℕ, ◌+◌, ◌-◌, ◌≡◌, ap, refl, true, List, [], ◌∷◌, none, some, arith, replicate,
}
use tinfoil_rs.Outcome.{ok, err}
use tinfoil_rs.Decides.{Decides}
use tinfoil_rs.Text.{codes, encode_utf8, parse_u64, is_blank}
use tinfoil_rs.Attestation.Bytes.{bytes_eq}
use tinfoil_rs.Sigstore.Tests.{keys}
use tinfoil_rs.Sigstore.Dsse.{failure}
use tinfoil_rs.Sigstore.Dsse.Scts.{Any}
use tinfoil_rs.Sigstore.Checkpoint.{
  LogPackage, Checkpoint, SignedCheckpoint, key_value, value, marshal, unmarshal, decode,
  verify_signature,
}
use tinfoil_rs.Sigstore.Checkpoint.Marshal.{IsFree, IsPrintable, unmarshal-marshal}
use tinfoil_rs.Sigstore.Checkpoint.Signed.{Signs, verify_signature-Decides}

-- Each byte is the character with a code larger by 100.
encode : List ℕ → List ℕ
encode [] = []
encode (b ∷ bytes) = (b + 100) ∷ encode bytes

decode_back : List ℕ → List ℕ
decode_back [] = []
decode_back (c ∷ s) = (c - 100) ∷ decode_back s

decode_back-encode : (bytes : List ℕ) → decode_back (encode bytes) ≡ bytes
unfolding encode decode_back
decode_back-encode [] = refl
decode_back-encode (b ∷ bytes) =
    let same : b + 100 - 100 ≡ b = omega arith in rw (same, decode_back-encode bytes) refl

encode-IsFree : (bytes : List ℕ) → IsFree 10 (encode bytes)
unfolding encode
encode-IsFree [] = tt
encode-IsFree (b ∷ bytes) = (λ e. omega (arith, e), encode-IsFree bytes)

abbrev logs : LogPackage keys
logs = record {
  base64_decode = λ text. some (decode_back text);
  base64_encode = encode;
  key_from_der = λ der. some der;
  Ed25519Key = List ℕ;
  Ed25519Signature = List ℕ;
  ed25519_key = λ bytes. some bytes;
  ed25519_signature = λ bytes. some bytes;
  ed25519_verifies = λ key message signature. true;
}

abbrev note : Checkpoint
note = record {
  origin = codes "o";
  size = 9944;
  hash = replicate 32 1;
  other_content = key_value (codes "T") (codes "1") ∷ value (codes "f:") ∷ [];
}

note-IsPrintable : IsPrintable note
unfolding is_blank
note-IsPrintable = record {
  origin_full = refl;
  origin_free = (λ e. omega (arith, e), tt);
  size_low = omega arith;
  hash_length = refl;
  content_lines = (
    (
      tt,
      (
        λ e. omega (arith, e),
        (λ e. omega (arith, e), (λ e. omega (arith, e), (λ e. omega (arith, e), tt))),
      ),
    ),
    (
      ((λ e. omega (arith, e.0), tt), (λ e. omega (arith, e), (λ e. omega (arith, e), tt)), refl),
      tt,
    ),
  );
}

unmarshal-marshal_example : unmarshal logs (marshal logs note) ≡ ok note
unmarshal-marshal_example =
    unmarshal-marshal logs (λ bytes. ap some (decode_back-encode bytes)) encode-IsFree note
      note-IsPrintable

-- A line of a witness, and one of the log.
abbrev signed : SignedCheckpoint
signed = record {
  note = note;
  signatures =
      record { key_fingerprint = 1 ∷ 2 ∷ 3 ∷ 4 ∷ []; raw = 8 ∷ []; name = codes "witness" }
      ∷ record { key_fingerprint = 1 ∷ 2 ∷ 3 ∷ 4 ∷ []; raw = 7 ∷ []; name = codes "log" }
      ∷ [];
}

verify_signature-Decides_example :
    Decides
      (verify_signature logs signed
        (7 ∷ [])
        "PKIX_ECDSA_P256_SHA_256"
        (codes "log")
        (1 ∷ 2 ∷ 3 ∷ 4 ∷ 5 ∷ []))
      (Any
        (Signs logs
          (encode_utf8 (marshal logs note))
          (7 ∷ [])
          "PKIX_ECDSA_P256_SHA_256"
          (codes "log")
          (1 ∷ 2 ∷ 3 ∷ 4 ∷ 5 ∷ []))
        signed.signatures)
verify_signature-Decides_example =
    verify_signature-Decides logs signed (7 ∷ []) "PKIX_ECDSA_P256_SHA_256" (codes "log")
      (1 ∷ 2 ∷ 3 ∷ 4 ∷ 5 ∷ [])

passes :
    verify_signature logs signed
      (7 ∷ [])
      "PKIX_ECDSA_P256_SHA_256"
      (codes "log")
      (1 ∷ 2 ∷ 3 ∷ 4 ∷ 5 ∷ [])
    ≡ ok tt
unfolding verify_signature bytes_eq
passes = refl

other_hint :
    verify_signature logs signed
      (7 ∷ [])
      "PKIX_ECDSA_P256_SHA_256"
      (codes "log")
      (9 ∷ 2 ∷ 3 ∷ 4 ∷ 5 ∷ [])
    ≡ err (failure "No valid checkpoint signature found for log")
unfolding verify_signature bytes_eq
other_hint = refl

needs_signatures :
    decode logs (codes "\"o\n1\nh\n\n\n\"") ≡ err (failure "Checkpoint has no signatures")
unfolding decode
needs_signatures = refl

reads_sizes : parse_u64 (codes "+007") ≡ some 7
unfolding parse_u64
reads_sizes = refl

bounds_sizes : parse_u64 (codes "18446744073709551616") ≡ none
unfolding parse_u64
bounds_sizes = refl
