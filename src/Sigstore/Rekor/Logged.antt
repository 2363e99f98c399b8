-- ===== src/Sigstore/Rekor/Logged.antt =====
-- What is established of an entry, of the time and of the tree head
-- (src/verifier/sigstore/rekor.rs).
use Prim.Native.String.{String}
use text.Mathlib.Text.{◌==◌ as str_eq}
use text.Mathlib.TextEquality.{eq_iff}
use mathlib.Core.Path.{subst}
use tinfoil_rs.Prelude.{
  ℕ, ◌≤◌, ◌≡◌, ◌∙◌, ap, inl, inr, true, ◌&&◌, ◌||◌, List, [], ◌∷◌, Option, none, some, arith, ltb,
  Bool-cases, Option-cases,
}
use tinfoil_rs.Outcome.{ok, ensure, reject_if, ok_or, ok_injective}
use tinfoil_rs.Decides.{Decides-ok, IfSet}
use tinfoil_rs.Answers.{>>=-parts, ok_or_found, ensure_held}
use tinfoil_rs.Text.{codes, encode_utf8}
use tinfoil_rs.Attestation.Bytes.{bytes_eq}
use tinfoil_rs.Attestation.Validation.Conditions.{bytes_eq_iff}
use tinfoil_rs.Sigstore.Dsse.{failure, and_then, field}
use tinfoil_rs.Sigstore.Dsse.Scts.{All, Any}
use tinfoil_rs.Sigstore.Dsse.Envelope.{or_text_kept}
use tinfoil_rs.Sigstore.Checkpoint.{SignedCheckpoint, decode, marshal, verify_signature}
use tinfoil_rs.Sigstore.Checkpoint.Signed.{
  Signs, IsLogSignature, verify_log_signature_sound, verify_signature-Decides,
}
use tinfoil_rs.Sigstore.Trust.{RekorKey}
use tinfoil_rs.Sigstore.Rekor.Json.{RekorPackage, bytes_of, pointer, text_at, number_of}
use tinfoil_rs.Sigstore.Rekor.Observed.{minimum, check_times}
use tinfoil_rs.Sigstore.Rekor.Head.{
  starts_by, lasts_to, find_key, text_field, int_field, promise, verify_signed_entry_timestamp,
  verify_promise, verified_root,
}

-- The time is within bounds.
abbrev pub IsWithin : ℕ → ℕ → ℕ → Type 0
IsWithin from until time = (from ≤ time) × (time ≤ until)

pub check_times_sound :
    (from until : ℕ) (times : List ℕ)
    → check_times from until times ≡ ok tt
    → All (IsWithin from until) times
unfolding check_times
check_times_sound from until [] h = tt
check_times_sound from until (t ∷ times) h =
    let (_, e1, h1) =
      >>=-parts
        (reject_if (ltb t from || ltb until t)
          (failure "RFC 3161 timestamp is outside certificate validity window"))
        h in
    ((ground (arith, e1), ground (arith, e1)), check_times_sound from until times h1)

pub some_is : {A : Type 0} {a b : A} → some a ≡ some b → a ≡ b
some_is h = cc

pub minimum-All :
    (P : ℕ → Type 0) (times : List ℕ) {t : ℕ} → All P times → minimum times ≡ some t → P t
unfolding minimum
minimum-All P [] all h = cc
minimum-All P (u ∷ times) (first, all) h = elim (Option-cases (minimum times)) [
  | inl none_is ↦ subst P (some_is (ground (arith, h, none_is))) first
  | inr (least, e) ↦ elim (Bool-cases (ltb u least)) [
    | inl less ↦ subst P (some_is (ground (arith, h, e, less))) first
    | inr more ↦ subst P (some_is (ground (arith, h, e, more))) (minimum-All P times all e)
  ]
]

-- A key of the log that is valid at the time.
pub record IsKeyAt (log_id : String) (time : ℕ) (key : RekorKey) : Type 0 where
  pub of_log : key.key_id ≡ log_id
  pub from : IfSet key.valid_from (λ from. from ≤ time)
  pub until : IfSet key.valid_until (λ until. time ≤ until)

starts_by_held :
    (time : ℕ) (from : Option ℕ) → starts_by time from ≡ true → IfSet from (λ from. from ≤ time)
starts_by_held time none h = tt
starts_by_held time (some from) h = ground (arith, h)

lasts_to_held :
    (time : ℕ) (until : Option ℕ) → lasts_to time until ≡ true → IfSet until (λ until. time ≤ until)
lasts_to_held time none h = tt
lasts_to_held time (some until) h = ground (arith, h)

pub find_key_sound :
    (keys : List RekorKey) (log_id : String) (time : ℕ) {key : RekorKey}
    → find_key keys log_id time ≡ some key
    → IsKeyAt log_id time key × Any (λ k. k ≡ key) keys
unfolding find_key
find_key_sound [] log_id time h = cc
find_key_sound (k ∷ keys) log_id time {key} h =
    elim (Bool-cases
      (str_eq k.key_id log_id && (starts_by time k.valid_from && lasts_to time k.valid_until))) [
        | inr other ↦
            let (is, there) = find_key_sound keys log_id time (ground (arith, h, other)) in
            (is, inr there)
        | inl own ↦
            let same : k ≡ key = some_is (ground (arith, h, own)) in
            (
              subst (IsKeyAt log_id time) same (record {
                of_log = (eq_iff k.key_id log_id).0 (ground (arith, own));
                from = starts_by_held time k.valid_from (ground (arith, own));
                until = lasts_to_held time k.valid_until (ground (arith, own));
              }),
              inl same,
            )
      ]

module _ (p : RekorPackage) where
  open p use {bundles, logs}
  open bundles use {Value, get, as_str, as_array, decode_b64}

  pub bytes_of_parts :
      (text : Option String) (missing malformed : String) {bytes : List ℕ}
      → bytes_of bundles text missing malformed ≡ ok bytes
      → (b64 : String) × (text ≡ some b64) × (decode_b64 b64 ≡ some bytes)
  unfolding bytes_of
  bytes_of_parts text missing malformed h =
      let (b64, e1, h1) = >>=-parts (ok_or text (failure missing)) h in
      (b64, ok_or_found _ _ e1, ok_or_found _ _ h1)

  -- The log promises, by a signature of its key, that it has taken up the entry's body at the time.
  pub record IsPromised (entry : Value) (key : RekorKey) (time : ℕ) : Type 0 where
    pub body : String
    pub log_id : List ℕ
    pub index : ℕ
    pub set : List ℕ
    pub has_body : and_then (pointer bundles ("canonicalizedBody" ∷ []) entry) as_str ≡ some body
    pub has_time :
        and_then (pointer bundles ("integratedTime" ∷ []) entry) (number_of p) ≡ some time
    pub signed :
        IsLogSignature logs
          (encode_utf8 (promise p body time log_id index))
          set
          key.key_der
          key.key_type

  pub verify_signed_entry_timestamp_sound :
      (entry : Value) (key : RekorKey)
      → verify_signed_entry_timestamp p entry key ≡ ok tt
      → (time : ℕ) × IsPromised entry key time
  unfolding verify_signed_entry_timestamp text_field int_field
  verify_signed_entry_timestamp_sound entry key h =
      let (key_id, e1, h1) = >>=-parts (text_field p ("logId" ∷ "keyId" ∷ []) entry) h in
      let (log_id, e2, h2) =
        >>=-parts (ok_or (decode_b64 key_id) (failure "Failed to decode logId")) h1 in
      let (promised, e3, h3) =
        >>=-parts (text_field p ("inclusionPromise" ∷ "signedEntryTimestamp" ∷ []) entry) h2 in
      let (set, e4, h4) =
        >>=-parts (ok_or (decode_b64 promised) (failure "Failed to decode signedEntryTimestamp"))
          h3 in
      let (body, e5, h5) = >>=-parts (text_field p ("canonicalizedBody" ∷ []) entry) h4 in
      let (time, e6, h6) = >>=-parts (int_field p ("integratedTime" ∷ []) entry) h5 in
      let (index, e7, h7) = >>=-parts (int_field p ("logIndex" ∷ []) entry) h6 in
      (
        time,
        record {
          body = body;
          log_id = log_id;
          index = index;
          set = set;
          has_body = ok_or_found _ _ e5;
          has_time = ok_or_found _ _ e6;
          signed =
              verify_log_signature_sound logs (encode_utf8 (promise p body time log_id index)) set
                key.key_der key.key_type
                (or_text_kept _ "Rekor signed entry timestamp (SET) did not verify" h7);
        },
      )

  -- How the time of an entry is established: by a verified timestamp, or by the log's promise.
  pub data IsObserved (entry : Value) (times : List ℕ) (key : RekorKey) (time : ℕ) : Type 0 where
    stamped : minimum times ≡ some time → IsObserved entry times key time
    promised : IsPromised entry key time → IsObserved entry times key time

  -- The tree head: its checkpoint has the root hash of the proof, and a line of the log that is
  -- signed by its key.
  pub record IsHead (inclusion_proof : Value) (key : RekorKey) (log_id : List ℕ)
      (root_hash : List ℕ) : Type 0 where
    pub envelope : String
    pub checkpoint : SignedCheckpoint
    pub root_b64 : String
    pub has_envelope :
        text_at bundles ("checkpoint" ∷ "envelope" ∷ []) inclusion_proof ≡ some envelope
    pub decoded : decode logs (codes envelope) ≡ ok checkpoint
    pub signed :
        Any
          (Signs logs
            (encode_utf8 (marshal logs checkpoint.note))
            key.key_der
            key.key_type
            key.host
            log_id)
          checkpoint.signatures
    pub has_root : field bundles "rootHash" inclusion_proof ≡ some root_b64
    pub root_decodes : decode_b64 root_b64 ≡ some root_hash
    pub same_root : checkpoint.note.hash ≡ root_hash

  pub verified_root_sound :
      (entry : Value) (version : String) (inclusion_proof : Value) (key : RekorKey)
      (log_id root_hash : List ℕ)
      → verified_root p entry version inclusion_proof key log_id ≡ ok root_hash
      → IsHead inclusion_proof key log_id root_hash × (verify_promise p entry version key ≡ ok tt)
  unfolding verified_root
  verified_root_sound entry version inclusion_proof key log_id root_hash h =
      let (envelope, e1, h1) =
        >>=-parts
          (ok_or (text_at bundles ("checkpoint" ∷ "envelope" ∷ []) inclusion_proof)
            (failure "Missing checkpoint in inclusion proof"))
          h in
      let (_, e2, h2) = >>=-parts (verify_promise p entry version key) h1 in
      let (checkpoint, e3, h3) = >>=-parts (decode logs (codes envelope)) h2 in
      let (_, e4, h4) =
        >>=-parts (verify_signature logs checkpoint key.key_der key.key_type key.host log_id) h3 in
      let (root, e5, h5) =
        >>=-parts
          (bytes_of bundles (field bundles "rootHash" inclusion_proof)
            "Missing rootHash in inclusion proof" "Failed to decode rootHash")
          h4 in
      let (_, e6, h6) =
        >>=-parts
          (ensure (bytes_eq checkpoint.note.hash root)
            (failure "Inclusion proof contains invalid root hash"))
          h5 in
      let (root_b64, e7, e8) =
        bytes_of_parts (field bundles "rootHash" inclusion_proof)
          "Missing rootHash in inclusion proof" "Failed to decode rootHash" e5 in
      let same = ok_injective h6 in
      (
        record {
          envelope = envelope;
          checkpoint = checkpoint;
          root_b64 = root_b64;
          has_envelope = ok_or_found _ _ e1;
          decoded = e3;
          signed =
              Decides-ok
                (verify_signature-Decides logs checkpoint key.key_der key.key_type key.host log_id)
                e4;
          has_root = e7;
          root_decodes = e8 ∙ ap some same;
          same_root = (bytes_eq_iff checkpoint.note.hash root).0 (ensure_held _ _ e6) ∙ same;
        },
        e2,
      )
