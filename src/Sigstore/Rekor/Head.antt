-- ===== src/Sigstore/Rekor/Head.antt =====
-- The signed tree head of an entry, and the promise of its time (src/verifier/sigstore/rekor.rs).
use Prim.Native.String.{String}
use text.Mathlib.Text.{◌==◌ as str_eq}
use tinfoil_rs.Prelude.{
  ℕ, Bool, true, not, ◌&&◌, List, [], ◌∷◌, ◌++◌, Option, none, some, ltb, if◌then◌else◌,
}
use tinfoil_rs.Outcome.{Outcome, ok, ◌>>=◌, ◌>>◌, ensure, ok_or}
use tinfoil_rs.Text.{codes, encode_utf8, is_some}
use tinfoil_rs.Errors.{Error}
use tinfoil_rs.Attestation.Bytes.{bytes_eq}
use tinfoil_rs.Sigstore.Certificate.{or_text}
use tinfoil_rs.Sigstore.Dsse.{failure, and_then, field}
use tinfoil_rs.Sigstore.Dsse.Pae.{to_string}
use tinfoil_rs.Sigstore.Checkpoint.{decode, verify_signature, verify_log_signature}
use tinfoil_rs.Sigstore.Trust.{RekorKey}
use tinfoil_rs.Sigstore.Rekor.Json.{RekorPackage, bytes_of, get_path, pointer, text_at, number_of}

abbrev pub starts_by : ℕ → Option ℕ → Bool
starts_by time none = true
starts_by time (some from) = not (ltb time from)

abbrev pub lasts_to : ℕ → Option ℕ → Bool
lasts_to time none = true
lasts_to time (some until) = not (ltb until time)

-- The first key of the log that is valid at the time.
unfoldable pub find_key : List RekorKey → String → ℕ → Option RekorKey
find_key [] log_id time = none
find_key (key ∷ keys) log_id time =
    if str_eq key.key_id log_id && (starts_by time key.valid_from && lasts_to time key.valid_until)
    then some key
    else find_key keys log_id time

module _ (p : RekorPackage) where
  open p use {bundles, logs, as_u64, from_slice, hex, Output, hasher, to_output}
  open bundles use {Value, get, as_str, as_array, decode_b64}

  unfoldable pub text_field : List String → Value → Outcome Error String
  unfolding pointer
  text_field names entry =
      ok_or (and_then (pointer bundles names entry) as_str) (failure "Missing in tlog entry")

  unfoldable pub int_field : List String → Value → Outcome Error ℕ
  unfolding pointer number_of
  int_field names entry =
      ok_or (and_then (pointer bundles names entry) (number_of p)) (failure "Missing in tlog entry")

  -- The canonical JSON that the log signs.
  unfoldable pub promise : String → ℕ → List ℕ → ℕ → List ℕ
  promise body time log_id index =
      codes "{\"body\":\""
      ++ (codes body
          ++ (codes "\",\"integratedTime\":"
              ++ (to_string time
                  ++ (codes ",\"logID\":\""
                      ++ (hex log_id
                          ++ (codes "\",\"logIndex\":" ++ (to_string index ++ (b'}' ∷ []))))))))

  unfoldable pub verify_signed_entry_timestamp : Value → RekorKey → Outcome Error (Unit {0})
  unfolding text_field int_field promise encode_utf8 verify_log_signature
  verify_signed_entry_timestamp entry rekor_key = do
    key_id ← text_field ("logId" ∷ "keyId" ∷ []) entry
    log_id ← ok_or (decode_b64 key_id) (failure "Failed to decode logId")
    promised ← text_field ("inclusionPromise" ∷ "signedEntryTimestamp" ∷ []) entry
    set ← ok_or (decode_b64 promised) (failure "Failed to decode signedEntryTimestamp")
    body ← text_field ("canonicalizedBody" ∷ []) entry
    time ← int_field ("integratedTime" ∷ []) entry
    index ← int_field ("logIndex" ∷ []) entry
    or_text
        (verify_log_signature logs (encode_utf8 (promise body time log_id index)) set
          rekor_key.key_der rekor_key.key_type)
        "Rekor signed entry timestamp (SET) did not verify"

  -- Only where the entry is of version 0.0.1 and has a promise.
  unfoldable pub verify_promise : Value → String → RekorKey → Outcome Error (Unit {0})
  unfolding verify_signed_entry_timestamp
  verify_promise entry version rekor_key =
      if str_eq version "0.0.1" && is_some (get "inclusionPromise" entry)
      then verify_signed_entry_timestamp entry rekor_key
      else ok tt

  -- The root hash of the proof, which the signed checkpoint has too.
  unfoldable pub verified_root : Value → String → Value → RekorKey → List ℕ → Outcome Error (List ℕ)
  unfolding get_path verify_promise decode verify_signature
  verified_root entry version inclusion_proof rekor_key log_id_bytes = do
    checkpoint_str ←
        ok_or (text_at bundles ("checkpoint" ∷ "envelope" ∷ []) inclusion_proof)
          (failure "Missing checkpoint in inclusion proof")
    verify_promise entry version rekor_key
    signed_checkpoint ← decode logs (codes checkpoint_str)
    verify_signature logs signed_checkpoint rekor_key.key_der rekor_key.key_type rekor_key.host
        log_id_bytes
    root_hash ←
        bytes_of bundles (field bundles "rootHash" inclusion_proof)
          "Missing rootHash in inclusion proof" "Failed to decode rootHash"
    ensure (bytes_eq signed_checkpoint.note.hash root_hash)
        (failure "Inclusion proof contains invalid root hash")
    ok root_hash
