-- ===== src/Sigstore/Rekor/Observed.antt =====
-- The entry of a bundle and the time that is verified for it (src/verifier/sigstore/rekor.rs).
use Prim.Native.String.{String}
use text.Mathlib.Text.{◌==◌ as str_eq}
use tinfoil_rs.Prelude.{ℕ, ◌&&◌, ◌||◌, List, [], ◌∷◌, Option, none, some, ltb, if◌then◌else◌}
use tinfoil_rs.Outcome.{Outcome, ok, err, ◌>>=◌, ◌>>◌, reject_if, ok_or}
use tinfoil_rs.Text.{is_some}
use tinfoil_rs.Errors.{Error}
use tinfoil_rs.Sigstore.Dsse.{failure, and_then, field}
use tinfoil_rs.Sigstore.Rekor.Json.{RekorPackage, bytes_of, get_path, pointer, number_of}

-- The least of the times.
unfoldable pub minimum : List ℕ → Option ℕ
minimum [] = none
minimum (t ∷ times) = elim (minimum times) [
  | none ↦ some t
  | some least ↦ if ltb t least then some t else some least
]

-- No time is outside the validity of the certificate.
unfoldable pub check_times : ℕ → ℕ → List ℕ → Outcome Error (Unit {0})
check_times cert_not_before cert_not_after [] = ok tt
check_times cert_not_before cert_not_after (t ∷ times) = do
  reject_if (ltb t cert_not_before || ltb cert_not_after t)
      (failure "RFC 3161 timestamp is outside certificate validity window")
  check_times cert_not_before cert_not_after times

module _ (p : RekorPackage) where
  open p use {bundles, logs, as_u64, from_slice, hex, Output, hasher, to_output}
  open bundles use {Value, get, as_str, as_array, decode_b64}

  unfoldable pub tlog_entry : Value → Outcome Error Value
  unfolding get_path
  tlog_entry bundle = do
    tlog_entries ←
        ok_or
          (and_then (get_path bundles ("verificationMaterial" ∷ "tlogEntries" ∷ []) bundle)
            as_array)
          (failure "No tlogEntries in bundle")
    elim tlog_entries [
      | [] ↦ err (failure "Expected exactly 1 tlog entry")
      | entry ∷ others ↦ elim others [
        | [] ↦ ok entry
        | _ ∷ _ ↦ err (failure "Expected exactly 1 tlog entry")
      ]
    ]

  unfoldable pub entry_body : Value → Outcome Error (List ℕ)
  unfolding bytes_of
  entry_body entry =
      bytes_of bundles (field bundles "canonicalizedBody" entry)
        "Missing canonicalizedBody in tlog entry" "Failed to decode canonicalizedBody"

  abbrev pub signed_timestamp : Value → Option Value
  signed_timestamp entry = pointer bundles ("inclusionPromise" ∷ "signedEntryTimestamp" ∷ []) entry

  unfoldable pub integrated_time : Value → ℕ → ℕ → Outcome Error ℕ
  unfolding number_of
  integrated_time entry cert_not_before cert_not_after = do
    time ←
        ok_or (and_then (get "integratedTime" entry) (number_of p))
          (failure "Missing or invalid integratedTime in tlog entry")
    reject_if (ltb time cert_not_before || ltb cert_not_after time)
        (failure "Rekor entry integrated time is outside certificate validity window")
    ok time

  -- The time that is verified for the entry, by its kind, its version and whether it has a promise.
  unfoldable pub observer_time : Value → String → String → ℕ → ℕ → List ℕ → Outcome Error ℕ
  unfolding pointer integrated_time minimum
  observer_time entry kind version cert_not_before cert_not_after tsa_times =
      if (str_eq kind "dsse" || str_eq kind "hashedrekord") && str_eq version "0.0.1"
      then if is_some (signed_timestamp entry)
        then integrated_time entry cert_not_before cert_not_after
        else ok_or (minimum tsa_times) (failure "Rekor v1 entry has no inclusion promise")
      else if str_eq kind "hashedrekord" && str_eq version "0.0.2"
      then ok_or (minimum tsa_times) (failure "Rekor v2 entry has no integratedTime")
      else err (failure "Unsupported Rekor entry type")
