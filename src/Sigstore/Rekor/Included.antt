-- ===== src/Sigstore/Rekor/Included.antt =====
-- An entry that passes is in the log (src/verifier/sigstore/rekor.rs).
use Prim.Native.String.{String}
use tinfoil_rs.Prelude.{ℕ, ◌≡◌, ◌∙◌, ap, Option, List, [], ◌∷◌, some}
use tinfoil_rs.Word.{Build}
use tinfoil_rs.Outcome.{Outcome, ok, err, ok_or}
use tinfoil_rs.Answers.{>>=-parts, ok_or_found}
use tinfoil_rs.Errors.{Error}
use tinfoil_rs.Sigstore.Dsse.{failure, and_then, field}
use tinfoil_rs.Sigstore.Trust.{RekorKey, TimestampAuthority}
use tinfoil_rs.Sigstore.Rekor.Json.{RekorPackage, get_path, or_default, entry_kind, entry_version}
use tinfoil_rs.Sigstore.Rekor.Observed.{tlog_entry, entry_body, check_times, observer_time}
use tinfoil_rs.Sigstore.Rekor.Binding.{bundle_dsse_signature, verify_kind_version}
use tinfoil_rs.Sigstore.Rekor.Logged.{IsWithin, IsObserved, bytes_of_parts, check_times_sound}
use tinfoil_rs.Sigstore.Rekor.Timed.{observer_time_sound}
use tinfoil_rs.Sigstore.Rekor.Anchored.{IsAnchored, verify_entry_at_sound}
use tinfoil_rs.Sigstore.Rekor.{verify_rekor_entry_with_trust}

module _ (p : RekorPackage) (b : Build) where
  open p use {bundles, hasher, Output, to_output}
  open bundles use {Value, get, as_array, decode_b64}

  only_found :
      (entries : List Value) {entry : Value}
      → elim entries [
        | [] ↦ err (failure "Expected exactly 1 tlog entry")
        | first ∷ others ↦ elim others [
          | [] ↦ ok first
          | _ ∷ _ ↦ err (failure "Expected exactly 1 tlog entry")
        ]
      ]
        ≡ ok entry
      → entries ≡ entry ∷ []
  only_found [] h = cc
  only_found (first ∷ []) h = cc
  only_found (first ∷ second ∷ others) h = cc

  only_entry :
      (bundle : Value) {entry : Value}
      → tlog_entry p bundle ≡ ok entry
      → and_then (get_path bundles ("verificationMaterial" ∷ "tlogEntries" ∷ []) bundle) as_array
        ≡ some (entry ∷ [])
  unfolding tlog_entry
  only_entry bundle h =
      let (entries, e1, h1) =
        >>=-parts
          (ok_or
            (and_then (get_path bundles ("verificationMaterial" ∷ "tlogEntries" ∷ []) bundle)
              as_array)
            (failure "No tlogEntries in bundle"))
          h in
      ok_or_found _ _ e1 ∙ ap some (only_found entries h1)

  -- The bytes are those of a text of base64.
  abbrev pub IsEncoded : Option String → List ℕ → Type 0
  IsEncoded text bytes = (b64 : String) × (text ≡ some b64) × (decode_b64 b64 ≡ some bytes)

  entry_body-IsEncoded :
      (entry : Value) {body : List ℕ}
      → entry_body p entry ≡ ok body
      → IsEncoded (field bundles "canonicalizedBody" entry) body
  unfolding entry_body
  entry_body-IsEncoded entry h = bytes_of_parts p (field bundles "canonicalizedBody" entry) _ _ h

  module _
      (verify_timestamps : Value
        → List ℕ
        → List TimestampAuthority
        → Outcome Error (List ℕ × List Error)) where
    -- All that is established of the only log entry of a bundle.
    pub record IsLogged (bundle : Value) (from until : ℕ) (keys : List RekorKey)
        (authorities : List TimestampAuthority) : Type 0 where
      pub entry : Value
      pub body : List ℕ
      pub signature : List ℕ
      pub times : List ℕ × List Error
      pub time : ℕ
      pub anchored :
          IsAnchored p b bundle entry body (or_default (entry_version bundles entry) "") time keys
      pub has_entry :
          and_then (get_path bundles ("verificationMaterial" ∷ "tlogEntries" ∷ []) bundle) as_array
          ≡ some (entry ∷ [])
      pub has_body : IsEncoded (field bundles "canonicalizedBody" entry) body
      pub same_kind : verify_kind_version p entry body ≡ ok tt
      pub has_signature : bundle_dsse_signature p bundle ≡ ok signature
      pub stamps : verify_timestamps bundle signature authorities ≡ ok times
      pub observed : IsObserved p entry times.0 anchored.key time
      pub within : IsWithin from until time

    -- An entry that passes: it is the only one of the bundle; one of the given keys, of the
    -- log that the entry names and valid at the entry's time, signs the text of a checkpoint, in a line
    -- named and hinted as the log's; that time is within the certificate's validity and is a verified
    -- timestamp or signed by the same key together with the body; the checkpoint's hash is the root
    -- against which a proof for the entry's body is accepted; and the body has the certificate and
    -- the signature of the bundle. If the body has `spec.hashedRekordV002.data`, this holds the digest
    -- of the encoding that the bundle signs; otherwise, if the body is of the kind dsse, it holds the
    -- digest of the bundle's payload; of any other body, such as a hashedrekord 0.0.1 with
    -- `spec.data.hash`, no digest is compared.
    pub verify_rekor_entry_with_trust_sound :
        (bundle : Value) (from until : ℕ) (keys : List RekorKey)
        (authorities : List TimestampAuthority)
        → verify_rekor_entry_with_trust p b verify_timestamps bundle from until keys authorities
          ≡ ok tt
        → IsLogged bundle from until keys authorities
    unfolding verify_rekor_entry_with_trust
    verify_rekor_entry_with_trust_sound bundle from until keys authorities h =
        let (entry, e1, h1) = >>=-parts (tlog_entry p bundle) h in
        let (body, e2, h2) = >>=-parts (entry_body p entry) h1 in
        let (_, e3, h3) = >>=-parts (verify_kind_version p entry body) h2 in
        let (signature, e4, h4) = >>=-parts (bundle_dsse_signature p bundle) h3 in
        let (times, e5, h5) = >>=-parts (verify_timestamps bundle signature authorities) h4 in
        let (_, e6, h6) = >>=-parts (check_times from until times.0) h5 in
        let (time, e7, h7) =
          >>=-parts
            (observer_time p entry (or_default (entry_kind bundles entry) "")
              (or_default (entry_version bundles entry) "") from until times.0)
            h6 in
        let anchored =
          verify_entry_at_sound p b bundle entry body (or_default (entry_version bundles entry) "")
            time keys h7 in
        let (observed, within) =
          observer_time_sound p entry from until times.0 anchored.key
            (check_times_sound from until times.0 e6) (or_default (entry_kind bundles entry) "")
            (or_default (entry_version bundles entry) "") e7 anchored.promised in
        record {
          entry = entry;
          body = body;
          signature = signature;
          times = times;
          time = time;
          anchored = anchored;
          has_entry = only_entry bundle e1;
          has_body = entry_body-IsEncoded entry e2;
          same_kind = e3;
          has_signature = e4;
          stamps = e5;
          observed = observed;
          within = within;
        }
