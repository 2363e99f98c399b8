-- ===== src/Sigstore/Rekor/Timed.antt =====
-- The time of an entry is verified (src/verifier/sigstore/rekor.rs).
use Prim.Native.String.{String}
use text.Mathlib.Text.{◌==◌ as str_eq}
use mathlib.Core.Path.{subst}
use tinfoil_rs.Prelude.{
  ℕ, ◌≡◌, ◌∙◌, ap, sym, refl, inl, inr, true, ◌&&◌, ◌||◌, List, [], ◌∷◌, none, arith, ltb,
  Bool-cases, Option-cases,
}
use tinfoil_rs.Outcome.{ok, reject_if, ok_or, ok_injective}
use tinfoil_rs.Answers.{>>=-parts, ok_or_found}
use tinfoil_rs.Text.{codes, is_some}
use tinfoil_rs.Sigstore.Dsse.{failure, and_then}
use tinfoil_rs.Sigstore.Dsse.Scts.{All}
use tinfoil_rs.Sigstore.Trust.{RekorKey}
use tinfoil_rs.Sigstore.Rekor.Json.{RekorPackage, parse_index, pointer, pointer_step, number_of}
use tinfoil_rs.Sigstore.Rekor.Observed.{minimum, signed_timestamp, integrated_time, observer_time}
use tinfoil_rs.Sigstore.Rekor.Head.{verify_signed_entry_timestamp, verify_promise}
use tinfoil_rs.Sigstore.Rekor.Logged.{
  IsWithin, IsPromised, IsObserved, stamped, promised, some_is, minimum-All,
  verify_signed_entry_timestamp_sound,
}

module _ (p : RekorPackage) where
  open p use {bundles, logs}
  open bundles use {Value, get, as_array}

  -- A name that is no index is looked up as a field.
  pointer_one :
      (name : String) (value : Value)
      → parse_index (codes name) ≡ none
      → pointer bundles (name ∷ []) value ≡ get name value
  unfolding pointer pointer_step
  pointer_one name value no_index = elim (Option-cases (get name value)) [
    | inr (found, e) ↦ rw (pointer, pointer_step, e) refl
    | inl missing ↦ elim (Option-cases (as_array value)) [
      | inl no_array ↦ rw (pointer, pointer_step, missing, no_array) refl
      | inr (values, e) ↦ rw (pointer, pointer_step, missing, e, no_index) refl
    ]
  ]

  pointer_starts :
      (name : String) (names : List String) (value : Value)
      → parse_index (codes name) ≡ none
      → is_some (pointer bundles (name ∷ names) value) ≡ true
      → is_some (get name value) ≡ true
  unfolding pointer pointer_step
  pointer_starts name names value no_index h = elim (Option-cases (get name value)) [
    | inr (found, e) ↦ rw e refl
    | inl missing ↦ elim (Option-cases (as_array value)) [
      | inl no_array ↦ absurd (ground (arith, h, missing, no_array))
      | inr (values, e) ↦ absurd (ground (arith, h, missing, e, no_index))
    ]
  ]

  no_index_promise : parse_index (codes "inclusionPromise") ≡ none
  unfolding parse_index
  no_index_promise = refl

  no_index_time : parse_index (codes "integratedTime") ≡ none
  unfolding parse_index
  no_index_time = refl

  module _ (entry : Value) (from until : ℕ) (times : List ℕ) (key : RekorKey)
      (in_time : All (IsWithin from until) times) where
    stamped_at :
        {time : ℕ} (text : String)
        → ok_or (minimum times) (failure text) ≡ ok time
        → IsObserved p entry times key time × IsWithin from until time
    stamped_at text h =
        let least = ok_or_found _ _ h in
        (stamped least, minimum-All (IsWithin from until) times in_time least)

    promised_at :
        {time : ℕ}
        → integrated_time p entry from until ≡ ok time
        → verify_signed_entry_timestamp p entry key ≡ ok tt
        → IsObserved p entry times key time × IsWithin from until time
    unfolding integrated_time
    promised_at {time} h signed =
        let (stated, e1, h1) =
          >>=-parts
            (ok_or (and_then (get "integratedTime" entry) (number_of p))
              (failure "Missing or invalid integratedTime in tlog entry"))
            h in
        let (_, e2, h2) =
          >>=-parts
            (reject_if (ltb stated from || ltb until stated)
              (failure "Rekor entry integrated time is outside certificate validity window"))
            h1 in
        let same : stated ≡ time = ok_injective h2 in
        let (promised_time, is) = verify_signed_entry_timestamp_sound p entry key signed in
        let times_agree : promised_time ≡ time =
          some_is (
            sym is.has_time
            ∙ ap (λ found. and_then found (number_of p))
                (pointer_one "integratedTime" entry no_index_time)
            ∙ ok_or_found _ _ e1)
          ∙ same in
        (
          promised (subst (IsPromised p entry key) times_agree is),
          subst (IsWithin from until) same (ground (arith, e2), ground (arith, e2)),
        )

    -- By the entry's kind and version.
    pub observer_time_sound :
        (kind version : String) {time : ℕ}
        → observer_time p entry kind version from until times ≡ ok time
        → verify_promise p entry version key ≡ ok tt
        → IsObserved p entry times key time × IsWithin from until time
    unfolding observer_time verify_promise
    observer_time_sound kind version h signed =
        elim (Bool-cases
          ((str_eq kind "dsse" || str_eq kind "hashedrekord") && str_eq version "0.0.1")) [
            | inl first ↦ elim (Bool-cases (is_some (signed_timestamp p entry))) [
              | inl has ↦
                  let promise_there : is_some (get "inclusionPromise" entry) ≡ true =
                    pointer_starts "inclusionPromise" ("signedEntryTimestamp" ∷ []) entry
                      no_index_promise has in
                  promised_at (ground (arith, h, first, has))
                    (ground (arith, signed, first, promise_there))
              | inr has_none ↦
                  stamped_at "Rekor v1 entry has no inclusion promise"
                    (ground (arith, h, first, has_none))
            ]
            | inr not_first ↦
                elim (Bool-cases (str_eq kind "hashedrekord" && str_eq version "0.0.2")) [
                  | inl second ↦
                      stamped_at "Rekor v2 entry has no integratedTime"
                        (ground (arith, h, not_first, second))
                  | inr neither ↦ absurd (ground (arith, h, not_first, neither))
                ]
          ]
