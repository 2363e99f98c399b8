-- ===== src/CacheSecret/Json/Rounds.antt =====
-- The rounds of the loop over the fields go on to the right and keep to the object's top level
-- (src/user_cache_secret.rs).
use Prim.Native.String.{String}
use text.Mathlib.Text.{◌==◌ as str_eq}
use text.Mathlib.TextEquality.{eq_iff}
use mathlib.Core.Path.{subst}
use tinfoil_rs.Prelude.{
  ℕ, ◌+◌, ◌-◌, ◌≤◌, ◌<◌, ◌≡◌, inl, inr, refl, ap, ◌∙◌, Bool, true, false, List, Option, none, some,
  arith, ◌==◌, length, get_elem?, take, drop, Bool-cases, Option-cases,
}
use tinfoil_rs.Outcome.{ok, ok_or, ensure, ok_injective}
use tinfoil_rs.Answers.{>>=-parts, ok_or_found, ensure_held}
use tinfoil_rs.CacheSecret.Json.Entry.{IsEntry, IsTopLevel, behind_comma, IsValueOf}
use tinfoil_rs.CacheSecret.Json.{
  skip_json_whitespace, is_byte, json_string_end, json_value_end, Range, Next, go_on, stop,
  take_value, next_of, entry, round,
}
use tinfoil_rs.CacheSecret.Json.Bounds.{
  skip_bounds, is_byte_in_range, string_end_bounds, get_elem?_in_range, json_value_end_bounds,
}

module _ (parse_key : List ℕ → Option String) (raw : List ℕ) (field : String) where
  -- A range that is set is not empty, lies in the bytes, and is that of the value of an entry of the
  -- field at the object's top level.
  abbrev pub IsInRange : Option Range → Type 0
  IsInRange none = Unit
  IsInRange (some (start, end)) =
      (start < end) × (end ≤ length raw) × IsValueOf parse_key raw field start end

  -- The loop goes on further to the right, at the top level, with such a range.
  abbrev pub Advances : ℕ → Next → Type 0
  Advances index (go_on next found) =
      (index < next) × (next ≤ length raw) × IsInRange found × IsTopLevel parse_key raw next
  Advances index (stop found) = IsInRange found

  take_value-IsInRange :
      (is_field : Bool) (found : Option Range) (range : Range) (found' : Option Range)
      → IsInRange found
      → (is_field ≡ true → IsInRange (some range))
      → take_value is_field found range ≡ ok found'
      → IsInRange found'
  unfolding take_value
  take_value-IsInRange false found range found' h k e = subst IsInRange (ok_injective e) h
  take_value-IsInRange true none range found' h k e = subst IsInRange (ok_injective e) (k refl)
  take_value-IsInRange true (some first) range found' h k e = cc

  next_of-Advances :
      (index at : ℕ) (found : Option Range) (next : Next)
      → index < at
      → IsInRange found
      → (is_byte (get_elem? raw at) b',' ≡ true → IsTopLevel parse_key raw (at + 1))
      → next_of (get_elem? raw at) at found ≡ ok next
      → Advances index next
  unfolding next_of is_byte
  next_of-Advances index at found next further h behind e = elim (Option-cases (get_elem? raw at)) [
    | inl missing ↦ absurd (ground (arith, missing))
    | inr (b, found_byte) ↦ elim (Bool-cases (b == b',')) [
      | inl comma ↦
          let same : go_on (at + 1) found ≡ next = ground (arith, found_byte, comma) in
          subst (Advances index) same (
            omega arith,
            omega (arith, get_elem?_in_range raw at found_byte),
            h,
            behind (ap (λ o. is_byte o b',') found_byte ∙ comma),
          )
      | inr other ↦ elim (Bool-cases (b == b'}')) [
        | inl brace ↦
            let same : stop found ≡ next = ground (arith, found_byte, other, brace) in
            subst (Advances index) same h
        | inr neither ↦ absurd (ground (arith, found_byte, other, neither))
      ]
    ]
  ]

  Advances-from :
      {index later : ℕ} (next : Next) → index ≤ later → Advances later next → Advances index next
  Advances-from (go_on at found) h (further, low, k, top) = (omega arith, low, k, top)
  Advances-from (stop found) h k = k

  entry-Advances :
      (index : ℕ) (found : Option Range) (next : Next)
      → IsTopLevel parse_key raw index
      → IsInRange found
      → entry parse_key raw field (skip_json_whitespace raw index) found ≡ ok next
      → Advances (skip_json_whitespace raw index) next
  unfolding entry
  entry-Advances index found next top h e =
      let at = skip_json_whitespace raw index in
      let (key_end, e1, h1) = >>=-parts (ok_or (json_string_end raw at) tt) e in
      let (key, e2, h2) = >>=-parts (ok_or (parse_key (take (key_end - at) (drop at raw))) tt) h1 in
      let (_, e3, h3) =
        >>=-parts (ensure (is_byte (get_elem? raw (skip_json_whitespace raw key_end)) b':') tt)
          h2 in
      let value_start = skip_json_whitespace raw (skip_json_whitespace raw key_end + 1) in
      let (end, e4, h4) = >>=-parts (ok_or (json_value_end raw value_start) tt) h3 in
      let (found', e5, h5) =
        >>=-parts (take_value (str_eq key field) found (value_start, end)) h4 in
      let is_entry : IsEntry parse_key raw at key value_start end = record {
        key_end = key_end;
        has_key_end = ok_or_found _ _ e1;
        is_key = ok_or_found _ _ e2;
        has_colon = ensure_held _ _ e3;
        has_start = refl;
        has_end = ok_or_found _ _ e4;
      } in
      let key_bounds = string_end_bounds raw at key_end (ok_or_found _ _ e1) in
      let colon =
        is_byte_in_range raw (skip_json_whitespace raw key_end) b':' (ensure_held _ _ e3) in
      let (not_empty, low) = json_value_end_bounds raw value_start end (ok_or_found _ _ e4) in
      let key_skip = skip_bounds raw key_end (omega arith) in
      let start_skip = skip_bounds raw (skip_json_whitespace raw key_end + 1) (omega arith) in
      let end_skip = skip_bounds raw end (omega arith) in
      next_of-Advances at (skip_json_whitespace raw end) found' next (omega arith)
        (take_value-IsInRange (str_eq key field) found (value_start, end) found' h
          (λ same.
            let is_same = (eq_iff key field).0 same in
            let is_entry' =
              subst (λ k. IsEntry parse_key raw at k value_start end) is_same is_entry in
            (not_empty, low, (index, top, is_entry')))
          e5)
        (behind_comma top is_entry) h5

  pub round-Advances :
      (index : ℕ) (found : Option Range) (next : Next)
      → index < length raw
      → IsTopLevel parse_key raw index
      → IsInRange found
      → round parse_key raw field index found ≡ ok next
      → Advances index next
  unfolding round
  round-Advances index found next low top h e =
      elim (Bool-cases (is_byte (get_elem? raw (skip_json_whitespace raw index)) b'}')) [
        | inl brace ↦
            let same : stop found ≡ next = ground (arith, brace) in subst (Advances index) same h
        | inr other ↦
            let e' : entry parse_key raw field (skip_json_whitespace raw index) found ≡ ok next =
              ground (arith, other) in
            Advances-from next (skip_bounds raw index (omega arith)).0
              (entry-Advances index found next top h e')
      ]
