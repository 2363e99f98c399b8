-- ===== src/CacheSecret/Json/Loop.antt =====
-- The loop over the fields of an object ends (src/user_cache_secret.rs).
use Prim.Native.String.{String}
use tinfoil_rs.Prelude.{
  ℕ, zero, suc, ◌+◌, ◌≤◌, ◌<◌, ◌≡◌, ◌∙◌, ap, ◌⊎◌, inl, inr, refl, List, Option, none, arith, ltb,
  length, get_elem?, Bool-cases,
}
use tinfoil_rs.Outcome.{ok, Outcome-cases}
use tinfoil_rs.CacheSecret.Json.{
  skip_json_whitespace, is_byte, Range, Next, go_on, stop, Scan, done, out_of_fuel, round,
  fields_loop, top_level_value_range,
}
use tinfoil_rs.CacheSecret.Json.Entry.{IsTopLevel, behind_brace}
use tinfoil_rs.CacheSecret.Json.Bounds.{is_byte_in_range}
use tinfoil_rs.CacheSecret.Json.Rounds.{IsInRange, Advances, round-Advances}

module _ (parse_key : List ℕ → Option String) (raw : List ℕ) (field : String) where
  -- The scan came to its end, with no range or that of a value of the field.
  abbrev pub IsScanned : Scan → Type 0
  IsScanned (done found) = IsInRange parse_key raw field found
  IsScanned out_of_fuel = ⊥

  Next-cases :
      (n : Next)
      → ((index : ℕ) × (found : Option Range) × (n ≡ go_on index found))
        ⊎ ((found : Option Range) × (n ≡ stop found))
  Next-cases (go_on index found) = inl (index, found, refl)
  Next-cases (stop found) = inr (found, refl)

  advanced :
      (index : ℕ) (found : Option Range) {next : Next}
      → index < length raw
      → IsTopLevel parse_key raw index
      → IsInRange parse_key raw field found
      → round parse_key raw field index found ≡ ok next
      → Advances parse_key raw field index next
  advanced index found {next} = round-Advances parse_key raw field index found next

  fields_loop-IsScanned :
      (fuel index : ℕ) (found : Option Range)
      → index ≤ length raw
      → length raw < fuel + index
      → IsTopLevel parse_key raw index
      → IsInRange parse_key raw field found
      → IsScanned (fields_loop parse_key raw field fuel index found)
  unfolding fields_loop
  fields_loop-IsScanned zero index found low enough top h = absurd (omega arith)
  fields_loop-IsScanned (suc fuel) index found low enough top h =
      elim (Bool-cases (ltb index (length raw))) [
        | inr at_end ↦ rw at_end tt
        | inl inside ↦ rw inside (elim (Outcome-cases (round parse_key raw field index found)) [
          | inr (inl (e, refused)) ↦ rw refused tt
          | inr (inr panics) ↦ rw panics tt
          | inl (next, rounds) ↦ elim (Next-cases next) [
            | inr (found', stops) ↦
                let last = rounds ∙ ap ok stops in
                rw last (advanced index found (ground arith) top h last)
            | inl (index', found', goes_on) ↦
                let more = rounds ∙ ap ok goes_on in
                let (further, low', h', top') = advanced index found (ground arith) top h more in
                rw more (fields_loop-IsScanned fuel index' found' low' (omega arith) top' h')
          ]
        ])
      ]

  -- The search for a field's value comes to its end, on any bytes, within one round more than there
  -- are bytes; and a range that it finds is not empty, lies within the bytes, and is that of the value
  -- of an entry with this key at the object's top level, as the scan reads the bytes.
  pub top_level_value_range-IsScanned : IsScanned (top_level_value_range parse_key raw field)
  unfolding top_level_value_range
  top_level_value_range-IsScanned =
      elim (Bool-cases (is_byte (get_elem? raw (skip_json_whitespace raw 0)) b'{')) [
        | inr other ↦ rw other tt
        | inl object ↦
            let low = is_byte_in_range raw (skip_json_whitespace raw 0) b'{' object in
            rw object (
              fields_loop-IsScanned (length raw + 1) (skip_json_whitespace raw 0 + 1) none
                (omega arith) (omega arith) (behind_brace object) tt)
      ]
