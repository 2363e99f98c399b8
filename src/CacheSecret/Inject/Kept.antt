-- ===== src/CacheSecret/Inject/Kept.antt =====
-- What a body with the secret keeps of the caller's (src/user_cache_secret.rs).
use Prim.Native.String.{String}
use tinfoil_rs.Prelude.{
  ℕ, ◌-◌, ◌≡◌, ◌∙◌, ap, sym, inl, inr, refl, List, [], ◌∷◌, ◌++◌, Option, none, some, arith,
  get_elem?, take, drop, take-append-drop, Bool-cases, Option-cases,
}
use tinfoil_rs.Attestation.Bytes.{bytes_eq}
use tinfoil_rs.Attestation.Validation.Conditions.{bytes_eq_iff}
use tinfoil_rs.CacheSecret.Json.{Range, Scan, done, out_of_fuel, is_byte, top_level_value_range}
use tinfoil_rs.CacheSecret.Json.Entry.{IsValueOf}
use tinfoil_rs.CacheSecret.Json.Rounds.{IsInRange}
use tinfoil_rs.CacheSecret.Json.Loop.{IsScanned, top_level_value_range-IsScanned}
use tinfoil_rs.CacheSecret.Inject.Place.{IsBlank, EndsAt, last_from-EndsAt, drop_at, split_range}
use tinfoil_rs.CacheSecret.Inject.{
  JsonPackage, user_cache_secret_field, value_of, last_from, found_range, replace, new_field,
  insert_at, inject_over, inject_user_cache_secret,
}

-- A field that is added before the closing brace, which only whitespace follows, or the value of the
-- field at the top level that is replaced.
pub data IsChanged (p : JsonPackage) (raw : List ℕ) (fields : List (String × List ℕ))
    (value before removed after inserted : List ℕ) : Type 0 where
  added :
      {rest : List ℕ}
      → value_of fields user_cache_secret_field ≡ none
      → removed ≡ []
      → after ≡ b'}' ∷ rest
      → IsBlank rest
      → inserted ≡ new_field fields value
      → IsChanged p raw fields value before removed after inserted
  replaced :
      {start end : ℕ}
      → value_of fields user_cache_secret_field ≡ some (0x22 ∷ 0x22 ∷ [])
      → IsValueOf p.parse_key raw user_cache_secret_field start end
      → before ≡ take start raw
      → removed ≡ take (end - start) (drop start raw)
      → inserted ≡ value
      → IsChanged p raw fields value before removed after inserted

-- The caller's body before and after one place, where the secret's JSON is now the field's value.
pub record IsKept (p : JsonPackage) (raw injected : List ℕ) (secret : String) : Type 0 where
  pub fields : List (String × List ℕ)
  pub value : List ℕ
  pub before : List ℕ
  pub removed : List ℕ
  pub after : List ℕ
  pub inserted : List ℕ
  pub is_object : p.parse_object raw ≡ some fields
  pub is_value : p.to_json secret ≡ some value
  pub was : raw ≡ before ++ (removed ++ after)
  pub now : injected ≡ before ++ (inserted ++ after)
  pub changed : IsChanged p raw fields value before removed after inserted

some_injective : {A : Type 0} {a b : A} → some a ≡ some b → a ≡ b
some_injective h = cc

module _ (p : JsonPackage) (raw injected : List ℕ) (secret : String)
    (fields : List (String × List ℕ)) (is_object : p.parse_object raw ≡ some fields) where
  insert_at-IsKept :
      (close : Option ℕ) (value : Option (List ℕ))
      → p.to_json secret ≡ value
      → value_of fields user_cache_secret_field ≡ none
      → EndsAt raw close
      → insert_at raw fields close value ≡ some injected
      → IsKept p raw injected secret
  unfolding insert_at
  insert_at-IsKept none value is_value absent blank h = cc
  insert_at-IsKept (some close) none is_value absent blank h = cc
  insert_at-IsKept (some close) (some value) is_value absent blank h =
      elim (Bool-cases (is_byte (get_elem? raw close) b'}')) [
        | inr other ↦ absurd (ground (arith, other))
        | inl brace ↦
            let same : some (take close raw ++ (new_field fields value ++ drop close raw))
                ≡ some injected =
              ground (arith, brace) in
            record {
              fields = fields;
              value = value;
              before = take close raw;
              removed = [];
              after = drop close raw;
              inserted = new_field fields value;
              is_object = is_object;
              is_value = is_value;
              was = sym (take-append-drop close raw);
              now = sym (some_injective same);
              changed = added absent refl (drop_at raw close b'}' brace) blank refl;
            }
      ]

  replace-IsKept :
      (range : Option Range) (value : Option (List ℕ))
      → p.to_json secret ≡ value
      → value_of fields user_cache_secret_field ≡ some (0x22 ∷ 0x22 ∷ [])
      → IsInRange p.parse_key raw user_cache_secret_field range
      → replace raw range value ≡ some injected
      → IsKept p raw injected secret
  unfolding replace
  replace-IsKept none value is_value blank within h = cc
  replace-IsKept (some range) none is_value blank within h = cc
  replace-IsKept (some (start, end)) (some value) is_value blank (not_empty, low, is_value_of) h =
      record {
        fields = fields;
        value = value;
        before = take start raw;
        removed = take (end - start) (drop start raw);
        after = drop end raw;
        inserted = value;
        is_object = is_object;
        is_value = is_value;
        was = split_range raw start end (omega arith);
        now = sym (some_injective h);
        changed = replaced blank is_value_of refl refl refl;
      }

  found_range-IsInRange :
      (scan : Scan)
      → IsScanned p.parse_key raw user_cache_secret_field scan
      → IsInRange p.parse_key raw user_cache_secret_field (found_range scan)
  unfolding found_range
  found_range-IsInRange (done found) h = h
  found_range-IsInRange out_of_fuel h = absurd h

  inject_over-IsKept :
      (existing : Option (List ℕ))
      → value_of fields user_cache_secret_field ≡ existing
      → inject_over p raw secret fields existing ≡ some injected
      → IsKept p raw injected secret
  unfolding inject_over
  inject_over-IsKept none absent h =
      insert_at-IsKept (last_from raw 0) (p.to_json secret) refl absent (last_from-EndsAt raw) h
  inject_over-IsKept (some existing) present h =
      elim (Bool-cases (bytes_eq existing (0x22 ∷ 0x22 ∷ []))) [
        | inr other ↦ absurd (ground (arith, other))
        | inl blank ↦
            replace-IsKept
              (found_range (top_level_value_range p.parse_key raw user_cache_secret_field))
              (p.to_json secret) refl
              (present ∙ ap some ((bytes_eq_iff existing (0x22 ∷ 0x22 ∷ [])).0 blank))
              (found_range-IsInRange _
                (top_level_value_range-IsScanned p.parse_key raw user_cache_secret_field))
              (ground (arith, blank))
      ]

-- A body that the secret is injected into is an object, and keeps every byte of the caller's outside
-- of one place. Where the object has no field of the name, nothing is taken away there, and a new
-- field with the secret's JSON is added directly before a closing brace that only whitespace
-- follows. Where it has the empty text as the field's value, the bytes of the value of an entry with
-- this key at the object's top level, as the scan reads the bytes, are replaced by the secret's JSON.
pub inject_user_cache_secret-IsKept :
    (p : JsonPackage) (raw injected : List ℕ) (secret : String)
    → inject_user_cache_secret p raw secret ≡ some injected
    → IsKept p raw injected secret
unfolding inject_user_cache_secret
inject_user_cache_secret-IsKept p raw injected secret h = elim (Option-cases (p.parse_object raw)) [
  | inl none_is ↦ absurd (ground (arith, none_is))
  | inr (fields, is_object) ↦
      inject_over-IsKept p raw injected secret fields is_object
        (value_of fields user_cache_secret_field) refl (ground (arith, is_object))
]
