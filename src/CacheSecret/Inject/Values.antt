-- ===== src/CacheSecret/Inject/Values.antt =====
-- Adding the secret to a JSON value (`provision_value` of src/user_cache_secret.rs).
use Prim.Native.String.{String}
use text.Mathlib.Text.{◌==◌ as str_eq}
use text.Mathlib.TextEquality.{eq_iff}
use tinfoil_rs.Prelude.{
  ◌≡◌, ◌∙◌, ◌⊎◌, ap, refl, inl, inr, Bool, true, false, List, [], ◌∷◌, Option, none, some,
  if◌then◌else◌, arith, Bool-cases,
}
use tinfoil_rs.CacheSecret.{UserCacheSecret, get}
use tinfoil_rs.CacheSecret.Inject.{user_cache_secret_field, value_of}

-- `Value::String`, and the comparison of a value with the empty text.
pub record ValuePackage : Type 1 where
  pub Value : Type 0
  pub string : String → Value
  pub is_blank : Value → Bool

-- `insert` of a map: the value of a key is replaced, or a new key is added.
unfoldable pub insert : {A : Type 0} → String → A → List (String × A) → List (String × A)
insert name value [] = (name, value) ∷ []
insert name value ((other, old) ∷ fields) =
    let rest = insert name value fields in
    if str_eq other name then (name, value) ∷ fields else (other, old) ∷ rest

module _ (p : ValuePackage) where
  open p use {Value, string, is_blank}

  -- What the caller has set; a field that is missing or is the empty text is not.
  unfoldable pub is_set : Option Value → Bool
  is_set none = false
  is_set (some existing) = if is_blank existing then false else true

  unfoldable pub set_secret : List (String × Value) → Option String → List (String × Value)
  unfolding insert
  set_secret fields none = fields
  set_secret fields (some secret) = insert user_cache_secret_field (string secret) fields

  -- The body, if it is an object, and the source, which is resolved only if the field is not set;
  -- `resolved` is what the default resolution would answer now.
  unfoldable pub provision_value :
      String
      → Option (List (String × Value))
      → UserCacheSecret
      → Option (List (String × Value)) × UserCacheSecret
  unfolding is_set set_secret value_of get
  provision_value resolved none source = (none, source)
  provision_value resolved (some fields) source =
      if is_set (value_of fields user_cache_secret_field)
      then (some fields, source)
      else (some (set_secret fields (get resolved source).0), (get resolved source).1)

value_of-insert :
    {A : Type 0} (name : String) (value : A) (fields : List (String × A))
    → value_of (insert name value fields) name ≡ some value
unfolding value_of insert
value_of-insert name value [] = let same = (eq_iff name name).1 refl in rw same refl
value_of-insert name value ((other, old) ∷ fields) = elim (Bool-cases (str_eq other name)) [
  | inl here ↦ let same = (eq_iff name name).1 refl in rw (here, same) refl
  | inr there ↦ rw (there, there) (value_of-insert name value fields)
]

value_of-insert_other :
    {A : Type 0} (name key : String) (value : A) (fields : List (String × A))
    → str_eq name key ≡ false
    → value_of (insert name value fields) key ≡ value_of fields key
unfolding value_of insert
value_of-insert_other name key value [] differs = rw differs refl
value_of-insert_other name key value ((other, old) ∷ fields) differs =
    elim (Bool-cases (str_eq other name)) [
      | inl here ↦
          let also : str_eq other key ≡ false =
            ap (λ s. str_eq s key) ((eq_iff other name).0 here) ∙ differs in
          rw (here, differs, also) refl
      | inr there ↦ rw there (elim (Bool-cases (str_eq other key)) [
        | inl found ↦ rw found refl
        | inr not_here ↦ rw not_here (value_of-insert_other name key value fields differs)
      ])
    ]

module _ (p : ValuePackage) (resolved : String) (fields : List (String × p.Value))
    (source : UserCacheSecret) where
  -- The field is missing or the empty text.
  abbrev pub IsUnset : Option p.Value → Type 0
  IsUnset found =
      (found ≡ none)
      ⊎ ((existing : p.Value) × (found ≡ some existing) × (p.is_blank existing ≡ true))

  -- A body and a source after the secret was added to an object.
  pub data IsProvisioned : Option (List (String × p.Value)) × UserCacheSecret → Type 0 where
    keeps :
        (existing : p.Value)
        → value_of fields user_cache_secret_field ≡ some existing
        → p.is_blank existing ≡ false
        → IsProvisioned (some fields, source)
    has_none :
        IsUnset (value_of fields user_cache_secret_field)
        → (get resolved source).0 ≡ none
        → IsProvisioned (some fields, (get resolved source).1)
    sets :
        (secret : String) (after : List (String × p.Value))
        → IsUnset (value_of fields user_cache_secret_field)
        → (get resolved source).0 ≡ some secret
        → value_of after user_cache_secret_field ≡ some (p.string secret)
        → ((key : String)
            → str_eq user_cache_secret_field key ≡ false
            → value_of after key ≡ value_of fields key)
        → IsProvisioned (some after, (get resolved source).1)

  is_set-parts :
      (found : Option p.Value)
      → is_set p found ≡ true
      → (existing : p.Value) × (found ≡ some existing) × (p.is_blank existing ≡ false)
  unfolding is_set
  is_set-parts none h = cc
  is_set-parts (some existing) h = elim (Bool-cases (p.is_blank existing)) [
    | inl blank ↦ absurd (ground (arith, blank))
    | inr full ↦ (existing, refl, full)
  ]

  is_set-IsUnset : (found : Option p.Value) → is_set p found ≡ false → IsUnset found
  unfolding is_set
  is_set-IsUnset none h = inl refl
  is_set-IsUnset (some existing) h = elim (Bool-cases (p.is_blank existing)) [
    | inl blank ↦ inr (existing, refl, blank)
    | inr full ↦ absurd (ground (arith, full))
  ]

  set_secret-IsProvisioned :
      IsUnset (value_of fields user_cache_secret_field)
      → (secret : Option String) → (get resolved source).0 ≡ secret
      → IsProvisioned (some (set_secret p fields secret), (get resolved source).1)
  unfolding set_secret
  set_secret-IsProvisioned unset none e = has_none unset e
  set_secret-IsProvisioned unset (some secret) e =
      sets secret (insert user_cache_secret_field (p.string secret) fields) unset e
        (value_of-insert user_cache_secret_field (p.string secret) fields)
        (λ key differs.
          value_of-insert_other user_cache_secret_field key (p.string secret) fields differs)

  -- A field that the caller has set, to anything but the empty text, is kept, and then the source is
  -- left unresolved; otherwise the field becomes the secret of the source, if it has one, and all
  -- other fields keep their values.
  pub provision_value-IsProvisioned :
      IsProvisioned (provision_value p resolved (some fields) source)
  unfolding provision_value
  provision_value-IsProvisioned =
      elim (Bool-cases (is_set p (value_of fields user_cache_secret_field))) [
        | inl set ↦
            let (existing, found, full) =
              is_set-parts (value_of fields user_cache_secret_field) set in
            rw set (keeps existing found full)
        | inr unset ↦
            rw unset
              (set_secret-IsProvisioned (is_set-IsUnset _ unset) (get resolved source).0 refl)
      ]
