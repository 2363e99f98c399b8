-- ===== src/CacheSecret/Inject.antt =====
-- Adding the secret to a request's body, which keeps every byte of the caller's
-- (`provision_request` and `inject_user_cache_secret` of src/user_cache_secret.rs). A request and the
-- JSON package are parameters.
pub mod Place
pub mod Kept
pub mod Values
use Prim.Native.String.{String}
use text.Mathlib.Text.{◌==◌ as str_eq}
use tinfoil_rs.Prelude.{
  ℕ, ◌+◌, Bool, true, false, not, ◌||◌, List, [], ◌∷◌, ◌++◌, Option, none, some, if◌then◌else◌,
  length, get_elem?, take, drop,
}
use tinfoil_rs.Text.{as_bytes}
use tinfoil_rs.CacheSecret.Json.{
  Range, Scan, done, out_of_fuel, is_json_whitespace, is_byte, top_level_value_range,
}
use tinfoil_rs.Attestation.Bytes.{bytes_eq}

abbrev pub user_cache_secret_field : String
user_cache_secret_field = "user_cache_secret"

abbrev pub user_cache_secret_paths : List String
user_cache_secret_paths = "/chat/completions" ∷ "/completions" ∷ "/responses" ∷ []

-- `parse_object` is the map of an object's fields to the bytes of their values, each name once, if
-- only whitespace follows the object; `to_json` is the JSON of a text.
pub record JsonPackage : Type 0 where
  pub parse_object : List ℕ → Option (List (String × List ℕ))
  pub parse_key : List ℕ → Option String
  pub to_json : String → Option (List ℕ)

unfoldable pub value_of : {A : Type 0} → List (String × A) → String → Option A
value_of [] name = none
value_of ((other, value) ∷ fields) name =
    if str_eq other name then some value else value_of fields name

-- `rposition` of a byte that is no whitespace.
unfoldable pub last_from : List ℕ → ℕ → Option ℕ
unfolding is_json_whitespace
last_from [] index = none
last_from (b ∷ bytes) index = elim (last_from bytes (index + 1)) [
  | some later ↦ some later
  | none ↦ if is_json_whitespace b then none else some index
]

unfoldable pub found_range : Scan → Option Range
found_range (done found) = found
found_range out_of_fuel = none

-- The range's bytes are replaced by the value.
unfoldable pub replace : List ℕ → Option Range → Option (List ℕ) → Option (List ℕ)
replace raw none value = none
replace raw (some range) none = none
replace raw (some (start, end)) (some value) = some (take start raw ++ (value ++ drop end raw))

-- A comma, unless the object is empty.
unfoldable pub separator : List (String × List ℕ) → List ℕ
separator [] = []
separator (field ∷ fields) = b',' ∷ []

unfoldable pub new_field : List (String × List ℕ) → List ℕ → List ℕ
unfolding separator
new_field fields value =
    separator fields ++ (0x22 ∷ (as_bytes user_cache_secret_field ++ (0x22 ∷ b':' ∷ value)))

-- Before the byte at the index, if it is the closing brace.
unfoldable pub insert_at :
    List ℕ → List (String × List ℕ) → Option ℕ → Option (List ℕ) → Option (List ℕ)
unfolding new_field is_byte
insert_at raw fields none value = none
insert_at raw fields (some close) none = none
insert_at raw fields (some close) (some value) =
    if is_byte (get_elem? raw close) b'}'
    then some (take close raw ++ (new_field fields value ++ drop close raw))
    else none

-- What the code reads and writes of a request; `bytes` is the body, if it is not a stream.
pub record CacheRequest : Type 0 where
  pub is_post : Bool
  pub path : String
  pub bytes : Option (List ℕ)
  pub content_length : Option ℕ

abbrev pub is_nil : List ℕ → Bool
is_nil [] = true
is_nil (b ∷ bytes) = false

-- An explicit Content-Length is kept in step.
unfoldable pub with_length : Option ℕ → ℕ → Option ℕ
with_length none n = none
with_length (some old) n = some n

unfoldable pub with_body : CacheRequest → Option (List ℕ) → CacheRequest
unfolding with_length
with_body request none = request
with_body request (some injected) = record request {
  bytes = some injected;
  content_length = with_length request.content_length (length injected);
}

module _ (p : JsonPackage) where
  open p use {parse_object, parse_key, to_json}

  -- By the value that the object has for the field.
  unfoldable pub inject_over :
      List ℕ → String → List (String × List ℕ) → Option (List ℕ) → Option (List ℕ)
  unfolding replace insert_at found_range last_from
  inject_over raw secret fields none = insert_at raw fields (last_from raw 0) (to_json secret)
  inject_over raw secret fields (some existing) =
      if bytes_eq existing (0x22 ∷ 0x22 ∷ [])
      then replace raw (found_range (top_level_value_range parse_key raw user_cache_secret_field))
          (to_json secret)
      else none

  unfoldable pub inject_user_cache_secret : List ℕ → String → Option (List ℕ)
  unfolding inject_over value_of
  inject_user_cache_secret raw secret = elim (parse_object raw) [
    | none ↦ none
    | some fields ↦ inject_over raw secret fields (value_of fields user_cache_secret_field)
  ]

  unfoldable pub provision_body : CacheRequest → Option (List ℕ) → String → CacheRequest
  unfolding with_body inject_user_cache_secret
  provision_body request none secret = request
  provision_body request (some raw) secret =
      if is_nil raw then request else with_body request (inject_user_cache_secret raw secret)

  -- `ends_with` is the standard library's.
  module _ (ends_with : String → String → Bool) where
    unfoldable pub is_eligible : List String → String → Bool
    is_eligible [] path = false
    is_eligible (suffix ∷ suffixes) path = ends_with path suffix || is_eligible suffixes path

    unfoldable pub provision_request : CacheRequest → String → CacheRequest
    unfolding is_eligible provision_body
    provision_request request secret =
        if not request.is_post
        then request
        else if not (is_eligible user_cache_secret_paths request.path)
        then request
        else provision_body request request.bytes secret
