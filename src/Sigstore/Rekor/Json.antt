-- ===== src/Sigstore/Rekor/Json.antt =====
-- Values in the JSON of a log entry (src/verifier/sigstore/rekor.rs).
use Prim.Native.String.{String}
use text.Mathlib.Text.{◌==◌ as str_eq}
use tinfoil_rs.Prelude.{
  ℕ, Bool, true, false, ◌||◌, List, [], ◌∷◌, Option, none, some, ◌==◌, if◌then◌else◌, get_elem?,
}
use tinfoil_rs.Outcome.{Outcome, ◌>>=◌, ok_or}
use tinfoil_rs.Text.{codes, parse_u64}
use tinfoil_rs.Errors.{Error}
use tinfoil_rs.Merkle.Hasher.{Hasher}
use tinfoil_rs.Sigstore.Dsse.{BundlePackage, failure, and_then}
use tinfoil_rs.Sigstore.Checkpoint.{LogPackage}

-- `as_u64` reads a number, `from_slice` a text of JSON; `hex` is the codes of its text. A hash of 32
-- bytes is an output of the hasher.
pub record RekorPackage : Type 1 where
  pub bundles : BundlePackage
  pub logs : LogPackage bundles.crypto
  pub as_u64 : bundles.Value → Option ℕ
  pub from_slice : List ℕ → Option bundles.Value
  pub from_utf8 : List ℕ → Option String
  pub parse_pem : String → Option (List ℕ)
  pub sha256 : List ℕ → List ℕ
  pub hex : List ℕ → List ℕ
  pub Output : Type 0
  pub hasher : Hasher Output
  pub to_output : List ℕ → Option Output

-- The index that a text is: digits without a plus, or a zero before others.
unfoldable pub parse_index : List ℕ → Option ℕ
unfolding parse_u64
parse_index [] = none
parse_index (c ∷ []) = if c == b'+' then none else parse_u64 (c ∷ [])
parse_index (c ∷ (d ∷ s)) = if c == b'+' || c == b'0' then none else parse_u64 (c ∷ (d ∷ s))

abbrev pub or_default : Option String → String → String
or_default none text = text
or_default (some stated) text = stated

-- The equality of two optional texts.
unfoldable pub same_text : Option String → Option String → Bool
same_text none none = true
same_text none (some b) = false
same_text (some a) none = false
same_text (some a) (some b) = str_eq a b

module _ (p : BundlePackage) where
  open p use {Value, get, as_str, as_array, decode_b64}

  -- One name of a pointer, in an object or in an array.
  unfoldable pub pointer_step : String → Value → Option Value
  unfolding parse_index
  pointer_step name value = elim (get name value) [
    | some found ↦ some found
    | none ↦
        and_then (as_array value) (λ values. and_then (parse_index (codes name)) (get_elem? values))
  ]

  -- `pointer`, by the names between its slashes.
  unfoldable pub pointer : List String → Value → Option Value
  unfolding pointer_step
  pointer [] value = some value
  pointer (name ∷ names) value = and_then (pointer_step name value) (pointer names)

  -- `get` of one name after another.
  unfoldable pub get_path : List String → Value → Option Value
  get_path [] value = some value
  get_path (name ∷ names) value = and_then (get name value) (get_path names)

  abbrev pub text_at : List String → Value → Option String
  text_at names value = and_then (get_path names value) as_str

  abbrev pub first_of : Value → Option Value
  first_of value = and_then (as_array value) (λ values. get_elem? values 0)

  -- The bytes of a text of base64.
  unfoldable pub bytes_of : Option String → String → String → Outcome Error (List ℕ)
  bytes_of text missing malformed = do
    b64 ← ok_or text (failure missing)
    ok_or (decode_b64 b64) (failure malformed)

  abbrev pub entry_kind : Value → Option String
  entry_kind entry = text_at ("kindVersion" ∷ "kind" ∷ []) entry

  abbrev pub entry_version : Value → Option String
  entry_version entry = text_at ("kindVersion" ∷ "version" ∷ []) entry

-- A number, or the text of one.
unfoldable pub number_of : (p : RekorPackage) → p.bundles.Value → Option ℕ
unfolding parse_u64
number_of p value = elim (and_then (p.bundles.as_str value) (λ s. parse_u64 (codes s))) [
  | some n ↦ some n
  | none ↦ p.as_u64 value
]
