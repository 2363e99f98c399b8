-- ===== src/CacheSecret/Json.antt =====
-- Finding the value of a field at the top level of a JSON object, by its bytes
-- (`top_level_value_range` of src/user_cache_secret.rs and what it calls).
pub mod Entry
pub mod Bounds
pub mod Rounds
pub mod Loop
use Prim.Native.String.{String}
use text.Mathlib.Text.{◌==◌ as str_eq}
use tinfoil_rs.Prelude.{
  ℕ, zero, suc, ◌+◌, ◌-◌, Bool, true, false, ◌||◌, List, [], ◌∷◌, Option, none, some, ltb, ◌==◌,
  if◌then◌else◌, length, get_elem?, take, drop,
}
use tinfoil_rs.Outcome.{Outcome, ok, err, panic, ◌>>=◌, ◌>>◌, ensure, ok_or}

unfoldable pub is_json_whitespace : ℕ → Bool
is_json_whitespace b = b == b' ' || (b == 9 || (b == 10 || b == 13))

-- A loop over the bytes from an index on, with the index.
unfoldable pub skip_from : List ℕ → ℕ → ℕ
unfolding is_json_whitespace
skip_from [] index = index
skip_from (b ∷ bytes) index =
    let rest = skip_from bytes (index + 1) in if is_json_whitespace b then rest else index

unfoldable pub skip_json_whitespace : List ℕ → ℕ → ℕ
unfolding skip_from
skip_json_whitespace raw index = skip_from (drop index raw) index

-- `raw.get(index) == Some(&b)`.
unfoldable pub is_byte : Option ℕ → ℕ → Bool
is_byte none b = false
is_byte (some c) b = c == b

-- Inside a string: what follows a backslash is passed over.
unfoldable pub string_end_from : List ℕ → ℕ → Bool → Option ℕ
string_end_from [] index escaped = none
string_end_from (b ∷ bytes) index true = string_end_from bytes (index + 1) false
string_end_from (b ∷ bytes) index false =
    let after_escape = string_end_from bytes (index + 1) true in
    let rest = string_end_from bytes (index + 1) false in
    if b == 0x5C then after_escape else if b == 0x22 then some (index + 1) else rest

unfoldable pub json_string_end : List ℕ → ℕ → Option ℕ
unfolding is_byte string_end_from
json_string_end raw start =
    if is_byte (get_elem? raw start) 0x22
    then string_end_from (drop (start + 1) raw) (start + 1) false
    else none

-- The three variables of the loop over an object or an array.
pub record Nesting : Type 0 where
  pub depth : ℕ
  pub in_string : Bool
  pub escaped : Bool

-- A byte inside a string, and one outside; a closing bracket may end the value, with `none` as the
-- new state, and one too many is refused.
pub data Turn : Type 0 where
  inside : Nesting → Turn
  ends : Turn
  refused : Turn

unfoldable pub in_string_byte : ℕ → Nesting → Turn
in_string_byte b n =
    if n.escaped
    then inside (record n { escaped = false })
    else if b == 0x5C
    then inside (record n { escaped = true })
    else if b == 0x22
    then inside (record n { in_string = false })
    else inside n

-- `depth.checked_sub(1)?`, and the test for 0.
unfoldable pub close : ℕ → Nesting → Turn
close zero n = refused
close (suc zero) n = ends
close (suc (suc depth)) n = inside (record n { depth = suc depth })

unfoldable pub nested_byte : ℕ → Nesting → Turn
unfolding in_string_byte close
nested_byte b n =
    if n.in_string
    then in_string_byte b n
    else if b == 0x22
    then inside (record n { in_string = true })
    else if b == b'{' || b == b'['
    then inside (record n { depth = n.depth + 1 })
    else if b == b'}' || b == b']'
    then close n.depth n
    else inside n

unfoldable pub nested_end_from : List ℕ → ℕ → Nesting → Option ℕ
unfolding nested_byte
nested_end_from [] index n = none
nested_end_from (b ∷ bytes) index n = elim (nested_byte b n) [
  | inside n' ↦ nested_end_from bytes (index + 1) n'
  | ends ↦ some (index + 1)
  | refused ↦ none
]

-- The bytes of a number or a word, up to a comma or a brace.
unfoldable pub scalar_length : List ℕ → ℕ
scalar_length [] = 0
scalar_length (b ∷ bytes) =
    let rest = scalar_length bytes in if b == b',' || b == b'}' then 0 else rest + 1

-- Of `n` bytes from the start on, those without the whitespace at the end.
unfoldable pub trimmed_length : List ℕ → ℕ → ℕ → ℕ
unfolding is_json_whitespace
trimmed_length raw start zero = zero
trimmed_length raw start (suc n) =
    let rest = trimmed_length raw start n in
    elim (get_elem? raw (start + n)) [
      | none ↦ suc n
      | some b ↦ if is_json_whitespace b then rest else suc n
    ]

unfoldable pub scalar_end : ℕ → ℕ → Option ℕ
scalar_end start zero = none
scalar_end start (suc n) = some (start + suc n)

-- The value that begins with this byte.
unfoldable pub value_end : List ℕ → ℕ → ℕ → Option ℕ
unfolding json_string_end nested_end_from scalar_length trimmed_length scalar_end
value_end raw start b =
    if b == 0x22
    then json_string_end raw start
    else if b == b'{' || b == b'['
    then nested_end_from (drop start raw) start
        (record { depth = 0; in_string = false; escaped = false })
    else scalar_end start (trimmed_length raw start (scalar_length (drop start raw)))

unfoldable pub json_value_end : List ℕ → ℕ → Option ℕ
unfolding value_end
json_value_end raw start = elim (get_elem? raw start) [
  | none ↦ none
  | some b ↦ value_end raw start b
]

abbrev pub Range : Type 0
Range = ℕ × ℕ

-- The loop goes on from an index, or stops; `err` is `return None`.
pub data Next : Type 0 where
  go_on : ℕ → Option Range → Next
  stop : Option Range → Next

-- A second value of the field is refused.
unfoldable pub take_value : Bool → Option Range → Range → Outcome (Unit {0}) (Option Range)
take_value false found range = ok found
take_value true none range = ok (some range)
take_value true (some first) range = err tt

unfoldable pub next_of : Option ℕ → ℕ → Option Range → Outcome (Unit {0}) Next
next_of none index found = err tt
next_of (some b) index found =
    if b == b','
    then ok (go_on (index + 1) found)
    else if b == b'}'
    then ok (stop found)
    else err tt

-- What running the loop yields; the fuel bounds the entries of the object.
pub data Scan : Type 0 where
  done : Option Range → Scan
  out_of_fuel : Scan

-- `parse_key` is what `serde_json` reads a string as.
module _ (parse_key : List ℕ → Option String) (raw : List ℕ) (field : String) where
  -- One field and its value, from the index of the key on.
  unfoldable pub entry : ℕ → Option Range → Outcome (Unit {0}) Next
  unfolding skip_json_whitespace json_string_end json_value_end is_byte take_value next_of
  entry index found = do
    key_end ← ok_or (json_string_end raw index) tt
    key ← ok_or (parse_key (take (key_end - index) (drop index raw))) tt
    ensure (is_byte (get_elem? raw (skip_json_whitespace raw key_end)) b':') tt
    end ←
        ok_or (json_value_end raw (skip_json_whitespace raw (skip_json_whitespace raw key_end + 1)))
          tt
    found' ←
        take_value (str_eq key field) found
          (skip_json_whitespace raw (skip_json_whitespace raw key_end + 1), end)
    next_of (get_elem? raw (skip_json_whitespace raw end)) (skip_json_whitespace raw end) found'

  -- The body of the loop.
  unfoldable pub round : ℕ → Option Range → Outcome (Unit {0}) Next
  unfolding skip_json_whitespace is_byte entry
  round index found =
      if is_byte (get_elem? raw (skip_json_whitespace raw index)) b'}'
      then ok (stop found)
      else entry (skip_json_whitespace raw index) found

  unfoldable pub fields_loop : ℕ → ℕ → Option Range → Scan
  unfolding round
  fields_loop zero index found = out_of_fuel
  fields_loop (suc fuel) index found =
      if ltb index (length raw)
      then elim (round index found) [
        | ok (go_on index' found') ↦ fields_loop fuel index' found'
        | ok (stop found') ↦ done found'
        | err _ ↦ done none
        | panic ↦ done none
      ]
      else done none

  unfoldable pub top_level_value_range : Scan
  unfolding skip_json_whitespace is_byte fields_loop
  top_level_value_range =
      if is_byte (get_elem? raw (skip_json_whitespace raw 0)) b'{'
      then fields_loop (length raw + 1) (skip_json_whitespace raw 0 + 1) none
      else done none
