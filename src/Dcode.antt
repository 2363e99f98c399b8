-- ===== src/Dcode.antt =====
-- Values in the DNS names of a certificate (src/verifier/dcode.rs). Upper case and base32 are
-- parameters.
pub mod Order
pub mod Tests
use Prim.Native.Char.{code}
use Prim.Native.String.{String}
use text.Mathlib.Text.{◌==◌ as str_eq}
use tinfoil_rs.Prelude.{
  ℕ, ◌+◌, ◌*◌, ◌-◌, Bool, false, ◌&&◌, ◌||◌, List, [], ◌∷◌, Option, none, some, ltb, leb, ◌==◌,
  if◌then◌else◌, length,
}
use tinfoil_rs.Outcome.{Outcome, ok, panic, ◌>>=◌}
use tinfoil_rs.Text.{as_bytes, utf8, is_empty, is_digit}

-- `split('.')`: the first label and the others.
unfoldable pub split_first : String → String × List String
split_first String.[] = (String.[], [])
split_first (String.◌∷◌ c s) =
    let rest = split_first s in
    if code c == b'.' then (String.[], rest.0 ∷ rest.1) else (String.◌∷◌ c rest.0, rest.1)

abbrev pub Chunk : Type 0
Chunk = ℕ × String

-- `split_at(2)`, where the first two bytes are one character or two; it panics where byte 2 is inside
-- a character or out of range.
unfoldable pub split_at_two : String → Outcome (Unit {0}) (String × String)
unfolding utf8
split_at_two String.[] = panic
split_at_two (String.◌∷◌ c String.[]) =
    if length (utf8 (code c)) == 2 then ok (String.◌∷◌ c String.[], String.[]) else panic
split_at_two (String.◌∷◌ c (String.◌∷◌ d s)) =
    if length (utf8 (code c)) == 2
    then ok (String.◌∷◌ c String.[], String.◌∷◌ d s)
    else if length (utf8 (code c)) == 1 && length (utf8 (code d)) == 1
    then ok (String.◌∷◌ c (String.◌∷◌ d String.[]), s)
    else panic

-- The number that two digits are; anything else has a byte that is no digit.
unfoldable pub parse_index : String → Option ℕ
parse_index (String.◌∷◌ c (String.◌∷◌ d String.[])) =
    if is_digit (code c) && is_digit (code d)
    then some (10 * (code c - b'0') + (code d - b'0'))
    else none
parse_index other = none

-- `sort_by_key` of the index, which is stable.
unfoldable pub insert_chunk : Chunk → List Chunk → List Chunk
insert_chunk chunk [] = chunk ∷ []
insert_chunk chunk (other ∷ chunks) =
    let rest = insert_chunk chunk chunks in
    if leb chunk.0 other.0 then chunk ∷ other ∷ chunks else other ∷ rest

unfoldable pub sort_by_key : List Chunk → List Chunk
unfolding insert_chunk
sort_by_key [] = []
sort_by_key (chunk ∷ chunks) = insert_chunk chunk (sort_by_key chunks)

-- Two neighbours have the same index.
unfoldable pub has_duplicate : List Chunk → Bool
has_duplicate [] = false
has_duplicate (chunk ∷ []) = false
has_duplicate (chunk ∷ (other ∷ chunks)) = chunk.0 == other.0 || has_duplicate (other ∷ chunks)

abbrev pub append : String → String → String
append String.[] t = t
append (String.◌∷◌ c s) t = String.◌∷◌ c (append s t)

unfoldable pub combined : List Chunk → String
combined [] = String.[]
combined (chunk ∷ chunks) = append chunk.1 (combined chunks)

module _ (to_uppercase : String → String) where
  -- An index and a chunk that is not empty.
  unfoldable pub chunk_of : Option ℕ → String → Option Chunk
  chunk_of none chunk = none
  chunk_of (some index) chunk = if is_empty chunk then none else some (index, to_uppercase chunk)

  unfoldable pub first_label_chunk : String → Outcome (Unit {0}) (Option Chunk)
  unfolding split_at_two parse_index chunk_of as_bytes
  first_label_chunk first_label =
      if ltb (length (as_bytes first_label)) 3
      then ok none
      else split_at_two first_label >>= λ (index_str, chunk).
          ok (chunk_of (parse_index index_str) chunk)

  unfoldable pub san_chunk : String → String × List String → Outcome (Unit {0}) (Option Chunk)
  unfolding first_label_chunk
  san_chunk prefix (first_label, []) = ok none
  san_chunk prefix (first_label, second_label ∷ labels) =
      if str_eq second_label prefix then first_label_chunk first_label else ok none

  abbrev pub push : Option Chunk → List Chunk → List Chunk
  push none chunks = chunks
  push (some chunk) chunks = chunk ∷ chunks

  unfoldable pub collect : String → List String → Outcome (Unit {0}) (List Chunk)
  unfolding san_chunk split_first
  collect prefix [] = ok []
  collect prefix (san ∷ sans) = do
    found ← san_chunk prefix (split_first san)
    chunks ← collect prefix sans
    ok (push found chunks)

module _ (decode : List ℕ → Option (List ℕ)) where
  -- `decode` is that of base32 without padding, after the loop over the names.
  unfoldable pub decode_chunks : List Chunk → Option (List ℕ)
  unfolding sort_by_key has_duplicate combined as_bytes
  decode_chunks [] = none
  decode_chunks (chunk ∷ chunks) =
      if has_duplicate (sort_by_key (chunk ∷ chunks))
      then none
      else decode (as_bytes (combined (sort_by_key (chunk ∷ chunks))))

module _ (to_uppercase : String → String) (decode : List ℕ → Option (List ℕ)) where
  unfoldable pub decode_from_sans : List String → String → Outcome (Unit {0}) (Option (List ℕ))
  unfolding collect decode_chunks
  decode_from_sans sans prefix = do
    chunks ← collect to_uppercase prefix sans
    ok (decode_chunks decode chunks)
