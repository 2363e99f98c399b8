-- ===== src/CacheSecret/Json/Bounds.antt =====
-- The ends of whitespace, strings and values lie in the bytes (src/user_cache_secret.rs).
use tinfoil_rs.Prelude.{
  ℕ, zero, suc, ◌+◌, ◌≤◌, ◌<◌, ◌≡◌, ◌⊎◌, inl, inr, refl, Bool, true, false, List, [], ◌∷◌, some,
  arith, length, get_elem?, drop, length-drop, Option-cases,
}
use tinfoil_rs.CacheSecret.Json.{
  skip_from, skip_json_whitespace, is_byte, string_end_from, json_string_end, Turn, Nesting, inside,
  ends, refused, nested_byte, nested_end_from, scalar_length, trimmed_length, scalar_end, value_end,
  json_value_end,
}

skip_from_bounds :
    (bytes : List ℕ) (index : ℕ)
    → (index ≤ skip_from bytes index) × (skip_from bytes index ≤ index + length bytes)
unfolding skip_from
skip_from_bounds [] index = ground arith
skip_from_bounds (b ∷ bytes) index = ground (arith, skip_from_bounds bytes (index + 1))

pub skip_bounds :
    (raw : List ℕ) (index : ℕ)
    → index ≤ length raw
    → (index ≤ skip_json_whitespace raw index) × (skip_json_whitespace raw index ≤ length raw)
unfolding skip_json_whitespace
skip_bounds raw index h =
    omega (arith, skip_from_bounds (drop index raw) index, length-drop index raw)

string_end_from_bounds :
    (bytes : List ℕ) (index : ℕ) (escaped : Bool) (e : ℕ)
    → string_end_from bytes index escaped ≡ some e
    → (index < e) × (e ≤ index + length bytes)
unfolding string_end_from
string_end_from_bounds [] index escaped e h = cc
string_end_from_bounds (b ∷ bytes) index true e h =
    ground (arith, string_end_from_bounds bytes (index + 1) false e)
string_end_from_bounds (b ∷ bytes) index false e h = ground (
  arith,
  string_end_from_bounds bytes (index + 1) true e,
  string_end_from_bounds bytes (index + 1) false e,
)

pub is_byte_in_range :
    (raw : List ℕ) (index b : ℕ) → is_byte (get_elem? raw index) b ≡ true → index < length raw
unfolding is_byte
is_byte_in_range [] index b h = cc
is_byte_in_range (c ∷ raw) zero b h = omega arith
is_byte_in_range (c ∷ raw) (suc index) b h = omega (arith, is_byte_in_range raw index b h)

pub string_end_bounds :
    (raw : List ℕ) (start e : ℕ)
    → json_string_end raw start ≡ some e
    → (start < e) × (e ≤ length raw)
unfolding json_string_end
string_end_bounds raw start e h = ground (
  arith,
  string_end_from_bounds (drop (start + 1) raw) (start + 1) false e,
  is_byte_in_range raw start 0x22,
  length-drop (start + 1) raw,
)

Turn-cases : (t : Turn) → ((n : Nesting) × (t ≡ inside n)) ⊎ ((t ≡ ends) ⊎ (t ≡ refused))
Turn-cases (inside n) = inl (n, refl)
Turn-cases ends = inr (inl refl)
Turn-cases refused = inr (inr refl)

nested_end_from_bounds :
    (bytes : List ℕ) (index : ℕ) (n : Nesting) (e : ℕ)
    → nested_end_from bytes index n ≡ some e
    → (index < e) × (e ≤ index + length bytes)
unfolding nested_end_from
nested_end_from_bounds [] index n e h = cc
nested_end_from_bounds (b ∷ bytes) index n e h = elim (Turn-cases (nested_byte b n)) [
  | inl (n', turns) ↦ ground (arith, turns, nested_end_from_bounds bytes (index + 1) n' e)
  | inr (inl closes) ↦ ground (arith, closes)
  | inr (inr fails) ↦ ground (arith, fails)
]

scalar_length_bounds : (bytes : List ℕ) → scalar_length bytes ≤ length bytes
unfolding scalar_length
scalar_length_bounds [] = omega arith
scalar_length_bounds (b ∷ bytes) = ground (arith, scalar_length_bounds bytes)

trimmed_length_bounds : (raw : List ℕ) (start n : ℕ) → trimmed_length raw start n ≤ n
unfolding trimmed_length
trimmed_length_bounds raw start zero = omega arith
trimmed_length_bounds raw start (suc n) = ground (arith, trimmed_length_bounds raw start n)

scalar_end_bounds : (start n e : ℕ) → scalar_end start n ≡ some e → (start < e) × (e ≤ start + n)
unfolding scalar_end
scalar_end_bounds start zero e h = cc
scalar_end_bounds start (suc n) e h = ground arith

value_end_bounds :
    (raw : List ℕ) (start b e : ℕ)
    → start < length raw
    → value_end raw start b ≡ some e
    → (start < e) × (e ≤ length raw)
unfolding value_end
value_end_bounds raw start b e low h = ground (
  arith,
  string_end_bounds raw start e,
  nested_end_from_bounds (drop start raw) start
      (record { depth = 0; in_string = false; escaped = false }) e,
  scalar_end_bounds start (trimmed_length raw start (scalar_length (drop start raw))) e,
  trimmed_length_bounds raw start (scalar_length (drop start raw)),
  scalar_length_bounds (drop start raw),
  length-drop start raw,
)

pub get_elem?_in_range :
    (raw : List ℕ) (index : ℕ) {b : ℕ} → get_elem? raw index ≡ some b → index < length raw
get_elem?_in_range [] index h = cc
get_elem?_in_range (c ∷ raw) zero h = omega arith
get_elem?_in_range (c ∷ raw) (suc index) h = omega (arith, get_elem?_in_range raw index h)

pub json_value_end_bounds :
    (raw : List ℕ) (start e : ℕ)
    → json_value_end raw start ≡ some e
    → (start < e) × (e ≤ length raw)
unfolding json_value_end
json_value_end_bounds raw start e h = elim (Option-cases (get_elem? raw start)) [
  | inl missing ↦ ground (arith, missing)
  | inr (b, first) ↦
      ground (arith, first, value_end_bounds raw start b e (get_elem?_in_range raw start first))
]
