-- ===== src/CacheSecret/Json/Entry.antt =====
-- The entries of an object's top level, by its bytes (src/user_cache_secret.rs).
use Prim.Native.String.{String}
use tinfoil_rs.Prelude.{ℕ, ◌+◌, ◌-◌, ◌≡◌, true, List, Option, some, get_elem?, take, drop}
use tinfoil_rs.CacheSecret.Json.{skip_json_whitespace, is_byte, json_string_end, json_value_end}

module _ (parse_key : List ℕ → Option String) (raw : List ℕ) where
  -- An entry that begins at an index: the text of its key, a colon, and its value, with whitespace
  -- around the colon.
  pub record IsEntry (index : ℕ) (key : String) (start end : ℕ) : Type 0 where
    pub key_end : ℕ
    pub has_key_end : json_string_end raw index ≡ some key_end
    pub is_key : parse_key (take (key_end - index) (drop index raw)) ≡ some key
    pub has_colon : is_byte (get_elem? raw (skip_json_whitespace raw key_end)) b':' ≡ true
    pub has_start : start ≡ skip_json_whitespace raw (skip_json_whitespace raw key_end + 1)
    pub has_end : json_value_end raw start ≡ some end

  -- The indices behind the object's opening brace, and behind the comma after an entry.
  pub data IsTopLevel : ℕ → Type 0 where
    behind_brace :
        is_byte (get_elem? raw (skip_json_whitespace raw 0)) b'{' ≡ true
        → IsTopLevel (skip_json_whitespace raw 0 + 1)
    behind_comma :
        {index start end : ℕ} {key : String}
        → IsTopLevel index
        → IsEntry (skip_json_whitespace raw index) key start end
        → is_byte (get_elem? raw (skip_json_whitespace raw end)) b',' ≡ true
        → IsTopLevel (skip_json_whitespace raw end + 1)

  -- The value of an entry of the object's top level with this key.
  abbrev pub IsValueOf : String → ℕ → ℕ → Type 0
  IsValueOf key start end =
      (index : ℕ) × IsTopLevel index × IsEntry (skip_json_whitespace raw index) key start end
