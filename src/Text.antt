-- ===== src/Text.antt =====
-- Operations of the standard library on texts that the code uses.
use Prim.Native.Char.{code}
use Prim.Native.Char.{Char}
use Prim.Native.String.{String}
use tinfoil_rs.Prelude.{
  ℕ, ◌+◌, ◌-◌, ◌*◌, ◌/◌, ◌%◌, ◌^◌, Bool, true, false, ◌&&◌, ◌||◌, List, [], ◌∷◌, ◌++◌, Option, none,
  some, ltb, leb, ◌==◌, if◌then◌else◌,
}

abbrev pub is_empty : String → Bool
is_empty String.[] = true
is_empty (String.◌∷◌ c s) = false

abbrev pub is_some {ℓ} : {A : Type ℓ} → Option A → Bool
is_some none = false
is_some (some a) = true

-- `trim_start_matches` of one character, by its code.
unfoldable pub trim_start_matches : ℕ → String → String
trim_start_matches c String.[] = String.[]
trim_start_matches c (String.◌∷◌ d s) =
    if code d == c then trim_start_matches c s else String.◌∷◌ d s

-- `trim_end_matches` of one character.
abbrev pub put_back : ℕ → Char → String → String
put_back c d String.[] = if code d == c then String.[] else String.◌∷◌ d String.[]
put_back c d (String.◌∷◌ e s) = String.◌∷◌ d (String.◌∷◌ e s)

unfoldable pub trim_end_matches : ℕ → String → String
trim_end_matches c String.[] = String.[]
trim_end_matches c (String.◌∷◌ d s) = put_back c d (trim_end_matches c s)

abbrev pub to_ascii_lowercase : ℕ → ℕ
to_ascii_lowercase c = if leb 65 c && leb c 90 then c + 32 else c

unfoldable pub eq_ignore_ascii_case : String → String → Bool
eq_ignore_ascii_case String.[] String.[] = true
eq_ignore_ascii_case String.[] (String.◌∷◌ d t) = false
eq_ignore_ascii_case (String.◌∷◌ c s) String.[] = false
eq_ignore_ascii_case (String.◌∷◌ c s) (String.◌∷◌ d t) =
    to_ascii_lowercase (code c) == to_ascii_lowercase (code d) && eq_ignore_ascii_case s t

-- The UTF-8 bytes of a character, by its code, and of a text.
unfoldable pub utf8 : ℕ → List ℕ
utf8 c =
    if ltb c 0x80
    then c ∷ []
    else if ltb c 0x800
    then (0xC0 + c / 0x40) ∷ (0x80 + c % 0x40) ∷ []
    else if ltb c 0x10000
    then (0xE0 + c / 0x1000) ∷ (0x80 + c / 0x40 % 0x40) ∷ (0x80 + c % 0x40) ∷ []
    else (0xF0 + c / 0x40000)
      ∷ (0x80 + c / 0x1000 % 0x40)
      ∷ (0x80 + c / 0x40 % 0x40)
      ∷ (0x80 + c % 0x40)
      ∷ []

unfoldable pub as_bytes : String → List ℕ
unfolding utf8
as_bytes String.[] = []
as_bytes (String.◌∷◌ c s) = utf8 (code c) ++ as_bytes s

-- `strip_prefix`.
unfoldable pub strip_prefix : String → String → Option String
strip_prefix String.[] text = some text
strip_prefix (String.◌∷◌ c prefix) String.[] = none
strip_prefix (String.◌∷◌ c prefix) (String.◌∷◌ d text) =
    if code c == code d then strip_prefix prefix text else none

-- `char::is_whitespace`.
unfoldable pub is_whitespace : ℕ → Bool
is_whitespace c =
    (leb 9 c && leb c 13)
    || (c == 32
        || (c == 0x85
            || (c == 0xA0
                || (c == 0x1680
                    || ((leb 0x2000 c && leb c 0x200A)
                        || (c == 0x2028
                            || (c == 0x2029 || (c == 0x202F || (c == 0x205F || c == 0x3000)))))))))

-- Texts as the codes of their characters.
abbrev pub codes : String → List ℕ
codes String.[] = []
codes (String.◌∷◌ c s) = code c ∷ codes s

-- `split` at a character: the first part and the others.
unfoldable pub split : ℕ → List ℕ → List ℕ × List (List ℕ)
split c [] = ([], [])
split c (d ∷ s) =
    let rest = split c s in if d == c then ([], rest.0 ∷ rest.1) else (d ∷ rest.0, rest.1)

-- `split_once` at two characters.
abbrev pub prepend : ℕ → Option (List ℕ × List ℕ) → Option (List ℕ × List ℕ)
prepend c none = none
prepend c (some (before, after)) = some (c ∷ before, after)

unfoldable pub split_once : ℕ → ℕ → List ℕ → Option (List ℕ × List ℕ)
split_once a b [] = none
split_once a b (c ∷ []) = none
split_once a b (c ∷ (d ∷ s)) =
    let rest = split_once a b (d ∷ s) in if c == a && d == b then some ([], s) else prepend c rest

-- `trim_start` and `trim_end` of the characters with a property.
unfoldable pub drop_start : (ℕ → Bool) → List ℕ → List ℕ
drop_start p [] = []
drop_start p (c ∷ s) = let rest = drop_start p s in if p c then rest else c ∷ s

abbrev pub keep : (ℕ → Bool) → ℕ → List ℕ → List ℕ
keep p c [] = if p c then [] else c ∷ []
keep p c (d ∷ s) = c ∷ d ∷ s

unfoldable pub drop_end : (ℕ → Bool) → List ℕ → List ℕ
drop_end p [] = []
drop_end p (c ∷ s) = keep p c (drop_end p s)

abbrev pub is_nil {ℓ} : {A : Type ℓ} → List A → Bool
is_nil [] = true
is_nil (a ∷ as_) = false

-- `trim().is_empty()`.
unfoldable pub is_blank : List ℕ → Bool
unfolding is_whitespace drop_start drop_end
is_blank s = is_nil (drop_end is_whitespace (drop_start is_whitespace s))

-- The UTF-8 bytes of such a text.
unfoldable pub encode_utf8 : List ℕ → List ℕ
unfolding utf8
encode_utf8 [] = []
encode_utf8 (c ∷ s) = utf8 c ++ encode_utf8 s

abbrev pub is_digit : ℕ → Bool
is_digit c = leb b'0' c && leb c b'9'

-- The number that digits are.
unfoldable pub decimal : ℕ → List ℕ → Option ℕ
decimal acc [] = some acc
decimal acc (c ∷ s) =
    let rest = decimal (acc * 10 + (c - b'0')) s in if is_digit c then rest else none

abbrev pub if_below : ℕ → Option ℕ → Option ℕ
if_below bound none = none
if_below bound (some n) = if ltb n bound then some n else none

abbrev pub without_plus : List ℕ → List ℕ
without_plus [] = []
without_plus (c ∷ s) = if c == b'+' then s else c ∷ s

-- `parse::<u64>`: digits, after at most one plus, of a number below 2 ^ 64.
unfoldable pub parse_digits : List ℕ → Option ℕ
unfolding decimal
parse_digits [] = none
parse_digits (c ∷ s) = if_below (2 ^ 64) (decimal 0 (c ∷ s))

unfoldable pub parse_u64 : List ℕ → Option ℕ
unfolding parse_digits
parse_u64 s = parse_digits (without_plus s)
