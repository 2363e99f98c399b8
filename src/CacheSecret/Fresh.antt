-- ===== src/CacheSecret/Fresh.antt =====
-- A generated secret is read back as it was written (`new_user_cache_secret` and `read_secret_file` of
-- src/user_cache_secret.rs).
use Prim.Native.Char.{Char, code}
use Prim.Native.String.{String}
use tinfoil_rs.Prelude.{ℕ, ◌≡◌, ◌∙◌, ap, refl, Bool, true, false, some, leb, ◌&&◌, ◌||◌, arith}
use tinfoil_rs.Outcome.{ok}
use tinfoil_rs.Text.{is_empty, is_whitespace}
use tinfoil_rs.CacheSecret.{
  regular, trim, trim_start, trim_end, not_blank, put_back, read_secret_file,
}

abbrev pub is_hex_digit : ℕ → Bool
is_hex_digit c = (leb b'0' c && leb c b'9') || (leb b'a' c && leb c b'f')

abbrev pub AreHex : String → Type 0
AreHex String.[] = Unit
AreHex (String.◌∷◌ c s) = (is_hex_digit (code c) ≡ true) × AreHex s

-- What `hex::encode` makes of bytes, if there are any.
pub record IsHex (text : String) : Type 0 where
  pub full : is_empty text ≡ false
  pub digits : AreHex text

-- Reading back a file of the text gives it.
abbrev pub IsFresh : String → Type 0
IsFresh secret = read_secret_file (some (regular (some secret))) ≡ ok (some secret)

not_whitespace : (c : ℕ) → is_hex_digit c ≡ true → is_whitespace c ≡ false
unfolding is_whitespace
not_whitespace c h = ground arith

trim_start_hex : (text : String) → AreHex text → trim_start text ≡ text
unfolding trim_start
trim_start_hex String.[] h = refl
trim_start_hex (String.◌∷◌ c s) (digit, h) =
    let not_blank = not_whitespace (code c) digit in rw not_blank refl

put_back_hex :
    (c : Char) (text : String) → is_hex_digit (code c) ≡ true → put_back c text ≡ String.◌∷◌ c text
put_back_hex c String.[] digit = let not_blank = not_whitespace (code c) digit in rw not_blank refl
put_back_hex c (String.◌∷◌ d s) digit = refl

trim_end_hex : (text : String) → AreHex text → trim_end text ≡ text
unfolding trim_end
trim_end_hex String.[] h = refl
trim_end_hex (String.◌∷◌ c s) (digit, h) =
    ap (put_back c) (trim_end_hex s h) ∙ put_back_hex c s digit

pub hex-IsFresh : (text : String) → IsHex text → IsFresh text
unfolding read_secret_file
hex-IsFresh text hex =
    let same : trim text ≡ text =
      ap trim_end (trim_start_hex text hex.digits) ∙ trim_end_hex text hex.digits in
    ap (λ s. ok (not_blank s)) same ∙ rw (not_blank, hex.full) refl
