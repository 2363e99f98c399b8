-- ===== src/Dcode/Tests.antt =====
-- Names with two chunks, and with stray entries.
use Prim.Native.String.{String}
use tinfoil_rs.Prelude.{ℕ, ◌≡◌, refl, List, [], ◌∷◌, Option, none, some}
use tinfoil_rs.Outcome.{ok, panic}
use tinfoil_rs.Text.{as_bytes}
use tinfoil_rs.Dcode.{decode_from_sans}
use tinfoil_rs.Dcode.Order.{IsDecoded, decode_from_sans-IsDecoded}

abbrev upper : String → String
upper text = text

-- Every text decodes to its bytes.
abbrev plain : List ℕ → Option (List ℕ)
plain bytes = some bytes

abbrev names : List String
names = "01CD.hpke.example" ∷ "x.hpke.example" ∷ "00AB.hpke.example" ∷ "00EF.hatt.example" ∷ []

decodes_names : decode_from_sans upper plain names "hpke" ≡ ok (some (as_bytes "ABCD"))
unfolding decode_from_sans as_bytes
decodes_names = refl

decode_from_sans-IsDecoded_example : IsDecoded upper plain names "hpke" (as_bytes "ABCD")
decode_from_sans-IsDecoded_example =
    decode_from_sans-IsDecoded upper plain names "hpke" (as_bytes "ABCD") decodes_names

rejects_duplicates : decode_from_sans upper plain ("00A.hpke" ∷ "00B.hpke" ∷ []) "hpke" ≡ ok none
unfolding decode_from_sans
rejects_duplicates = refl

finds_nothing : decode_from_sans upper plain ("www.example.com" ∷ "com" ∷ []) "hpke" ≡ ok none
unfolding decode_from_sans
finds_nothing = refl

-- The third byte of this label is inside a character.
splits_a_character : decode_from_sans upper plain ("0é0.hpke" ∷ []) "hpke" ≡ panic
unfolding decode_from_sans
splits_a_character = refl
