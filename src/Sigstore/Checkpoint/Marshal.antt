-- ===== src/Sigstore/Checkpoint/Marshal.antt =====
-- A note is read back from its text (`marshal` and `unmarshal` of
-- src/verifier/sigstore/checkpoint.rs).
use tinfoil_rs.Prelude.{
  ℕ, zero, suc, ◌+◌, ◌-◌, ◌*◌, ◌/◌, ◌%◌, ◌^◌, ◌<◌, ◌≡◌, ◌≢◌, ◌∙◌, ap, sym, refl, inl, inr, true,
  false, ◌&&◌, List, [], ◌∷◌, ◌++◌, none, some, arith, ltb, ◌==◌, length, Bool-cases,
}
use mathlib.Core.List.{append_assoc, append-nil}
use tinfoil_rs.Outcome.{ok}
use tinfoil_rs.Text.{split, split_once, prepend, is_blank, is_nil, decimal, is_digit, parse_u64}
use tinfoil_rs.Sigstore.Keyring.{KeyPackage}
use tinfoil_rs.Sigstore.Dsse.Pae.{digits, to_string}
use tinfoil_rs.Sigstore.Checkpoint.{
  LogPackage, OtherContent, key_value, value, Checkpoint, display, lines_of, content_of,
  contents_of, hash_of, marshal, unmarshal_lines, unmarshal,
}

-- The text does not have the character.
abbrev pub IsFree : ℕ → List ℕ → Type 0
IsFree c [] = Unit
IsFree c (d ∷ s) = (d ≢ c) × IsFree c s

-- Nor the two characters after one another.
abbrev pub HasNoPair : ℕ → ℕ → List ℕ → Type 0
HasNoPair a b [] = Unit
HasNoPair a b (c ∷ []) = Unit
HasNoPair a b (c ∷ (d ∷ s)) = ¬ ((c ≡ a) × (d ≡ b)) × HasNoPair a b (d ∷ s)

split_free :
    (c : ℕ) (s t : List ℕ)
    → IsFree c s
    → split c (s ++ (c ∷ t)) ≡ (s, (split c t).0 ∷ (split c t).1)
unfolding split
split_free c [] t free = let same : (c == c) ≡ true = ground arith in rw same refl
split_free c (d ∷ s) t (differs, free) =
    let other : (d == c) ≡ false = ground arith in rw (other, split_free c s t free) refl

split_once_after :
    (key text : List ℕ)
    → HasNoPair b':' 32 key
    → split_once b':' 32 (key ++ (b':' ∷ 32 ∷ text)) ≡ some (key, text)
unfolding split_once
split_once_after [] text free = refl
split_once_after (c ∷ []) text free =
    let no : (c == b':' && (b':' == 32)) ≡ false = ground arith in rw no refl
split_once_after (c ∷ d ∷ key) text (differ, free) =
    let no : (c == b':' && d == 32) ≡ false = ground (arith, differ) in
    rw no (ap (prepend c) (split_once_after (d ∷ key) text free))

split_once-none : (s : List ℕ) → HasNoPair b':' 32 s → split_once b':' 32 s ≡ none
unfolding split_once
split_once-none [] free = refl
split_once-none (c ∷ []) free = refl
split_once-none (c ∷ d ∷ s) (differ, free) =
    let no : (c == b':' && d == 32) ≡ false = ground (arith, differ) in
    rw no (ap (prepend c) (split_once-none (d ∷ s) free))

-- A line that is printed as itself: no line feed, not empty, and a colon and a space only between
-- a key and its value.
abbrev pub IsLine : OtherContent → Type 0
IsLine (key_value key text) = HasNoPair b':' 32 key × IsFree 10 (key ++ (b':' ∷ 32 ∷ text))
IsLine (value text) = HasNoPair b':' 32 text × IsFree 10 text × (is_nil text ≡ false)

abbrev pub AreLines : List OtherContent → Type 0
AreLines [] = Unit
AreLines (content ∷ contents) = IsLine content × AreLines contents

is_nil_pair : (key : List ℕ) (text : List ℕ) → is_nil (key ++ (b':' ∷ 32 ∷ text)) ≡ false
is_nil_pair [] text = refl
is_nil_pair (c ∷ key) text = refl

contents_of_line :
    (content : OtherContent) (lines : List (List ℕ))
    → IsLine content
    → contents_of (display content ∷ lines) ≡ content ∷ contents_of lines
unfolding contents_of display content_of
contents_of_line (key_value key text) lines (no_pair, free) =
    rw (is_nil_pair key text, split_once_after key text no_pair) refl
contents_of_line (value text) lines (no_pair, free, full) =
    rw (full, split_once-none text no_pair) refl

display-IsFree : (content : OtherContent) → IsLine content → IsFree 10 (display content)
unfolding display
display-IsFree (key_value key text) line = line.1
display-IsFree (value text) line = line.1

contents_of-lines_of :
    (contents : List OtherContent)
    → AreLines contents
    → contents_of ((split 10 (lines_of contents)).0 ∷ (split 10 (lines_of contents)).1) ≡ contents
unfolding lines_of split contents_of
contents_of-lines_of [] h = refl
contents_of-lines_of (content ∷ contents) (line, h) =
    rw (split_free 10 (display content) (lines_of contents) (display-IsFree content line)) (
      contents_of_line content ((split 10 (lines_of contents)).0 ∷ (split 10 (lines_of contents)).1)
        line
      ∙ ap (λ cs. content ∷ cs) (contents_of-lines_of contents h))

decimal-digit :
    (acc d : ℕ) (s : List ℕ) → d < 10 → decimal acc ((48 + d) ∷ s) ≡ decimal (acc * 10 + d) s
unfolding decimal
decimal-digit acc d s h =
    let is : is_digit (48 + d) ≡ true = ground arith in
    let value : 48 + d - 48 ≡ d = omega arith in rw (is, value) refl

decimal-digits :
    (fuel n : ℕ) (s : List ℕ)
    → n < 10 ^ fuel
    → 0 < fuel
    → decimal 0 (digits fuel n ++ s) ≡ decimal n s
unfolding digits
decimal-digits zero n s h pos = absurd (omega arith)
decimal-digits (suc zero) n s h pos =
    let small : ltb n 10 ≡ true = ground arith in
    rw (small) (decimal-digit 0 n s (omega arith) ∙ ap (λ m. decimal m s) (omega arith))
decimal-digits (suc (suc fuel)) n s h pos = elim (Bool-cases (ltb n 10)) [
  | inl small ↦ rw small (decimal-digit 0 n s (ground arith) ∙ ap (λ m. decimal m s) (omega arith))
  | inr large ↦ rw large (
      ap (decimal 0) (append_assoc (digits (suc fuel) (n / 10)) ((48 + n % 10) ∷ []) s)
      ∙ decimal-digits (suc fuel) (n / 10) ((48 + n % 10) ∷ s) (omega arith) (omega arith)
      ∙ decimal-digit (n / 10) (n % 10) s (omega arith)
      ∙ ap (λ m. decimal m s) (omega arith))
]

-- A digit comes first, and there is nothing but digits.
digits_first : (fuel n : ℕ) → (d : ℕ) × (s : List ℕ) × (digits (suc fuel) n ≡ (48 + d) ∷ s)
unfolding digits
digits_first zero n = elim (Bool-cases (ltb n 10)) [
  | inl small ↦ (n, [], rw small refl)
  | inr large ↦ (n % 10, [], rw large refl)
]
digits_first (suc fuel) n = elim (Bool-cases (ltb n 10)) [
  | inl small ↦ (n, [], rw small refl)
  | inr large ↦
      let (d, s, e) = digits_first fuel (n / 10) in
      (d, s ++ ((48 + n % 10) ∷ []), rw (large, e) refl)
]

IsFree-append : (c : ℕ) (s t : List ℕ) → IsFree c s → IsFree c t → IsFree c (s ++ t)
IsFree-append c [] t h k = k
IsFree-append c (d ∷ s) t (differs, h) k = (differs, IsFree-append c s t h k)

digits-IsFree : (fuel n : ℕ) → IsFree 10 (digits fuel n)
unfolding digits
digits-IsFree zero n = tt
digits-IsFree (suc fuel) n = elim (Bool-cases (ltb n 10)) [
  | inl small ↦ rw small (λ e. omega (arith, e), tt)
  | inr large ↦ rw large (
      IsFree-append 10 (digits fuel (n / 10)) ((48 + n % 10) ∷ []) (digits-IsFree fuel (n / 10))
        (λ e. omega (arith, e), tt))
]

parse_digits-to_string : (n : ℕ) → n < 2 ^ 64 → parse_u64 (to_string n) ≡ some n
unfolding parse_u64 to_string decimal
parse_digits-to_string n h =
    let (d, s, e) = digits_first 19 n in
    let is : decimal 0 (digits 20 n) ≡ some n =
      ap (decimal 0) (sym (append-nil (digits 20 n)))
      ∙ decimal-digits 20 n [] (omega arith) (omega arith) in
    let at : decimal 0 ((48 + d) ∷ s) ≡ some n = ap (decimal 0) (sym e) ∙ is in
    let no_plus : (48 + d == b'+') ≡ false = ground arith in
    let low : ltb n (2 ^ 64) ≡ true = ground arith in rw (e, no_plus, at, low) refl

-- A note that can be printed.
pub record IsPrintable (note : Checkpoint) : Type 0 where
  pub origin_full : is_blank note.origin ≡ false
  pub origin_free : IsFree 10 note.origin
  pub size_low : note.size < 2 ^ 64
  pub hash_length : length note.hash ≡ 32
  pub content_lines : AreLines note.other_content

module _ {crypto : KeyPackage} (p : LogPackage crypto)
    (decode_encode : (bytes : List ℕ) → p.base64_decode (p.base64_encode bytes) ≡ some bytes)
    (encode_free : (bytes : List ℕ) → IsFree 10 (p.base64_encode bytes)) where
  split-marshal :
      (note : Checkpoint)
      → IsPrintable note
      → split 10 (marshal p note) ≡ (
        note.origin,
        to_string note.size
            ∷ p.base64_encode note.hash
            ∷ (split 10 (lines_of note.other_content)).0
            ∷ (split 10 (lines_of note.other_content)).1,
      )
  unfolding marshal to_string
  split-marshal note printable =
      rw
        (
          split_free 10 note.origin _ printable.origin_free,
          split_free 10 (digits 20 note.size) _ (digits-IsFree 20 note.size),
          split_free 10 (p.base64_encode note.hash) _ (encode_free note.hash),
        )
        refl

  -- A note is read back from its text, if its origin has no line feed and is not blank, its size is
  -- below 2 ^ 64, its hash is 32 bytes, and its other lines are not empty and have a line feed
  -- nowhere, nor a colon and a space in a key or in a line that has none. It is asked of base64 that
  -- it decodes what it encodes, and that it encodes without line feeds.
  pub unmarshal-marshal :
      (note : Checkpoint) → IsPrintable note → unmarshal p (marshal p note) ≡ ok note
  unfolding unmarshal unmarshal_lines hash_of
  unmarshal-marshal note printable =
      let length_is : (length note.hash == 32) ≡ true =
        let h = printable.hash_length in ground (arith, h) in
      rw
        (
          split-marshal note printable,
          printable.origin_full,
          parse_digits-to_string note.size printable.size_low,
          decode_encode note.hash,
          length_is,
          contents_of-lines_of note.other_content printable.content_lines,
        )
        refl
