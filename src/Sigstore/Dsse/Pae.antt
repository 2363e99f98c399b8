-- ===== src/Sigstore/Dsse/Pae.antt =====
-- The pre-authentication encoding that an envelope's signature is over (`compute_pae` of
-- src/verifier/sigstore/dsse.rs), and a decoder of it. Texts are their bytes.
use tinfoil_rs.Prelude.{
  ℕ, zero, suc, ◌+◌, ◌-◌, ◌*◌, ◌/◌, ◌%◌, ◌^◌, ◌<◌, ◌≡◌, ap, sym, ◌∙◌, inl, inr, refl, Bool-cases,
  true, ◌&&◌, List, [], ◌∷◌, ◌++◌, Option, none, some, arith, ltb, leb, ◌==◌, if◌then◌else◌, length,
  take, drop,
}
use mathlib.Core.List.{append_assoc, append-nil}

-- `to_string` of a number that has at most `fuel` digits.
unfoldable pub digits : ℕ → ℕ → List ℕ
digits zero n = []
digits (suc fuel) n =
    let front = digits fuel (n / 10) in
    if ltb n 10 then (48 + n) ∷ [] else front ++ (48 + n % 10) ∷ []

-- A length is a `usize`, which has at most 20 digits.
unfoldable pub to_string : ℕ → List ℕ
unfolding digits
to_string n = digits 20 n

-- "DSSEv1".
abbrev pub dsse_v1 : List ℕ
dsse_v1 = b'D' ∷ b'S' ∷ b'S' ∷ b'E' ∷ b'v' ∷ b'1' ∷ []

unfoldable pub compute_pae : List ℕ → List ℕ → List ℕ
compute_pae payload_type payload =
    dsse_v1
    ++ (32
        ∷ (to_string (length payload_type)
            ++ (32 ∷ (payload_type ++ (32 ∷ (to_string (length payload) ++ (32 ∷ payload)))))))

-- The number that a text starts with, and the rest of the text.
read_number : ℕ → List ℕ → ℕ × List ℕ
read_number n [] = (n, [])
read_number n (c ∷ cs) =
    let rest = read_number (n * 10 + (c - 48)) cs in
    if leb 48 c && leb c 57 then rest else (n, c ∷ cs)

read-digit :
    (acc d : ℕ) (cs : List ℕ)
    → d < 10
    → read_number acc ((48 + d) ∷ cs) ≡ read_number (acc * 10 + d) cs
unfolding read_number
read-digit acc d cs h =
    let is_digit : (leb 48 (48 + d) && leb (48 + d) 57) ≡ true = ground arith in
    let value : 48 + d - 48 ≡ d = omega arith in rw (is_digit, value)

-- A number of at most `fuel` digits is read back.
read-digits :
    (fuel n : ℕ) (cs : List ℕ)
    → n < 10 ^ fuel
    → 0 < fuel
    → read_number 0 (digits fuel n ++ cs) ≡ read_number n cs
unfolding digits
read-digits zero n cs h pos = absurd (omega arith)
read-digits (suc zero) n cs h pos =
    let small : ltb n 10 ≡ true = ground arith in
    rw (small) (read-digit 0 n cs (omega arith) ∙ ap (λ m. read_number m cs) (omega arith))
read-digits (suc (suc fuel)) n cs h pos = elim (Bool-cases (ltb n 10)) [
  | inl small ↦
      rw small (read-digit 0 n cs (ground arith) ∙ ap (λ m. read_number m cs) (omega arith))
  | inr large ↦ rw large (
      ap (read_number 0) (append_assoc (digits (suc fuel) (n / 10)) ((48 + n % 10) ∷ []) cs)
      ∙ read-digits (suc fuel) (n / 10) ((48 + n % 10) ∷ cs) (omega arith) (omega arith)
      ∙ read-digit (n / 10) (n % 10) cs (omega arith)
      ∙ ap (λ m. read_number m cs) (omega arith))
]

take-length : (xs ys : List ℕ) → take (length xs) (xs ++ ys) ≡ xs
take-length [] ys = refl
take-length (x ∷ xs) ys = ap (λ zs. x ∷ zs) (take-length xs ys)

drop-length : (xs ys : List ℕ) → drop (length xs) (xs ++ ys) ≡ ys
drop-length [] ys = refl
drop-length (x ∷ xs) ys = drop-length xs ys

-- The text after a space.
after_space : List ℕ → Option (List ℕ)
after_space [] = none
after_space (c ∷ cs) = if c == 32 then some cs else none

-- A length, a space and as many bytes; and the rest.
take_body : ℕ → Option (List ℕ) → Option (List ℕ × List ℕ)
take_body n none = none
take_body n (some body) = some (take n body, drop n body)

take_field : ℕ × List ℕ → Option (List ℕ × List ℕ)
unfolding take_body after_space
take_field (n, rest) = take_body n (after_space rest)

read_field : List ℕ → Option (List ℕ × List ℕ)
unfolding read_number take_field
read_field text = take_field (read_number 0 text)

to_string-read :
    (n : ℕ) (cs : List ℕ) → n < 10 ^ 20 → read_number 0 (to_string n ++ cs) ≡ read_number n cs
unfolding to_string
to_string-read n cs h = read-digits 20 n cs h (omega arith)

read_field_lem :
    (field rest : List ℕ)
    → length field < 10 ^ 20
    → read_field (to_string (length field) ++ (32 ∷ (field ++ rest))) ≡ some (field, rest)
unfolding read_field
read_field_lem field rest h =
    ap take_field (to_string-read (length field) (32 ∷ (field ++ rest)) h)
    ∙ rw (take-length field rest, drop-length field rest)

-- The last field ends the text.
read_field_end :
    (field : List ℕ)
    → length field < 10 ^ 20
    → read_field (to_string (length field) ++ (32 ∷ field)) ≡ some (field, [])
read_field_end field h =
    ap (λ text. read_field (to_string (length field) ++ (32 ∷ text))) (sym (append-nil field))
    ∙ read_field_lem field [] h

-- The two parts of an encoding; the last one takes up the whole rest.
with_payload : List ℕ → Option (List ℕ × List ℕ) → Option (List ℕ × List ℕ)
with_payload payload_type none = none
with_payload payload_type (some (payload, rest)) = some (payload_type, payload)

with_type : Option (List ℕ × List ℕ) → Option (List ℕ × List ℕ)
unfolding with_payload after_space
with_type none = none
with_type (some (payload_type, rest)) = elim (after_space rest) [
  | none ↦ none
  | some field ↦ with_payload payload_type (read_field field)
]

pub decode_pae : List ℕ → Option (List ℕ × List ℕ)
unfolding with_type after_space
decode_pae text = elim (after_space (drop 6 text)) [
  | none ↦ none
  | some field ↦ with_type (read_field field)
]

-- The encoding is read back: from the encoding of a type and a payload, each of fewer than 10^20
-- bytes, the decoder recovers both, so that no two different pairs have the same encoding.
pub decode_pae-compute_pae :
    (payload_type payload : List ℕ)
    → length payload_type < 10 ^ 20
    → length payload < 10 ^ 20
    → decode_pae (compute_pae payload_type payload) ≡ some (payload_type, payload)
unfolding decode_pae compute_pae
decode_pae-compute_pae payload_type payload h k =
    ap with_type
      (read_field_lem payload_type (32 ∷ (to_string (length payload) ++ (32 ∷ payload))) h)
    ∙ ap (with_payload payload_type) (read_field_end payload k)
