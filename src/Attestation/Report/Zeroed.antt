-- ===== src/Attestation/Report/Zeroed.antt =====
-- Which ranges of a report are zero.
use tinfoil_rs.Prelude.{
  ℕ, zero, suc, ◌+◌, ◌-◌, ◌≤◌, ◌<◌, ◌≡◌, ◌↔◌, refl, sym, ap, ◌∙◌, false, List, [], ◌∷◌, arith,
  length, get_or, take, drop,
}
use Prim.Native.String.{String}
use tinfoil_rs.Decides.{Decides, reject_if-Decides}
use tinfoil_rs.Attestation.Bytes.{bytes_of, byte_of, slice-in_range, any_non_zero, length-bytes_of}
use tinfoil_rs.Attestation.Report.{validate_mbz_bytes}

-- The bytes from `start` up to `end` are zero.
abbrev pub IsZeroed : List ℕ → ℕ → ℕ → Type 0
IsZeroed report start end = (i : ℕ) → start ≤ i → i < end → byte_of report i ≡ 0

pub zeros_of : (bs : List ℕ) → any_non_zero bs ≡ false → (i : ℕ) → i < length bs → get_or bs i 0 ≡ 0
unfolding any_non_zero
zeros_of [] h i lt = absurd (omega arith)
zeros_of (b ∷ bs) h zero lt = ground arith
zeros_of (b ∷ bs) h (suc i) lt = zeros_of bs (ground arith) i (omega arith)

pub any_non_zero_of :
    (bs : List ℕ) → ((i : ℕ) → i < length bs → get_or bs i 0 ≡ 0) → any_non_zero bs ≡ false
unfolding any_non_zero
any_non_zero_of [] h = refl
any_non_zero_of (b ∷ bs) h =
    rw (h 0 (omega arith)) (any_non_zero_of bs (λ i lt. h (suc i) (omega arith)))

pub get_or-take : (n i : ℕ) (xs : List ℕ) → i < n → get_or (take n xs) i 0 ≡ get_or xs i 0
get_or-take zero i xs lt = absurd (omega arith)
get_or-take (suc n) i [] lt = refl
get_or-take (suc n) zero (x ∷ xs) lt = refl
get_or-take (suc n) (suc i) (x ∷ xs) lt = get_or-take n i xs (omega arith)

pub get_or-drop : (n i : ℕ) (xs : List ℕ) → get_or (drop n xs) i 0 ≡ get_or xs (n + i) 0
get_or-drop zero i xs = let e : zero + i ≡ i = omega arith in rw e
get_or-drop (suc n) i [] = refl
get_or-drop (suc n) i (x ∷ xs) =
    let e : suc n + i ≡ suc (n + i) = omega arith in rw e (get_or-drop n i xs)

pub byte_of-bytes_of :
    (report : List ℕ) (start n i : ℕ)
    → i < n
    → get_or (bytes_of report start n) i 0 ≡ byte_of report (start + i)
unfolding bytes_of byte_of
byte_of-bytes_of report start n i lt =
    get_or-take n i (drop start report) lt ∙ get_or-drop start i report

pub IsZeroed-iff :
    (report : List ℕ) (start n : ℕ)
    → start + n ≤ length report
    → (any_non_zero (bytes_of report start n) ≡ false) ↔ IsZeroed report start (start + n)
IsZeroed-iff report start n fits =
    let size = length-bytes_of report start n fits in
    (
      λ h i lo hi.
          let e : start + (i - start) ≡ i = omega arith in
          ap (byte_of report) (sym e)
          ∙ sym (byte_of-bytes_of report start n (i - start) (omega arith))
          ∙ zeros_of (bytes_of report start n) h (i - start) (omega arith),
      λ z. any_non_zero_of (bytes_of report start n) (λ i lt.
          byte_of-bytes_of report start n i (omega arith)
          ∙ z (start + i) (omega arith) (omega arith)),
    )

pub validate_mbz_bytes-Decides :
    (report : List ℕ) (start n : ℕ) (name : String)
    → start + n ≤ length report
    → Decides (validate_mbz_bytes report start (start + n) name) (IsZeroed report start (start + n))
unfolding validate_mbz_bytes
validate_mbz_bytes-Decides report start n name fits =
    rw (slice-in_range report start n fits)
      (reject_if-Decides _ _ (IsZeroed-iff report start n fits))
