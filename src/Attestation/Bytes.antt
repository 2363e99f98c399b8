-- ===== src/Attestation/Bytes.antt =====
-- Reading a byte slice at fixed offsets: `report[i]`, `report[a..b]` and `uN::from_le_bytes` of a
-- slice, which panic out of range.
use tinfoil_rs.Prelude.{
  ℕ, zero, suc, ◌+◌, ◌-◌, ◌≤◌, ◌<◌, ◌≡◌, refl, Bool, true, false, ◌&&◌, List, [], ◌∷◌, none, some,
  arith, leb, ◌==◌, if◌then◌else◌, length, get_elem?, get_or, take, drop, le→leb, length-take,
  length-drop,
}
use tinfoil_rs.Outcome.{Outcome, ok, panic, ◌>>=◌}
use tinfoil_rs.Word.{from_le_bytes}

module _ {ε} {E : Type ε} where
  unfoldable pub u8_at : List ℕ → ℕ → Outcome E ℕ
  u8_at report i = elim (get_elem? report i) [ none ↦ panic | some b ↦ ok b ]

  unfoldable pub slice : List ℕ → ℕ → ℕ → Outcome E (List ℕ)
  slice report a b =
      if leb a b && leb b (length report) then ok (take (b - a) (drop a report)) else panic

  -- `from_le_bytes(report[i..i + n])`
  unfoldable pub le_at : ℕ → List ℕ → ℕ → Outcome E ℕ
  le_at n report i = do bytes ← slice report i (i + n); ok (from_le_bytes bytes)

-- The values that are read in range.
unfoldable pub bytes_of : List ℕ → ℕ → ℕ → List ℕ
bytes_of report i n = take n (drop i report)

unfoldable pub word_of : List ℕ → ℕ → ℕ → ℕ
word_of report i n = from_le_bytes (bytes_of report i n)

unfoldable pub byte_of : List ℕ → ℕ → ℕ
byte_of report i = get_or report i 0

pub length-bytes_of :
    (report : List ℕ) (i n : ℕ) → i + n ≤ length report → length (bytes_of report i n) ≡ n
unfolding bytes_of
length-bytes_of report i n h = omega (arith, length-take n (drop i report), length-drop i report)

module _ {ε} {E : Type ε} where
  pub slice-in_range :
      (report : List ℕ) (i n : ℕ)
      → i + n ≤ length report
      → slice {E = E} report i (i + n) ≡ ok (bytes_of report i n)
  unfolding slice bytes_of
  slice-in_range report i n h =
      let start : leb i (i + n) ≡ true = le→leb i (i + n) (omega arith) in
      let size : i + n - i ≡ n = omega arith in rw (start, le→leb (i + n) (length report) h, size)

  pub le_at-in_range :
      (report : List ℕ) (i n : ℕ)
      → i + n ≤ length report
      → le_at {E = E} n report i ≡ ok (word_of report i n)
  unfolding le_at word_of
  le_at-in_range report i n h = rw (slice-in_range report i n h)

  pub u8_at-in_range :
      (report : List ℕ) (i : ℕ) → i < length report → u8_at {E = E} report i ≡ ok (byte_of report i)
  unfolding u8_at byte_of
  u8_at-in_range [] i h = absurd (omega arith)
  u8_at-in_range (b ∷ bs) zero h = refl
  u8_at-in_range (b ∷ bs) (suc i) h = u8_at-in_range bs i (omega arith)

-- `iter().any(|&b| b != 0)`
unfoldable pub any_non_zero : List ℕ → Bool
any_non_zero [] = false
any_non_zero (b ∷ bs) = if b == 0 then any_non_zero bs else true

-- Equality of byte slices.
unfoldable pub bytes_eq : List ℕ → List ℕ → Bool
bytes_eq [] [] = true
bytes_eq (x ∷ xs) (y ∷ ys) = x == y && bytes_eq xs ys
bytes_eq _ _ = false
