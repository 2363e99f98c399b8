-- ===== src/Word.antt =====
-- The operations of Rust's unsigned integers that the client uses, on native numbers. A value of
-- `u64` is a number below 2 ^ 64.
pub mod Bits
use tinfoil_rs.Prelude.{
  ℕ, zero, suc, ◌+◌, ◌-◌, ◌*◌, ◌/◌, ◌%◌, ◌^◌, ◌<◌, List, [], ◌∷◌, ltb, ◌==◌, if◌then◌else◌, ◌≡◌,
  ◌≤◌, arith, lt→ltb,
}
use tinfoil_rs.Outcome.{Outcome, ok, panic}

abbrev pub IsU64 : ℕ → Type 0
IsU64 x = x < 2 ^ 64

-- Bit `i` of `x`: `(x >> i) & 1`.
abbrev pub bit : ℕ → ℕ → ℕ
bit x i = x / 2 ^ i % 2

-- `leading_zeros` of a word of `w` bits: the zeros above the highest bit that is set.
unfoldable pub leading_zeros : ℕ → ℕ → ℕ
leading_zeros zero x = 0
leading_zeros (suc w) x = if bit x w == 1 then 0 else suc (leading_zeros w x)

-- `trailing_zeros` of a word of `w` bits.
unfoldable pub trailing_zeros : ℕ → ℕ → ℕ
trailing_zeros zero x = 0
trailing_zeros (suc w) x = if x % 2 == 1 then 0 else suc (trailing_zeros w (x / 2))

-- `count_ones` of a word of `w` bits.
unfoldable pub count_ones : ℕ → ℕ → ℕ
count_ones zero x = 0
count_ones (suc w) x = x % 2 + count_ones w (x / 2)

-- Whether the build checks integer overflow: a debug build panics where a release build wraps.
pub data Build : Type 0 where
  debug release : Build

module _ {ε} {E : Type ε} where
  -- `x >> s` on `u64`: a shift by 64 or more panics, or takes the amount modulo 64.
  unfoldable pub shr64 : Build → ℕ → ℕ → Outcome E ℕ
  shr64 b x s =
      if ltb s 64
      then ok (x / 2 ^ s)
      else elim b [ debug ↦ panic | release ↦ ok (x / 2 ^ (s % 64)) ]

  -- `a - b` on `u64`.
  unfoldable pub sub64 : Build → ℕ → ℕ → Outcome E ℕ
  sub64 bld a b =
      if ltb a b
      then elim bld [ debug ↦ panic | release ↦ ok ((a + 2 ^ 64 - b) % 2 ^ 64) ]
      else ok (a - b)

module _ {ε} {E : Type ε} where
  pub shr64_in_range : (bld : Build) (x s : ℕ) → s < 64 → shr64 {E = E} bld x s ≡ ok (x / 2 ^ s)
  unfolding shr64
  shr64_in_range bld x s h = rw (lt→ltb s 64 h)

  pub sub64_in_range : (bld : Build) (a b : ℕ) → b ≤ a → sub64 {E = E} bld a b ≡ ok (a - b)
  unfolding sub64
  sub64_in_range bld a b h = ground arith

-- `uN::from_le_bytes`: the number whose bytes are given, the lowest first.
unfoldable pub from_le_bytes : List ℕ → ℕ
from_le_bytes [] = 0
from_le_bytes (b ∷ bs) = b + 256 * from_le_bytes bs
