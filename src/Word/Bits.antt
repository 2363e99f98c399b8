-- ===== src/Word/Bits.antt =====
-- How the bit operations go down when a word is halved.
use Prim.Native.Nat.{bit_xor, bit_xor-bitwise, digits, differ}
use native.Mathlib.Nat.{
  div-div-eq-div-mul, pow-succ', pow-suc, div-one, div-eq_of_lt, lt-div-mul-add, div-lt_iff_lt-mul,
}
use tinfoil_rs.Prelude.{
  ℕ, zero, suc, ◌+◌, ◌-◌, ◌*◌, ◌/◌, ◌%◌, ◌^◌, ◌≤◌, ◌<◌, ◌≡◌, ◌≢◌, refl, sym, ap, ◌∙◌, arith,
}
use tinfoil_rs.Word.{leading_zeros, count_ones, bit}

-- Exclusive or.

abbrev xor_digits : ℕ → ℕ → ℕ → ℕ
xor_digits n a b = digits (λ b. b) differ n a b

differ-digit : (x y : ℕ) → x < 2 → y < 2 → differ x y ≡ (x + y) % 2
differ-digit zero y p q = omega arith
differ-digit (suc zero) zero p q = refl
differ-digit (suc zero) (suc zero) p q = refl
differ-digit (suc zero) (suc (suc y)) p q = absurd (omega arith)
differ-digit (suc (suc x)) y p q = absurd (omega arith)

xor_digits_fuel : (n m a b : ℕ) → a ≤ n → a ≤ m → xor_digits n a b ≡ xor_digits m a b
xor_digits_fuel zero zero a b p q = refl
xor_digits_fuel zero (suc m) zero b p q = refl
xor_digits_fuel zero (suc m) (suc a) b p q = absurd (omega arith)
xor_digits_fuel (suc n) zero zero b p q = refl
xor_digits_fuel (suc n) zero (suc a) b p q = absurd (omega arith)
xor_digits_fuel (suc n) (suc m) zero b p q = refl
xor_digits_fuel (suc n) (suc m) (suc a) b p q =
    omega (arith, xor_digits_fuel n m (suc a / 2) (b / 2) (omega arith) (omega arith))

zero-bit_xor : (b : ℕ) → bit_xor 0 b ≡ b
zero-bit_xor b = bit_xor-bitwise 0 b

pub bit_xor_step : (a b : ℕ) → bit_xor a b ≡ bit_xor (a / 2) (b / 2) * 2 + (a + b) % 2
bit_xor_step zero b = omega (arith, zero-bit_xor b, zero-bit_xor (b / 2))
bit_xor_step (suc a) b = omega (
  arith,
  bit_xor-bitwise (suc a) b,
  bit_xor-bitwise (suc a / 2) (b / 2),
  xor_digits_fuel a (suc a / 2) (suc a / 2) (b / 2) (omega arith) (omega arith),
  differ-digit (suc a % 2) (b % 2) (omega arith) (omega arith),
)

-- Two numbers differ exactly when their exclusive or is not zero.
bit_xor_self_fuel : (n a : ℕ) → a ≤ n → bit_xor a a ≡ 0
bit_xor_self_fuel n zero h = zero-bit_xor 0
bit_xor_self_fuel zero (suc a) h = absurd (omega arith)
bit_xor_self_fuel (suc n) (suc a) h =
    omega (arith, bit_xor_step (suc a) (suc a), bit_xor_self_fuel n (suc a / 2) (omega arith))

pub bit_xor_self : (a : ℕ) → bit_xor a a ≡ 0
bit_xor_self a = bit_xor_self_fuel a a (omega arith)

bit_xor_fuel : (n a b : ℕ) → a ≤ n → bit_xor a b ≡ 0 → a ≡ b
bit_xor_fuel n zero b h e = omega (arith, zero-bit_xor b)
bit_xor_fuel zero (suc a) b h e = absurd (omega arith)
bit_xor_fuel (suc n) (suc a) b h e =
    let below = bit_xor_step (suc a) b in
    let half = bit_xor_fuel n (suc a / 2) (b / 2) (omega arith) (omega arith) in omega arith

pub eq_of_bit_xor : (a b : ℕ) → bit_xor a b ≡ 0 → a ≡ b
eq_of_bit_xor a b = bit_xor_fuel a a b (omega arith)

pub bit_xor_half : (a b : ℕ) → bit_xor a b / 2 ≡ bit_xor (a / 2) (b / 2)
bit_xor_half a b = omega (arith, bit_xor_step a b)

pub bit_xor-lt : (w a b : ℕ) → a < 2 ^ w → b < 2 ^ w → bit_xor a b < 2 ^ w
bit_xor-lt zero a b p q =
    let za : a ≡ 0 = omega arith in let zb : b ≡ 0 = omega arith in rw (za, zb) (omega arith)
bit_xor-lt (suc w) a b p q =
    let halved =
      bit_xor-lt w (a / 2) (b / 2) (omega (arith, pow-suc 2 w)) (omega (arith, pow-suc 2 w)) in
    omega (arith, pow-suc 2 w, bit_xor_step a b)

-- Bits and leading zeros.

pub bit_half : (x i : ℕ) → bit x (suc i) ≡ bit (x / 2) i
bit_half x i = omega (
  arith,
  ap (λ (t : ℕ). t % 2) (ap (λ (t : ℕ). x / t) (pow-succ' 2 i)),
  ap (λ (t : ℕ). t % 2) (div-div-eq-div-mul x 2 (2 ^ i)),
)

pub pow_pos : (w : ℕ) → 0 < 2 ^ w
pow_pos zero = omega arith
pow_pos (suc w) = omega (arith, pow-suc 2 w, pow_pos w)

product_of_zero : (q p : ℕ) → q ≡ 0 → q * p ≡ 0
product_of_zero q p e = rw e (omega arith)

pub bit_top : (w x : ℕ) → x < 2 ^ suc w → (bit x w ≡ 0) → x < 2 ^ w
bit_top w x h e =
    let low = (div-lt_iff_lt-mul {x = x} {y = 2} (pow_pos w)).1 (omega (arith, pow-suc 2 w)) in
    let none : x / 2 ^ w ≡ 0 = omega arith in
    omega (arith, lt-div-mul-add {a = x} (pow_pos w), product_of_zero _ (2 ^ w) none)

pub leading_zeros-le : (w x : ℕ) → leading_zeros w x ≤ w
unfolding leading_zeros
leading_zeros-le zero x = omega arith
leading_zeros-le (suc w) x = ground (arith, leading_zeros-le w x)

-- A word that is not zero loses its lowest bit.
pub leading_zeros_half :
    (w x : ℕ) → x < 2 ^ suc w → x ≢ 0 → leading_zeros (suc w) x ≡ leading_zeros w (x / 2)
unfolding leading_zeros
leading_zeros_half zero x h ne = ground (arith, div-one x)
leading_zeros_half (suc w) x h ne =
    ground (arith, bit_half x w, bit_top (suc w) x h, leading_zeros_half w x)

-- Counting.

pub count_ones_wider : (w x : ℕ) → x < 2 ^ w → count_ones (suc w) x ≡ count_ones w x
unfolding count_ones
count_ones_wider zero x h = omega arith
count_ones_wider (suc w) x h =
    omega (arith, pow-suc 2 w, count_ones_wider w (x / 2) (omega (arith, pow-suc 2 w)))

count_ones_step : (w x : ℕ) → count_ones (suc w) x ≡ x % 2 + count_ones w (x / 2)
unfolding count_ones
count_ones_step w x = refl

pub count_ones_half : (x : ℕ) → x < 2 ^ 64 → count_ones 64 x ≡ x % 2 + count_ones 64 (x / 2)
count_ones_half x h =
    count_ones_step 63 x
    ∙ ap (λ (t : ℕ). x % 2 + t) (sym (count_ones_wider 63 (x / 2) (omega arith)))

-- The number of binary digits of a word.
abbrev pub bit_length : ℕ → ℕ
bit_length x = 64 - leading_zeros 64 x

leading_zeros_wider : (w x : ℕ) → x < 2 ^ w → leading_zeros (suc w) x ≡ suc (leading_zeros w x)
unfolding leading_zeros
leading_zeros_wider w x h = ground (arith, div-eq_of_lt h)

leading_zeros-zero : (w : ℕ) → leading_zeros w 0 ≡ w
unfolding leading_zeros
leading_zeros-zero zero = refl
leading_zeros-zero (suc w) = ground (arith, div-eq_of_lt (pow_pos w), leading_zeros-zero w)

pub bit_length-zero : bit_length 0 ≡ 0
bit_length-zero = rw leading_zeros-zero (omega arith)

pub bit_length_half : (x : ℕ) → x < 2 ^ 64 → x ≢ 0 → bit_length x ≡ suc (bit_length (x / 2))
bit_length_half x h ne = omega (
  arith,
  leading_zeros_half 63 x h ne,
  leading_zeros_wider 63 (x / 2) (omega arith),
  leading_zeros-le 63 (x / 2),
)

-- A number whose top bit is clear has at most 63 binary digits, and one with the top bit has 64.
pub bit_length_short : (x : ℕ) → x < 2 ^ 63 → bit_length x < 64
bit_length_short x h = omega (arith, leading_zeros_wider 63 x h)

pub bit_xor_top :
    (w a b : ℕ)
    → a < 2 ^ w
    → 2 ^ w ≤ b
    → b < 2 ^ suc w
    → (2 ^ w ≤ bit_xor a b) × (bit_xor a b < 2 ^ suc w)
bit_xor_top zero a b p q r = let za : a ≡ 0 = omega arith in rw za (rw (zero-bit_xor b) (q, r))
bit_xor_top (suc w) a b p q r =
    let (lo, hi) =
      bit_xor_top w (a / 2) (b / 2) (omega (arith, pow-suc 2 w)) (omega (arith, pow-suc 2 w))
        (omega (arith, pow-suc 2 w, pow-suc 2 (suc w))) in
    (
      omega (arith, pow-suc 2 w, bit_xor_step a b),
      omega (arith, pow-suc 2 (suc w), bit_xor_step a b),
    )

top_bit : (x : ℕ) → 2 ^ 63 ≤ x → x < 2 ^ 64 → bit x 63 ≡ 1
top_bit x lo hi = omega arith

leading_zeros_full : (w x : ℕ) → bit x w ≡ 1 → leading_zeros (suc w) x ≡ 0
unfolding leading_zeros
leading_zeros_full w x e = rw e

pub bit_length_full : (x : ℕ) → (2 ^ 63 ≤ x) × (x < 2 ^ 64) → bit_length x ≡ 64
bit_length_full x (lo, hi) = omega (arith, leading_zeros_full 63 x (top_bit x lo hi))
