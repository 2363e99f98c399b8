-- ===== src/Merkle/Decomp.antt =====
-- The length of an inclusion proof and the two chains over it, one level of the tree at a time.
-- `last` is the tree size less one.
use Prim.Native.Nat.{bit_xor}
use native.Mathlib.Nat.{div-div-eq-div-mul, pow-succ', div-one}
use tinfoil_rs.Prelude.{
  ℕ, suc, ◌+◌, ◌-◌, ◌/◌, ◌%◌, ◌^◌, ◌≤◌, ◌<◌, ◌≡◌, refl, sym, ap, ◌∙◌, arith, List, [], ◌∷◌, take,
  drop, ◌==◌, if◌then◌else◌,
}
use tinfoil_rs.Outcome.{ok, panic}
use tinfoil_rs.Word.{Build, debug, shr64, sub64_in_range, shr64_in_range, leading_zeros, count_ones}
use tinfoil_rs.Word.Bits.{
  bit_xor_self, eq_of_bit_xor, bit_xor_half, bit_xor-lt, bit_half, count_ones_half, bit_length,
  bit_length-zero, bit_length_half, bit_length_short, bit_length_full, bit_xor_top,
}
use tinfoil_rs.Merkle.Hasher.{Hasher}
use tinfoil_rs.Merkle.Proof.{
  inner_proof_size, decomp_inclusion_proof, chain_inner_from, chain_border_right,
}

-- The number of levels below the one where the paths of `i` and `last` meet.
unfoldable pub inner_levels : ℕ → ℕ → ℕ
inner_levels i last = bit_length (bit_xor i last)

unfoldable pub proof_length : ℕ → ℕ → ℕ
proof_length i last = inner_levels i last + count_ones 64 (i / 2 ^ inner_levels i last)

pub inner_levels_self : (i : ℕ) → inner_levels i i ≡ 0
unfolding inner_levels
inner_levels_self i = rw bit_xor_self bit_length-zero

pub inner_levels_half :
    (i last : ℕ)
    → i < last
    → last < 2 ^ 64
    → inner_levels i last ≡ suc (inner_levels (i / 2) (last / 2))
unfolding inner_levels
inner_levels_half i last h fits = rw (← bit_xor_half i last) (
    bit_length_half (bit_xor i last) (bit_xor-lt 64 i last (omega arith) fits)
      (λ e. omega (arith, eq_of_bit_xor i last e)))

shift_half : (x n : ℕ) → x / 2 ^ suc n ≡ x / 2 / 2 ^ n
shift_half x n = ap (λ t. x / t) (pow-succ' 2 n) ∙ sym (div-div-eq-div-mul x 2 (2 ^ n))

pub proof_length_last :
    (i : ℕ) → i < 2 ^ 64 → proof_length i i ≡ i % 2 + proof_length (i / 2) (i / 2)
unfolding proof_length
proof_length_last i fits =
    rw (inner_levels_self i, inner_levels_self (i / 2), div-one i, div-one (i / 2))
      (omega (arith, count_ones_half i fits))

pub proof_length_below :
    (i last : ℕ)
    → i < last
    → last < 2 ^ 64
    → proof_length i last ≡ suc (proof_length (i / 2) (last / 2))
unfolding proof_length
proof_length_below i last h fits = rw (inner_levels_half i last h fits, shift_half) (omega arith)

pub proof_length-zero : proof_length 0 0 ≡ 0
unfolding proof_length inner_levels leading_zeros count_ones
proof_length-zero = refl

module _ {O : Type 0} (hasher : Hasher O) where
  open hasher use {hash_children}

  -- The root that `root_from_inclusion_proof` computes.
  unfoldable pub chained_root : ℕ → ℕ → O → List O → O
  chained_root i last x p =
      let inner = inner_levels i last in
      chain_border_right hasher (chain_inner_from hasher 0 x (take inner p) i) (drop inner p)

  chain_inner_half :
      (n : ℕ) (x : O) (p : List O) (i : ℕ)
      → chain_inner_from hasher (suc n) x p i ≡ chain_inner_from hasher n x p (i / 2)
  unfolding chain_inner_from
  chain_inner_half n x [] i = refl
  chain_inner_half n x (h ∷ p) i = rw (bit_half i n) (chain_inner_half (suc n) _ p i)

  chain_inner_step :
      (x h : O) (p : List O) (i : ℕ)
      → chain_inner_from hasher 0 x (h ∷ p) i
        ≡ chain_inner_from hasher 0
            (if i % 2 == 0 then hash_children x h else hash_children h x)
            p
            (i / 2)
  unfolding chain_inner_from
  chain_inner_step x h p i = chain_inner_half 0 _ p i ∙ rw (div-one i)

  pub chained_root_nil : (i : ℕ) (x : O) → chained_root i i x [] ≡ x
  unfolding chained_root chain_inner_from chain_border_right
  chained_root_nil i x = rw inner_levels_self

  pub chained_root_even_last :
      (i : ℕ) (x : O) (p : List O) → chained_root i i x p ≡ chained_root (i / 2) (i / 2) x p
  unfolding chained_root chain_inner_from
  chained_root_even_last i x p = rw (inner_levels_self i, inner_levels_self (i / 2))

  pub chained_root_odd_last :
      (i : ℕ) (x h : O) (p : List O)
      → chained_root i i x (h ∷ p) ≡ chained_root (i / 2) (i / 2) (hash_children h x) p
  unfolding chained_root chain_inner_from chain_border_right
  chained_root_odd_last i x h p = rw (inner_levels_self i, inner_levels_self (i / 2))

  pub chained_root_below :
      (i last : ℕ) (x h : O) (p : List O)
      → i < last
      → last < 2 ^ 64
      → chained_root i last x (h ∷ p)
        ≡ chained_root
            (i / 2)
            (last / 2)
            (if i % 2 == 0 then hash_children x h else hash_children h x)
            p
  unfolding chained_root
  chained_root_below i last x h p less fits = rw (inner_levels_half i last less fits) (
      ap (λ t. chain_border_right hasher t (drop (inner_levels (i / 2) (last / 2)) p))
        (chain_inner_step x h (take (inner_levels (i / 2) (last / 2)) p) i))

pred_lem : (n : ℕ) → suc n - 1 ≡ n
pred_lem n = omega arith

-- The source's count of inner levels is this one.
pub inner_proof_size_lem :
    (b : Build) (i last : ℕ) → inner_proof_size b i (suc last) ≡ ok (inner_levels i last)
unfolding inner_proof_size inner_levels
inner_proof_size_lem b i last = rw (sub64_in_range b (suc last) 1 (omega arith), pred_lem last)

pub inner_levels-lt : (i last : ℕ) → i ≤ last → last < 2 ^ 63 → inner_levels i last < 64
unfolding inner_levels
inner_levels-lt i last le fits =
    bit_length_short (bit_xor i last) (bit_xor-lt 63 i last (omega arith) fits)

-- Up to 2 ^ 63 leaves no operation overflows, whatever the build.
pub decomp_inclusion_proof_lem :
    (b : Build) (i last : ℕ)
    → i ≤ last
    → last < 2 ^ 63
    → decomp_inclusion_proof b i (suc last)
      ≡ ok (inner_levels i last, count_ones 64 (i / 2 ^ inner_levels i last))
unfolding decomp_inclusion_proof
decomp_inclusion_proof_lem b i last le fits =
    rw inner_proof_size_lem (rw (shr64_in_range b i _ (inner_levels-lt i last le fits)))

pub inner_levels_full :
    (i last : ℕ) → i < 2 ^ 63 → 2 ^ 63 ≤ last → last < 2 ^ 64 → inner_levels i last ≡ 64
unfolding inner_levels
inner_levels_full i last lower upper fits =
    bit_length_full (bit_xor i last) (bit_xor_top 63 i last lower upper fits)

shr64_too_wide : {E : Type 0} (x : ℕ) → shr64 {E = E} debug x 64 ≡ panic
unfolding shr64
shr64_too_wide x = refl

pub decomp_inclusion_proof_overflow :
    (i last : ℕ)
    → i < 2 ^ 63
    → 2 ^ 63 ≤ last
    → last < 2 ^ 64
    → decomp_inclusion_proof debug i (suc last) ≡ panic
unfolding decomp_inclusion_proof
decomp_inclusion_proof_overflow i last lower upper fits =
    rw inner_proof_size_lem (rw (inner_levels_full i last lower upper fits) (rw shr64_too_wide))
