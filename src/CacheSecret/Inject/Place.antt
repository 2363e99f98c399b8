-- ===== src/CacheSecret/Inject/Place.antt =====
-- The bytes around a place in a body, and the last one that is no whitespace
-- (src/user_cache_secret.rs).
use tinfoil_rs.Prelude.{
  ℕ, zero, suc, ◌+◌, ◌-◌, ◌≤◌, ◌≡◌, ◌∙◌, ap, sym, inl, inr, refl, true, List, [], ◌∷◌, ◌++◌, Option,
  none, some, arith, get_elem?, take, drop, take-append-drop, Option-cases,
}
use tinfoil_rs.CacheSecret.Json.{is_json_whitespace, is_byte}
use tinfoil_rs.CacheSecret.Inject.{last_from}

drop-nil : {A : Type 0} (n : ℕ) → drop {A = A} n [] ≡ []
drop-nil zero = refl
drop-nil (suc n) = refl

drop-add : {A : Type 0} (n m : ℕ) (xs : List A) → drop m (drop n xs) ≡ drop (n + m) xs
drop-add zero m xs = ap (λ k. drop k xs) (omega arith)
drop-add (suc n) m [] = drop-nil m ∙ sym (drop-nil (suc n + m))
drop-add (suc n) m (x ∷ xs) =
    let next : suc (n + m) ≡ suc n + m = omega arith in
    drop-add n m xs ∙ ap (λ k. drop k (x ∷ xs)) next

-- The bytes before a range, in it and after it.
pub split_range :
    (raw : List ℕ) (start end : ℕ)
    → start ≤ end
    → raw ≡ take start raw ++ (take (end - start) (drop start raw) ++ drop end raw)
split_range raw start end h = sym (
    ap (λ rest. take start raw ++ rest)
      (ap (λ rest. take (end - start) (drop start raw) ++ rest)
          (ap (λ k. drop k raw) (omega arith) ∙ sym (drop-add start (end - start) raw))
        ∙ take-append-drop (end - start) (drop start raw))
    ∙ take-append-drop start raw)

-- Only whitespace.
abbrev pub IsBlank : List ℕ → Type 0
IsBlank [] = Unit
IsBlank (b ∷ bytes) = (is_json_whitespace b ≡ true) × IsBlank bytes

-- Only whitespace follows the byte at the index.
abbrev pub EndsAt : List ℕ → Option ℕ → Type 0
EndsAt raw none = Unit
EndsAt raw (some close) = IsBlank (drop (close + 1) raw)

none-IsBlank : (bytes : List ℕ) (index : ℕ) → last_from bytes index ≡ none → IsBlank bytes
unfolding last_from
none-IsBlank [] index h = tt
none-IsBlank (b ∷ bytes) index h = elim (Option-cases (last_from bytes (index + 1))) [
  | inr (later, found) ↦ absurd (ground (arith, h, found))
  | inl nowhere ↦ (ground (arith, h, nowhere), none-IsBlank bytes (index + 1) nowhere)
]

last_from-IsBlank :
    (bytes : List ℕ) (index close : ℕ)
    → last_from bytes index ≡ some close
    → (n : ℕ) × (close ≡ index + n) × IsBlank (drop (n + 1) bytes)
unfolding last_from
last_from-IsBlank [] index close h = cc
last_from-IsBlank (b ∷ bytes) index close h = elim (Option-cases (last_from bytes (index + 1))) [
  | inr (later, found) ↦
      let (n, at, blank) = last_from-IsBlank bytes (index + 1) later found in
      let next : suc n + 1 ≡ suc (n + 1) = omega arith in
      (suc n, ground (arith, h, found, at), rw next blank)
  | inl nowhere ↦ (0, ground (arith, h, nowhere), none-IsBlank bytes (index + 1) nowhere)
]

pub last_from-EndsAt : (raw : List ℕ) → EndsAt raw (last_from raw 0)
last_from-EndsAt raw = elim (Option-cases (last_from raw 0)) [
  | inl nowhere ↦ rw nowhere tt
  | inr (close, found) ↦
      let (n, at, blank) = last_from-IsBlank raw 0 close found in
      let same : n ≡ close = omega (arith, at) in rw (found, sym same) blank
]

pub drop_at :
    (raw : List ℕ) (index b : ℕ)
    → is_byte (get_elem? raw index) b ≡ true
    → drop index raw ≡ b ∷ drop (index + 1) raw
unfolding is_byte
drop_at [] index b h = cc
drop_at (c ∷ raw) zero b h = ap (λ d. d ∷ raw) (ground (arith, h))
drop_at (c ∷ raw) (suc index) b h =
    let next : suc index + 1 ≡ suc (index + 1) = omega arith in rw next (drop_at raw index b h)
