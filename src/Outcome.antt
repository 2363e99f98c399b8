-- ===== src/Outcome.antt =====
-- The result of a Rust call: a value, an error value, or a panic (a slice index or an arithmetic
-- operation out of range), with `?` as bind.
use tinfoil_rs.Prelude.{◌≡◌, ◌⊎◌, refl, inl, inr, Bool, true, false, Option, none, some}

pub data Outcome {ℓ κ} (E : Type ℓ) (A : Type κ) : Type (ℓ ⊔ κ) where
  ok : A → Outcome E A
  err : E → Outcome E A
  panic : Outcome E A

module _ {ε} {E : Type ε} where
  infixl 5 ◌>>=◌ ◌>>◌
  abbrev pub ◌>>=◌ {ℓ κ} : {A : Type ℓ} {B : Type κ} → Outcome E A → (A → Outcome E B) → Outcome E B
  panic >>= next = panic
  err e >>= next = err e
  ok value >>= next = next value

  abbrev pub ◌>>◌ {κ} : {B : Type κ} → Outcome E (Unit {0}) → Outcome E B → Outcome E B
  first >> second = first >>= λ _. second

  -- `if !b { return Err(e) }`
  abbrev pub ensure : Bool → E → Outcome E (Unit {0})
  ensure true e = ok tt
  ensure false e = err e

  -- `if b { return Err(e) }`
  abbrev pub reject_if : Bool → E → Outcome E (Unit {0})
  reject_if true e = err e
  reject_if false e = ok tt

  -- `ok_or(e)`, and `map_err` of a parser whose error is in `e`.
  abbrev pub ok_or {ℓ} : {A : Type ℓ} → Option A → E → Outcome E A
  ok_or none e = err e
  ok_or (some a) e = ok a

  -- `expect` and `unwrap`.
  abbrev pub or_panic {ℓ} : {A : Type ℓ} → Option A → Outcome E A
  or_panic none = panic
  or_panic (some a) = ok a

  pub Outcome-cases {ℓ} :
      {A : Type ℓ} (m : Outcome E A)
      → ((a : A) × (m ≡ ok a)) ⊎ ((e : E) × (m ≡ err e)) ⊎ (m ≡ panic)
  Outcome-cases (ok a) = inl (a, refl)
  Outcome-cases (err e) = inr (inl (e, refl))
  Outcome-cases panic = inr (inr refl)

  pub ok_injective {ℓ} : {A : Type ℓ} {a b : A} → Path (Outcome E A) (ok a) (ok b) → a ≡ b
  ok_injective h = cc
