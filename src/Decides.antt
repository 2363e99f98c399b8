-- ===== src/Decides.antt =====
-- A check that decides a property: it passes exactly where the property holds, and answers with an
-- error, never a panic, elsewhere.
use tinfoil_rs.Prelude.{
  ◌≡◌, ◌↔◌, ◌⊎◌, refl, inl, inr, Bool, true, false, Option, none, some, if◌then◌else◌,
}
use tinfoil_rs.Outcome.{Outcome, ok, err, ◌>>=◌, ◌>>◌, ensure, reject_if, ok_or}

-- `m` answers `a` where `P` holds, and an error elsewhere.
abbrev pub DecidesTo {ε} : {E : Type ε} {A : Type 0} → Outcome E A → A → Type 0 → Type ε
DecidesTo {E = E} m a P = ((m ≡ ok a) × P) ⊎ ((e : E) × (m ≡ err e) × ¬ P)

abbrev pub Decides {ε} : {E : Type ε} → Outcome E (Unit {0}) → Type 0 → Type ε
Decides {E = E} m P = ((m ≡ ok tt) × P) ⊎ ((e : E) × (m ≡ err e) × ¬ P)

module _ {ε} {E : Type ε} where
  pub ensure-Decides : {P : Type 0} (b : Bool) (e : E) → (b ≡ true) ↔ P → Decides (ensure b e) P
  ensure-Decides true e iff = inl (refl, iff.0 refl)
  ensure-Decides false e iff = inr (e, refl, λ p. cc (iff.1 p))

  pub reject_if-Decides :
      {P : Type 0} (b : Bool) (e : E) → (b ≡ false) ↔ P → Decides (reject_if b e) P
  reject_if-Decides true e iff = inr (e, refl, λ p. cc (iff.1 p))
  reject_if-Decides false e iff = inl (refl, iff.0 refl)

  pub >>=-Decides :
      {P Q : Type 0} {A B : Type 0} {a : A} {b : B} (m : Outcome E A) (f : A → Outcome E B)
      → DecidesTo m a P
      → DecidesTo (f a) b Q
      → DecidesTo (m >>= f) b (P × Q)
  >>=-Decides m f (inl (e, p)) (inl (g, q)) = inl (rw e g, (p, q))
  >>=-Decides m f (inl (e, p)) (inr (r, g, no_q)) = inr (r, rw e g, λ h. no_q h.1)
  >>=-Decides m f (inr (r, e, no_p)) k = inr (r, rw e, λ h. no_p h.0)

  pub >>-Decides :
      {P Q : Type 0} {A : Type 0} {a : A} {m : Outcome E (Unit {0})} {k : Outcome E A}
      → Decides m P
      → DecidesTo k a Q
      → DecidesTo (m >> k) a (P × Q)
  >>-Decides {m = m} {k = k} d d' = >>=-Decides m (λ _. k) d d'

  pub ok-Decides : {A : Type 0} (a : A) → DecidesTo {E = E} (ok a) a Unit
  ok-Decides a = inl (refl, tt)

  pub Decides-map :
      {P Q : Type 0} {A : Type 0} {a : A} {m : Outcome E A}
      → (P → Q)
      → (Q → P)
      → DecidesTo m a P
      → DecidesTo m a Q
  Decides-map to from (inl (e, p)) = inl (e, to p)
  Decides-map to from (inr (r, e, no_p)) = inr (r, e, λ q. no_p (from q))

-- A property of an option's value, if it is set.
abbrev pub IfSet {ℓ} : {A : Type ℓ} → Option A → (A → Type 0) → Type 0
IfSet none P = Unit
IfSet (some a) P = P a

module _ {ε} {E : Type ε} where
  -- The check of an option's value, if it is set.
  pub if_set-Decides {ℓ} :
      {A : Type ℓ} {P : A → Type 0} (o : Option A) (check : A → Outcome E (Unit {0}))
      → ((a : A) → Decides (check a) (P a))
      → Decides (elim o [ none ↦ ok tt | some a ↦ check a ]) (IfSet o P)
  if_set-Decides none check d = inl (refl, tt)
  if_set-Decides (some a) check d = d a

  -- A choice between two checks.
  pub if-Decides :
      {P Q : Type 0} {m k : Outcome E (Unit {0})} (b : Bool)
      → Decides m P
      → Decides k Q
      → Decides (if b then m else k) ((b ≡ true → P) × (b ≡ false → Q))
  if-Decides true (inl (e, p)) k = inl (e, (λ h. p, λ h. cc))
  if-Decides true (inr (r, e, no_p)) k = inr (r, e, λ h. no_p (h.0 refl))
  if-Decides false m (inl (e, q)) = inl (e, (λ h. cc, λ h. q))
  if-Decides false m (inr (r, e, no_q)) = inr (r, e, λ h. no_q (h.1 refl))

abbrev pub IsNone {ℓ} : {A : Type ℓ} → Option A → Type 0
IsNone none = Unit
IsNone (some a) = ⊥

-- An option is set, to a value with a property.
abbrev pub Has {ℓ} : {A : Type ℓ} → Option A → (A → Type 0) → Type 0
Has none P = ⊥
Has (some a) P = P a

module _ {ε} {E : Type ε} where
  -- The checks of a value that has to be there.
  pub ok_or-Decides {ℓ} :
      {A : Type ℓ} {B : Type 0} {b : B} {P : A → Type 0} {k : A → Outcome E B} (o : Option A)
      (e : E)
      → ((a : A) → DecidesTo (k a) b (P a))
      → DecidesTo (ok_or o e >>= k) b (Has o P)
  ok_or-Decides none e d = inr (e, refl, λ h. h)
  ok_or-Decides (some a) e d = d a

  -- The same, where the checks go on outside.
  pub ok_or_then-Decides {ℓ} :
      {A : Type ℓ} {B C : Type 0} {b : B} {P : A → Type 0} (f : A → Outcome E C)
      (k : C → Outcome E B) (o : Option A) (e : E)
      → ((a : A) → DecidesTo (f a >>= k) b (P a))
      → DecidesTo (ok_or o e >>= f >>= k) b (Has o P)
  ok_or_then-Decides f k none e d = inr (e, refl, λ h. h)
  ok_or_then-Decides f k (some a) e d = d a

  pub absent-Decides {ℓ} :
      {A : Type ℓ} (o : Option A) (e : E)
      → Decides (elim o [ none ↦ ok tt | some _ ↦ err e ]) (IsNone o)
  absent-Decides none e = inl (refl, tt)
  absent-Decides (some a) e = inr (e, refl, λ h. h)

  pub >>-then-Decides :
      {P Q : Type 0} {A C : Type 0} {b : A} {m : Outcome E (Unit {0})} (n : Outcome E C)
      (k : C → Outcome E A)
      → Decides m P
      → DecidesTo (n >>= k) b Q
      → DecidesTo (m >> n >>= k) b (P × Q)
  >>-then-Decides n k (inl (e, p)) (inl (g, q)) = inl (rw e g, (p, q))
  >>-then-Decides n k (inl (e, p)) (inr (r, g, no_q)) = inr (r, rw e g, λ h. no_q h.1)
  >>-then-Decides n k (inr (r, e, no_p)) d = inr (r, rw e, λ h. no_p h.0)

  -- The further checks may use what the first one found.
  pub >>-given-Decides :
      {P Q : Type 0} {A : Type 0} {a : A} {m : Outcome E (Unit {0})} (k : Outcome E A)
      → Decides m P
      → (P → DecidesTo k a Q)
      → DecidesTo (m >> k) a (P × Q)
  >>-given-Decides k (inl (e, p)) d = >>-Decides (inl (e, p)) (d p)
  >>-given-Decides k (inr (r, e, no_p)) d = inr (r, rw e, λ h. no_p h.0)

  -- What holds where a check passes.
  pub Decides-ok :
      {P : Type 0} {m : Outcome E (Unit {0})}
      → Decides m P
      → Path (Outcome E (Unit {0})) m (ok tt)
      → P
  Decides-ok (inl (e, p)) h = p
  Decides-ok (inr (r, e, no_p)) h = cc
