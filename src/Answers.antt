-- ===== src/Answers.antt =====
-- A computation that answers a value with a property wherever there is one, and an error elsewhere.
use tinfoil_rs.Prelude.{
  ◌≡◌, ◌≢◌, ◌⊎◌, refl, inl, inr, Bool, true, false, Option, none, some, if◌then◌else◌,
}
use tinfoil_rs.Outcome.{Outcome, ok, err, panic, ◌>>=◌, ◌>>◌, ensure, reject_if, ok_or, or_panic}
use tinfoil_rs.Decides.{Decides, DecidesTo}

-- `m` answers a value with `P`, or there is none and it answers an error; it never panics.
abbrev pub Answers {ε} : {E : Type ε} {A : Type 0} → Outcome E A → (A → Type 0) → Type ε
Answers {E = E} {A = A} m P =
    ((a : A) × (m ≡ ok a) × P a) ⊎ ((e : E) × (m ≡ err e) × ((a : A) → ¬ P a))

-- A step succeeds, with a value that has a property.
abbrev pub Succeeds {ε} : {E : Type ε} {A : Type 0} → Outcome E A → (A → Type 0) → Type 0
Succeeds (ok a) P = P a
Succeeds (err e) P = ⊥
Succeeds panic P = ⊥

module _ {ε} {E : Type ε} where
  abbrev pub IsSafe : {A : Type 0} → Outcome E A → Type ε
  IsSafe m = ¬ (m ≡ panic)

  pub ok_IsSafe : {A : Type 0} (a : A) → IsSafe (ok a)
  ok_IsSafe a h = cc

  pub ok_or-IsSafe : {A : Type 0} (o : Option A) (e : E) → IsSafe (ok_or o e)
  ok_or-IsSafe none e h = cc
  ok_or-IsSafe (some a) e h = cc

  pub or_panic-IsSafe : {A : Type 0} (o : Option A) → o ≢ none → IsSafe (or_panic o)
  or_panic-IsSafe none there h = there refl
  or_panic-IsSafe (some a) there h = cc

  pub or_panic_found :
      {A : Type 0} {a : A} (o : Option A) → Path (Outcome E A) (or_panic o) (ok a) → o ≡ some a
  or_panic_found none h = cc
  or_panic_found (some b) h = cc

  pub ensure-IsSafe : (b : Bool) (e : E) → IsSafe (ensure b e)
  ensure-IsSafe true e h = cc
  ensure-IsSafe false e h = cc

  pub reject_if-IsSafe : (b : Bool) (e : E) → IsSafe (reject_if b e)
  reject_if-IsSafe true e h = cc
  reject_if-IsSafe false e h = cc

  pub >>=-IsSafe :
      {A B : Type 0} (m : Outcome E A) (f : A → Outcome E B)
      → IsSafe m
      → ((a : A) → IsSafe (f a))
      → IsSafe (m >>= f)
  >>=-IsSafe (ok a) f safe d h = d a h
  >>=-IsSafe (err e) f safe d h = cc
  >>=-IsSafe panic f safe d h = safe refl

  -- A computation that never panics decides what it passes exactly for.
  pub IsSafe-Decides :
      {P : Type 0} (m : Outcome E (Unit {0}))
      → IsSafe m
      → (Path (Outcome E (Unit {0})) m (ok tt) → P)
      → (P → Path (Outcome E (Unit {0})) m (ok tt))
      → Decides m P
  IsSafe-Decides (ok _) safe sound complete = inl (refl, sound refl)
  IsSafe-Decides (err e) safe sound complete = inr (e, refl, λ p. cc (complete p))
  IsSafe-Decides panic safe sound complete = absurd (safe refl)

  pub >>-IsSafe :
      {B : Type 0} (m : Outcome E (Unit {0})) (k : Outcome E B)
      → IsSafe m
      → IsSafe k
      → IsSafe (m >> k)
  >>-IsSafe m k safe then_safe = >>=-IsSafe m (λ _. k) safe λ _. then_safe

  pub ok_or_then-IsSafe :
      {A B : Type 0} (o : Option A) (e : E) (f : A → Outcome E B)
      → ((a : A) → IsSafe (f a))
      → IsSafe (ok_or o e >>= f)
  ok_or_then-IsSafe none e f safe h = cc
  ok_or_then-IsSafe (some a) e f safe h = safe a h

  pub if-IsSafe :
      {A : Type 0} (b : Bool) (m k : Outcome E A)
      → IsSafe m
      → IsSafe k
      → IsSafe (if b then m else k)
  if-IsSafe true m k safe other = safe
  if-IsSafe false m k safe other = other

  pub err-IsSafe : {A : Type 0} (e : E) → IsSafe {A = A} (err e)
  err-IsSafe e h = cc

  pub Decides-IsSafe : {P : Type 0} {m : Outcome E (Unit {0})} → Decides m P → IsSafe m
  Decides-IsSafe (inl (e, p)) h = cc
  Decides-IsSafe (inr (r, e, no_p)) h = cc

  pub Answers-IsSafe : {A : Type 0} {P : A → Type 0} {m : Outcome E A} → Answers m P → IsSafe m
  Answers-IsSafe (inl (a, e, p)) h = cc
  Answers-IsSafe (inr (r, e, none_is)) h = cc

  pub DecidesTo-Answers :
      {A : Type 0} {a : A} {P : Type 0} {m : Outcome E A}
      → DecidesTo m a P
      → Answers m (λ b. P × (a ≡ b))
  DecidesTo-Answers {a = a} (inl (e, p)) = inl (a, e, (p, refl))
  DecidesTo-Answers (inr (r, e, no_p)) = inr (r, e, λ a h. no_p h.0)

  pub Succeeds-Answers :
      {A B : Type 0} {Q : A → B → Type 0} (m : Outcome E A) (f : A → Outcome E B)
      → IsSafe m
      → ((a : A) → Answers (f a) (Q a))
      → Answers (m >>= f) (λ b. Succeeds m λ a. Q a b)
  Succeeds-Answers (ok a) f safe d = d a
  Succeeds-Answers (err e) f safe d = inr (e, refl, λ b h. h)
  Succeeds-Answers panic f safe d = absurd (safe refl)

  pub given-Answers :
      {A : Type 0} {P : Type 0} {Q : A → Type 0} {m : Outcome E (Unit {0})} (k : Outcome E A)
      → Decides m P
      → (P → Answers k Q)
      → Answers (m >> k) (λ b. P × Q b)
  given-Answers k (inl (e, p)) d = elim (d p) [
    | inl (b, f, q) ↦ inl (b, rw e f, (p, q))
    | inr (r, f, no_q) ↦ inr (r, rw e f, λ b h. no_q b h.1)
  ]
  given-Answers k (inr (r, e, no_p)) d = inr (r, rw e, λ b h. no_p h.0)

  pub Succeeds-cases :
      {A : Type 0} {P : A → Type 0} {Q : Type 0} (m : Outcome E A)
      → Succeeds m P
      → ((a : A) → P a → Q)
      → Q
  Succeeds-cases (ok a) p k = k a p
  Succeeds-cases (err e) p k = absurd p
  Succeeds-cases panic p k = absurd p

  -- What a sequence of two steps answers comes from the first and the second.
  pub >>=-parts :
      {A B : Type 0} {b : B} {f : A → Outcome E B} (m : Outcome E A)
      → (m >>= f) ≡ ok b
      → (a : A) × (m ≡ ok a) × (f a ≡ ok b)
  >>=-parts panic h = cc
  >>=-parts (err r) h = cc
  >>=-parts (ok a) h = (a, refl, h)

  -- What passed steps say.
  pub ok_or_found : {A : Type 0} (o : Option A) (e : E) {a : A} → ok_or o e ≡ ok a → o ≡ some a
  ok_or_found none e h = cc
  ok_or_found (some a) e h = cc

  pub ensure_held : (b : Bool) (e : E) → ensure b e ≡ ok tt → b ≡ true
  ensure_held true e h = refl
  ensure_held false e h = cc
