-- ===== src/CacheSecret/Shared.antt =====
-- The processes of one home directory agree on a secret (src/user_cache_secret.rs).
use Prim.Native.String.{String}
use mathlib.Core.Path.{subst}
use tinfoil_rs.Prelude.{◌≡◌, ◌∙◌, sym, ap, refl, List, [], ◌∷◌, Option, none, some}
use tinfoil_rs.Outcome.{ok, err, panic, ok_injective}
use tinfoil_rs.CacheSecret.Fresh.{IsHex, IsFresh, hex-IsFresh}
use tinfoil_rs.CacheSecret.{
  Node, IoError, already_exists, Io, read_secret_file, existing_secret, publish_candidate,
}

-- The node at the path, and the secrets that processes got from the file, the last one first.
pub record Home : Type 0 where
  pub place : Option Node
  pub answers : List String

abbrev pub AllAre : String → List String → Type 0
AllAre secret [] = Unit
AllAre secret (s ∷ ss) = (s ≡ secret) × AllAre secret ss

-- Nothing has been answered, or the file holds the secret of every answer.
pub data Agree (h : Home) : Type 0 where
  nothing_yet : h.answers ≡ [] → Agree h
  on :
      (secret : String)
      → read_secret_file h.place ≡ ok (some secret)
      → AllAre secret h.answers
      → Agree h

existing_secret-eq-ok :
    (m : Io (Option String)) {a : String} → existing_secret m ≡ ok a → m ≡ ok (some a)
unfolding existing_secret
existing_secret-eq-ok (ok none) h = cc
existing_secret-eq-ok (ok (some existing)) h = cc
existing_secret-eq-ok (err e) h = cc
existing_secret-eq-ok panic h = cc

some_or_none : {a : String} → none ≡ some a → ⊥
some_or_none h = cc

some_injective : {a b : String} → some a ≡ some b → a ≡ b
some_injective h = cc

-- A publication that answers a secret leaves the file with it; one that finds a node leaves it.
publish_candidate-read :
    (candidate answer : String) (refusal : Option IoError) (place : Option Node)
    → IsFresh candidate
    → (publish_candidate candidate refusal place).0 ≡ ok answer
    → read_secret_file (publish_candidate candidate refusal place).1 ≡ ok (some answer)
unfolding publish_candidate
publish_candidate-read candidate answer (some already_exists) place fresh h =
    existing_secret-eq-ok _ h
publish_candidate-read candidate answer (some e) place fresh h = cc
publish_candidate-read candidate answer none none fresh h =
    fresh ∙ ap (λ s. ok (some s)) (ok_injective h)
publish_candidate-read candidate answer none (some node) fresh h = existing_secret-eq-ok _ h

publish_candidate-keeps :
    (candidate secret : String) (refusal : Option IoError) (place : Option Node)
    → read_secret_file place ≡ ok (some secret)
    → (publish_candidate candidate refusal place).1 ≡ place
unfolding publish_candidate
publish_candidate-keeps candidate secret refusal none h = absurd (some_or_none (ok_injective h))
publish_candidate-keeps candidate secret none (some node) h = refl
publish_candidate-keeps candidate secret (some e) (some node) h = refl

same_secret :
    {s t : String} (place : Option Node)
    → read_secret_file place ≡ ok (some s)
    → read_secret_file place ≡ ok (some t)
    → s ≡ t
same_secret place h k = some_injective (ok_injective (sym h ∙ k))

nil-AllAre : (secret : String) (answers : List String) → answers ≡ [] → AllAre secret answers
nil-AllAre secret answers e = subst (AllAre secret) (sym e) tt

retype-AllAre : {s t : String} (answers : List String) → s ≡ t → AllAre s answers → AllAre t answers
retype-AllAre answers e h = subst (λ u. AllAre u answers) e h

-- After one more answer, which the file holds, if it was not changed since an earlier one.
answered :
    (answer : String) (h : Home) (place : Option Node)
    → Agree h
    → read_secret_file place ≡ ok (some answer)
    → ((secret : String) → read_secret_file h.place ≡ ok (some secret) → place ≡ h.place)
    → Agree (record { place = place; answers = answer ∷ h.answers })
answered answer h place (nothing_yet none_yet) now keeps =
    on answer now (refl, nil-AllAre answer h.answers none_yet)
answered answer h place (on secret held all) now keeps =
    let same = same_secret place (ap read_secret_file (keeps secret held) ∙ held) now in
    on answer now (refl, retype-AllAre h.answers same all)

-- `Generated` are the secrets that processes generate and publish.
module _ (Generated : String → Type 0) where
  -- One step of some process: it reads a secret, or it links its candidate and answers its own secret
  -- or that of another; or it fails and answers none. Other steps do not touch the path.
  pub data Step (h k : Home) : Type 0 where
    reads :
        (secret : String)
        → read_secret_file h.place ≡ ok (some secret)
        → k ≡ record { place = h.place; answers = secret ∷ h.answers }
        → Step h k
    publishes :
        (candidate answer : String) (refusal : Option IoError)
        → Generated candidate
        → (publish_candidate candidate refusal h.place).0 ≡ ok answer
        → k ≡ record {
          place = (publish_candidate candidate refusal h.place).1;
          answers = answer ∷ h.answers;
        }
        → Step h k
    fails :
        (candidate : String) (refusal : Option IoError) (e : IoError)
        → (publish_candidate candidate refusal h.place).0 ≡ err e
        → k ≡ record h { place = (publish_candidate candidate refusal h.place).1 }
        → Step h k

  pub data Reach (start : Home) : Home → Type 0 where
    here : Reach start start
    next : {h k : Home} → Reach start h → Step h k → Reach start k

  module _ (are_hex : (secret : String) → Generated secret → IsHex secret) where
    Step-Agree : {h k : Home} → Step h k → Agree h → Agree k
    Step-Agree {h} (reads secret held same) a =
        subst Agree (sym same) (answered secret h h.place a held (λ _ _. refl))
    Step-Agree {h} (publishes candidate answer refusal generated done same) a =
        subst Agree (sym same) (
          answered answer h (publish_candidate candidate refusal h.place).1 a
            (publish_candidate-read candidate answer refusal h.place
              (hex-IsFresh candidate (are_hex candidate generated)) done)
            (λ secret held. publish_candidate-keeps candidate secret refusal h.place held))
    Step-Agree (fails candidate refusal e failed same) (nothing_yet none_yet) =
        nothing_yet (ap (λ k. k.answers) same ∙ none_yet)
    Step-Agree {h} (fails candidate refusal e failed same) (on secret held all) =
        on secret
          (ap (λ k. read_secret_file k.place) same
            ∙ ap read_secret_file (publish_candidate-keeps candidate secret refusal h.place held)
            ∙ held)
          (subst (AllAre secret) (sym (ap (λ k. k.answers) same)) all)

    -- However the steps of any number of processes are interleaved, and whatever is at the path at
    -- first, all secrets that they get from the file are one, which the file holds once there is an
    -- answer, if every generated secret is a text of lowercase hexadecimal digits that is not empty.
    pub Reach-Agree :
        (place : Option Node) {h : Home}
        → Reach (record { place = place; answers = [] }) h
        → Agree h
    Reach-Agree place here = nothing_yet refl
    Reach-Agree place (next before step) = Step-Agree step (Reach-Agree place before)
