-- ===== src/Dcode/Order.antt =====
-- The chunks are put in the order of their indices (src/verifier/dcode.rs).
use Prim.Native.String.{String}
use mathlib.Core.List.{Permᴰ}
use mathlib.Core.List as List
use tinfoil_rs.Prelude.{
  ℕ, ◌≤◌, ◌<◌, ◌≡◌, refl, inl, inr, false, List, [], ◌∷◌, Option, some, leb, ◌==◌, arith,
  Bool-cases,
}
use tinfoil_rs.Outcome.{ok, ok_injective}
use tinfoil_rs.Answers.{>>=-parts}
use tinfoil_rs.Text.{as_bytes}
use tinfoil_rs.Dcode.{
  Chunk, insert_chunk, sort_by_key, has_duplicate, combined, collect, decode_chunks,
  decode_from_sans,
}

insert_chunk-Perm : (c : Chunk) (cs : List Chunk) → Permᴰ (insert_chunk c cs) (c ∷ cs)
unfolding insert_chunk
insert_chunk-Perm c [] = Permᴰ.cons refl Permᴰ.nil
insert_chunk-Perm c (d ∷ cs) = elim (Bool-cases (leb c.0 d.0)) [
  | inl low ↦ rw low (List.Permᴰ.refl (c ∷ d ∷ cs))
  | inr high ↦
      rw high (Permᴰ.trans (Permᴰ.cons refl (insert_chunk-Perm c cs)) (Permᴰ.swap refl refl))
]

sort_by_key-Perm : (cs : List Chunk) → Permᴰ (sort_by_key cs) cs
unfolding sort_by_key
sort_by_key-Perm [] = Permᴰ.nil
sort_by_key-Perm (c ∷ cs) =
    Permᴰ.trans (insert_chunk-Perm c (sort_by_key cs)) (Permᴰ.cons refl (sort_by_key-Perm cs))

-- Every index is at least the bound, and they do not go down.
abbrev pub AreSorted : ℕ → List Chunk → Type 0
AreSorted bound [] = Unit
AreSorted bound (c ∷ cs) = (bound ≤ c.0) × AreSorted c.0 cs

-- Every index is larger than the one before it.
abbrev pub AreAscending : List Chunk → Type 0
AreAscending [] = Unit
AreAscending (c ∷ []) = Unit
AreAscending (c ∷ (d ∷ cs)) = (c.0 < d.0) × AreAscending (d ∷ cs)

insert_chunk-AreSorted :
    (bound : ℕ) (c : Chunk) (cs : List Chunk)
    → bound ≤ c.0
    → AreSorted bound cs
    → AreSorted bound (insert_chunk c cs)
unfolding insert_chunk
insert_chunk-AreSorted bound c [] h sorted = (h, tt)
insert_chunk-AreSorted bound c (d ∷ cs) h (low, sorted) = elim (Bool-cases (leb c.0 d.0)) [
  | inl before ↦ rw before (h, (ground (arith, before), sorted))
  | inr after ↦ rw after (low, insert_chunk-AreSorted d.0 c cs (ground (arith, after)) sorted)
]

sort_by_key-AreSorted : (cs : List Chunk) → AreSorted 0 (sort_by_key cs)
unfolding sort_by_key
sort_by_key-AreSorted [] = tt
sort_by_key-AreSorted (c ∷ cs) =
    insert_chunk-AreSorted 0 c (sort_by_key cs) (omega arith) (sort_by_key-AreSorted cs)

ascends :
    (bound : ℕ) (cs : List Chunk) → AreSorted bound cs → has_duplicate cs ≡ false → AreAscending cs
unfolding has_duplicate
ascends bound [] sorted h = tt
ascends bound (c ∷ []) sorted h = tt
ascends bound (c ∷ (d ∷ cs)) (low, (after, sorted)) h = elim (Bool-cases (c.0 == d.0)) [
  | inl same ↦ absurd (ground (arith, same))
  | inr differ ↦
      (ground (arith, differ), ascends c.0 (d ∷ cs) (after, sorted) (ground (arith, differ)))
]

module _ (to_uppercase : String → String) (decode : List ℕ → Option (List ℕ)) where
  -- The chunks that a value was decoded from.
  pub record IsDecoded (sans : List String) (prefix : String) (bytes : List ℕ) : Type 0 where
    pub found : List Chunk
    pub ordered : List Chunk
    pub is_found : collect to_uppercase prefix sans ≡ ok found
    pub same_chunks : Permᴰ ordered found
    pub ascending : AreAscending ordered
    pub decodes : decode (as_bytes (combined ordered)) ≡ some bytes

  decode_chunks-IsDecoded :
      (sans : List String) (prefix : String) (bytes : List ℕ) (chunks : List Chunk)
      → collect to_uppercase prefix sans ≡ ok chunks
      → decode_chunks decode chunks ≡ some bytes
      → IsDecoded sans prefix bytes
  unfolding decode_chunks
  decode_chunks-IsDecoded sans prefix bytes [] is_found h = cc
  decode_chunks-IsDecoded sans prefix bytes (c ∷ cs) is_found h =
      elim (Bool-cases (has_duplicate (sort_by_key (c ∷ cs)))) [
        | inl twice ↦ absurd (ground (arith, twice))
        | inr once ↦ record {
          found = c ∷ cs;
          ordered = sort_by_key (c ∷ cs);
          is_found = is_found;
          same_chunks = sort_by_key-Perm (c ∷ cs);
          ascending = ascends 0 (sort_by_key (c ∷ cs)) (sort_by_key-AreSorted (c ∷ cs)) once;
          decodes = ground (arith, once);
        }
      ]

  -- A value that is decoded from names is decoded from the chunks found in them, each one once, put in
  -- an order where every index is larger than the one before; so no two chunks have one index.
  pub decode_from_sans-IsDecoded :
      (sans : List String) (prefix : String) (bytes : List ℕ)
      → decode_from_sans to_uppercase decode sans prefix ≡ ok (some bytes)
      → IsDecoded sans prefix bytes
  unfolding decode_from_sans
  decode_from_sans-IsDecoded sans prefix bytes h =
      let (chunks, is_found, decoded) = >>=-parts (collect to_uppercase prefix sans) h in
      decode_chunks-IsDecoded sans prefix bytes chunks is_found (ok_injective decoded)
