-- ===== src/Sigstore/Fulcio/Trusted.antt =====
-- Every certificate that is chained passes, and no chain makes the code panic
-- (src/verifier/sigstore/fulcio.rs).
use tinfoil_rs.Prelude.{
  ℕ, ◌≡◌, ◌≢◌, refl, false, inl, inr, true, List, [], ◌∷◌, arith, Bool-cases, ◌&&◌,
}
use tinfoil_rs.Outcome.{Outcome, ok, ok_or, Outcome-cases}
use tinfoil_rs.Decides.{Decides}
use tinfoil_rs.Answers.{IsSafe, >>=-IsSafe, ok_or-IsSafe, IsSafe-Decides, >>=-parts}
use tinfoil_rs.Errors.{Error}
use tinfoil_rs.Sigstore.Dsse.{failure}
use tinfoil_rs.Sigstore.Dsse.Scts.{Any}
use tinfoil_rs.Sigstore.Trust.{FulcioCa}
use tinfoil_rs.Sigstore.Fulcio.{
  FulcioPackage, is_in_time, verify_issued_by, parse_chain, verify_root, walk_chain, verify_certs,
  verify_against_chain, has_chain, any_ca, verify_fulcio_chain,
}
use tinfoil_rs.Sigstore.Fulcio.Chain.{
  is_in_time_iff, IsIssuedBy, IsWalked, root, step, IsAnchored, IsTrustedBy, IsChained,
  verify_issued_by-IsSafe, walk_chain-IsSafe, verify_fulcio_chain_sound,
}

module _ {Certificate : Type 0} (p : FulcioPackage Certificate) where
  open p use {from_der, issuer, subject, name_eq_iff}

  verify_issued_by_complete :
      (child issuer_cert : Certificate)
      → IsIssuedBy p child issuer_cert
      → verify_issued_by p child issuer_cert ≡ ok tt
  unfolding verify_issued_by
  verify_issued_by_complete child issuer_cert i =
      rw
        (
          (name_eq_iff (issuer child) (subject issuer_cert)).1 i.names,
          i.encoded,
          i.algorithms,
          i.is_digest,
          i.is_curve,
          i.verifies,
        )
        refl

  walk_chain_complete :
      {cert : Certificate} {certs : List Certificate}
      → IsWalked p cert certs
      → walk_chain p cert certs ≡ ok tt
  unfolding walk_chain verify_root
  walk_chain_complete (root {cert = cert} self issued) =
      rw
        (
          (name_eq_iff (subject cert) (issuer cert)).1 self,
          verify_issued_by_complete cert cert issued,
        )
        refl
  walk_chain_complete (step {cert = cert} {next = next} issued walked) =
      rw (verify_issued_by_complete cert next issued, walk_chain_complete walked) refl

  verify_against_chain_complete :
      (leaf : Certificate) (chain_der : List (List ℕ))
      → IsAnchored p leaf chain_der
      → verify_against_chain p leaf chain_der ≡ ok tt
  unfolding verify_against_chain verify_certs
  verify_against_chain_complete leaf chain_der a =
      rw (a.parsed, verify_issued_by_complete leaf a.first a.issued, walk_chain_complete a.walked)
        refl

  parse_chain-IsSafe : (ders : List (List ℕ)) → IsSafe (parse_chain p ders)
  unfolding parse_chain
  parse_chain-IsSafe [] h = cc
  parse_chain-IsSafe (der ∷ ders) h = ground (arith, parse_chain-IsSafe ders)

  parse_chain_full : (der : List ℕ) (ders : List (List ℕ)) → parse_chain p (der ∷ ders) ≢ ok []
  unfolding parse_chain
  parse_chain_full der ders h =
      let (cert, e1, h1) =
        >>=-parts (ok_or (from_der der) (failure "Failed to parse Fulcio chain cert")) h in
      let (certs, e2, h2) = >>=-parts (parse_chain p ders) h1 in cc

  -- A chain that is not empty does not panic at its first certificate.
  verify_against_chain-IsSafe :
      (leaf : Certificate) (ders : List (List ℕ))
      → elim ders [ [] ↦ false | first ∷ others ↦ true ] ≡ true
      → IsSafe (verify_against_chain p leaf ders)
  unfolding verify_against_chain verify_certs
  verify_against_chain-IsSafe leaf [] full h = cc
  verify_against_chain-IsSafe leaf (der ∷ ders) full h =
      elim (Outcome-cases (parse_chain p (der ∷ ders))) [
        | inl ([], e) ↦ absurd (parse_chain_full der ders e)
        | inl (first ∷ certs, e) ↦
            ground
              (arith, e, h, verify_issued_by-IsSafe p leaf first, walk_chain-IsSafe p first certs)
        | inr (inl (r, e)) ↦ ground (arith, e, h)
        | inr (inr e) ↦ parse_chain-IsSafe (der ∷ ders) e
      ]

  any_ca-IsSafe :
      (cert : Certificate) (time : ℕ) (cas : List FulcioCa) → IsSafe (any_ca p cert time cas)
  unfolding any_ca
  any_ca-IsSafe cert time [] h = cc
  any_ca-IsSafe cert time (ca ∷ cas) h = elim (Bool-cases (is_in_time time ca && has_chain ca)) [
    | inr out ↦ any_ca-IsSafe cert time cas (ground (arith, out, h))
    | inl within ↦ elim (Outcome-cases (verify_against_chain p cert ca.cert_chain_der)) [
      | inl (_, passes) ↦ absurd (ground (arith, within, passes, h))
      | inr (inl (e, refused)) ↦ any_ca-IsSafe cert time cas (ground (arith, within, refused, h))
      | inr (inr panics) ↦
          verify_against_chain-IsSafe cert ca.cert_chain_der (ground (arith, within)) panics
    ]
  ]

  anchored_full :
      (leaf : Certificate) (ders : List (List ℕ))
      → IsAnchored p leaf ders
      → elim ders [ [] ↦ false | first ∷ others ↦ true ] ≡ true
  unfolding parse_chain
  anchored_full leaf [] a = let parsed = a.parsed in cc
  anchored_full leaf (der ∷ ders) a = refl

  any_ca_complete :
      (cert : Certificate) (time : ℕ) (cas : List FulcioCa)
      → Any (IsTrustedBy p cert time) cas
      → any_ca p cert time cas ≡ ok tt
  unfolding any_ca
  any_ca_complete cert time [] trusted = absurd trusted
  any_ca_complete cert time (ca ∷ cas) (inl (in_time, anchored)) =
      rw
        (
          (is_in_time_iff time ca).1 in_time,
          anchored_full cert ca.cert_chain_der anchored,
          verify_against_chain_complete cert ca.cert_chain_der anchored,
        )
        refl
  any_ca_complete cert time (ca ∷ cas) (inr later) =
      let rest = any_ca_complete cert time cas later in
      elim (Bool-cases (is_in_time time ca && has_chain ca)) [
        | inr out ↦ ground (arith, out, rest)
        | inl within ↦ elim (Outcome-cases (verify_against_chain p cert ca.cert_chain_der)) [
          | inl (_, passes) ↦ ground (arith, within, passes)
          | inr (inl (e, refused)) ↦ ground (arith, within, refused, rest)
          | inr (inr panics) ↦
              absurd
                (verify_against_chain-IsSafe cert ca.cert_chain_der (ground (arith, within)) panics)
        ]
      ]

  -- Over authorities that are loaded without a panic: a certificate passes exactly where it hangs on
  -- the chain of one of them that is valid at the time, each certificate, from this one on, naming the
  -- next one as its issuer and having a signature under its key, and the last one both of itself;
  -- elsewhere there is an error, never a panic.
  pub verify_fulcio_chain-Decides :
      (load_fulcio_cas : Outcome Error (List FulcioCa)) (cert_der : List ℕ) (time : ℕ)
      → IsSafe load_fulcio_cas
      → Decides
          (verify_fulcio_chain p load_fulcio_cas cert_der time)
          (IsChained p load_fulcio_cas cert_der time)
  unfolding verify_fulcio_chain
  verify_fulcio_chain-Decides load_fulcio_cas cert_der time safe =
      IsSafe-Decides (verify_fulcio_chain p load_fulcio_cas cert_der time)
        (>>=-IsSafe _ _ (ok_or-IsSafe _ _)
          λ cert. >>=-IsSafe load_fulcio_cas _ safe λ cas. any_ca-IsSafe cert time cas)
        (verify_fulcio_chain_sound p load_fulcio_cas cert_der time)
        λ c. rw (c.is_cert, c.loaded, any_ca_complete c.cert time c.cas c.trusted) refl
