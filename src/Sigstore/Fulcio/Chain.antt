-- ===== src/Sigstore/Fulcio/Chain.antt =====
-- What a signing certificate is trusted by (src/verifier/sigstore/fulcio.rs).
use Prim.Native.String.{String}
use tinfoil_rs.Prelude.{
  ℕ, ◌≤◌, ◌≡◌, ◌↔◌, refl, inl, inr, true, false, ◌&&◌, List, [], ◌∷◌, Option, none, some, arith,
  ltb, Bool-cases, if◌then◌else◌,
}
use tinfoil_rs.Outcome.{Outcome, ok, ensure, ok_or, Outcome-cases}
use tinfoil_rs.Decides.{IfSet}
use tinfoil_rs.Answers.{IsSafe, >>=-parts, ok_or_found, ensure_held}
use tinfoil_rs.Errors.{Error}
use tinfoil_rs.Sigstore.Dsse.{failure}
use tinfoil_rs.Sigstore.Dsse.Scts.{Any}
use tinfoil_rs.Sigstore.Trust.{FulcioCa}
use tinfoil_rs.Sigstore.Fulcio.{
  Supported, curve, FulcioPackage, is_in_time, verify_ecdsa, digest_of, curve_of, verify_issued_by,
  parse_chain, verify_root, walk_chain, verify_certs, verify_against_chain, has_chain, any_ca,
  verify_fulcio_chain,
}

-- The time is within the authority's bounds.
abbrev pub IsInTime : ℕ → FulcioCa → Type 0
IsInTime time ca = (ca.valid_from ≤ time) × IfSet ca.valid_until (λ end. time ≤ end)

is_in_time_until :
    (time : ℕ) (until : Option ℕ)
    → (elim until [ none ↦ true | some end ↦ if ltb end time then false else true ] ≡ true)
      ↔ IfSet until (λ end. time ≤ end)
is_in_time_until time none = ((λ h. tt), λ h. refl)
is_in_time_until time (some end) = ((λ h. ground (arith, h)), λ h. ground (arith, h))

pub is_in_time_iff : (time : ℕ) (ca : FulcioCa) → (is_in_time time ca ≡ true) ↔ IsInTime time ca
unfolding is_in_time
is_in_time_iff time ca = elim (Bool-cases (ltb time ca.valid_from)) [
  | inl early ↦ rw early (((λ h. cc), λ h. absurd (let low = h.0 in ground (arith, low, early))))
  | inr late ↦ rw late (
    (λ h. (ground (arith, late), (is_in_time_until time ca.valid_until).0 h)),
    λ h. (is_in_time_until time ca.valid_until).1 h.1,
  )
]

module _ {Certificate : Type 0} (p : FulcioPackage Certificate) where
  open p use {
    from_der, issuer, subject, name_eq_iff, tbs_to_der, signature, public_key, curve_oid,
    algorithm_eq, algorithm_oid,
  }

  -- One certificate's signature verifies under the key of another, which it names as its issuer.
  pub record IsIssuedBy (child issuer_cert : Certificate) : Type 0 where
    pub tbs_bytes : List ℕ
    pub digest : List ℕ
    pub named : Supported
    pub names : issuer child ≡ subject issuer_cert
    pub encoded : tbs_to_der child ≡ some tbs_bytes
    pub algorithms : algorithm_eq child ≡ true
    pub is_digest : digest_of p (algorithm_oid child) tbs_bytes ≡ ok digest
    pub is_curve : curve_of p (curve_oid issuer_cert) ≡ ok named
    pub verifies :
        verify_ecdsa (curve p named) digest (signature child) (public_key issuer_cert) ≡ true

  pub verify_issued_by_sound :
      (child issuer_cert : Certificate)
      → verify_issued_by p child issuer_cert ≡ ok tt
      → IsIssuedBy child issuer_cert
  unfolding verify_issued_by
  verify_issued_by_sound child issuer_cert h =
      let (_, e1, h1) =
        >>=-parts
          (ensure (p.name_eq (issuer child) (subject issuer_cert))
            (failure "issuer DN does not match issuer subject"))
          h in
      let (tbs_bytes, e2, h2) =
        >>=-parts (ok_or (tbs_to_der child) (failure "Failed to encode TBS")) h1 in
      let (_, e3, h3) =
        >>=-parts
          (ensure (algorithm_eq child)
            (failure "outer signature algorithm does not match tbs.signature"))
          h2 in
      let (digest, e4, h4) = >>=-parts (digest_of p (algorithm_oid child) tbs_bytes) h3 in
      let (named, e5, h5) = >>=-parts (curve_of p (curve_oid issuer_cert)) h4 in
      record {
        tbs_bytes = tbs_bytes;
        digest = digest;
        named = named;
        names = (name_eq_iff (issuer child) (subject issuer_cert)).0 (ensure_held _ _ e1);
        encoded = ok_or_found _ _ e2;
        algorithms = ensure_held _ _ e3;
        is_digest = e4;
        is_curve = e5;
        verifies = ensure_held _ _ h5;
      }

  digest_of-IsSafe : (oid : String) (bytes : List ℕ) → IsSafe (digest_of p oid bytes)
  unfolding digest_of
  digest_of-IsSafe oid bytes h = ground arith

  curve_of-IsSafe : (oid : Option String) → IsSafe (curve_of p oid)
  unfolding curve_of
  curve_of-IsSafe none h = cc
  curve_of-IsSafe (some oid) h = ground arith

  pub verify_issued_by-IsSafe :
      (child issuer_cert : Certificate) → IsSafe (verify_issued_by p child issuer_cert)
  unfolding verify_issued_by
  verify_issued_by-IsSafe child issuer_cert h =
      ground
        (arith, digest_of-IsSafe (algorithm_oid child), curve_of-IsSafe (curve_oid issuer_cert))

  -- Each is issued by the next one, and the last one by itself.
  pub data IsWalked : Certificate → List Certificate → Type 0 where
    root :
        {cert : Certificate} → subject cert ≡ issuer cert → IsIssuedBy cert cert → IsWalked cert []
    step :
        {cert next : Certificate} {certs : List Certificate}
        → IsIssuedBy cert next
        → IsWalked next certs
        → IsWalked cert (next ∷ certs)

  pub walk_chain-IsSafe :
      (cert : Certificate) (certs : List Certificate) → IsSafe (walk_chain p cert certs)
  unfolding walk_chain verify_root
  walk_chain-IsSafe cert [] h = ground (arith, verify_issued_by-IsSafe cert cert)
  walk_chain-IsSafe cert (next ∷ certs) h =
      ground (arith, verify_issued_by-IsSafe cert next, walk_chain-IsSafe next certs)

  walk_chain_sound :
      (cert : Certificate) (certs : List Certificate)
      → walk_chain p cert certs ≡ ok tt
      → IsWalked cert certs
  unfolding walk_chain verify_root
  walk_chain_sound cert [] h =
      let (_, e1, h1) =
        >>=-parts
          (ensure (p.name_eq (subject cert) (issuer cert))
            (failure "Fulcio chain does not end in a self-signed root"))
          h in
      root ((name_eq_iff _ _).0 (ensure_held _ _ e1)) (verify_issued_by_sound cert cert h1)
  walk_chain_sound cert (next ∷ certs) h =
      let (_, e1, h1) = >>=-parts (verify_issued_by p cert next) h in
      step (verify_issued_by_sound cert next e1) (walk_chain_sound next certs h1)

  -- The parsed chain leads from a certificate to a root that is issued by itself.
  pub record IsAnchored (leaf : Certificate) (chain_der : List (List ℕ)) : Type 0 where
    pub first : Certificate
    pub certs : List Certificate
    pub parsed : parse_chain p chain_der ≡ ok (first ∷ certs)
    pub issued : IsIssuedBy leaf first
    pub walked : IsWalked first certs

  verify_certs_sound :
      (leaf : Certificate) (chain_der : List (List ℕ)) (certs : List Certificate)
      → parse_chain p chain_der ≡ ok certs
      → verify_certs p leaf certs ≡ ok tt
      → IsAnchored leaf chain_der
  unfolding verify_certs
  verify_certs_sound leaf chain_der [] parsed h = cc
  verify_certs_sound leaf chain_der (first ∷ certs) parsed h =
      let (_, e1, h1) = >>=-parts (verify_issued_by p leaf first) h in
      record {
        first = first;
        certs = certs;
        parsed = parsed;
        issued = verify_issued_by_sound leaf first e1;
        walked = walk_chain_sound first certs h1;
      }

  -- An authority that is valid at the time and whose chain the certificate hangs on.
  abbrev pub IsTrustedBy : Certificate → ℕ → FulcioCa → Type 0
  IsTrustedBy cert time ca = IsInTime time ca × IsAnchored cert ca.cert_chain_der

  any_ca_sound :
      (cert : Certificate) (time : ℕ) (cas : List FulcioCa)
      → any_ca p cert time cas ≡ ok tt
      → Any (IsTrustedBy cert time) cas
  unfolding any_ca verify_against_chain
  any_ca_sound cert time [] h = cc
  any_ca_sound cert time (ca ∷ cas) h = elim (Bool-cases (is_in_time time ca && has_chain ca)) [
    | inr out ↦ inr (any_ca_sound cert time cas (ground (arith, out)))
    | inl within ↦ elim (Outcome-cases (verify_against_chain p cert ca.cert_chain_der)) [
      | inr (inl (e, refused)) ↦ inr (any_ca_sound cert time cas (ground (arith, within, refused)))
      | inr (inr panics) ↦ absurd (ground (arith, within, panics))
      | inl (_, passes) ↦
          let (certs, parsed, h1) = >>=-parts (parse_chain p ca.cert_chain_der) passes in
          inl (
            (is_in_time_iff time ca).0 (ground (arith, within)),
            verify_certs_sound cert ca.cert_chain_der certs parsed h1,
          )
    ]
  ]

  -- The authorities that a certificate is trusted by.
  pub record IsChained (load_fulcio_cas : Outcome Error (List FulcioCa)) (cert_der : List ℕ)
      (time : ℕ) : Type 0 where
    pub cert : Certificate
    pub cas : List FulcioCa
    pub is_cert : from_der cert_der ≡ some cert
    pub loaded : load_fulcio_cas ≡ ok cas
    pub trusted : Any (IsTrustedBy cert time) cas

  -- A certificate that passes hangs on the chain of an authority that is loaded and valid
  -- at the time: each certificate, from this one on, names the next one as its issuer and has a
  -- signature under its key, and the last one has both of itself.
  pub verify_fulcio_chain_sound :
      (load_fulcio_cas : Outcome Error (List FulcioCa)) (cert_der : List ℕ) (time : ℕ)
      → verify_fulcio_chain p load_fulcio_cas cert_der time ≡ ok tt
      → IsChained load_fulcio_cas cert_der time
  unfolding verify_fulcio_chain
  verify_fulcio_chain_sound load_fulcio_cas cert_der time h =
      let (cert, e1, h1) =
        >>=-parts (ok_or (from_der cert_der) (failure "Failed to parse signing certificate")) h in
      let (cas, e2, h2) = >>=-parts load_fulcio_cas h1 in
      record {
        cert = cert;
        cas = cas;
        is_cert = ok_or_found _ _ e1;
        loaded = e2;
        trusted = any_ca_sound cert time cas h2;
      }
