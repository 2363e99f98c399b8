-- ===== src/Sigstore/Certificate/Identity.antt =====
-- Where the identity of a certificate comes from (src/verifier/sigstore/certificate.rs).
use Prim.Native.String.{String}
use text.Mathlib.Text.{◌==◌ as str_eq}
use text.Mathlib.TextEquality.{eq_iff}
use mathlib.Core.Path.{subst}
use tinfoil_rs.Prelude.{
  ◌≡◌, ◌⊎◌, refl, ap, inl, inr, Bool, true, false, ◌&&◌, List, [], ◌∷◌, Option, none, some, arith,
  Bool-cases, Option-cases,
}
use tinfoil_rs.Outcome.{ok}
use tinfoil_rs.Text.{is_empty}
use tinfoil_rs.Sigstore.Transparency.{Extension}
use tinfoil_rs.Sigstore.Certificate.{
  CertificatePackage, CertificateInfo, oidc_issuer_v1, oidc_issuer_v2, build_signer_uri,
  github_workflow_repository, source_repository_uri, take_repository, take_extension,
  take_extensions, find_info, nothing_found, check_info, extract_certificate_info,
  decode_asn1_string, without_prefix,
}

and_first : (b c : Bool) → (b && c) ≡ true → b ≡ true
and_first true c h = refl
and_first false c h = h

stated : {P : Type 0} (text : String) → is_empty text ≡ false → (text ≡ "") ⊎ P → P
stated text full (inl empty) = absurd (let e : is_empty text ≡ true = ap is_empty empty in cc)
stated text full (inr p) = p

module _ (x509 : CertificatePackage) where
  -- One of the extensions has this OID, and a value that is this text.
  abbrev pub States : List Extension → String → String → Type 0
  States [] oid text = ⊥
  States (extension ∷ extensions) oid text =
      ((extension.extn_id ≡ oid) × (decode_asn1_string x509 extension.extn_value ≡ some text))
      ⊎ States extensions oid text

  -- The parts of the identity that are there are those of extensions.
  pub record IsStatedIn (extensions : List Extension) (info : CertificateInfo) : Type 0 where
    pub issuer_stated :
        (info.issuer ≡ "")
        ⊎ (States extensions oidc_issuer_v2 info.issuer
            ⊎ States extensions oidc_issuer_v1 info.issuer)
    pub workflow_stated :
        (info.subject_workflow ≡ "") ⊎ States extensions build_signer_uri info.subject_workflow
    pub repository_stated :
        (info.repository ≡ "")
        ⊎ (States extensions github_workflow_repository info.repository
            ⊎ ((uri : String) × States extensions source_repository_uri uri
                × (info.repository ≡ without_prefix "https://github.com/" uri)))

  retype :
      (extensions : List Extension) (value oid known : String)
      → str_eq oid known ≡ true
      → States extensions oid value
      → States extensions known value
  retype extensions value oid known same h =
      subst (λ o. States extensions o value) ((eq_iff oid known).0 same) h

  take_repository-IsStatedIn :
      (extensions : List Extension) (oid value : String) (found : CertificateInfo)
      → States extensions oid value
      → IsStatedIn extensions found
      → IsStatedIn extensions (take_repository oid value found)
  unfolding take_repository
  take_repository-IsStatedIn extensions oid value found h s =
      elim (Bool-cases (str_eq oid github_workflow_repository)) [
        | inl workflow ↦ rw workflow (record {
          repository_stated = inr (inl (retype extensions value oid _ workflow h));
          issuer_stated = s.issuer_stated;
          workflow_stated = s.workflow_stated;
        })
        | inr not_workflow ↦
            rw not_workflow
              (elim (Bool-cases (str_eq oid source_repository_uri && is_empty found.repository)) [
                | inr other ↦ rw other s
                | inl source ↦ rw source (record {
                  repository_stated =
                      inr
                        (inr (value, retype extensions value oid _ (and_first _ _ source) h, refl));
                  issuer_stated = s.issuer_stated;
                  workflow_stated = s.workflow_stated;
                })
              ])
      ]

  take_extension-IsStatedIn :
      (extensions : List Extension) (oid value : String) (found : CertificateInfo)
      → States extensions oid value
      → IsStatedIn extensions found
      → IsStatedIn extensions (take_extension oid value found)
  unfolding take_extension
  take_extension-IsStatedIn extensions oid value found h s =
      elim (Bool-cases (str_eq oid oidc_issuer_v2)) [
        | inl v2 ↦ rw v2 (record {
          issuer_stated = inr (inl (retype extensions value oid _ v2 h));
          workflow_stated = s.workflow_stated;
          repository_stated = s.repository_stated;
        })
        | inr not_v2 ↦
            rw not_v2 (elim (Bool-cases (str_eq oid oidc_issuer_v1 && is_empty found.issuer)) [
              | inl v1 ↦ rw v1 (record {
                issuer_stated = inr (inr (retype extensions value oid _ (and_first _ _ v1) h));
                workflow_stated = s.workflow_stated;
                repository_stated = s.repository_stated;
              })
              | inr not_v1 ↦ rw not_v1 (elim (Bool-cases (str_eq oid build_signer_uri)) [
                | inl signer ↦ rw signer (record {
                  workflow_stated = inr (retype extensions value oid _ signer h);
                  issuer_stated = s.issuer_stated;
                  repository_stated = s.repository_stated;
                })
                | inr not_signer ↦
                    rw not_signer (take_repository-IsStatedIn extensions oid value found h s)
              ])
            ])
      ]

  take_extensions-IsStatedIn :
      (all extensions : List Extension) (found : CertificateInfo)
      → ((oid value : String) → States extensions oid value → States all oid value)
      → IsStatedIn all found
      → IsStatedIn all (take_extensions x509 extensions found)
  unfolding take_extensions
  take_extensions-IsStatedIn all [] found within s = s
  take_extensions-IsStatedIn all (extension ∷ extensions) found within s =
      elim (Option-cases (decode_asn1_string x509 extension.extn_value)) [
        | inl skipped ↦ rw skipped (
            take_extensions-IsStatedIn all extensions found
              (λ oid value h. within oid value (inr h)) s)
        | inr (value, decoded) ↦ rw decoded (
            take_extensions-IsStatedIn all extensions (take_extension extension.extn_id value found)
              (λ oid value h. within oid value (inr h))
              (take_extension-IsStatedIn all extension.extn_id value found
                (within extension.extn_id value (inl (refl, decoded))) s))
      ]

  nothing-IsStatedIn : (extensions : List Extension) → IsStatedIn extensions nothing_found
  unfolding nothing_found
  nothing-IsStatedIn extensions = record {
    issuer_stated = inl refl;
    workflow_stated = inl refl;
    repository_stated = inl refl;
  }

  abbrev pub extensions_or_none : Option (List Extension) → List Extension
  extensions_or_none none = []
  extensions_or_none (some extensions) = extensions

  find_info-IsStatedIn :
      (o : Option (List Extension)) → IsStatedIn (extensions_or_none o) (find_info x509 o)
  unfolding find_info
  find_info-IsStatedIn none = nothing-IsStatedIn []
  find_info-IsStatedIn (some extensions) =
      take_extensions-IsStatedIn extensions extensions nothing_found (λ oid value h. h)
        (nothing-IsStatedIn extensions)

  checked :
      (found info : CertificateInfo)
      → check_info x509 found ≡ ok info
      → (found ≡ info)
        × (is_empty found.issuer ≡ false)
        × (is_empty found.repository ≡ false)
        × (is_empty found.subject_workflow ≡ false)
  unfolding check_info
  checked found info h = ground arith

  -- The identity that is taken from a certificate is complete and comes from its extensions: the
  -- issuer is the value of an extension for one of the two issuer OIDs, the workflow that of one for
  -- the build signer, and the repository that of one for the repository, or that of one for the source
  -- repository without the address of GitHub.
  pub extract_certificate_info_sound :
      (cert : x509.scts.Certificate) {info : CertificateInfo}
      → extract_certificate_info x509 cert ≡ ok info
      → ((States (extensions_or_none (x509.scts.extensions_of cert)) oidc_issuer_v2 info.issuer
            ⊎ States (extensions_or_none (x509.scts.extensions_of cert)) oidc_issuer_v1 info.issuer)
          × States
              (extensions_or_none (x509.scts.extensions_of cert))
              build_signer_uri
              info.subject_workflow
          × (States
                (extensions_or_none (x509.scts.extensions_of cert))
                github_workflow_repository
                info.repository
              ⊎ ((uri : String) × States
                    (extensions_or_none (x509.scts.extensions_of cert))
                    source_repository_uri
                    uri
                  × (info.repository ≡ without_prefix "https://github.com/" uri))))
  unfolding extract_certificate_info
  extract_certificate_info_sound cert {info} h =
      let (same, issuer, repository, workflow) =
        checked (find_info x509 (x509.scts.extensions_of cert)) info h in
      let s = subst (IsStatedIn _) same (find_info-IsStatedIn (x509.scts.extensions_of cert)) in
      (
        stated info.issuer (rw (← same) issuer) s.issuer_stated,
        stated info.subject_workflow (rw (← same) workflow) s.workflow_stated,
        stated info.repository (rw (← same) repository) s.repository_stated,
      )
