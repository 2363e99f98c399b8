-- ===== src/Attestation/Vcek/Match.antt =====
-- Which VCEK certificates match a report.
use Prim.Native.String.{String}
use text.Mathlib.TextEquality.{eq_iff}
use tinfoil_rs.Prelude.{
  ℕ, ◌<◌, ◌≡◌, ◌⊎◌, inl, inr, refl, sym, Bool, true, false, List, [], ◌∷◌, none, some, ◌==◌, length,
  get_or, ==_iff, Option-cases,
}
use tinfoil_rs.Outcome.{err, ◌>>=◌, ensure}
use tinfoil_rs.Decides.{
  Decides, ensure-Decides, reject_if-Decides, >>-Decides, Decides-map, Has, ok_or-Decides,
  ok_or_then-Decides, IsNone, absent-Decides, if-Decides,
}
use tinfoil_rs.Word.{from_le_bytes}
use tinfoil_rs.Attestation.Report.Zeroed.{zeros_of, any_non_zero_of}
use tinfoil_rs.Attestation.Types.{TcbParts, tcb_from_u64}
use tinfoil_rs.Attestation.Constants.{
  oid_bl_spl, oid_tee_spl, oid_snp_spl, oid_ucode_spl, oid_hwid, oid_product_name, oid_csp_id,
}
use tinfoil_rs.Attestation.Reason.{Reason, parse_failed}
use tinfoil_rs.Attestation.X509.{X509}
use tinfoil_rs.Attestation.Validation.Conditions.{bytes_eq_iff}
use tinfoil_rs.Attestation.Vcek.{
  single_byte, decode_der_integer, certificate_extension, get_vcek_extension, validate_vcek_hwid,
  validate_spl, validate_product_name, validate_no_csp_id, validate_vcek_extensions, u64_of_slice,
}

-- The bytes of an unsigned DER integer that stands for a number below 256.
abbrev pub IsByte : ℕ → List ℕ → Type 0
IsByte n bytes = (bytes ≡ n ∷ []) ⊎ ((bytes ≡ []) × (n ≡ 0))

single_byte-Decides :
    (bytes : List ℕ) (n : ℕ) (e : ℕ → Reason)
    → Decides (single_byte bytes >>= λ value. ensure (value == n) (e value)) (IsByte n bytes)
unfolding single_byte
single_byte-Decides [] n e =
    Decides-map (λ z. inr (refl, sym z)) (λ h. elim h [ inl l ↦ cc l | inr r ↦ sym r.1 ])
      (ensure-Decides _ _ (==_iff 0 n))
single_byte-Decides (b ∷ []) n e =
    Decides-map (λ z. inl (rw z)) (λ h. elim h [ inl l ↦ cc l | inr r ↦ cc (r.0) ])
      (ensure-Decides _ _ (==_iff b n))
single_byte-Decides (b ∷ c ∷ rest) n e =
    inr (_, refl, λ h. elim h [ inl l ↦ cc l | inr r ↦ cc (r.0) ])

module _ (x509 : X509) where
  open x509 use {Certificate, from_der, uint_bytes, ia5_text}

  -- An extension holds a DER integer.
  abbrev pub HasSpl : Certificate → String → ℕ → Type 0
  HasSpl cert oid spl =
      Has (certificate_extension x509 cert oid) λ der. Has (uint_bytes der) (IsByte spl)

  validate_spl-Decides :
      (vcek : List ℕ) (cert : Certificate) (name oid : String) (spl : ℕ)
      → from_der vcek ≡ some cert
      → Decides (validate_spl x509 vcek name oid spl) (HasSpl cert oid spl)
  unfolding validate_spl get_vcek_extension decode_der_integer
  validate_spl-Decides vcek cert name oid spl parses = rw parses (
      ok_or-Decides (certificate_extension x509 cert oid) _
        λ der. ok_or_then-Decides _ _ (uint_bytes der) _ λ bytes. single_byte-Decides bytes spl _)

  -- The certificate names Genoa as its product.
  abbrev pub IsGenoa : Certificate → Type 0
  IsGenoa cert =
      Has (certificate_extension x509 cert oid_product_name)
        λ der. Has (ia5_text der) λ name. name ≡ "Genoa"

  validate_product_name-Decides :
      (vcek : List ℕ) (cert : Certificate)
      → from_der vcek ≡ some cert
      → Decides (validate_product_name x509 vcek) (IsGenoa cert)
  unfolding validate_product_name get_vcek_extension
  validate_product_name-Decides vcek cert parses = rw parses (
      ok_or-Decides (certificate_extension x509 cert oid_product_name) _
        λ der. ok_or-Decides (ia5_text der) _ λ name. ensure-Decides _ _ (eq_iff name "Genoa"))

  validate_no_csp_id-Decides :
      (vcek : List ℕ) (cert : Certificate)
      → from_der vcek ≡ some cert
      → Decides (validate_no_csp_id x509 vcek) (IsNone (certificate_extension x509 cert oid_csp_id))
  unfolding validate_no_csp_id get_vcek_extension
  validate_no_csp_id-Decides vcek cert parses =
      rw parses (absent-Decides (certificate_extension x509 cert oid_csp_id) _)

  -- What a VCEK certificate says of the chip: the report's four security patch levels and the
  -- product, without the mark of a cloud service provider.
  pub record VcekMatches (cert : Certificate) (tcb : TcbParts) : Type 0 where
    pub bl_spl : HasSpl cert oid_bl_spl tcb.bl_spl
    pub tee_spl : HasSpl cert oid_tee_spl tcb.tee_spl
    pub snp_spl : HasSpl cert oid_snp_spl tcb.snp_spl
    pub ucode_spl : HasSpl cert oid_ucode_spl tcb.ucode_spl
    pub product_name : IsGenoa cert
    pub no_csp_id : IsNone (certificate_extension x509 cert oid_csp_id)

  validate_parsed-Decides :
      (vcek reported_tcb : List ℕ) (cert : Certificate)
      → from_der vcek ≡ some cert
      → length reported_tcb ≡ 8
      → Decides
          (validate_vcek_extensions x509 vcek reported_tcb)
          (VcekMatches cert (tcb_from_u64 (from_le_bytes reported_tcb)))
  unfolding validate_vcek_extensions u64_of_slice
  validate_parsed-Decides vcek reported_tcb cert parses size =
      rw ((==_iff (length reported_tcb) 8).1 size) (
        Decides-map
          (λ (a, (b, (c, (d, (e, f))))). record {
            bl_spl = a;
            tee_spl = b;
            snp_spl = c;
            ucode_spl = d;
            product_name = e;
            no_csp_id = f;
          })
          (λ m. (m.bl_spl, (m.tee_spl, (m.snp_spl, (m.ucode_spl, (m.product_name, m.no_csp_id))))))
          (>>-Decides (validate_spl-Decides vcek cert _ _ _ parses) (
            >>-Decides (validate_spl-Decides vcek cert _ _ _ parses) (
              >>-Decides (validate_spl-Decides vcek cert _ _ _ parses) (
                >>-Decides (validate_spl-Decides vcek cert _ _ _ parses) (
                  >>-Decides (validate_product_name-Decides vcek cert parses)
                    (validate_no_csp_id-Decides vcek cert parses)))))))

  validate_unparsed :
      (vcek reported_tcb : List ℕ)
      → from_der vcek ≡ none
      → length reported_tcb ≡ 8
      → validate_vcek_extensions x509 vcek reported_tcb ≡ err (parse_failed "VCEK")
  unfolding validate_vcek_extensions validate_spl get_vcek_extension u64_of_slice
  validate_unparsed vcek reported_tcb fails size =
      rw ((==_iff (length reported_tcb) 8).1 size) (rw fails)

  -- For a TCB of eight bytes the check passes exactly where the VCEK certificate parses, its four
  -- patch levels are those of the TCB, its product is Genoa and it has no CSP_ID extension, and is
  -- an error, never a panic, elsewhere.
  pub validate_vcek_extensions-Decides :
      (vcek reported_tcb : List ℕ)
      → length reported_tcb ≡ 8
      → Decides
          (validate_vcek_extensions x509 vcek reported_tcb)
          (Has (from_der vcek) λ cert. VcekMatches cert (tcb_from_u64 (from_le_bytes reported_tcb)))
  validate_vcek_extensions-Decides vcek reported_tcb size = elim (Option-cases (from_der vcek)) [
    | inl fails ↦
        inr (_, validate_unparsed vcek reported_tcb fails size, λ h. absurd (rw fails at h))
    | inr (cert, parses) ↦
        Decides-map (λ m. rw parses m) (λ h. rw parses at h)
          (validate_parsed-Decides vcek reported_tcb cert parses size)
  ]

  -- Whose chip the certificate is for: the report's chip identifier, unless it is masked.
  pub record HwidMatches (vcek chip_id : List ℕ) (mask_chip_key : Bool) : Type 0 where
    pub masked : mask_chip_key ≡ true → (i : ℕ) → i < length chip_id → get_or chip_id i 0 ≡ 0
    pub shown :
        mask_chip_key ≡ false
        → Has (from_der vcek) λ cert.
          Has
            (certificate_extension x509 cert oid_hwid)
            λ hwid. (length hwid ≡ 64) × (hwid ≡ chip_id)

  -- The check passes exactly where a masked chip identifier is zero, or the certificate parses and
  -- has a hardware identifier of 64 bytes that is the report's chip identifier; it is an error, never
  -- a panic, elsewhere.
  pub validate_vcek_hwid-Decides :
      (vcek chip_id : List ℕ) (mask_chip_key : Bool)
      → Decides
          (validate_vcek_hwid x509 vcek chip_id mask_chip_key)
          (HwidMatches vcek chip_id mask_chip_key)
  unfolding validate_vcek_hwid get_vcek_extension
  validate_vcek_hwid-Decides vcek chip_id mask_chip_key =
      Decides-map (λ (m, s). record { masked = m; shown = s }) (λ h. (h.masked, h.shown))
        (if-Decides mask_chip_key
          (reject_if-Decides _ _ (zeros_of chip_id, any_non_zero_of chip_id))
          (ok_or_then-Decides _ _ (from_der vcek) _ λ cert.
            ok_or-Decides (certificate_extension x509 cert oid_hwid) _ λ hwid.
              >>-Decides (ensure-Decides _ _ (==_iff (length hwid) 64))
                (ensure-Decides _ _ (bytes_eq_iff hwid chip_id))))
