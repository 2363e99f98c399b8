-- ===== src/Attestation/Sev/Verified.antt =====
-- The whole verification of an SEV-SNP attestation.
use Prim.Native.String.{String}
use tinfoil_rs.Prelude.{ℕ, ◌+◌, ◌≡◌, List, Option, none, some, arith, length, ==_iff}
use tinfoil_rs.Outcome.{ok}
use tinfoil_rs.Answers.{
  Answers, Succeeds, IsSafe, ok_IsSafe, ok_or-IsSafe, ensure-IsSafe, reject_if-IsSafe, >>=-IsSafe,
  DecidesTo-Answers, Succeeds-Answers, given-Answers,
}
use tinfoil_rs.Attestation.Types.{ValidationOptions, Verification}
use tinfoil_rs.Attestation.Constants.{chip_id_offset, chip_id_size, reported_tcb_offset}
use tinfoil_rs.Attestation.Reason.{Reason}
use tinfoil_rs.Attestation.Bytes.{bytes_of, slice-in_range, length-bytes_of}
use tinfoil_rs.Attestation.Report.{decode_report, max_decompressed_size}
use tinfoil_rs.Attestation.X509.{X509}
use tinfoil_rs.Attestation.Vcek.{u64_of_slice}
use tinfoil_rs.Attestation.Sev.{
  Surroundings, KdsRequest, KdsAnswer, failed, answered, vcek_of_answer, parsed_cache, fetch_vcek,
  verify_full_with_options,
}
use tinfoil_rs.Attestation.Sev.Genuine.{
  IsStructured, validate_report_structure-Decides, verification_of, IsGenuine,
  verify_with_vcek-Decides,
}

decode_report-IsSafe :
    (base64_decode : String → Option (List ℕ)) (inflate : ℕ → List ℕ → Option (List ℕ))
    (body : String)
    → IsSafe (decode_report base64_decode inflate body)
unfolding decode_report
decode_report-IsSafe base64_decode inflate body =
    >>=-IsSafe _ _ (ok_or-IsSafe (base64_decode body) _) λ compressed.
      >>=-IsSafe _ _ (ok_or-IsSafe (inflate (max_decompressed_size + 1) compressed) _)
        λ bytes. >>=-IsSafe _ _ (reject_if-IsSafe _ _) λ _. ok_IsSafe bytes

module _ (x509 : X509) (here : Surroundings) where
  open here use {base64_decode, inflate}

  vcek_of_answer-IsSafe : (answer : KdsAnswer) → IsSafe (vcek_of_answer x509 here answer)
  unfolding vcek_of_answer
  vcek_of_answer-IsSafe failed h = cc
  vcek_of_answer-IsSafe (answered status body) h =
      >>=-IsSafe _ _ (ensure-IsSafe _ _) (λ _. ok_or-IsSafe body _) h

  cached_IsSafe :
      (o : Option (List ℕ)) (request : KdsRequest)
      → IsSafe
          (elim o [ some bytes ↦ ok bytes | none ↦ vcek_of_answer x509 here (here.kds request) ])
  cached_IsSafe none request h = vcek_of_answer-IsSafe (here.kds request) h
  cached_IsSafe (some bytes) request h = cc

  fetch_vcek-IsSafe :
      (chip_id tcb : List ℕ) → length tcb ≡ 8 → IsSafe (fetch_vcek x509 here chip_id tcb)
  unfolding fetch_vcek u64_of_slice
  fetch_vcek-IsSafe chip_id tcb size =
      rw ((==_iff (length tcb) 8).1 size) (cached_IsSafe (parsed_cache x509 here _) _)

  -- The attestation decodes to a report of full size and known version, the VCEK certificate for
  -- its chip and TCB is fetched, the report is genuine under it, and this is what it says.
  abbrev pub IsVerified : String → ValidationOptions → Verification → Type 0
  IsVerified body options verification =
      Succeeds (decode_report base64_decode inflate body) λ report.
        IsStructured report
        × (Succeeds
            (fetch_vcek x509 here (bytes_of report chip_id_offset chip_id_size)
              (bytes_of report reported_tcb_offset 8))
            λ vcek.
              IsGenuine x509 here report vcek options
              × (verification_of x509 here report ≡ verification))

  -- For every body and all options the verification answers the measurement and the keys of the
  -- report exactly where the body decodes to a structured report, a VCEK certificate is fetched for
  -- its chip and TCB, the certificate chains to the pinned root, the report is acceptable, the
  -- certificate is for its patch levels and its chip, and the certificate's key signed it; it
  -- answers an error, and never panics, elsewhere.
  pub verify_full-Answers :
      (body : String) (options : ValidationOptions)
      → Answers (verify_full_with_options x509 here body options) (IsVerified body options)
  unfolding verify_full_with_options
  verify_full-Answers body options =
      Succeeds-Answers (decode_report base64_decode inflate body) _
        (decode_report-IsSafe base64_decode inflate body)
        λ report. given-Answers _ (validate_report_structure-Decides report) λ structured.
          let fits = structured.size in
          rw (slice-in_range {E = Reason} report chip_id_offset chip_id_size (omega (arith, fits)))
            (rw (slice-in_range {E = Reason} report reported_tcb_offset 8 (omega (arith, fits))) (
              Succeeds-Answers
                (fetch_vcek x509 here (bytes_of report chip_id_offset chip_id_size)
                  (bytes_of report reported_tcb_offset 8))
                _
                (fetch_vcek-IsSafe _ _
                  (length-bytes_of report reported_tcb_offset 8 (omega (arith, fits))))
                λ vcek.
                  DecidesTo-Answers (verify_with_vcek-Decides x509 here report fits vcek options)))
