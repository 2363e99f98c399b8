-- ===== src/Lib.antt =====
-- Verification of the Rust client of Tinfoil's confidential inference service. Before it talks to
-- an enclave, the client verifies the enclave's hardware attestation, verifies the published release
-- of the code that should run there, compares the two measurements, and pins the enclave's keys.
-- Modelled here are the hardware attestation, the verification of the release by its Sigstore bundle,
-- the comparison, their composition, the Merkle proofs of the transparency log, the retries of
-- requests, the classification of errors, the encrypted transport through a proxy, and the secret that
-- scopes a user's prompt cache.
--
-- The parts and their files:
-- - Attestation.Complete: src/verifier/attestation/mod.rs. `verify_document` is its
--   `verify_full_with_options`, by the document's format; `verify_complete` joins document, release
--   and comparison into a `GroundTruth`. What fetching the document and verifying the release answer
--   and what formatting the current time yields (`verification_timestamp` of types.rs) are arguments.
-- - Enclave: the same file's `verify_complete` with `verify_repo`, as Sigstore.Rooted has it, in place
--   of the second argument. Enclave.Safe, over the modules named Safe of the other parts, follows the
--   panics.
-- - Attestation.Sev: src/verifier/attestation/sev/mod.rs. `verify_full_with_options` decodes the
--   report, fetches the VCEK certificate of its chip (`fetch_vcek`, of cert_chain.rs), verifies the
--   chain, the report's fields, the certificate's extensions, the chip and the report's signature,
--   in this order, and extracts the measurement and the keys. `verify_with_vcek` is its part after
--   the fetch. Attestation.Sev.Genuine and Attestation.Sev.Verified say what is accepted.
-- - Attestation.CertChain: src/verifier/attestation/sev/cert_chain.rs, the chain from VCEK over ASK
--   to the pinned ARK. CertChain.Names has the attributes of names, CertChain.Verify one definition
--   for each step of `verify_cert_chain_crypto`. CertChain.Checks, Attributes, Format and Trusted
--   say what each check and the whole accept.
-- - Attestation.Vcek: the same file's checks of the VCEK certificate against the report
--   (`validate_vcek_extensions`, `validate_vcek_hwid`).
-- - Attestation.Signature: src/verifier/attestation/sev/signature.rs.
-- - Attestation.Report: src/verifier/attestation/sev/report.rs: decoding, size and version, reserved
--   bytes, signer information. Attestation.Bytes has the reads of slices.
-- - Attestation.Validation: src/verifier/attestation/sev/validation.rs, one definition for each
--   block of `validate_report_fields_with_options`.
-- - Attestation.Measurement and Attestation.Types: src/verifier/attestation/types.rs.
--   Attestation.Constants: src/verifier/attestation/constants.rs.
-- - Merkle: src/verifier/sigstore/merkle, the hashes of rfc6962.rs (Merkle.Hasher) and the proofs of
--   proof_verification.rs (Merkle.Proof). Merkle.Tree is the tree hash of RFC 6962, Merkle.AuditPath
--   describes proofs level by level, Merkle.Decomp, Levels, Accept and Inclusion lead from the bit
--   operations to the trees.
-- - Sigstore: src/verifier/sigstore. Sigstore.Release is mod.rs (`verify_bundle` is `verify_repo` after
--   its fetches, `measurement_of` the end of `extract_measurement_from_bundle`), Sigstore.Dsse dsse.rs
--   (`verify_envelope` is the second half of `verify_dsse_signature`), Sigstore.Certificate
--   certificate.rs, Sigstore.Transparency transparency.rs and Sigstore.Keyring keyring.rs, whose hash
--   map is the list of the pairs inserted. The children Measured, Verified, Scts, Envelope, Identity,
--   Signed, Valid and Entries prove what each accepts; Dsse.Pae has the encoding that is signed.
-- - Sigstore.Checkpoint: checkpoint.rs of the same folder, notes of a log and their signatures.
--   `unmarshal_lines` is `unmarshal` after its split, `decode_signature_line` the `decode` of a
--   signature, and `any_verifies` the loop of `verify_signature`. Its children Marshal and Signed prove
--   the reading and the search for a signature.
-- - Sigstore.Trust: trust.rs, what is loaded from the embedded root. Sigstore.Fulcio: fulcio.rs, the
--   chain of a certificate, `walk_chain` being the loop over the chain; Fulcio.Chain and
--   Fulcio.Trusted say what is accepted.
-- - Sigstore.Rekor: rekor.rs. Rekor.Json has the access to values, Rekor.Binding the comparison of the
--   entry with the bundle, Rekor.Observed the entry and its time, Rekor.Head the key, the promise and
--   the checkpoint, Rekor.Proof the proof of inclusion; they are the blocks of
--   `verify_rekor_entry_with_trust`, in the order in which it runs them. Logged, Timed, Bound,
--   Anchored and Included prove what is accepted, and InTree that it is in the tree.
-- - Sigstore.Rooted: `verify_repo` with these checks in place of its arguments, over one trusted root.
-- - Ehbp: src/ehbp_transport.rs. Ehbp has the channel and its changes, with `refresh_after_mismatch` cut
--   at its await into `reject_if_generation` and `finish_refresh`; Ehbp.Send sends requests, Ehbp.Url
--   checks the proxy's URL. Ehbp.Concurrent is the step relation of the tasks that share a channel and
--   Ehbp.Changes counts their changes. What other tasks do to the channel between the steps of one
--   request is a function for each place (`Others`); Ehbp.Exchange is about one attempt, Ehbp.Renewed
--   about the channel after a refresh, and Ehbp.Answered about the whole request.
-- - CacheSecret: src/user_cache_secret.rs. CacheSecret has where a secret comes from and the file that
--   keeps it, CacheSecret.Shared the step relation of the processes that share the file,
--   CacheSecret.Resolution one process after another, CacheSecret.Json the scan for a field's value,
--   with the entries that it passes (Json.Entry), its bounds and its end, CacheSecret.Fresh what is
--   read back of a generated secret, and CacheSecret.Inject the change of a request's body, with the
--   place of the change (Inject.Place), or of a JSON value (Inject.Values). `look` and
--   `after_look` are the two matches of `load_or_generate`, `publish_candidate` is the end of
--   `publish_secret_file`, from the link on; `inject_over`, `replace` and `insert_at` are the branches
--   of `inject_user_cache_secret`, and `entry` and `round` the body of the loop of
--   `top_level_value_range`.
-- - Dcode: src/verifier/dcode.rs, values in the DNS names of a certificate. `collect` is the loop over
--   the names and `decode_chunks` what follows it; Dcode.Order proves the order of the chunks.
-- - VerificationDocument: src/verification_document.rs, the document about a ground truth.
-- - Errors: src/error.rs, with its classes in Errors.Classes.
-- - Text: the operations of the standard library on texts that the code uses.
-- - Retry: `fetch_with_retry` of src/verifier/util.rs, with what building the client yields (`Built`).
-- - Outcome, Decides, Answers, Word and Prelude are shared: results with errors and panics, checks
--   that decide a property, machine words, and helpers.
--
-- How the code is modelled. A byte or word is a native number; the operations on `u64` that can
-- overflow (Word) take the build, which panics or wraps. A slice read out of range is `panic`. A
-- report is a list of bytes. An error is a constructor with the values that its message prints;
-- errors of third-party parsers are told apart only by what was parsed. Loops are structural
-- recursion over the list they walk, without fuel; where a word is walked bit by bit, the 64 steps are
-- those of its width. Only the loop of `top_level_value_range` is on fuel, one round more than there
-- are bytes, and it comes to its end.
--
-- Code that is not the repository's is a parameter: the hash functions, base64, gzip and hex, X.509,
-- DER, PEM, RSA and ECDSA (the record `X509`), the clock, the cache file, the key distribution
-- service and the embedded certificate chain (the record `Surroundings`). Of it the records ask only
-- that the equality tests of hashes, names and algorithms decide equality. The clock is read anew
-- for each certificate, so it has three readings.
--
-- The JSON, regular expression and signature packages of the release, the HTTP and EHBP clients of the
-- transport and the JSON package of the user cache secrets are parameters in the same way, with no
-- law asked of them; of generated secrets it is asked that they are hexadecimal digits. A request to
-- the network is a function or an argument that says what it yields. A lock that is held over one
-- statement makes it one step; a future that is dropped is a step of its own.
--
-- Of base64 the reading of a checkpoint asks that it decodes what it encodes, and that it encodes
-- without line feeds. The tree size and the index of a log entry are those of its proof; the code does
-- not compare the size with the one in the checkpoint, so the theorem about the tree has a case for it.
--
-- Not modelled: RFC 3161 timestamps (src/verifier/sigstore/tsa.rs), whose answer is an argument of the
-- verification of log entries; src/verifier/github.rs; the writes and removals of the VCEK cache, whose
-- failures the client ignores; HTTP itself; TLS pinning (src/verifier/tls.rs); the client and its
-- request bodies (src/client.rs, src/sse.rs, src/multimodal.rs, src/relaxed.rs); of the user cache
-- secrets the flags that files and directories are opened with, the service around requests and the
-- lock around the source; serialisation; and the conformance runner. `verify_consistency` is modelled
-- and run, and no client code calls it.
pub mod Prelude
pub mod Text
pub mod Outcome
pub mod Decides
pub mod Answers
pub mod Word
pub mod Errors
pub mod Merkle
pub mod Attestation
pub mod Sigstore
pub mod Ehbp
pub mod Retry
pub mod CacheSecret
pub mod Dcode
pub mod VerificationDocument
pub mod Enclave
