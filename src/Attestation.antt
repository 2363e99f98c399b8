-- ===== src/Attestation.antt =====
-- Hardware attestation: src/verifier/attestation.
pub mod X509
pub mod Types
pub mod Measurement
pub mod Reason
pub mod Constants
pub mod Bytes
pub mod Report
pub mod Validation
pub mod Vcek
pub mod CertChain
pub mod Signature
pub mod Sev
pub mod Complete
mod Tests
