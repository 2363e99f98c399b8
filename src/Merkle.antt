-- ===== src/Merkle.antt =====
-- RFC 6962 Merkle trees: hashing (src/verifier/sigstore/merkle/rfc6962.rs) and the verification of
-- inclusion and consistency proofs (src/verifier/sigstore/merkle/proof_verification.rs).
pub mod Hasher
pub mod Proof
pub mod Tree
pub mod Decomp
pub mod AuditPath
pub mod Accept
pub mod Levels
pub mod Inclusion
pub mod Safe
mod Tests
