-- ===== src/Sigstore.antt =====
-- The verification of a release by its Sigstore bundle (src/verifier/sigstore).
pub mod Keyring
pub mod Transparency
pub mod Certificate
pub mod Dsse
pub mod Checkpoint
pub mod Trust
pub mod Fulcio
pub mod Rekor
pub mod Release
pub mod Rooted
pub mod Tests
