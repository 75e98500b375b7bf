-- ===== src/Crypto.antt =====
-- Base64 and SHA-256 of src/crypto.
pub mod Base64
pub mod Base64Laws
pub mod RoundTrip
pub mod Sha256
pub mod Feed
pub mod Streaming
