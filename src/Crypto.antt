-- ===== src/Crypto.antt =====
-- src/crypto.rs: the encodings and the comparison.
pub mod Compare
pub mod Base64
pub mod Hex
pub mod Sha256
mod Examples
