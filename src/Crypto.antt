-- ===== src/Crypto.antt =====
-- src/core/crypto: hexadecimal text, the printed digest, and the hybrid encryption of files.
pub mod Hex
pub mod Sha256
pub mod Hybrid
