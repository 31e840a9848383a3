-- ===== src/Protocol.antt =====
-- crates/wispshell-protocol: messages, frames, pairing codes, key material and signatures.
mod Examples
pub mod Failure
pub mod Messages
pub mod Frames
pub mod PairingCode
pub mod Crypto
pub mod ErrorCode
pub mod PairingHash
pub mod Signing
