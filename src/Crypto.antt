-- ===== src/Crypto.antt =====
-- crates/crypto/src: the replay caches and the HMAC authenticator. The primitives themselves
-- (SHA-256, Ed25519, AES-GCM, the post-quantum schemes) are other packages' code.
pub mod Replay
pub mod Hmac
pub mod Keys
pub mod Ed25519
pub mod Aes
pub mod Exchange
