-- ===== src/Obfuscation.antt =====
-- crates/obfuscation/src: padding, the XOR mask and compression.
pub mod Padding
pub mod XorMask
pub mod Compression
