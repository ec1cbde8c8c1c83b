-- ===== src/Protocol.antt =====
-- crates/protocol/src: the frames and control messages, their validation, and the records of the
-- authentication handshake.
pub mod Frame
pub mod Packet
pub mod Validation
pub mod Auth
