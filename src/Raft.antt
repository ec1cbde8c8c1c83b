-- ===== src/Raft.antt =====
-- crates/raft/src: the storage that `async-raft` is given.
pub mod Storage
