-- ===== src/Transport.antt =====
-- crates/transport/src: the frame codec, the stream of packets from an exit node, and the pool of exit
-- nodes. The sockets are other packages'.
pub mod FrameCodec
pub mod ExitClient
pub mod ExitPool
pub mod WebSocket
pub mod WssClient
pub mod Pool
