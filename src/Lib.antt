-- ===== src/Lib.antt =====
-- A censorship-resistant proxy: clients send frames to a daemon over disguised connections, a
-- handler passes packets on to exit nodes, and a cluster keeps the table of connections.
--
-- Base holds what the parts share: names of the libraries, Boolean tests, results, lists on native
-- numbers, bits, machine words in little-endian bytes, maps (the interface DashMap and association
-- lists that have its laws), rkyv, and the UTF-8 check, splitting and number parsing of Rust's
-- standard library.
--
-- Protocol (crates/protocol/src): Frame and Packet are frame.rs (ProxyFrame, PlainPacket, the
-- address mapping), Validation is validation.rs, Auth holds the records of auth.rs.
-- Crypto (crates/crypto/src): Replay is replay.rs (one model for both caches), Hmac is
-- hmac_auth.rs, Keys and Ed25519 are the ML-DSA and Ed25519 parts of keys.rs.
-- Obfuscation (crates/obfuscation/src): Padding, XorMask and Compression are the files of those
-- names. Transport.FrameCodec is crates/transport/src/frame_codec.rs: encode serialises a frame,
-- compresses, masks and pads it; decode undoes these. Transport.ExitClient is the stream of packets
-- from an exit node, of crates/transport/src/exit_client.rs, with the addresses at which the slices of
-- its buffer start, and Transport.ExitPool is the choice of a node in exit_pool.rs beside it.
-- Storage (crates/storage/src): Segment, BLinkTree, Engine and Wal are segment.rs, blink_tree.rs,
-- engine.rs and wal.rs. The engine appends records to the active segment, seals it when it is
-- full, and finds records by an index. Wal is the write-ahead log as a file of bytes.
-- Raft.Storage is crates/raft/src/storage.rs and types.rs: the log of the cluster over Wal.
-- Daemon.Auth is daemon/src/auth.rs: requests are checked by timestamp, Replay and Hmac; tokens
-- are signed by Keys. Daemon.KeyRotation is daemon/src/key_rotation.rs: keys of Ed25519 that are
-- replaced, with a time of grace.
-- Storage.ClickHouse is clickhouse_backup.rs: buffers that go to a database in batches.
-- Transport.Pool is crates/transport/src/pool.rs, slots of connections used in turn, and
-- Transport.WebSocket is the messages of tungstenite and what a socket delivers. Transport.WssClient is
-- wss_client.rs: the headers of the request that opens a connection like a browser's, and what is
-- sent and received on it. Transport.ExitPool.Health builds, checks and counts the exit nodes.
-- Crypto.Aes is aes.rs, and Crypto.Exchange is X25519 and ML-KEM of keys.rs.
--
-- Client (client/src): Wss is wss.rs, a session that reads its connection's number as the mask's
-- key, and pads and masks each frame. Socks5 is socks5.rs: the negotiation of a local program's
-- request as a function of the bytes, with Text for what Rust prints of an address, and the frames of
-- both directions of the tunnel. Emergency is emergency.rs, and Doh the addresses of doh.rs.
--
-- Daemon.Handler is daemon/src/handler.rs: Token issues tokens over AES and X25519, Connect decides
-- who gets a session, Session is its receiving and sending loop, Register the registration of exit
-- nodes, Decoy what every other path gets. A session sends packets through ExitForwarder
-- (exit_forwarder.rs) to Transport.ExitPool, and counts them in Billing (billing.rs).
-- ConnectionRegistry (connection_registry.rs) gives frames from exit nodes to the sessions, and
-- ExitNodePool (exit_node_pool.rs) keeps the exit nodes that have connected.
-- Daemon.Config is daemon/src/config.rs: the settings, their defaults and the merge of a further file.
-- Daemon.Emergency is daemon/src/emergency.rs, the loop that waits for a version that warns.
-- Daemon.ExitNode is daemon/src/exit_node.rs: a packet of a handler gets an address of its own and
-- goes to the TUN device, and a reply to this address goes back to the connection by a stream of
-- length-prefixed frames, which Transport.ExitClient reads at the handler. Posted is one request of
-- the handler with the answer of the exit node. Sessions is the requests of a handler and the
-- connection that an exit node opens to a handler itself, and Arrival follows a reply through all
-- parts, from the TUN device to the program behind the client. Client.Socks5.Outbound is the other way.
--
-- Tests has concrete stand-ins for the parameters, and the theorems at concrete inputs.
--
-- State is passed explicitly: an operation takes the state and gives the new one with its answer.
-- A Rust Result is Result, a panic is none. Numbers are natural numbers; where the code can wrap,
-- the wrap is written out (% 2 ^ 64), and an i64 is its bit pattern with wrapping subtraction and
-- absolute value, as in a release build. The clocks are arguments. Locks make each operation one
-- step; Crypto.Replay.Race splits check_and_insert into the two steps that it is.
--
-- Fuel: the vector loops of XorMask take one round more than there are bytes, and each round takes
-- a register; Wal.read_all takes one round more than the file has bytes, and each round that is
-- not the last takes twelve at least; ExitClient likewise, with four. The tunnel's loop wss_to_tcp
-- takes one round more than there are messages, and each round reads one at least.
--
-- Parameters stand for other packages: crc32fast, HMAC-SHA256 (a function of key and message),
-- ml-dsa, ed25519-dalek, base64, rkyv, zstd, fastrand, dashmap, byteorder, async-raft and
-- serde_json, aes-gcm, x25519-dalek, ml-kem, etherparse, the database clients and the TUN device.
-- Their documented behaviour is a hypothesis where a theorem needs it. That rkyv refuses an archive
-- which is not aligned is one (AlignsTo in Base.Rkyv), for slices of the buffers of a stream and of a
-- request, whose addresses are arguments; messages of WebSockets and what is read from files are
-- taken to be aligned. Reads and writes of the operating system succeed.
--
-- Where the code spawns tasks that share state, each task is a function of the sequence of what it
-- receives and the times at which it does; the shared state goes in and comes out.
--
-- Not modelled: sockets, TLS, QUIC, SSH and Noise transports and the TUN device, which are calls of
-- the operating system and of other packages; reading configuration files, management, the
-- exported metrics, the client's DNS front and PostgreSQL, which are input and output; decoy traffic
-- and timing, which are random and in floating point, and with them select_distributed_size.
pub mod Base
pub mod Protocol
pub mod Crypto
pub mod Obfuscation
pub mod Transport
pub mod Storage
pub mod Raft
pub mod Daemon
pub mod Client
pub mod Tests
