-- ===== src/Client/Socks5/Outbound.antt =====
-- The way of a local program's bytes to the TUN device of an exit node: client/src/socks5.rs,
-- daemon/src/handler.rs, daemon/src/exit_forwarder.rs and daemon/src/exit_node.rs.
use apfsds_rs.Base.{
  ℕ, ◌^◌, ◌+◌, ◌%◌, ◌<◌, ◌≡◌, refl, ap, true, List, [], ◌∷◌, ◌++◌, Option, some, Result, ok, length,
}
use apfsds_rs.Base.Maps.{DashMap, bytes_eq, nat_eq}
use apfsds_rs.Base.Rkyv.{Rkyv, RoundTrips, AlignsTo}
use apfsds_rs.Obfuscation.XorMask.{Target}
use apfsds_rs.Protocol.Frame.{ProxyFrame, ControlMessage, new_data}
use apfsds_rs.Protocol.Packet.{PlainPacket, from_frame}
use apfsds_rs.Transport.ExitPool.{ExitClientError, GroupPool, Reply}
use apfsds_rs.Transport.ExitPool.Delivered.{forward-delivered}
use apfsds_rs.Transport.ExitPool
use apfsds_rs.Transport.WebSocket.{Message, Incoming}
use apfsds_rs.Client.Wss.{WssSession, handshake}
use apfsds_rs.Client.Wss.Masked.{SameMinute}
use apfsds_rs.Client.Wss.Exchange.{rx_loop-send_frame}
use apfsds_rs.Client.Socks5.{SocketAddr}
use apfsds_rs.Client.Socks5.Tunnel.{Read, data_frame, tcp_to_wss}
use apfsds_rs.Daemon.ExitForwarder.{forward}
use apfsds_rs.Daemon.ExitNode.{RouteEntry, Etherparse, Service, virtual_ip, rewrite_source}
use apfsds_rs.Daemon.ExitNode.Posted.{post_packet, post_packet-delivered}
use apfsds_rs.Daemon.Handler.Session.{Served, greeting, on_frame, rx_loop}

module _ (routes : DashMap (List ℕ) RouteEntry) (streams : DashMap ℕ ℕ) (parse : Etherparse)
    (write_all : List ℕ → Result (List ℕ) (Unit {0})) (crc32 : List ℕ → ℕ) (k : Rkyv ProxyFrame)
    (control : Rkyv ControlMessage) (t u : Target) (node_id user_id : ℕ)
    (packets : Rkyv PlainPacket) (from_bytes : ℕ → List ℕ → Option PlainPacket)
    (nodes : ℕ → Service routes streams) (address : ℕ → ℕ) where
  -- What posting the packet of a frame to each exit node meets.
  abbrev pub replies : ProxyFrame → ℕ → Reply
  replies frame i =
      (post_packet routes streams parse packets write_all from_bytes (nodes i) (address i)
        (from_frame frame node_id)).1

  -- What a client reads from a local program reaches the TUN device of an exit node: the client's
  -- loop makes one message of it; the session that reads the message in the same minute passes one
  -- packet on, where the pool has a node that takes it; the packet is posted to that node, whose
  -- archive has an alignment of 8 and so lies at a multiple of 8 in the body that the node reads;
  -- and the node gives its TUN device the program's bytes as they are but for the source address.
  -- The address that the program asked for has no part in what is written.
  pub handle_forward-tcp_to_wss :
      (conn_id later index : ℕ) (addr : SocketAddr) (r : Read) (b : ℕ) (chunk enc body : List ℕ)
      (rest : List Incoming) (s : Served) (pool : List (ℕ × GroupPool))
      → RoundTrips k
      → AlignsTo 8 packets from_bytes
      → conn_id < 2 ^ 64
      → r.bytes ≡ ok (b ∷ chunk)
      → r.takes ≡ true
      → let frame : ProxyFrame = data_frame crc32 k t conn_id addr r (b ∷ chunk) in
        k.to_bytes frame ≡ ok enc
        → length enc < 2 ^ 32
        → SameMinute r.at_secs later
        → packets.to_bytes (from_frame frame node_id) ≡ ok body
        → ExitPool.forward (replies frame) s.pool 0 ≡ (pool, ok index)
        → (session : WssSession) × (message : Message) × (s' : Served) × (handshake
              (ok (greeting conn_id) ∷ rest)
            ≡ ok (session, rest))
          × (tcp_to_wss crc32 k t session.session_key conn_id addr (r ∷ []) ≡ some (message ∷ []))
          × (rx_loop k control u replies node_id user_id conn_id s ((later, ok message) ∷ [])
              ≡ some s')
          × (s'.forwarded ≡ s.forwarded ++ (from_frame frame node_id ∷ []))
          × (address index % 8 ≡ 0)
          × ((post_packet routes streams parse packets write_all from_bytes
                (nodes index)
                (address index)
                (from_frame frame node_id)).0.written
              ≡ (nodes index).written
                ++ (rewrite_source parse (virtual_ip (nodes index).ip_pool) (b ∷ chunk) ∷ []))
  unfolding tcp_to_wss on_frame forward from_frame data_frame new_data
  handle_forward-tcp_to_wss conn_id later index addr r b chunk enc body rest s pool back aligned
        small read takes written short window archived served =
      let frame : ProxyFrame = data_frame crc32 k t conn_id addr r (b ∷ chunk) in
      let (session, message, greeted, sent, received) =
        rx_loop-send_frame k control t u replies node_id user_id conn_id r.at_secs later r.draws
          frame enc rest s back small written short window in
      let (at, given) =
        post_packet-delivered routes streams parse packets write_all from_bytes (nodes index)
          (address index) (from_frame frame node_id) body aligned archived
          (forward-delivered (replies frame) s.pool 0 index
            (ap (λ (x : List (ℕ × GroupPool) × Result ExitClientError ℕ). x.1) served)) in
      (
        session,
        message,
        (on_frame k control u replies node_id user_id conn_id
            (record s { frames_received = s.frames_received + 1 }) frame).0,
        greeted,
        rw (read, tcp_to_wss, sent, takes) refl,
        received,
        rw served refl,
        at,
        given,
      )
