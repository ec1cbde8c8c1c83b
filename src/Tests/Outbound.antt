-- ===== src/Tests/Outbound.antt =====
-- A local program's bytes on their way to an exit node.
use apfsds_rs.Base.{ℕ, ◌%◌, ◌++◌, ◌≡◌, refl, true, List, [], ◌∷◌, some, ok, arith, replicate}
use apfsds_rs.Obfuscation.XorMask.{portable, avx2}
use apfsds_rs.Protocol.Frame.{ProxyFrame, new_data}
use apfsds_rs.Protocol.Packet.{from_frame}
use apfsds_rs.Transport.ExitPool.{GroupPool, Reply, refused, forward_in, send, serving, try_clients}
use apfsds_rs.Transport.ExitPool
use apfsds_rs.Transport.WebSocket.{Message}
use apfsds_rs.Client.Wss.{WssSession, handshake}
use apfsds_rs.Client.Socks5.{SocketAddr, v4}
use apfsds_rs.Client.Socks5.Tunnel.{Read, data_frame, target_info, tcp_to_wss}
use apfsds_rs.Client.Socks5.Outbound.{replies, handle_forward-tcp_to_wss}
use apfsds_rs.Daemon.ExitNode.{virtual_ip, rewrite_source, handle_forward}
use apfsds_rs.Daemon.ExitNode.Posted.{post_packet}
use apfsds_rs.Daemon.ExitNode.Sessions.{forward_bytes, post_forward, handle_http_request}
use apfsds_rs.Daemon.Handler.Session.{Served, greeting, rx_loop}
use apfsds_rs.Tests.{count32, frame_rkyv, frame_rkyv-RoundTrips, write_frame, low_draws}
use apfsds_rs.Tests.Client.{control}
use apfsds_rs.Tests.Aligned.{aligned_rkyv, write_words, from_bytes, aligned_rkyv-AlignsTo}
use apfsds_rs.Tests.ExitNode.{routes, streams, parse, tun, start}

abbrev addr : SocketAddr
addr = v4 (93 ∷ 184 ∷ 216 ∷ 34 ∷ []) 443

abbrev chunk : List ℕ
chunk = 22 ∷ 3 ∷ 1 ∷ []

abbrev read : Read
read = record {
  bytes = ok chunk;
  uuid = replicate 16 9;
  at_ms = 1000000;
  draws = low_draws;
  at_secs = 1000;
  takes = true;
}

abbrev frame : ProxyFrame
frame = data_frame count32 frame_rkyv portable 7 addr read chunk

abbrev pool : ℕ → List (ℕ × GroupPool)
pool turn =
    (0, record { clients = record { base_url = []; healthy = true } ∷ []; next_index = turn }) ∷ []

abbrev served : Served
served = record { pool = pool 0; usage = []; frames_received = 0; queries = []; forwarded = [] }

-- The body of the request starts at a multiple of 8.
abbrev met : ProxyFrame → ℕ → Reply
met =
    replies routes streams parse tun count32 frame_rkyv control portable avx2 2 5 aligned_rkyv
      from_bytes (λ i. start) (λ i. 4096)

handle_forward-tcp_to_wss_example :
    (session : WssSession) × (message : Message) × (s' : Served) × (handshake (ok (greeting 7) ∷ [])
      ≡ ok (session, []))
    × (tcp_to_wss count32 frame_rkyv portable session.session_key 7 addr (read ∷ [])
        ≡ some (message ∷ []))
    × (rx_loop frame_rkyv control avx2 met 2 5 7 served ((1019, ok message) ∷ []) ≡ some s')
    × (s'.forwarded ≡ from_frame frame 2 ∷ [])
    × (4096 % 8 ≡ 0)
    × ((post_packet routes streams parse aligned_rkyv tun from_bytes start 4096
          (from_frame frame 2)).0.written
        ≡ start.written ++ (rewrite_source parse (virtual_ip (start.ip_pool)) chunk ∷ []))
unfolding data_frame target_info new_data from_frame ExitPool.forward forward_in send serving
    try_clients post_packet handle_http_request post_forward forward_bytes handle_forward
handle_forward-tcp_to_wss_example =
    handle_forward-tcp_to_wss routes streams parse tun count32 frame_rkyv control portable avx2 2 5
      aligned_rkyv from_bytes (λ i. start) (λ i. 4096) 7 1019 0 addr read 22 (3 ∷ 1 ∷ [])
      (write_frame frame) (write_words (from_frame frame 2)) [] served (pool 1)
      frame_rkyv-RoundTrips aligned_rkyv-AlignsTo (omega arith) refl refl refl (omega arith) refl
      refl refl

-- At any other address no node takes the packet.
unaligned_values :
    (replies routes streams parse tun count32 frame_rkyv control portable avx2 2 5 aligned_rkyv
        from_bytes
        (λ i. start)
        (λ i. 4097)
        frame
        0
      ≡ refused)
unfolding data_frame target_info new_data from_frame post_packet handle_http_request post_forward
    forward_bytes
unaligned_values = refl
