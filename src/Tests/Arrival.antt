-- ===== src/Tests/Arrival.antt =====
-- A reply on its whole way, at a concrete packet.
use apfsds_rs.Base.{
  take, drop, ◌++◌, ℕ, suc, ◌≡◌, refl, true, List, [], ◌∷◌, some, arith, length, replicate,
}
use apfsds_rs.Base.Maps.{bytes_eq, nat_eq}
use apfsds_rs.Obfuscation.XorMask.{portable, avx2}
use apfsds_rs.Protocol.Frame.{ProxyFrame, new_data}
use apfsds_rs.Protocol.Packet.{PlainPacket, response}
use apfsds_rs.Transport.WebSocket.{Message}
use apfsds_rs.Transport.ExitClient.{Slice, stream}
use apfsds_rs.Transport.ExitClient.Chunks
use apfsds_rs.Client.Wss.Exchange.{arrivals}
use apfsds_rs.Client.Socks5.Tunnel.{wss_to_tcp}
use apfsds_rs.Daemon.ConnectionRegistry.{dispatch}
use apfsds_rs.Daemon.Handler.Session.{tx_loop}
use apfsds_rs.Daemon.ExitNode.{register_stream, new, return_packet}
use apfsds_rs.Daemon.ExitNode.Routes.{forward_all}
use apfsds_rs.Daemon.ExitNode.Arrival.{wss_to_tcp-return_packet}
use apfsds_rs.Tests.{count32, frame_rkyv, frame_rkyv-RoundTrips, write_frame, low_draws}
use apfsds_rs.Tests.Aligned.{aligned_rkyv, write_words, from_bytes, aligned_rkyv-AlignsTo}
use apfsds_rs.Tests.Client.{control}
use apfsds_rs.Tests.ExitNode.{routes, streams, parse, tun, packet, start, reply, others}

-- Connection 7 has channel 3.
abbrev registry : List (ℕ × ℕ)
registry = (7, 3) ∷ []

abbrev answer : PlainPacket
answer = response count32 7 1 (reply 2)

abbrev uuid : List ℕ
uuid = replicate 16 9

abbrev frame : ProxyFrame
frame = new_data count32 uuid 1000000 7 (replicate 16 0) 0 (reply 2)

-- The first five bytes of the frame, in a buffer somewhere else.
abbrev pieces : List Slice
pieces =
    (2000, take 2 (Chunks.frame (write_words answer)))
    ∷ (2000, take 3 (drop 2 (Chunks.frame (write_words answer))))
    ∷ []

wss_to_tcp-return_packet_example :
    (return_packet routes streams parse count32 aligned_rkyv
        (forward_all routes streams parse tun start (packet 1 7 ∷ others))
        (reply 2)
      ≡ some (0, Chunks.frame (write_words answer)))
    × (stream from_bytes (pieces ++ ((1004, drop 5 (Chunks.frame (write_words answer))) ∷ []))
        ≡ some (answer ∷ [], []))
    × (dispatch streams count32 uuid 1000000 registry answer ≡ some (3, frame))
    × (messages : List Message) × (tx_loop frame_rkyv control portable 5
          ((frame, low_draws, 1000, true) ∷ [])
        ≡ some messages)
    × (wss_to_tcp count32 frame_rkyv avx2
          (λ b. true)
          (suc (length messages))
          5
          (arrivals messages (1019 ∷ []))
        ≡ some (reply 2))
unfolding register_stream new response new_data
wss_to_tcp-return_packet_example =
    wss_to_tcp-return_packet routes streams streams parse tun count32 aligned_rkyv from_bytes
      frame_rkyv control portable avx2 start (packet 1 7) others (reply 2) (write_words answer) 0 3
      registry uuid 1000000 5 low_draws 1000 1019 pieces 1004
      (drop 5 (Chunks.frame (write_words answer))) aligned_rkyv-AlignsTo frame_rkyv-RoundTrips
      (omega arith) (omega arith) refl refl refl (omega arith) refl (omega arith) refl
      (refl, (write_frame frame, refl, omega arith), refl, tt)
