-- ===== src/Daemon/ExitNode/Arrival.antt =====
-- The whole way of a reply, from the TUN device of an exit node to the program behind the client:
-- daemon/src/exit_node.rs, crates/transport/src/exit_client.rs, daemon/src/connection_registry.rs,
-- daemon/src/handler.rs and client/src/socks5.rs, one after the other.
use apfsds_rs.Base.{
  ℕ, suc, ◌+◌, ◌%◌, ◌^◌, ◌<◌, ◌≡◌, refl, ◌∙◌, ap, true, List, [], ◌∷◌, ◌++◌, append-nil, Option,
  some, Result, ok, length, arith, ◌==◌, if◌then◌else◌,
}
use native.Mathlib.Nat.{mod-eq_of_lt}
use apfsds_rs.Base.Maps.{DashMap, bytes_eq, nat_eq}
use apfsds_rs.Base.Rkyv.{Rkyv, RoundTrips, AlignsTo}
use apfsds_rs.Base.Words.{to_le_bytes}
use apfsds_rs.Obfuscation.Padding.{Draws}
use apfsds_rs.Obfuscation.XorMask.{Target}
use apfsds_rs.Protocol.Frame.{ProxyFrame, ControlMessage, new_data}
use apfsds_rs.Protocol.Packet.{PlainPacket, response}
use apfsds_rs.Transport.WebSocket.{Message}
use apfsds_rs.Transport.ExitClient.{Slice, dispatched, stream}
use apfsds_rs.Transport.ExitClient.Chunks.{frame, bytes_of, receive_all-pieces}
use apfsds_rs.Client.Wss.Exchange.{arrivals, Timely}
use apfsds_rs.Client.Socks5.Tunnel.{wss_to_tcp, wss_to_tcp-tx_loop}
use apfsds_rs.Daemon.ConnectionRegistry.{dispatch}
use apfsds_rs.Daemon.Handler.Session.{tx_loop}
use apfsds_rs.Daemon.ExitNode.{RouteEntry, Etherparse, Service, virtual_ip, wrap, return_packet}
use apfsds_rs.Daemon.ExitNode.Routes.{forward_all, return_packet-forward_all}

-- What the exit node frames, the handler's stream gives back where it is aligned.
stream-frame :
    (rkyv : Rkyv PlainPacket) (from_bytes : ℕ → List ℕ → Option PlainPacket) (p : PlainPacket)
    (bytes : List ℕ) (pieces : List Slice) (address : ℕ) (last : List ℕ)
    → AlignsTo 8 rkyv from_bytes
    → rkyv.to_bytes p ≡ ok bytes
    → length bytes < 2 ^ 32
    → bytes_of pieces ++ last ≡ frame bytes
    → 0 < length last
    → stream from_bytes (pieces ++ ((address, last) ∷ []))
      ≡ some (if address % 8 == 4 then p ∷ [] else [], [])
unfolding dispatched stream
stream-frame rkyv from_bytes p bytes pieces address last aligned written small cut more =
    rw
      (
        receive_all-pieces [] bytes pieces address last cut more small,
        (aligned p bytes written).1 (address + 4),
      )
      (ground arith)

module _ (routes : DashMap (List ℕ) RouteEntry) (streams connections : DashMap ℕ ℕ)
    (parse : Etherparse) (write_all : List ℕ → Result (List ℕ) (Unit {0})) (crc32 : List ℕ → ℕ)
    (packets : Rkyv PlainPacket) (from_bytes : ℕ → List ℕ → Option PlainPacket)
    (k : Rkyv ProxyFrame) (control : Rkyv ControlMessage) (t u : Target) where
  abbrev pub frame_for : List ℕ → ℕ → PlainPacket → ProxyFrame
  frame_for uuid now r = new_data crc32 uuid now r.conn_id r.rip r.rport r.payload

  -- A reply to the virtual address of a packet, after fewer than 65536 others: the exit node sends
  -- one frame on the stream of the handler. However that frame is cut into pieces, the handler takes
  -- the packet out of the stream where its buffer starts 4 behind a multiple of 8 when the last piece
  -- is in it; at any other address, the start of an allocation among them, the packet is not aligned,
  -- for archives whose alignment is 8, and the reply is dropped. A packet that is taken out is
  -- dispatched to the channel of its connection; that session's loop makes one message of it; and
  -- the client, which reads it in the same minute, writes exactly the bytes of the reply to the
  -- local program.
  pub wss_to_tcp-return_packet :
      (s : Service routes streams) (p : PlainPacket) (ps : List PlainPacket) (reply bytes : List ℕ)
      (channel sender : ℕ) (registry : connections.Map) (uuid : List ℕ) (now key : ℕ)
      (draws : Draws) (sent_at read_at : ℕ) (pieces : List Slice) (address : ℕ) (last : List ℕ)
      → AlignsTo 8 packets from_bytes
      → RoundTrips k
      → s.ip_pool < 2 ^ 16
      → length ps < 2 ^ 16
      → parse.destination reply ≡ some (virtual_ip s.ip_pool)
      → streams.get p.handler_id s.handler_streams ≡ some channel
      → packets.to_bytes (response crc32 p.conn_id p.handler_id reply) ≡ ok bytes
      → length bytes < 2 ^ 32
      → bytes_of pieces ++ last ≡ frame bytes
      → 0 < length last
      → connections.get p.conn_id registry ≡ some sender
      → let r : PlainPacket = response crc32 p.conn_id p.handler_id reply in
        Timely k ((frame_for uuid now r, draws, sent_at, true) ∷ []) (read_at ∷ [])
        → (return_packet routes streams parse crc32 packets
              (forward_all routes streams parse write_all s (p ∷ ps))
              reply
            ≡ some (channel, frame bytes))
          × (stream from_bytes (pieces ++ ((address, last) ∷ []))
              ≡ some (if address % 8 == 4 then r ∷ [] else [], []))
          × (dispatch connections crc32 uuid now registry r ≡ some (sender, frame_for uuid now r))
          × (messages : List Message) × (tx_loop k control t key
                ((frame_for uuid now r, draws, sent_at, true) ∷ [])
              ≡ some messages)
          × (wss_to_tcp crc32 k u
                (λ b. true)
                (suc (length messages))
                key
                (arrivals messages (read_at ∷ []))
              ≡ some reply)
  unfolding wrap dispatch response new_data
  wss_to_tcp-return_packet s p ps reply bytes channel sender registry uuid now key draws sent_at
        read_at pieces address last aligned back_k few later_few to_it streaming written small cut
        more registered timely =
      let r : PlainPacket = response crc32 p.conn_id p.handler_id reply in
      let (messages, sent, arrived) =
        wss_to_tcp-tx_loop crc32 k control t u (λ b. true) key
          ((frame_for uuid now r, draws, sent_at, true) ∷ []) (read_at ∷ []) back_k timely
          (λ b. refl) in
      (
        return_packet-forward_all routes streams parse write_all crc32 packets s p ps reply channel
              few later_few to_it streaming
            ∙ rw written
                (ap (λ (n : ℕ). some (channel, to_le_bytes 4 n ++ bytes)) (mod-eq_of_lt small)),
        stream-frame packets from_bytes r bytes pieces address last aligned written small cut more,
        rw registered refl,
        messages,
        sent,
        arrived ∙ ap some (append-nil reply),
      )
