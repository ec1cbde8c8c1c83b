-- ===== src/Tests/ExitNode.antt =====
-- An exit node at concrete packets.
use apfsds_rs.Base.{
  take, drop, length, All, ℕ, ◌≡◌, refl, false, List, [], ◌∷◌, ◌++◌, none, some, Result, ok, err,
  and_then, arith, length, leb, take, drop, replicate, ◌==◌, if◌then◌else◌,
}
use apfsds_rs.Base.Maps.{DashMap, assoc_map, bytes_eq, nat_eq}
use apfsds_rs.Base.Rkyv.{Rkyv}
use apfsds_rs.Protocol.Packet.{PlainPacket, packet_magic, response}
use apfsds_rs.Protocol.Frame.{GroupInfo, ControlMessage, group_list}
use apfsds_rs.Transport.ExitClient.{Slice, receive_all, stream}
use apfsds_rs.Transport.ExitClient.Chunks.{bytes_of}
use apfsds_rs.Transport.ExitClient.Aligned.{kept}
use apfsds_rs.Daemon.ExitNode.{
  RouteEntry, Etherparse, Service, virtual_ip, new, register_stream, handle_forward, rewrite_source,
  wrap, return_packet,
}
use apfsds_rs.Daemon.ExitNode.Routes.{forward_all, return_packet-forward_all}
use apfsds_rs.Daemon.ExitNode.Isolation.{Given, return_packet-Given}
use apfsds_rs.Daemon.ExitNode.Delivery.{
  Fits, responses, Batch, chunks_of, responses_of, read_of, stream-responses,
}
use apfsds_rs.Daemon.ExitNode.Groups.{Awaited, await_groups-Awaited}
use apfsds_rs.Transport.WebSocket.{Message, binary, ping}
use apfsds_rs.Daemon.ExitNode.Sessions.{await_groups}
use apfsds_rs.Tests.{count32, packet_rkyv, write_packet}
use apfsds_rs.Tests.Aligned.{aligned_rkyv, write_words, from_bytes, aligned_rkyv-AlignsTo}

abbrev pub routes : DashMap (List ℕ) RouteEntry
routes = assoc_map (List ℕ) RouteEntry

abbrev pub streams : DashMap ℕ ℕ
streams = assoc_map ℕ ℕ

-- Twenty bytes or more are a header.
abbrev pub parse : Etherparse
parse = record {
  is_header = λ bytes. leb 20 (length bytes);
  destination = λ bytes. if leb 20 (length bytes) then some (take 4 (drop 16 bytes)) else none;
}

abbrev pub tun : List ℕ → Result (List ℕ) (Unit {0})
tun bytes = ok tt

abbrev pub packet : ℕ → ℕ → PlainPacket
packet handler_id conn_id = record {
  magic = packet_magic;
  conn_id = conn_id;
  handler_id = handler_id;
  rip = replicate 16 0;
  rport = 443;
  payload = replicate 20 5;
  checksum = 20;
  is_response = false;
}

abbrev pub start : Service routes streams
start = (register_stream routes streams (new routes streams) 1).0

-- A reply to the first packet, one to the second and one to nobody.
abbrev pub reply : ℕ → List ℕ
reply id = replicate 16 7 ++ (10 ∷ 200 ∷ 0 ∷ id ∷ 9 ∷ [])

abbrev pub others : List PlainPacket
others = packet 2 8 ∷ packet 1 9 ∷ []

returned :
    return_packet routes streams parse count32 packet_rkyv
      (forward_all routes streams parse tun start (packet 1 7 ∷ others))
      (reply 2)
    ≡ and_then
        (wrap (packet_rkyv.to_bytes (response count32 7 1 (reply 2))))
        (λ (frame : List ℕ). some (0, frame))
unfolding register_stream new
returned =
    return_packet-forward_all routes streams parse tun count32 packet_rkyv start (packet 1 7) others
      (reply 2) 0 (omega arith) (omega arith) refl refl

abbrev sent_frame : List ℕ
sent_frame = 44 ∷ 0 ∷ 0 ∷ 0 ∷ write_packet (response count32 9 1 (reply 4))

-- The third packet was given the address that the reply has.
return_packet-Given_example :
    (p : PlainPacket) × (dst : List ℕ) × (parse.destination (reply 4) ≡ some dst)
    × Given start.ip_pool (packet 1 7 ∷ others) dst p
    × (streams.get p.handler_id start.handler_streams ≡ some 0)
    × (wrap (packet_rkyv.to_bytes (response count32 p.conn_id p.handler_id (reply 4)))
        ≡ some sent_frame)
unfolding register_stream new return_packet handle_forward wrap
return_packet-Given_example =
    return_packet-Given routes streams parse tun count32 packet_rkyv start (packet 1 7 ∷ others)
      (reply 4) sent_frame 0 (omega arith) (λ dst. refl) refl

abbrev last : Service routes streams
last = forward_all routes streams parse tun start (packet 1 7 ∷ others)

-- The second reply is for a handler without a stream, and the third for nobody.
abbrev traffic : List (List ℕ)
traffic = reply 2 ∷ reply 3 ∷ reply 9 ∷ reply 4 ∷ []

-- The same twice, in a buffer that starts at a multiple of 8, and in one that starts 4 behind.
abbrev batches : List Batch
batches = (1000, traffic) ∷ (1004, traffic) ∷ []

fit :
    All
      (Fits routes streams parse count32 aligned_rkyv last)
      (responses routes streams parse count32 aligned_rkyv last 0 traffic)
unfolding register_stream new handle_forward response
fit = (
  (write_words (response count32 7 1 (reply 2)), refl, omega arith),
  ((write_words (response count32 9 1 (reply 4)), refl, omega arith), tt),
)

abbrev sent : List ℕ
sent = bytes_of (chunks_of routes streams parse count32 aligned_rkyv last 0 batches)

-- The same bytes in two pieces, cut in the middle of a frame.
abbrev pieces : List Slice
pieces = (2000, take 11 sent) ∷ (3000, drop 11 sent) ∷ []

stream-responses_example :
    ((slices : List Slice) × (receive_all [] pieces ≡ some (slices, []))
      × (length slices
          ≡ length (responses_of routes streams parse count32 aligned_rkyv last 0 batches))
      × (stream from_bytes pieces
          ≡ some (
            kept slices (responses_of routes streams parse count32 aligned_rkyv last 0 batches),
            [],
          )))
    × (stream from_bytes (chunks_of routes streams parse count32 aligned_rkyv last 0 batches)
        ≡ some (read_of routes streams parse count32 aligned_rkyv last 0 batches, []))
unfolding register_stream new handle_forward return_packet wrap
stream-responses_example =
    stream-responses routes streams parse count32 aligned_rkyv last from_bytes aligned_rkyv-AlignsTo
      0 batches pieces (fit, (fit, tt)) refl

read_values :
    read_of routes streams parse count32 aligned_rkyv last 0 batches
    ≡ response count32 9 1 (reply 4) ∷ response count32 7 1 (reply 2) ∷ []
unfolding register_stream new handle_forward
read_values = refl

responses_values :
    responses routes streams parse count32 aligned_rkyv last 0 traffic
    ≡ response count32 7 1 (reply 2) ∷ response count32 9 1 (reply 4) ∷ []
unfolding register_stream new handle_forward
responses_values = refl

-- Bytes 12 to 15 of the packet are the virtual address.
rewrite_source_values :
    rewrite_source parse (virtual_ip 2) (replicate 21 5)
    ≡ replicate 12 5 ++ (10 ∷ 200 ∷ 0 ∷ 2 ∷ replicate 5 5)
unfolding rewrite_source
rewrite_source_values = refl

-- Groups as their numbers and loads.
abbrev read_groups : List ℕ → List GroupInfo
read_groups (id ∷ load ∷ rest) =
    record { group_id = id; name = []; node_count = 1; load = load } ∷ read_groups rest
read_groups _ = []

abbrev control_rkyv : Rkyv ControlMessage
control_rkyv = record {
  Archived = List ℕ;
  to_bytes = λ m. err [];
  access = λ bytes. if length bytes == 0 then err [] else ok bytes;
  deserialize = λ bytes. ok (group_list (read_groups bytes));
}

abbrev messages : List (Result (List ℕ) Message)
messages = ok (ping []) ∷ ok (binary []) ∷ ok (binary (4 ∷ 30 ∷ 5 ∷ 20 ∷ 6 ∷ 20 ∷ [])) ∷ err [] ∷ []

awaited : Awaited control_rkyv (some 9) messages 5 (err [] ∷ [])
unfolding await_groups
awaited = await_groups-Awaited control_rkyv (some 9) messages 5 refl
