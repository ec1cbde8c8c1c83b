-- ===== src/Daemon/ExitNode.antt =====
-- daemon/src/exit_node.rs: the exit node, its NAT and its sessions with a handler. The packages (rkyv,
-- etherparse, dashmap, the sockets) and the TUN device are arguments. A channel is its number.
pub mod Sessions
pub mod Posted
pub mod Routes
pub mod Isolation
pub mod Delivery
pub mod Groups
pub mod Arrival
use apfsds_rs.Base.{
  ℕ, ◌+◌, ◌/◌, ◌%◌, ◌^◌, Bool, true, false, ◌&&◌, List, [], ◌∷◌, ◌++◌, Option, none, some, Result,
  ok, err, ◌>>=◌, and_then, length, leb, if◌then◌else◌,
}
use apfsds_rs.Base.Maps.{DashMap, bytes_eq, nat_eq}
use apfsds_rs.Base.Rkyv.{Rkyv}
use apfsds_rs.Base.Words.{to_le_bytes}
use apfsds_rs.Protocol.Frame.{copy_from_slice}
use apfsds_rs.Protocol.Packet.{PlainPacket, response}

pub record RouteEntry : Type 0 where
  pub handler_id : ℕ
  pub conn_id : ℕ

-- `opened` counts the channels that `register_stream` has made, and `written` are the slices that
-- `write_all` of the TUN device has been given, in order.
pub record ExitService (Routes Streams : Type 0) : Type 0 where
  pub route_map : Routes
  pub handler_streams : Streams
  pub ip_pool : ℕ
  pub opened : ℕ
  pub written : List (List ℕ)

-- `etherparse`: whether a slice starts with an IPv4 header, and the destination that this header has.
pub record Etherparse : Type 0 where
  pub is_header : List ℕ → Bool
  pub destination : List ℕ → Option (List ℕ)

-- `id >> 8` and `id & 0xFF`.
abbrev pub virtual_ip : ℕ → List ℕ
virtual_ip id = 10 ∷ 200 ∷ id / 2 ^ 8 % 2 ^ 8 ∷ id % 2 ^ 8 ∷ []

abbrev pub rkyv_from_bytes : {A : Type 0} → Rkyv A → List ℕ → Result (List ℕ) A
rkyv_from_bytes k bytes = k.access bytes >>= k.deserialize

-- The source of an IPv4 packet becomes `ip`; nothing else of it changes.
unfoldable pub rewrite_source : Etherparse → List ℕ → List ℕ → List ℕ
rewrite_source parse ip payload =
    if parse.is_header payload && leb 20 (length payload)
    then copy_from_slice payload 12 16 ip
    else payload

-- Behind its length as a `u32`.
unfoldable pub wrap : Result (List ℕ) (List ℕ) → Option (List ℕ)
wrap (ok bytes) = some (to_le_bytes 4 (length bytes % 2 ^ 32) ++ bytes)
wrap (err e) = none

module _ (routes : DashMap (List ℕ) RouteEntry) (streams : DashMap ℕ ℕ) where
  abbrev pub Service : Type 0
  Service = ExitService routes.Map streams.Map

  unfoldable pub new : Service
  new = record {
    route_map = routes.empty;
    handler_streams = streams.empty;
    ip_pool = 2;
    opened = 0;
    written = [];
  }

  unfoldable pub alloc_ip : Service → Service × List ℕ
  alloc_ip s = (record s { ip_pool = (s.ip_pool + 1) % 2 ^ 16 }, virtual_ip s.ip_pool)

  -- The new stream takes the place of an older one of the handler.
  unfoldable pub register_stream : Service → ℕ → Service × ℕ
  register_stream s handler_id = (
    record s {
      handler_streams = streams.insert handler_id s.opened s.handler_streams;
      opened = s.opened + 1;
    },
    s.opened,
  )

  module _ (parse : Etherparse) where
    -- `write_all` is the TUN device's answer.
    unfoldable pub handle_forward :
        (List ℕ → Result (List ℕ) (Unit {0}))
        → Service
        → PlainPacket
        → Service × Result (List ℕ) (Unit {0})
    unfolding alloc_ip rewrite_source
    handle_forward write_all s packet =
        let allocated : Service × List ℕ = alloc_ip s in
        let entry : RouteEntry = record {
          handler_id = packet.handler_id;
          conn_id = packet.conn_id;
        } in
        let payload : List ℕ = rewrite_source parse allocated.1 packet.payload in
        (
          record (allocated.0) {
            route_map = routes.insert allocated.1 entry s.route_map;
            written = s.written ++ (payload ∷ []);
          },
          write_all payload,
        )

    module _ (crc32 : List ℕ → ℕ) (rkyv : Rkyv PlainPacket) where
      -- What a packet from the TUN device makes the reader send: the channel and the frame.
      unfoldable pub return_packet : Service → List ℕ → Option (ℕ × List ℕ)
      unfolding response
      return_packet s packet = and_then (parse.destination packet) λ dst.
          and_then (routes.get dst s.route_map) λ route.
            and_then (streams.get route.handler_id s.handler_streams) λ sender.
              and_then (wrap (rkyv.to_bytes (response crc32 route.conn_id route.handler_id packet)))
                λ frame. some (sender, frame)
