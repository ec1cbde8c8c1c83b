-- ===== src/Daemon/ExitNode/Posted.antt =====
-- One packet on its way from the handler to an exit node: `ExitClient::forward` of
-- crates/transport/src/exit_client.rs, and the answer of daemon/src/exit_node.rs.
use apfsds_rs.Base.{
  ℕ, ◌%◌, ◌≡◌, refl, sym, ◌∙◌, Bool, true, false, ◌&&◌, List, [], ◌∷◌, ◌++◌, Option, none, some,
  Result, ok, err, arith, leb, ltb, inl, inr, Bool-cases, ◌==◌, if◌then◌else◌,
}
use apfsds_rs.Base.Maps.{DashMap, bytes_eq, nat_eq}
use apfsds_rs.Base.Rkyv.{Rkyv, AlignsTo}
use apfsds_rs.Protocol.Packet.{PlainPacket}
use apfsds_rs.Transport.ExitPool.{Reply, delivered, refused, unreachable, unserialized}
use apfsds_rs.Daemon.ExitNode.{
  RouteEntry, Etherparse, Service, virtual_ip, alloc_ip, rewrite_source, handle_forward,
}
use apfsds_rs.Daemon.ExitNode.Sessions.{
  post, Request, Response, forward_bytes, post_forward, handle_http_request,
}

-- The request that is sent, as it lies at the exit node.
abbrev pub request_of : ℕ → List ℕ → Request
request_of address bytes = record { method = post; path = "/forward"; body = some (address, bytes) }

-- What the client makes of the response: a status between 200 and 299 is a success.
abbrev pub reply_of : Option Response → Reply
reply_of none = unreachable
reply_of (some response) =
    if leb 200 response.status && ltb response.status 300 then delivered else refused

refused_ne_delivered : refused ≡ delivered → ⊥
refused_ne_delivered h = cc

module _ (routes : DashMap (List ℕ) RouteEntry) (streams : DashMap ℕ ℕ) (parse : Etherparse)
    (packets : Rkyv PlainPacket) (write_all : List ℕ → Result (List ℕ) (Unit {0}))
    (from_bytes : ℕ → List ℕ → Option PlainPacket) where
  -- The exit node after the packet is posted to it, and what the client meets.
  abbrev pub posted :
      Service routes streams → ℕ → Result (List ℕ) (List ℕ) → Service routes streams × Reply
  posted e address (err x) = (e, unserialized)
  posted e address (ok bytes) =
      let answered : Service routes streams × Option Response =
        handle_http_request routes streams parse packets write_all from_bytes e
          (request_of address bytes) in
      (answered.0, reply_of answered.1)

  unfoldable pub post_packet :
      Service routes streams → ℕ → PlainPacket → Service routes streams × Reply
  post_packet e address packet = posted e address (packets.to_bytes packet)

  -- For archives whose alignment is 8: a packet that is serialised and lies at a multiple of 8 at the
  -- exit node is handled there, and the client meets success; at any other address it is refused,
  -- and the exit node stays as it was.
  pub post_packet-aligned :
      (e : Service routes streams) (address : ℕ) (packet : PlainPacket) (bytes : List ℕ)
      → AlignsTo 8 packets from_bytes
      → packets.to_bytes packet ≡ ok bytes
      → post_packet e address packet ≡ (
          if address % 8 == 0
          then ((handle_forward routes streams parse write_all e packet).0, delivered)
          else (e, refused))
  unfolding post_packet handle_http_request post_forward forward_bytes
  post_packet-aligned e address packet bytes aligned written =
      rw (written) (by_test (address % 8 == 0) ((aligned packet bytes written).1 address))
    where
      by_test :
          (b : Bool)
          → from_bytes address bytes ≡ (if b then some packet else none)
          → posted e address (ok bytes) ≡ (
              if b
              then ((handle_forward routes streams parse write_all e packet).0, delivered)
              else (e, refused))
      by_test true h = rw h refl
      by_test false h = rw h refl

  -- What the client meets is success only at a multiple of 8, and then the TUN device of the exit
  -- node is given the payload, with the address that the exit node has for it.
  pub post_packet-delivered :
      (e : Service routes streams) (address : ℕ) (packet : PlainPacket) (bytes : List ℕ)
      → AlignsTo 8 packets from_bytes
      → packets.to_bytes packet ≡ ok bytes
      → (post_packet e address packet).1 ≡ delivered
      → (address % 8 ≡ 0)
        × ((post_packet e address packet).0.written
            ≡ e.written ++ (rewrite_source parse (virtual_ip e.ip_pool) packet.payload ∷ []))
  unfolding handle_forward alloc_ip
  post_packet-delivered e address packet bytes aligned written success =
      let met : post_packet e address packet ≡ (
          if address % 8 == 0
          then ((handle_forward routes streams parse write_all e packet).0, delivered)
          else (e, refused)) =
        post_packet-aligned e address packet bytes aligned written in
      elim (Bool-cases (address % 8 == 0)) [
        | inl at ↦ (ground arith, rw (met, at) refl)
        | inr off ↦
            let met_refused : (post_packet e address packet).1 ≡ refused = rw (met, off) refl in
            absurd (refused_ne_delivered (sym met_refused ∙ success))
      ]
