-- ===== src/Daemon/ExitNode/Routes.antt =====
-- Where the return traffic of a forwarded packet goes.
use apfsds_rs.Base.{
  ◌≢◌, ℕ, ◌+◌, ◌%◌, ◌^◌, ◌<◌, ◌≡◌, refl, sym, ◌∙◌, ap, Bool, false, List, [], ◌∷◌, some, Result,
  and_then, arith, length, Bool-cases, inl, inr, if◌then◌else◌,
}
use apfsds_rs.Base.Maps.{beq_refl, DashMap, bytes_eq, nat_eq}
use apfsds_rs.Base.Rkyv.{Rkyv}
use apfsds_rs.Protocol.Packet.{PlainPacket, response}
use apfsds_rs.Daemon.ExitNode.{
  RouteEntry, Etherparse, Service, virtual_ip, handle_forward, wrap, return_packet,
}

abbrev pub entry_of : PlainPacket → RouteEntry
entry_of p = record { handler_id = p.handler_id; conn_id = p.conn_id }

virtual_ip_injective : (a b : ℕ) → a < 2 ^ 16 → b < 2 ^ 16 → virtual_ip a ≡ virtual_ip b → a ≡ b
virtual_ip_injective a b ha hb e = ground arith

module _ (routes : DashMap (List ℕ) RouteEntry) (streams : DashMap ℕ ℕ) (parse : Etherparse)
    (write_all : List ℕ → Result (List ℕ) (Unit {0})) where
  abbrev pub forward : Service routes streams → PlainPacket → Service routes streams
  forward s p = (handle_forward routes streams parse write_all s p).0

  abbrev pub forward_all : Service routes streams → List PlainPacket → Service routes streams
  forward_all s [] = s
  forward_all s (p ∷ ps) = forward_all (forward s p) ps

  pub forward_streams :
      (s : Service routes streams) (ps : List PlainPacket)
      → (forward_all s ps).handler_streams ≡ s.handler_streams
  unfolding handle_forward
  forward_streams s [] = refl
  forward_streams s (p ∷ ps) = forward_streams (forward s p) ps

  pub get_forward :
      (s : Service routes streams) (p : PlainPacket) (dst : List ℕ)
      → routes.get dst ((forward s p).route_map) ≡ (
          if bytes_eq.beq (virtual_ip s.ip_pool) dst
          then some (entry_of p)
          else routes.get dst s.route_map)
  unfolding handle_forward
  get_forward s p dst = routes.get-insert (virtual_ip s.ip_pool) dst (entry_of p) s.route_map

  pub pool_forward :
      (s : Service routes streams) (p : PlainPacket)
      → (forward s p).ip_pool ≡ (s.ip_pool + 1) % 2 ^ 16
  unfolding handle_forward
  pool_forward s p = refl

  other_ip :
      (id j : ℕ)
      → id < 2 ^ 16
      → j < 2 ^ 16
      → id ≢ j
      → bytes_eq.beq (virtual_ip j) (virtual_ip id) ≡ false
  other_ip id j a b ne = elim (Bool-cases (bytes_eq.beq (virtual_ip j) (virtual_ip id))) [
    | inl same ↦ absurd (
        ne (
          virtual_ip_injective id j a b
            (sym ((bytes_eq.beq_iff (virtual_ip j) (virtual_ip id)).0 same))))
    | inr differ ↦ differ
  ]

  -- The address of `id`, `n` allocations after it, is not handed out again.
  keeps_route :
      (s : Service routes streams) (ps : List PlainPacket) (id n : ℕ)
      → id < 2 ^ 16
      → s.ip_pool ≡ (id + n + 1) % 2 ^ 16
      → n + length ps < 2 ^ 16
      → routes.get (virtual_ip id) ((forward_all s ps).route_map)
        ≡ routes.get (virtual_ip id) s.route_map
  keeps_route s [] id n a b c = refl
  keeps_route s (p ∷ ps) id n a b c =
      keeps_route (forward s p) ps id (n + 1) a (pool_forward s p ∙ omega arith) (omega arith)
      ∙ get_forward s p (virtual_ip id)
      ∙ ap (λ (t : Bool). if t then some (entry_of p) else routes.get (virtual_ip id) s.route_map)
          (other_ip id s.ip_pool a (omega arith) (λ same. omega arith))

  module _ (crc32 : List ℕ → ℕ) (rkyv : Rkyv PlainPacket) where
    -- A packet with the virtual address of a forwarded one comes back on the stream of its handler,
    -- as a response for its connection, as long as fewer than 65536 packets were forwarded since.
    pub return_packet-forward_all :
        (s : Service routes streams) (p : PlainPacket) (ps : List PlainPacket) (packet : List ℕ)
        (channel : ℕ)
        → s.ip_pool < 2 ^ 16
        → length ps < 2 ^ 16
        → parse.destination packet ≡ some (virtual_ip s.ip_pool)
        → streams.get p.handler_id s.handler_streams ≡ some channel
        → return_packet routes streams parse crc32 rkyv (forward_all s (p ∷ ps)) packet
          ≡ and_then
              (wrap (rkyv.to_bytes (response crc32 p.conn_id p.handler_id packet)))
              (λ frame. some (channel, frame))
    unfolding return_packet
    return_packet-forward_all s p ps packet channel a b dst registered =
        rw (dst, route, forward_streams (forward s p) ps, streams_kept, registered) refl
      where
        route :
            routes.get (virtual_ip s.ip_pool) ((forward_all s (p ∷ ps)).route_map)
            ≡ some (entry_of p)
        route =
            keeps_route (forward s p) ps s.ip_pool 0 a (pool_forward s p ∙ omega arith)
              (omega arith)
            ∙ get_forward s p (virtual_ip s.ip_pool)
            ∙ ap
                (λ (t : Bool).
                  if t then some (entry_of p) else routes.get (virtual_ip s.ip_pool) s.route_map)
                (beq_refl (virtual_ip s.ip_pool))

        streams_kept : (forward s p).handler_streams ≡ s.handler_streams
        streams_kept = forward_streams s (p ∷ [])
