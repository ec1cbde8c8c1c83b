-- ===== src/Daemon/ExitNode/Isolation.antt =====
-- Return traffic reaches no handler but the one that forwarded a packet for it.
use apfsds_rs.Base.{
  ℕ, ◌+◌, ◌%◌, ◌^◌, ◌<◌, ◌≡◌, ◌⊎◌, inl, inr, refl, sym, ◌∙◌, ap, Bool, true, false, List, [], ◌∷◌,
  ◌++◌, none, some, Result, arith, length, and_then-some, none_ne_some, some_injective,
  if◌then◌else◌,
}
use apfsds_rs.Base.Maps.{DashMap, bytes_eq, nat_eq}
use apfsds_rs.Base.Rkyv.{Rkyv}
use apfsds_rs.Protocol.Packet.{PlainPacket, response}
use apfsds_rs.Daemon.ExitNode.{
  RouteEntry, Etherparse, Service, virtual_ip, handle_forward, wrap, return_packet,
}
use apfsds_rs.Daemon.ExitNode.Routes.{entry_of, forward, forward_all, get_forward, forward_streams}

-- Of the packets `ps`, forwarded from the allocation `id` on: one that was given the address `dst`.
abbrev pub Given : ℕ → List PlainPacket → List ℕ → PlainPacket → Type 0
Given id ps dst p =
    (before after : List PlainPacket) × (ps ≡ before ++ (p ∷ after))
    × (dst ≡ virtual_ip ((id + length before) % 2 ^ 16))

Given-later :
    (id : ℕ) (q p : PlainPacket) (ps : List PlainPacket) (dst : List ℕ)
    → Given ((id + 1) % 2 ^ 16) ps dst p
    → Given id (q ∷ ps) dst p
Given-later id q p ps dst (before, after, e, place) =
    (q ∷ before, after, ap (◌∷◌ q) e, place ∙ ap virtual_ip (omega arith))

module _ (routes : DashMap (List ℕ) RouteEntry) (streams : DashMap ℕ ℕ) (parse : Etherparse)
    (write_all : List ℕ → Result (List ℕ) (Unit {0})) where
  abbrev From : Service routes streams → List PlainPacket → List ℕ → RouteEntry → Type 0
  From s ps dst e =
      (routes.get dst s.route_map ≡ some e)
      ⊎ ((p : PlainPacket) × (e ≡ entry_of p) × Given s.ip_pool ps dst p)

  route_given :
      (s : Service routes streams) (ps : List PlainPacket) (dst : List ℕ) (e : RouteEntry)
      → s.ip_pool < 2 ^ 16
      → routes.get dst ((forward_all routes streams parse write_all s ps).route_map) ≡ some e
      → From s ps dst e
  unfolding handle_forward
  route_given s [] dst e small found = inl found
  route_given s (q ∷ ps) dst e small found =
      elim (route_given (forward routes streams parse write_all s q) ps dst e (omega arith) found) [
        | inl first ↦
            by_test (bytes_eq.beq (virtual_ip s.ip_pool) dst) refl
              (sym (get_forward routes streams parse write_all s q dst) ∙ first)
        | inr (p, same, given) ↦ inr (p, same, Given-later s.ip_pool q p ps dst given)
      ]
    where
      by_test :
          (b : Bool)
          → bytes_eq.beq (virtual_ip s.ip_pool) dst ≡ b
          → (if b then some (entry_of q) else routes.get dst s.route_map) ≡ some e
          → From s (q ∷ ps) dst e
      by_test true same is = inr (
        q,
        some_injective e (entry_of q) (sym is),
        (
          [],
          ps,
          refl,
          sym ((bytes_eq.beq_iff (virtual_ip s.ip_pool) dst).0 same) ∙ ap virtual_ip (omega arith),
        ),
      )
      by_test false differ is = inl is

  module _ (crc32 : List ℕ → ℕ) (rkyv : Rkyv PlainPacket) where
    -- From a start, what the reader sends is a response for the connection of a packet that was
    -- forwarded and that was given the virtual address to which the traffic goes, and it is sent on
    -- the stream of the handler of that packet.
    pub return_packet-Given :
        (s : Service routes streams) (ps : List PlainPacket) (packet frame : List ℕ) (channel : ℕ)
        → s.ip_pool < 2 ^ 16
        → ((dst : List ℕ) → routes.get dst s.route_map ≡ none)
        → return_packet routes streams parse crc32 rkyv
            (forward_all routes streams parse write_all s ps)
            packet
          ≡ some (channel, frame)
        → (p : PlainPacket) × (dst : List ℕ) × (parse.destination packet ≡ some dst)
          × Given s.ip_pool ps dst p
          × (streams.get p.handler_id s.handler_streams ≡ some channel)
          × (wrap (rkyv.to_bytes (response crc32 p.conn_id p.handler_id packet)) ≡ some frame)
    unfolding return_packet
    return_packet-Given s ps packet frame channel small fresh sent =
        let last : Service routes streams = forward_all routes streams parse write_all s ps in
        let (dst, parsed, r₁) = and_then-some (parse.destination packet) _ (channel, frame) sent in
        let (route, routed, r₂) = and_then-some (routes.get dst last.route_map) _ _ r₁ in
        let (sender, open_, r₃) =
          and_then-some (streams.get route.handler_id last.handler_streams) _ _ r₂ in
        let (bytes, wrapped, r₄) =
          and_then-some
            (wrap (rkyv.to_bytes (response crc32 route.conn_id route.handler_id packet))) _ _ r₃ in
        elim (route_given s ps dst route small routed) [
          | inl start ↦ absurd (none_ne_some route (sym (fresh dst) ∙ start))
          | inr (p, same, given) ↦
              let both : (sender, bytes) ≡ (channel, frame) = some_injective _ _ r₄ in
              (
                p,
                dst,
                parsed,
                given,
                ap (λ (r : RouteEntry). streams.get r.handler_id s.handler_streams) (sym same)
                    ∙ ap (streams.get route.handler_id)
                        (sym (forward_streams routes streams parse write_all s ps))
                    ∙ open_
                    ∙ ap (λ (x : ℕ × List ℕ). some (x.0)) both,
                ap
                      (λ (r : RouteEntry).
                        wrap (rkyv.to_bytes (response crc32 r.conn_id r.handler_id packet)))
                      (sym same)
                    ∙ wrapped
                    ∙ ap (λ (x : ℕ × List ℕ). some (x.1)) both,
              )
        ]
