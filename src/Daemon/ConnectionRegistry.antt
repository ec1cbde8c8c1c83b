-- ===== src/Daemon/ConnectionRegistry.antt =====
-- daemon/src/connection_registry.rs: which client a packet from an exit node is for. A channel is its
-- number, and what is sent is the answer of `dispatch`.
use apfsds_rs.Base.{
  ℕ, ◌≡◌, ◌≢◌, refl, ◌∙◌, List, [], ◌∷◌, Option, none, some, and_then, ==_iff, ==_refl, All, arith,
}
use apfsds_rs.Base.Maps.{DashMap, nat_eq}
use apfsds_rs.Protocol.Frame.{ProxyFrame, new_data}
use apfsds_rs.Protocol.Packet.{PlainPacket}

module _ (d : DashMap ℕ ℕ) where
  unfoldable pub new : d.Map
  new = d.empty

  unfoldable pub register : d.Map → ℕ → ℕ → d.Map
  register connections conn_id sender = d.insert conn_id sender connections

  unfoldable pub unregister : d.Map → ℕ → d.Map
  unregister connections conn_id = d.remove conn_id connections

  unfoldable pub count : d.Map → ℕ
  count connections = d.len connections

  -- The channel and the frame; the checksum, the UUID and the clock are those of `new_data`.
  unfoldable pub dispatch :
      (List ℕ → ℕ) → List ℕ → ℕ → d.Map → PlainPacket → Option (ℕ × ProxyFrame)
  unfolding new_data
  dispatch crc32 uuid now connections packet = and_then (d.get packet.conn_id connections) λ sender.
      some (sender, new_data crc32 uuid now packet.conn_id packet.rip packet.rport packet.payload)

  pub data Op : Type 0 where
    register_op : ℕ → ℕ → Op
    unregister_op : ℕ → Op

  abbrev pub step : d.Map → Op → d.Map
  step connections (register_op conn_id sender) = register connections conn_id sender
  step connections (unregister_op conn_id) = unregister connections conn_id

  abbrev pub steps : d.Map → List Op → d.Map
  steps connections [] = connections
  steps connections (op ∷ ops) = steps (step connections op) ops

  abbrev pub Spares : ℕ → Op → Type 0
  Spares id (register_op conn_id sender) = conn_id ≢ id
  Spares id (unregister_op conn_id) = conn_id ≢ id

  get-step :
      (connections : d.Map) (op : Op) (id : ℕ)
      → Spares id op
      → d.get id (step connections op) ≡ d.get id connections
  unfolding register unregister
  get-step connections (register_op conn_id sender) id other =
      ground (arith, d.get-insert conn_id id sender connections, ==_iff conn_id id)
  get-step connections (unregister_op conn_id) id other =
      ground (arith, d.get-remove conn_id id connections, ==_iff conn_id id)

  get-steps :
      (connections : d.Map) (ops : List Op) (id : ℕ)
      → All (Spares id) ops
      → d.get id (steps connections ops) ≡ d.get id connections
  get-steps connections [] id other = refl
  get-steps connections (op ∷ ops) id (o, other) =
      get-steps (step connections op) ops id other ∙ get-step connections op id o

  -- A packet goes to the channel that its connection was last registered with, and none goes out
  -- once the connection is unregistered, whatever other connections come and go in between. The
  -- client gets a data frame with the packet's address, port and payload.
  pub dispatch-steps :
      (crc32 : List ℕ → ℕ) (uuid : List ℕ) (now : ℕ) (connections : d.Map) (ops : List Op)
      (packet : PlainPacket) (sender : ℕ)
      → All (Spares packet.conn_id) ops
      → (dispatch crc32 uuid now (steps (register connections packet.conn_id sender) ops) packet
          ≡ some (
            sender,
            new_data crc32 uuid now packet.conn_id packet.rip packet.rport packet.payload,
          ))
        × (dispatch crc32 uuid now (steps (unregister connections packet.conn_id) ops) packet
            ≡ none)
  unfolding dispatch register unregister
  dispatch-steps crc32 uuid now connections ops packet sender other =
      let id : ℕ = packet.conn_id in
      (
        rw
            (
              get-steps (register connections id sender) ops id other,
              d.get-insert id id sender connections,
              ==_refl id,
            )
            refl,
        rw
            (
              get-steps (unregister connections id) ops id other,
              d.get-remove id id connections,
              ==_refl id,
            )
            refl,
      )
