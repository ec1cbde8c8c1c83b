-- ===== src/Daemon/Handler/Session.antt =====
-- daemon/src/handler.rs: the session that `handle_connect` starts. Its tasks share the registry, the
-- exit nodes and the billing; each is the sequence of what it receives.
pub mod Billed
use apfsds_rs.Base.{
  ℕ, ◌+◌, ◌%◌, ◌^◌, Bool, true, false, List, [], ◌∷◌, ◌++◌, Option, none, some, and_then, Result,
  ok, err, length, if◌then◌else◌,
}
use apfsds_rs.Base.Rkyv.{Rkyv}
use apfsds_rs.Base.Words.{to_le_bytes}
use apfsds_rs.Obfuscation.Padding.{Draws}
use apfsds_rs.Obfuscation.XorMask.{Target}
use apfsds_rs.Protocol.Frame.{ProxyFrame, ControlMessage, doh_query, doh_response, new_control}
use apfsds_rs.Protocol.Packet.{PlainPacket}
use apfsds_rs.Transport.ExitPool.{GroupPool, Reply, ExitClientError}
use apfsds_rs.Transport.WebSocket.{Message, binary, text, ping, pong, close, Incoming}
use apfsds_rs.Client.Wss.{pad_and_mask, unmask_and_unpad}
use apfsds_rs.Daemon.Billing.{Usage, record_usage}
use apfsds_rs.Daemon.ExitForwarder.{forward}
use apfsds_rs.Daemon.ExitNode.{rkyv_from_bytes}

-- `conn_id.to_le_bytes()`, the first message.
unfoldable pub greeting : ℕ → Message
greeting conn_id = binary (to_le_bytes 8 conn_id)

-- What the session has done: the exit nodes, the billing, the frames that were received, the queries
-- sent to the resolver and the packets that exit nodes took.
pub record Served : Type 0 where
  pub pool : List (ℕ × GroupPool)
  pub usage : Usage
  pub frames_received : ℕ
  pub queries : List (List ℕ)
  pub forwarded : List PlainPacket

abbrev taken : Option (ℕ × PlainPacket) → List PlainPacket
taken none = []
taken (some (index, packet)) = packet ∷ []

module _ (k : Rkyv ProxyFrame) (control : Rkyv ControlMessage) (t : Target) where
  abbrev pub queried : Result (List ℕ) ControlMessage → List (List ℕ)
  queried (ok (doh_query query)) = query ∷ []
  queried _ = []

  module _ (replies : ProxyFrame → ℕ → Reply) (node_id user_id session_key : ℕ) where
    abbrev pub after_forward :
        Served
        → ProxyFrame
        → List (ℕ × GroupPool) × Result ExitClientError (Option (ℕ × PlainPacket))
        → Served × Bool
    after_forward s frame (pool, err e) = (record s { pool = pool }, false)
    after_forward s frame (pool, ok sent) = (
      record s {
        pool = pool;
        usage = record_usage s.usage user_id (length frame.payload);
        forwarded = s.forwarded ++ taken sent;
      },
      true,
    )

    -- A frame that was received, and whether the loop goes on. The group is always 0.
    unfoldable pub on_frame : Served → ProxyFrame → Served × Bool
    on_frame s frame =
        if frame.flags.is_control
        then (
          record s { queries = s.queries ++ queried (rkyv_from_bytes control frame.payload) },
          true,
        )
        else after_forward s frame (forward (replies frame) node_id s.pool frame 0)

    -- What a binary message holds: `none` where it is passed over.
    abbrev pub frame_in : Option (List ℕ) → Option ProxyFrame
    frame_in none = none
    frame_in (some inner) = elim (rkyv_from_bytes k inner) [ ok frame ↦ some frame | err e ↦ none ]

    abbrev pub on_inner : Served → Option ProxyFrame → Served × Bool
    on_inner s none = (s, true)
    on_inner s (some frame) = on_frame s frame

    -- The loop over what the client sends and the time at which it is read; `none` is a panic.
    unfoldable pub rx_loop : Served → List (ℕ × Incoming) → Option Served
    unfolding on_frame
    rx_loop s [] = some s
    rx_loop s ((now, ok (binary bytes)) ∷ rest) =
        and_then (unmask_and_unpad t session_key now bytes) λ unpadded.
          let counted : Served = record s { frames_received = s.frames_received + 1 } in
          let next : Served × Bool = on_inner counted (frame_in unpadded) in
          let served : Option Served = rx_loop next.0 rest in if next.1 then served else some next.0
    rx_loop s ((now, ok close) ∷ rest) = some s
    rx_loop s ((now, err e) ∷ rest) = some s
    rx_loop s ((now, ok (text m)) ∷ rest) = rx_loop s rest
    rx_loop s ((now, ok (ping m)) ∷ rest) = rx_loop s rest
    rx_loop s ((now, ok (pong m)) ∷ rest) = rx_loop s rest

  -- The frames from the registry, each with what the padding draws, the time and whether the socket
  -- takes the message: the messages that the socket takes.
  unfoldable pub tx_loop : ℕ → List (ProxyFrame × Draws × ℕ × Bool) → Option (List Message)
  tx_loop session_key [] = some []
  tx_loop session_key ((frame, r, now, takes) ∷ rest) =
      let later : Option (List Message) = tx_loop session_key rest in
      elim (k.to_bytes frame) [
        | err e ↦ later
        | ok bytes ↦ and_then (pad_and_mask t r session_key now bytes) λ wire.
            if takes then and_then later (λ messages. some (binary wire ∷ messages)) else some []
      ]

  -- The frame that the resolver's answer becomes.
  unfoldable pub dns_frame : (List ℕ → ℕ) → List ℕ → ℕ → ℕ → List ℕ → Option ProxyFrame
  unfolding new_control
  dns_frame crc32 uuid now conn_id response = elim (control.to_bytes (doh_response response)) [
    | err e ↦ none
    | ok payload ↦
        let frame : ProxyFrame = new_control crc32 uuid now payload in
        some (record frame { conn_id = conn_id })
  ]
